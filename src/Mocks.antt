-- ===== src/Mocks.antt =====
-- src/controlplane/mocks.go: the adapters that always succeed; MockAuth is left out. `random n`
-- fills n bytes.
use sovereign_core.Prelude.{ℕ, ℤ, Text, bytes, List, ◌++◌, none, ok}
use sovereign_core.Ports.{Booted, StoragePort, KmsPort, SecretPort, PaymentPort}
use sovereign_core.Base64.{encode_url}
use sovereign_core.Ids.{new_id}
pub mod Samples
pub mod Auth
pub mod Token
mod Tests

-- The fields of MockStorage. BootInstance uses the region it is called with, not this one.
pub record MockStorage : Type 0 where
  pub region : Text
  pub cold_boot_ms : ℤ

module _ {W : Type 0} (random : ℕ → W → List ℕ × W) where
  unfoldable pub mock_storage : MockStorage → StoragePort W
  mock_storage m = record {
    create_branch =
        λ org_id project_id parent w. let (id, w') = new_id random (bytes "br") w in (ok id, w');
    delete_branch = λ org_id branch w. (none, w);
    boot_instance = λ region w.
        let (id, w') = new_id random (bytes "inst") w in
        (
          record {
            instance_id = id;
            host = id ++ (bytes "." ++ (region ++ bytes ".compute.internal"));
            boot_ms = m.cold_boot_ms;
            err = none;
          },
          w',
        );
    attach_branch = λ instance branch w. (none, w);
    suspend_endpoint = λ org_id endpoint w. (none, w);
    delete_endpoint = λ org_id endpoint w. (none, w);
  }

  unfoldable pub mock_kms : KmsPort W
  mock_kms = record {
    provision_tenant_kek = λ org_id w. let (id, w') = new_id random (bytes "kek") w in (ok id, w');
  }

  unfoldable pub mock_secret : SecretPort W
  mock_secret = record {
    issue_db_credential = λ org_id endpoint_id w.
        let (pw, w') = random 12 w in (ok (bytes "u_" ++ endpoint_id, encode_url pw), w');
  }

  unfoldable pub mock_payment : PaymentPort W
  mock_payment = record {
    create_customer = λ org_id w. let (id, w') = new_id random (bytes "cus") w in (ok id, w');
  }
