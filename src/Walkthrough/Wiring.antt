-- ===== src/Walkthrough/Wiring.antt =====
-- src/controlplane/app.go: the adapters of NewApp. The clock, the random bytes and JSON are the
-- caller's; `show` prints an int.
use sovereign_core.Prelude.{ℕ, ℤ, pos, Text, bytes, Float64, List}
use sovereign_core.Ports.{Clock}
use sovereign_core.Mocks.{mock_storage, mock_kms, mock_secret, mock_payment}
use sovereign_core.Mocks.Auth.{Encoding, mock_auth}
use sovereign_core.App.{Adapters, App, default_policy, new_app}

abbrev pub region : Text
region = bytes "ap-northeast-2"

module _ {W : Type 0} (clock : Clock W) (random : ℕ → W → List ℕ × W) (json : Encoding) where
  unfoldable pub mock_adapters : Adapters W
  mock_adapters = record {
    clock = clock;
    storage = mock_storage random (record { region = region; cold_boot_ms = pos 150 });
    auth = mock_auth json;
    kms = mock_kms random;
    secret = mock_secret random;
    payment = mock_payment random;
    random = random;
    region = region;
  }

  unfoldable pub new_mock_app : (F : Type 0) ⦃float : Float64 F⦄ → (ℤ → Text) → W → App F W
  unfolding mock_adapters
  new_mock_app F show = new_app mock_adapters (default_policy F show)
