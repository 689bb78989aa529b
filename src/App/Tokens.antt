-- ===== src/App/Tokens.antt =====
-- src/controlplane/app.go and mocks.go: the token of a signup.
use sovereign_core.Prelude.{ℕ, Text, bytes, ◌==◌, All, ◌≡◌, false, refl, ◌∙◌, List, [], ok}
use sovereign_core.Model.{Org}
use sovereign_core.Ports.{Claims}
use sovereign_core.Base64.RoundTrip.{IsByte}
use sovereign_core.Mocks.Auth.{Encoding, mock_auth}
use sovereign_core.Mocks.Token.{verify_token-issue_token}
use sovereign_core.Ids.{new_id}
use sovereign_core.Tasks.{run_task}
use sovereign_core.App.{Adapters, App, signup}
use sovereign_core.App.Onboarding.{kek, org_id, billing}

org_named :
    {W : Type 0} (random : ℕ → W → List ℕ × W) (w : W)
    → ((new_id random (bytes "org") w).0 == []) ≡ false
unfolding new_id bytes ◌==◌
org_named random w = refl

module _ {W : Type 0} (p : Adapters W) (json : Encoding) where
  abbrev pub with_mock_auth : Adapters W
  with_mock_auth = record p { auth = mock_auth json }

module _ {F W : Type 0} (p : Adapters W) where
  abbrev pub owner_claims : Text → App F W → Claims
  owner_claims owner a = record { org_id = (org_id p a).0; user_id = owner; role = bytes "owner" }

module _ (F W : Type 0) (p : Adapters W) (json : Encoding) (name owner : Text) where
  -- With MockAuth, a signup that the key service and the payment service serve succeeds, and its token
  -- is verified at any later time as the owner of the new org, if JSON gives the claims back as bytes.
  pub signup_token_verifies :
      (a : App F W) (key customer : Text)
      → (kek p a).0 ≡ ok key
      → (billing p a).0 ≡ ok customer
      → All IsByte (json.marshal (owner_claims p owner a))
      → json.unmarshal (json.marshal (owner_claims p owner a)) ≡ ok (owner_claims p owner a)
      → (o : Org) × (t : Text) × ((run_task (signup (with_mock_auth p json) name owner) a).0
          ≡ ok (o, t))
        × (o.id ≡ (org_id p a).0)
        × ((w : W)
            → (with_mock_auth p json).auth.verify_token t w
              ≡ (ok (record { org_id = o.id; user_id = owner; role = bytes "owner" }), w))
  unfolding signup run_task
  signup_token_verifies a key customer made paid h e =
      let (t, issued, verified) =
        verify_token-issue_token json (org_id p a).0 owner (bytes "owner") h e in
      let o : Org = record {
        id = (org_id p a).0;
        name = name;
        region = p.region;
        kms_key_id = key;
        billing_id = customer;
        plan = bytes "free";
        created_at = (p.clock.now (org_id p a).1).0;
      } in
      (
        o,
        t,
        rw (made, paid, run_task) (rw issued refl),
        refl,
        λ w. verified w ∙ rw (org_named p.random (kek p a).1) refl,
      )
