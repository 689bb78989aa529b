-- ===== src/Mocks/Tests.antt =====
-- The mock adapters of the control plane, with bytes that all have one value.
use sovereign_core.Prelude.{
  cut, err, All, arith, ℕ, zero, suc, ◌==◌, pos, bytes, List, [], ◌∷◌, ok, ◌≡◌, refl,
}
use sovereign_core.Base64.{encode_url, decode_url}
use sovereign_core.Ids.{new_id, trim_right}
use sovereign_core.Base64.RoundTrip.{IsByte}
use sovereign_core.Ports.{Claims}
use sovereign_core.Mocks.Auth.{mock_auth}
use sovereign_core.Mocks.Samples.{json}
use sovereign_core.Mocks.{mock_storage, mock_secret}

abbrev copies : ℕ → ℕ → List ℕ
copies zero x = []
copies (suc n) x = x ∷ copies n x

abbrev random : ℕ → ℕ → List ℕ × ℕ
random n w = (copies n w, suc w)

boots_in_region :
    ((mock_storage random (record { region = bytes "kr"; cold_boot_ms = pos 90 })).boot_instance
      (bytes "us")
      255).0.host
    ≡ bytes "inst_____________.us.compute.internal"
unfolding mock_storage new_id encode_url trim_right bytes ◌==◌
boots_in_region = refl

credential_named :
    ((mock_secret random).issue_db_credential (bytes "acme") (bytes "ep_1") 0).0
    ≡ ok (bytes "u_ep_1", bytes "AAAAAAAAAAAAAAAA")
unfolding mock_secret encode_url bytes
credential_named = refl

abbrev alice : Claims
alice = record { org_id = bytes "org_1"; user_id = bytes "alice"; role = bytes "owner" }

alice-All : All IsByte (json.marshal alice)
unfolding bytes
alice-All = omega arith

alice_restored : json.unmarshal (json.marshal alice) ≡ ok alice
unfolding bytes cut
alice_restored = refl

-- The name of another issuer, and a letter that base64 has not.
refused :
    (((mock_auth {W = ℕ} json).verify_token (bytes "real.e30=") 0).0 ≡ err (bytes "invalid token"))
    × (((mock_auth {W = ℕ} json).verify_token (bytes "mock.e3*=") 0).0 ≡ err json.corrupt)
unfolding mock_auth bytes cut decode_url ◌==◌
refused = (refl, refl)
