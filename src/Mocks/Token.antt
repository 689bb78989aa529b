-- ===== src/Mocks/Token.antt =====
-- src/controlplane/mocks.go: which tokens MockAuth accepts.
use sovereign_core.Prelude.{Text, bytes, ◌==◌, cut, All, if◌then◌else◌, ◌≡◌, refl, [], ok, err}
use sovereign_core.Ports.{Claims}
use sovereign_core.Base64.RoundTrip.{IsByte, decode_url-encode_url}
use sovereign_core.Mocks.Auth.{Encoding, mock_auth}

module _ {W : Type 0} (json : Encoding) where
  -- A token that MockAuth issues is verified, at any later time, as the claims that it was issued for,
  -- if JSON gives those claims back as bytes; but if the org is empty it is refused. Neither call
  -- changes anything.
  pub verify_token-issue_token :
      (org_id user_id role : Text)
      → let c : Claims = record { org_id = org_id; user_id = user_id; role = role } in
        All IsByte (json.marshal c)
        → json.unmarshal (json.marshal c) ≡ ok c
        → (t : Text) × ((v : W) → (mock_auth json).issue_token org_id user_id role v ≡ (ok t, v))
          × ((w : W)
              → (mock_auth json).verify_token t w
                ≡ (if org_id == [] then err (bytes "missing org claim") else ok c, w))
  unfolding mock_auth bytes cut ◌==◌
  verify_token-issue_token org_id user_id role h e =
      (_, λ v. refl, λ w. simp (decode_url-encode_url _ h, e) refl)
