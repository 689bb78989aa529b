-- ===== src/Mocks/Auth.antt =====
-- src/controlplane/mocks.go: MockAuth, which issues and verifies tokens that nobody signs.
use sovereign_core.Prelude.{
  Text, bytes, ◌==◌, cut, if◌then◌else◌, not, [], ◌++◌, none, some, Result, ok, err,
}
use sovereign_core.Ports.{Claims, AuthPort}
use sovereign_core.Base64.{encode_url, decode_url}

-- json.Marshal and json.Unmarshal at the type Claims, and the text of a CorruptInputError.
pub record Encoding : Type 0 where
  pub marshal : Claims → Text
  pub unmarshal : Text → Result Claims
  pub corrupt : Text

-- What follows strings.SplitN(tok, ".", 2): the part behind the first dot.
mock_verify : Encoding → Text → Result Claims
mock_verify json tok = elim (cut b'.' tok) [
  | none ↦ err (bytes "invalid token")
  | some (head, body) ↦
      if not (head == bytes "mock") then err (bytes "invalid token") else elim (decode_url body) [
        | none ↦ err json.corrupt
        | some raw ↦ elim (json.unmarshal raw) [
          | err e ↦ err e
          | ok c ↦ if c.org_id == [] then err (bytes "missing org claim") else ok c
        ]
      ]
]

unfoldable pub mock_auth : {W : Type 0} → Encoding → AuthPort W
unfolding mock_verify
mock_auth json = record {
  issue_token = λ org_id user_id role w. (
    ok (
        bytes "mock."
        ++ encode_url (json.marshal (record { org_id = org_id; user_id = user_id; role = role }))),
    w,
  );
  verify_token = λ tok w. (mock_verify json tok, w);
  jwks = λ w. ((bytes "{\"keys\":[]}", none), w);
}
