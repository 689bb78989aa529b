-- ===== src/Mocks/Samples.antt =====
-- A sample of the encoding that MockAuth uses.
use sovereign_core.Prelude.{ℕ, zero, suc, Text, bytes, cut, [], ◌++◌, none, some, ok}
use sovereign_core.Mocks.Auth.{Encoding}

-- JSON for claims whose texts need no escape, as json.Marshal writes it.
abbrev after : ℕ → Text → Text
after zero s = s
after (suc n) s = elim (cut b'"' s) [ none ↦ [] | some (l, r) ↦ after n r ]

abbrev quoted : Text → Text
quoted s = elim (cut b'"' s) [ none ↦ s | some (l, r) ↦ l ]

abbrev pub json : Encoding
json = record {
  marshal = λ c.
      bytes "{\"OrgID\":\""
      ++ (c.org_id
          ++ (bytes "\",\"UserID\":\""
              ++ (c.user_id ++ (bytes "\",\"Role\":\"" ++ (c.role ++ bytes "\"}")))));
  unmarshal = λ s. ok (record {
    org_id = quoted (after 3 s);
    user_id = quoted (after 7 s);
    role = quoted (after 11 s);
  });
  corrupt = bytes "illegal base64 data";
}
