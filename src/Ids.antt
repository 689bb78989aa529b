-- ===== src/Ids.antt =====
-- src/controlplane/mocks.go: newID, from nine random bytes, with what it uses of strings.
use sovereign_core.Prelude.{
  ℕ, ◌+◌, ◌-◌, ◌*◌, ◌/◌, ◌%◌, ltb, Text, bytes, ◌==◌, eqb, if◌then◌else◌, ◌&&◌, List, [], ◌∷◌, ◌++◌,
}
use sovereign_core.Base64.{encode_url}
pub mod Unique
pub mod Routes
pub mod Tests

-- strings.TrimRight with one byte as the cutset.
unfoldable pub trim_right : ℕ → Text → Text
trim_right c [] = []
trim_right c (x ∷ s) = let rest = trim_right c s in if eqb x c && rest == [] then [] else x ∷ rest

-- `random n` fills n bytes.
unfoldable pub new_id : {W : Type 0} → (ℕ → W → List ℕ × W) → Text → W → Text × W
new_id random prefix w =
    let (b, w') = random 9 w in (prefix ++ (bytes "_" ++ trim_right b'=' (encode_url b)), w')
