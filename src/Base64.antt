-- ===== src/Base64.antt =====
-- encoding/base64 as src/controlplane/mocks.go uses it: URLEncoding, with padding.
use sovereign_core.Prelude.{
  ℕ, ◌+◌, ◌-◌, ◌*◌, ◌/◌, ◌%◌, ltb, leb, eqb, Text, bytes, ◌==◌, if◌then◌else◌, ◌&&◌, ◌||◌, List, [],
  ◌∷◌, Option, none, some,
}
pub mod RoundTrip

-- The alphabet.
unfoldable pub symbol : ℕ → ℕ
symbol n =
    if ltb n 26
    then b'A' + n
    else if ltb n 52
    then b'a' + (n - 26)
    else if ltb n 62
    then b'0' + (n - 52)
    else if ltb n 63
    then b'-'
    else b'_'

-- EncodeToString: four symbols for three bytes, padded.
unfoldable pub encode_url : List ℕ → Text
unfolding symbol
encode_url [] = []
encode_url (a ∷ []) = symbol (a / 4) ∷ symbol (a % 4 * 16) ∷ bytes "=="
encode_url (a ∷ b ∷ []) =
    symbol (a / 4) ∷ symbol (a % 4 * 16 + b / 16) ∷ symbol (b % 16 * 4) ∷ bytes "="
encode_url (a ∷ b ∷ c ∷ rest) =
    symbol (a / 4)
    ∷ symbol (a % 4 * 16 + b / 16)
    ∷ symbol (b % 16 * 4 + c / 64)
    ∷ symbol (c % 64)
    ∷ encode_url rest

-- The number that a symbol stands for.
value : ℕ → Option ℕ
value c =
    if leb b'A' c && leb c b'Z'
    then some (c - b'A')
    else if leb b'a' c && leb c b'z'
    then some (c - b'a' + 26)
    else if leb b'0' c && leb c b'9'
    then some (c - b'0' + 52)
    else if eqb c b'-'
    then some 62
    else if eqb c b'_'
    then some 63
    else none

-- The decoder skips line ends wherever they stand.
without_newlines : Text → Text
without_newlines [] = []
without_newlines (c ∷ s) =
    let rest = without_newlines s in if eqb c 10 || eqb c 13 then rest else c ∷ rest

-- The bytes of four symbols, which stand before `later`.
four : ℕ → ℕ → Option ℕ → Option ℕ → Option (List ℕ) → Option (List ℕ)
four m n (some o) (some p) (some later) =
    some ((m * 4 + n / 16) ∷ (n % 16 * 16 + o / 4) ∷ (o % 4 * 64 + p) ∷ later)
four m n o p later = none

-- The last four are padded with one or two; what their bits leave over is not looked at.
padded : ℕ → ℕ → ℕ → ℕ → Option (List ℕ)
padded m n c d =
    if eqb c b'='
    then if eqb d b'=' then some ((m * 4 + n / 16) ∷ []) else none
    else elim (value c) [
      | none ↦ none
      | some o ↦ some ((m * 4 + n / 16) ∷ (n % 16 * 16 + o / 4) ∷ [])
    ]

quad : Option ℕ → Option ℕ → ℕ → ℕ → Text → Option (List ℕ) → Option (List ℕ)
unfolding four padded
quad (some m) (some n) c d rest later =
    if (eqb c b'=' || eqb d b'=') && rest == []
    then padded m n c d
    else four m n (value c) (value d) later
quad m n c d rest later = none

decode_quads : Text → Option (List ℕ)
unfolding quad
decode_quads [] = some []
decode_quads (a ∷ b ∷ c ∷ d ∷ rest) = quad (value a) (value b) c d rest (decode_quads rest)
decode_quads s = none

-- DecodeString; `none` is a CorruptInputError.
unfoldable pub decode_url : Text → Option (List ℕ)
unfolding without_newlines decode_quads value
decode_url s = decode_quads (without_newlines s)
