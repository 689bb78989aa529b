-- ===== src/Ids/Routes.antt =====
-- src/controlplane/mocks.go and routing.go: an id of newID names an endpoint in every way that
-- resolveEndpointID knows.
use sovereign_core.Prelude.{
  ℕ, ◌<◌, eqb, Text, bytes, ◌==◌, trim_suffix, All, All-append, All-mono, Bool-cases, inl, inr,
  ◌&&◌, false, ◌≡◌, ◌≢◌, List, [], ◌∷◌, ◌++◌, arith,
}
use sovereign_core.Base64.{symbol}
use sovereign_core.Base64.RoundTrip.{IsByte, encode_url-All}
use sovereign_core.Routing.Identify.{is_separator}
use sovereign_core.Routing.Identify.RoundTrip.{IsRoutable}
use sovereign_core.Ids.{trim_right, new_id}

trim_right-All : (P : ℕ → Type 0) (c : ℕ) (s : Text) → All P s → All P (trim_right c s)
unfolding trim_right
trim_right-All P c [] h = tt
trim_right-All P c (x ∷ s) h =
    let rest = trim_right-All P c s h.1 in
    elim (Bool-cases (eqb x c && trim_right c s == [])) [
      | inl cut ↦ rw cut tt
      | inr kept ↦ rw kept (h.0, rest)
    ]

-- The bytes that end no label, no option and no password prefix.
abbrev Passes : ℕ → Type 0
Passes c = (c ≢ b'.') × (c ≢ b';') × (c ≢ b' ') × (c ≢ b',')

symbol-Passes : (n : ℕ) → n < 64 → Passes (symbol n)
unfolding symbol
symbol-Passes n h = ground arith

ep-Passes : All Passes (bytes "ep")
unfolding bytes
ep-Passes = ground arith

underscore-Passes : All Passes (bytes "_")
unfolding bytes
underscore-Passes = ground arith

ep_named : (rest : Text) → bytes "ep" ++ rest ≢ []
unfolding bytes
ep_named rest e = cc

plain_of : (c : ℕ) → Passes c → is_separator c ≡ false
plain_of c h = ground arith

-- The id of a new endpoint is routable, but for one that ends in "-pooler".
pub new_id-IsRoutable :
    {W : Type 0} (random : ℕ → W → List ℕ × W) (w : W)
    → All IsByte (random 9 w).0
    → let id = (new_id random (bytes "ep") w).0 in
      trim_suffix id (bytes "-pooler") ≡ id → IsRoutable id
unfolding new_id
new_id-IsRoutable random w h unpooled =
    let id = (new_id random (bytes "ep") w).0 in
    let passes : All Passes id = All-append Passes (bytes "ep") _ ep-Passes (
      All-append Passes (bytes "_") _ underscore-Passes (
        trim_right-All Passes b'=' _
          (encode_url-All Passes symbol-Passes (ground arith) (random 9 w).0 h))) in
    record {
      named = ep_named _;
      no_dot = All-mono id (λ c k. k.0) passes;
      no_semicolon = All-mono id (λ c k. k.1) passes;
      plain = All-mono id plain_of passes;
      not_pooled = unpooled;
    }
