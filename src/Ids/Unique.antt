-- ===== src/Ids/Unique.antt =====
-- src/controlplane/mocks.go: which bytes give which id.
use sovereign_core.Prelude.{
  ℕ, zero, suc, Text, bytes, All, ◌==◌, ◌≡◌, sym, ◌∙◌, refl, ◌≢◌, List, [], ◌∷◌, ◌++◌, arith,
}
use sovereign_core.Base64.{encode_url}
use sovereign_core.Base64.RoundTrip.{IsByte, symbol_plain, split, decode_url-encode_url}
use sovereign_core.Ids.{trim_right, new_id}

-- The list is made of whole triples.
data Triples : List ℕ → Type 0 where
  no_triple : Triples []
  triple :
      (a b c : ℕ) (s : List ℕ)
      → IsByte a
      → IsByte b
      → IsByte c
      → Triples s
      → Triples (a ∷ b ∷ c ∷ s)

-- A text without the byte c.
trim_right_kept : (c : ℕ) (s : Text) → All (λ x. x ≢ c) s → trim_right c s ≡ s
unfolding trim_right ◌==◌
trim_right_kept c [] h = refl
trim_right_kept c (x ∷ s) h = let rest = trim_right_kept c s h.1 in rw rest (ground (arith, h.0))

encode_url_unpadded : (s : List ℕ) → Triples s → All (λ x. x ≢ b'=') (encode_url s)
unfolding encode_url
encode_url_unpadded s Triples.no_triple = tt
encode_url_unpadded s (Triples.triple a b c u h1 h2 h3 h) =
    let (l1, l2, l3, l4, e1, e2, e3) = split a b c h1 h2 h3 in
    (
      (symbol_plain _ l1).0,
      (
        (symbol_plain _ l2).0,
        ((symbol_plain _ l3).0, ((symbol_plain _ l4).0, encode_url_unpadded u h)),
      ),
    )

-- The list is n bytes.
abbrev pub Bytes : ℕ → List ℕ → Type 0
Bytes zero [] = Unit
Bytes zero (b ∷ s) = ⊥
Bytes (suc n) [] = ⊥
Bytes (suc n) (b ∷ s) = IsByte b × Bytes n s

three_more :
    (n : ℕ) (s : List ℕ)
    → ((u : List ℕ) → Bytes n u → Triples u)
    → Bytes (suc (suc (suc n))) s
    → Triples s
three_more n [] f h = absurd h
three_more n (a ∷ []) f h = absurd h.1
three_more n (a ∷ b ∷ []) f h = absurd h.1.1
three_more n (a ∷ b ∷ c ∷ u) f h = Triples.triple a b c u h.0 h.1.0 h.1.1.0 (f u h.1.1.1)

no_more : (s : List ℕ) → Bytes 0 s → Triples s
no_more [] h = Triples.no_triple
no_more (a ∷ s) h = absurd h

by_threes : (s : List ℕ) → Bytes 9 s → Triples s
by_threes s h = three_more 6 s (λ u. three_more 3 u λ v. three_more 0 v no_more) h

Bytes-All : (n : ℕ) (s : List ℕ) → Bytes n s → All IsByte s
Bytes-All zero [] h = tt
Bytes-All zero (b ∷ s) h = absurd h
Bytes-All (suc n) [] h = tt
Bytes-All (suc n) (b ∷ s) h = (h.0, Bytes-All n s h.1)

encode_url_injective :
    (s t : List ℕ) → All IsByte s → All IsByte t → encode_url s ≡ encode_url t → s ≡ t
encode_url_injective s t h k e = cc (decode_url-encode_url s h, decode_url-encode_url t k)

append_cancel : (p s t : List ℕ) → p ++ s ≡ p ++ t → s ≡ t
append_cancel [] s t e = e
append_cancel (x ∷ p) s t e = append_cancel p s t cc

-- If the source of bytes gives newID nine of them both times, two ids with one prefix are equal only
-- if the same nine were drawn.
pub new_id_injective :
    {W : Type 0} (random : ℕ → W → List ℕ × W) (prefix : Text) (v w : W)
    → Bytes 9 (random 9 v).0
    → Bytes 9 (random 9 w).0
    → (new_id random prefix v).0 ≡ (new_id random prefix w).0
    → (random 9 v).0 ≡ (random 9 w).0
unfolding new_id
new_id_injective random prefix v w h k e =
    let s = (random 9 v).0 in
    let t = (random 9 w).0 in
    let tails = append_cancel (bytes "_") _ _ (append_cancel prefix _ _ e) in
    encode_url_injective s t (Bytes-All 9 s h) (Bytes-All 9 t k) (
      sym (trim_right_kept b'=' (encode_url s) (encode_url_unpadded s (by_threes s h)))
      ∙ tails
      ∙ trim_right_kept b'=' (encode_url t) (encode_url_unpadded t (by_threes t k)))
