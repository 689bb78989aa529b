-- ===== src/Pipeline/Words/Search.antt =====
-- src/governance/change_pipeline/main.go: hasPrefix, indexOf and contains find what they should.
use sovereign_core.Prelude.{
  ℕ, suc, ◌+◌, ◌≤◌, ◌<◌, Text, ◌==◌, ==_iff, eq_refl, leb, length, length-append, take, Bool-cases,
  ℤ, pos, negsuc, ◌≡◌, refl, ap, ◌∙◌, ◌≢◌, ◌↔◌, inl, inr, true, [], ◌∷◌, ◌++◌, arith,
}
use sovereign_core.Pipeline.Words.{has_prefix, index_from, index_of, contains}

take-append : (p r : Text) → take (length p) (p ++ r) ≡ p
take-append [] r = refl
take-append (c ∷ p) r = ap (◌∷◌ c) (take-append p r)

take_inv : (p s : Text) → take (length p) s ≡ p → (r : Text) × (s ≡ p ++ r)
take_inv [] s e = (s, refl)
take_inv (c ∷ p) [] e = absurd (cc)
take_inv (c ∷ p) (d ∷ s) e = let (r, f) = take_inv p s (ground arith) in (r, ground arith)

-- A text has the prefix exactly when it is the prefix and a rest.
pub has_prefix_iff : (s p : Text) → (has_prefix s p ≡ true) ↔ ((r : Text) × (s ≡ p ++ r))
unfolding has_prefix
has_prefix_iff s p = (
  (λ h. take_inv p s (ground (arith, ==_iff (take (length p) s) p))),
  (λ (r, e).
      ground
        (arith, ==_iff (take (length p) s) p, take-append p r, length-append p r, ap length e)),
)

abbrev Occurs : Text → Text → Text → Text → Type 0
Occurs s sub a b = s ≡ a ++ (sub ++ b)

-- What the loop from position i finds in the rest: the first place of `sub`, or none.
data Searched (i : ℕ) (rest sub : Text) (result : ℤ) : Type 0 where
  found :
      (a b : Text)
      → Occurs rest sub a b
      → ((a' b' : Text) → Occurs rest sub a' b' → length a ≤ length a')
      → result ≡ pos (i + length a)
      → Searched i rest sub result
  missing : ((a b : Text) → ¬ Occurs rest sub a b) → result ≡ negsuc 0 → Searched i rest sub result

Occurs-length : (s sub a b : Text) → Occurs s sub a b → length sub ≤ length s
Occurs-length s sub a b e =
    omega (arith, ap length e, length-append a (sub ++ b), length-append sub b)

here-Searched : (i : ℕ) (s sub : Text) → take (length sub) s ≡ sub → Searched i s sub (pos i)
here-Searched i s sub e =
    let (r, f) = take_inv sub s e in Searched.found [] r f (λ a' b' g. omega arith) (ground arith)

not-here : (s sub a b : Text) → take (length sub) s ≢ sub → Occurs s sub a b → 1 ≤ length a
not-here s sub [] b n e = absurd (n (rw e (take-append sub b)))
not-here s sub (c ∷ a) b n e = omega arith

later-Searched :
    (i : ℕ) (c : ℕ) (s sub : Text) (result : ℤ)
    → take (length sub) (c ∷ s) ≢ sub
    → Searched (suc i) s sub result
    → Searched i (c ∷ s) sub result
later-Searched i c s sub result n (Searched.found a b e least r) =
    Searched.found (c ∷ a) b (ap (◌∷◌ c) e) smallest (r ∙ ap pos (omega arith))
  where
    smallest : (a' b' : Text) → Occurs (c ∷ s) sub a' b' → length (c ∷ a) ≤ length a'
    smallest [] b' e' = absurd (n (rw e' (take-append sub b')))
    smallest (d ∷ a') b' e' = omega (arith, least a' b' (ground arith))
later-Searched i c s sub result n (Searched.missing none_here r) = Searched.missing nowhere r
  where
    nowhere : (a b : Text) → ¬ Occurs (c ∷ s) sub a b
    nowhere [] b' e' = n (rw e' (take-append sub b'))
    nowhere (d ∷ a') b' e' = none_here a' b' (ground arith)

index_from-Searched : (i : ℕ) (s sub : Text) → Searched i s sub (index_from i s sub)
unfolding index_from
index_from-Searched i [] [] = rw (eq_refl []) (here-Searched i [] [] refl)
index_from-Searched i [] (d ∷ sub) =
    Searched.missing (λ a b e. absurd (omega (arith, Occurs-length [] (d ∷ sub) a b e)))
      (ground arith)
index_from-Searched i (c ∷ s) sub = elim (Bool-cases (leb (length sub) (length (c ∷ s)))) [
  | inr short ↦
      rw short (Searched.missing (λ a b e. ground (arith, Occurs-length (c ∷ s) sub a b e)) refl)
  | inl long ↦ rw long (elim (Bool-cases (take (length sub) (c ∷ s) == sub)) [
    | inl here ↦ rw here (here-Searched i (c ∷ s) sub ((==_iff _ sub).0 here))
    | inr later ↦ rw later (
        later-Searched i c s sub _ (λ e. ground (arith, ==_iff (take (length sub) (c ∷ s)) sub))
          (index_from-Searched (suc i) s sub))
  ])
]

length-pos : (sub : Text) → sub ≢ [] → 0 < length sub
length-pos [] n = absurd (n refl)
length-pos (c ∷ sub) n = omega arith

contains-Searched :
    (s sub : Text)
    → Searched 0 s sub (index_of s sub)
    → (contains s sub ≡ true) ↔ ((sub ≢ []) × (a : Text) × (b : Text) × (s ≡ a ++ (sub ++ b)))
unfolding contains
contains-Searched s sub (Searched.found a b e least r) = (
  (λ h. ((λ z. ground (arith, ap length z)), a, b, e)),
  (λ (n, a', b', e'). ground (arith, Occurs-length s sub a b e, length-pos sub n)),
)
contains-Searched s sub (Searched.missing nowhere r) =
    ((λ h. absurd (ground arith)), (λ (n, a', b', e'). absurd (nowhere a' b' e')))

-- contains is true exactly when the text looked for is not empty and occurs.
pub contains_iff :
    (s sub : Text)
    → (contains s sub ≡ true) ↔ ((sub ≢ []) × (a : Text) × (b : Text) × (s ≡ a ++ (sub ++ b)))
unfolding index_of
contains_iff s sub = contains-Searched s sub (index_from-Searched 0 s sub)
