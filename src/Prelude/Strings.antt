-- ===== src/Prelude/Strings.antt =====
-- A Go string is the list of its bytes; the functions of the package strings that the code calls.
use Prim.Native.Nat.{ℕ, ◌+◌, ◌/◌, ◌%◌}
use Prim.Native.Char.{code}
use Prim.Native.String.{String}
use mathlib.Core.Path.{◌≡◌, refl, ap}
use mathlib.Core.Logic.{◌≢◌, ◌↔◌}
use mathlib.Core.Bool.{Bool, true, false, ◌&&◌}
use mathlib.Core.Option.{Option, none, some}
use mathlib.Core.List.{List, [], ◌∷◌, ◌++◌}
use native.Mathlib.Omega.{arith}
use sovereign_core.Prelude.Lists.{length, length-append, All}
use sovereign_core.Prelude.Tests.{ltb, eqb, if◌then◌else◌}

abbrev pub Text : Type 0
Text = List ℕ

-- The UTF-8 encoding of a code point.
utf8 : ℕ → List ℕ
utf8 c =
    if ltb c 0x80
    then c ∷ []
    else if ltb c 0x800
    then (0xc0 + c / 64) ∷ (0x80 + c % 64) ∷ []
    else if ltb c 0x1_0000
    then (0xe0 + c / 4096) ∷ (0x80 + c / 64 % 64) ∷ (0x80 + c % 64) ∷ []
    else (0xf0 + c / 262144) ∷ (0x80 + c / 4096 % 64) ∷ (0x80 + c / 64 % 64) ∷ (0x80 + c % 64) ∷ []

-- The bytes of a string literal of the source.
unfoldable pub bytes : String → Text
unfolding utf8
bytes String.[] = []
bytes (String.◌∷◌ c s) = utf8 (code c) ++ bytes s

infix 50 ◌==◌
unfoldable pub ◌==◌ : Text → Text → Bool
[] == [] = true
[] == (b ∷ t) = false
(a ∷ s) == [] = false
(a ∷ s) == (b ∷ t) = eqb a b && s == t

pub eq_refl : (s : Text) → (s == s) ≡ true
unfolding ◌==◌
eq_refl [] = refl
eq_refl (a ∷ s) = ground (arith, eq_refl s)

eq_of : (s t : Text) → (s == t) ≡ true → s ≡ t
unfolding ◌==◌
eq_of [] [] h = refl
eq_of [] (b ∷ t) h = cc
eq_of (a ∷ s) [] h = cc
eq_of (a ∷ s) (b ∷ t) h = ground (arith, eq_of s t)

pub ==_iff : (s t : Text) → ((s == t) ≡ true) ↔ (s ≡ t)
==_iff s t = (eq_of s t, λ e. rw e (eq_refl t))

pub eq_sym : (s t : Text) → (s == t) ≡ (t == s)
eq_sym s t = ground (arith, ==_iff s t, ==_iff t s)

-- What follows the prefix, if the text begins with it.
unfoldable pub strip : Text → Text → Option Text
strip [] s = some s
strip (p ∷ ps) [] = none
strip (p ∷ ps) (c ∷ s) = if eqb c p then strip ps s else none

-- strings.HasPrefix
abbrev pub has_prefix : Text → Text → Bool
has_prefix s p = elim (strip p s) [ none ↦ false | some r ↦ true ]

-- strings.TrimPrefix
abbrev pub trim_prefix : Text → Text → Text
trim_prefix s p = elim (strip p s) [ none ↦ s | some r ↦ r ]

-- strings.TrimSuffix
unfoldable pub trim_suffix : Text → Text → Text
trim_suffix [] x = []
trim_suffix (c ∷ s) x = let rest = c ∷ trim_suffix s x in if c ∷ s == x then [] else rest

-- s[:i] and s[i+1:] for i = strings.IndexByte(s, b), if that is not -1.
unfoldable pub cut : ℕ → Text → Option (Text × Text)
cut b [] = none
cut b (c ∷ s) = if eqb c b then some ([], s) else extend c (cut b s)
  where
    extend : ℕ → Option (Text × Text) → Option (Text × Text)
    extend c none = none
    extend c (some (l, r)) = some (c ∷ l, r)

abbrev pub Lacks : ℕ → Text → Type 0
Lacks b = All (λ c. c ≢ b)

pub strip-append : (p s : Text) → strip p (p ++ s) ≡ some s
unfolding strip
strip-append [] s = refl
strip-append (c ∷ p) s = ground (arith, strip-append p s)

pub strip-eq-some : (p s r : Text) → strip p s ≡ some r → s ≡ p ++ r
unfolding strip
strip-eq-some [] s r h = ground arith
strip-eq-some (c ∷ p) [] r h = cc
strip-eq-some (c ∷ p) (d ∷ s) r h = ground (arith, strip-eq-some p s r)

pub cut-append : (b : ℕ) (l r : Text) → Lacks b l → cut b (l ++ b ∷ r) ≡ some (l, r)
unfolding cut
cut-append b [] r h = ground arith
cut-append b (c ∷ l) r h = ground (arith, cut-append b l r h.1)

pub cut-of-Lacks : (b : ℕ) (s : Text) → Lacks b s → cut b s ≡ none
unfolding cut
cut-of-Lacks b [] h = refl
cut-of-Lacks b (c ∷ s) h = ground (arith, cut-of-Lacks b s h.1)

length-append_ne : (x s : Text) (c : ℕ) → c ∷ s ++ x ≢ x
length-append_ne x s c e = omega (arith, ap length e, length-append s x)

pub trim_suffix-append : (s x : Text) → trim_suffix (s ++ x) x ≡ s
unfolding trim_suffix
trim_suffix-append [] [] = refl
trim_suffix-append [] (c ∷ x) = rw (eq_refl (c ∷ x))
trim_suffix-append (c ∷ s) x =
    ground (arith, ==_iff (c ∷ s ++ x) x, length-append_ne x s c, trim_suffix-append s x)
