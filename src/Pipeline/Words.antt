-- ===== src/Pipeline/Words.antt =====
-- src/governance/change_pipeline/main.go: the functions on strings that the file writes itself.
pub mod Search
use sovereign_core.Prelude.{
  ℕ, zero, suc, ◌+◌, ◌/◌, ◌%◌, Text, bytes, ◌==◌, leb, if◌then◌else◌, length, take, Bool, ◌&&◌,
  List, [], ◌∷◌, ◌++◌, ℤ, pos, negsuc, ltb_ℤ, not, ltb,
}

unfoldable pub has_prefix : Text → Text → Bool
has_prefix s p = leb (length p) (length s) && take (length p) s == p

-- The loop of indexOf: `rest` is s[i:], which is long enough while i + len(sub) ≤ len(s).
index_from : ℕ → Text → Text → ℤ
index_from i [] sub = if leb (length sub) 0 && take (length sub) [] == sub then pos i else negsuc 0
index_from i (c ∷ rest) sub =
    let next = index_from (suc i) rest sub in
    if not (leb (length sub) (length (c ∷ rest)))
    then negsuc 0
    else if take (length sub) (c ∷ rest) == sub
    then pos i
    else next

unfoldable pub index_of : Text → Text → ℤ
unfolding index_from
index_of s sub = index_from 0 s sub

unfoldable pub contains : Text → Text → Bool
contains s sub =
    ltb 0 (length sub) && leb (length sub) (length s) && not (ltb_ℤ (index_of s sub) (pos 0))

-- Each text behind the separator, but the first.
join_from : Text → List Text → Text
join_from out [] = out
join_from out (s ∷ ss) = join_from (out ++ (bytes "; " ++ s)) ss

unfoldable pub join : List Text → Text
unfolding join_from
join [] = []
join (s ∷ ss) = join_from s ss

-- A number of at most that many decimal digits.
digits : ℕ → ℕ → Text
digits zero n = []
digits (suc fuel) n =
    let front = digits fuel (n / 10) in (if ltb n 10 then [] else front) ++ (b'0' + n % 10) ∷ []

-- In decimal; an int has 19 digits at most.
unfoldable pub show_ℕ : ℕ → Text
unfolding digits
show_ℕ n = digits 19 n

-- A []string printed with %v.
show_rest : List Text → Text
show_rest [] = bytes "]"
show_rest (s ∷ ss) = b' ' ∷ (s ++ show_rest ss)

unfoldable pub show_list : List Text → Text
unfolding show_rest
show_list [] = bytes "[]"
show_list (s ∷ ss) = b'[' ∷ (s ++ show_rest ss)
