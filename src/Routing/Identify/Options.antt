-- ===== src/Routing/Identify/Options.antt =====
-- src/controlplane/routing.go: parseKV reads back the options that it is given.
use mathlib.Core.List.{append-nil, append_assoc}
use sovereign_core.Prelude.{
  ℕ, map, Text, ◌==◌, ==_iff, Lacks, cut-append, All, All-append, if◌then◌else◌, true, false, ◌≡◌,
  refl, sym, ap, ◌∙◌, ◌≢◌, List, [], ◌∷◌, ◌++◌, arith,
}
use sovereign_core.Routing.Identify.{is_separator, fields_from, first_value, parse_kv}

-- An option "k=v" and what stands between it and the next one.
pub record Pair : Type 0 where
  pub key : Text
  pub value : Text
  pub gap : Text

abbrev Plain : Text → Type 0
Plain = All (λ c. is_separator c ≡ false)

-- A key has no '=' and no separator, a value no separator; a gap is one separator or more.
pub record IsPair (p : Pair) : Type 0 where
  pub key_plain : Plain p.key
  pub key_lacks : Lacks b'=' p.key
  pub value_plain : Plain p.value
  pub apart : p.gap ≢ []
  pub gap_separates : All (λ c. is_separator c ≡ true) p.gap

abbrev pub token : Pair → Text
token p = p.key ++ (b'=' ∷ p.value)

abbrev pub print : List Pair → Text
print [] = []
print (p ∷ []) = token p
print (p ∷ q ∷ ps) = token p ++ (p.gap ++ print (q ∷ ps))

-- The value of the first pair with the key, "" if there is none.
abbrev pub value_of : Text → List Pair → Text
value_of key [] = []
value_of key (p ∷ ps) = let rest = value_of key ps in if p.key == key then p.value else rest

fields_from-Plain : (cur w s : Text) → Plain w → fields_from cur (w ++ s) ≡ fields_from (cur ++ w) s
unfolding fields_from
fields_from-Plain cur [] s h = rw append-nil
fields_from-Plain cur (c ∷ w) s h =
    rw h.0 (fields_from-Plain (cur ++ c ∷ []) w s h.1 ∙ rw append_assoc refl)

fields-token :
    (cur : Text) (c : ℕ) (s : Text)
    → cur ≢ []
    → is_separator c ≡ true
    → fields_from cur (c ∷ s) ≡ cur ∷ fields_from [] s
unfolding fields_from
fields-token cur c s n h = ground (arith, ==_iff cur [])

fields-gap :
    (gap s : Text)
    → All (λ c. is_separator c ≡ true) gap
    → fields_from [] (gap ++ s) ≡ fields_from [] s
unfolding fields_from ◌==◌
fields-gap [] s h = refl
fields-gap (c ∷ gap) s h = rw h.0 (fields-gap gap s h.1)

token-gap :
    (cur gap s : Text)
    → cur ≢ []
    → gap ≢ []
    → All (λ c. is_separator c ≡ true) gap
    → fields_from cur (gap ++ s) ≡ cur ∷ fields_from [] s
token-gap cur [] s n apart h = absurd (apart refl)
token-gap cur (c ∷ gap) s n apart h =
    fields-token cur c (gap ++ s) n h.0 ∙ ap (λ ts. cur ∷ ts) (fields-gap gap s h.1)

fields-end : (cur : Text) → cur ≢ [] → fields_from cur [] ≡ cur ∷ []
unfolding fields_from
fields-end cur n = ground (arith, ==_iff cur [])

append-cons_ne : (a : Text) (c : ℕ) (b : Text) → a ++ c ∷ b ≢ []
append-cons_ne [] c b e = cc
append-cons_ne (d ∷ a) c b e = cc

token-Plain : (p : Pair) → IsPair p → Plain (token p)
token-Plain p h =
    All-append (λ c. is_separator c ≡ false) p.key (b'=' ∷ p.value) h.key_plain
      (refl, h.value_plain)

fields-last : (w : Text) → w ≢ [] → Plain w → fields_from [] w ≡ w ∷ []
fields-last w n h =
    ap (fields_from []) (sym (append-nil w)) ∙ fields_from-Plain [] w [] h ∙ fields-end w n

fields-print :
    (ps : List Pair) → All IsPair ps → fields_from [] (print ps) ≡ map (λ (p : Pair). token p) ps
unfolding fields_from ◌==◌
fields-print [] h = refl
fields-print (p ∷ []) h =
    fields-last (token p) (append-cons_ne p.key b'=' p.value) (token-Plain p h.0)
fields-print (p ∷ q ∷ ps) h =
    fields_from-Plain [] (token p) (p.gap ++ print (q ∷ ps)) (token-Plain p h.0)
    ∙ token-gap (token p) p.gap (print (q ∷ ps)) (append-cons_ne p.key b'=' p.value) h.0.apart
        h.0.gap_separates
    ∙ ap (λ ts. token p ∷ ts) (fields-print (q ∷ ps) h.1)

first_value-token :
    (key : Text) (p : Pair) (toks : List Text) (rest : Text)
    → IsPair p
    → first_value key toks ≡ rest
    → first_value key (token p ∷ toks) ≡ (if p.key == key then p.value else rest)
unfolding first_value
first_value-token key p toks rest h e = ground (arith, cut-append b'=' p.key p.value h.key_lacks)

first_value-tokens :
    (key : Text) (ps : List Pair)
    → All IsPair ps
    → first_value key (map (λ (p : Pair). token p) ps) ≡ value_of key ps
unfolding first_value
first_value-tokens key [] h = refl
first_value-tokens key (p ∷ ps) h = first_value-token key p _ _ h.0 (first_value-tokens key ps h.1)

-- parseKV of printed options is the value of the first pair with the key, and "" if no pair has
-- it, for any pairs whose keys have no '=' and whose keys and values have neither space nor comma,
-- printed as "k=v" with spaces and commas, one at least, between each two of them and nothing behind
-- the last.
pub parse_kv-print :
    (key : Text) (ps : List Pair) → All IsPair ps → parse_kv (print ps) key ≡ value_of key ps
unfolding parse_kv
parse_kv-print key ps h = rw (fields-print ps h) (first_value-tokens key ps h)

-- The same for one pair by itself.
pub parse_kv-single :
    (key value : Text)
    → Plain key
    → Lacks b'=' key
    → Plain value
    → parse_kv (key ++ b'=' ∷ value) key ≡ value
unfolding parse_kv first_value
parse_kv-single key value k l v =
    rw
      (fields-last (key ++ b'=' ∷ value) (append-cons_ne key b'=' value)
        (All-append (λ c. is_separator c ≡ false) key (b'=' ∷ value) k (refl, v)))
      (ground (arith, cut-append b'=' key value l, ==_iff key key))
