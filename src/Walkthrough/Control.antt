-- ===== src/Walkthrough/Control.antt =====
-- src/controlplane/main.go: a program that may panic, or exit by `must`, on a state S.
use sovereign_core.Prelude.{
  ℤ, Text, bytes, lookup, if◌then◌else◌, Bool, [], ap, ◌≡◌, Option, none, some, Result, ok, err,
}
use sovereign_core.Model.{Operation, Value, text, int, bool}

-- How a part of the program ends; `hangs` is a wait that ran out of fuel.
pub data Ends (A : Type 0) : Type 0 where
  goes_on : A → Ends A
  panics : Text → Ends A
  exits : Text → Ends A
  hangs : Ends A

abbrev pub Program : Type 0 → Type 0 → Type 0
Program S A = S → Ends A × S

unfoldable pub after : {S A B : Type 0} → (A → Program S B) → Ends A × S → Ends B × S
after f (goes_on x, s) = f x s
after f (panics e, s) = (panics e, s)
after f (exits e, s) = (exits e, s)
after f (hangs, s) = (hangs, s)

infixl 5 ◌>>=◌ ◌>>◌
unfoldable pub ◌>>=◌ : {S A B : Type 0} → Program S A → (A → Program S B) → Program S B
unfolding after
◌>>=◌ m f s = after f (m s)

unfoldable pub ◌>>◌ : {S A B : Type 0} → Program S A → Program S B → Program S B
unfolding ◌>>=◌
m >> k = m >>= λ _. k

abbrev pub answers : {S A : Type 0} → Ends A → Program S A
answers e s = (e, s)

-- if !fine { panic(e) }
unfoldable pub expect : {S : Type 0} → Bool → Text → Program S (Unit {0})
expect fine e = answers (if fine then goes_on tt else panics e)

unfoldable pub must : {A : Type 0} → Result A → Ends A
must (ok x) = goes_on x
must (err e) = exits e

unfoldable pub must_none : Option Text → Ends (Unit {0})
must_none none = goes_on tt
must_none (some e) = exits e

abbrev pub conversion : Text
conversion = bytes "interface conversion"

-- done.Result.(map[string]string)[key]
unfoldable pub text_field : Operation → Text → Ends Text
text_field q key = elim (q.result) [
  | none ↦ panics conversion
  | some fields ↦ elim (lookup key fields) [
    | some (text t) ↦ goes_on t
    | some (int n) ↦ panics conversion
    | some (bool b) ↦ panics conversion
    | none ↦ goes_on []
  ]
]

-- v.(string), v.(int64) and v.(bool) for an entry v of a map[string]any
unfoldable pub as_text : Option Value → Ends Text
as_text (some (text t)) = goes_on t
as_text v = panics conversion

unfoldable pub as_int : Option Value → Ends ℤ
as_int (some (int n)) = goes_on n
as_int v = panics conversion

unfoldable pub as_bool : Option Value → Ends Bool
as_bool (some (bool b)) = goes_on b
as_bool v = panics conversion

-- done.Result.(map[string]any)[key] with an assertion on its type
unfoldable pub field_as : {A : Type 0} → (Option Value → Ends A) → Operation → Text → Ends A
field_as assert q key = elim (q.result) [
  | none ↦ panics conversion
  | some fields ↦ assert (lookup key fields)
]

pub >>=-goes_on :
    {S A B : Type 0} (m : Program S A) (f : A → Program S B) (s : S) (x : A) (t : S)
    → m s ≡ (goes_on x, t)
    → (m >>= f) s ≡ f x t
unfolding ◌>>=◌
>>=-goes_on m f s x t e = ap (after f) e
