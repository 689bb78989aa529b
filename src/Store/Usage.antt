-- ===== src/Store/Usage.antt =====
-- src/controlplane/store.go: usageRollup, against the sum of the org's events of each kind.
use mathlib.Core.List.{foldl}
use sovereign_core.Prelude.{
  pos, Text, ◌==◌, ==_iff, Dict, lookup, lookup-insert, Float64, if◌then◌else◌, Bool-cases, ◌≡◌,
  refl, ◌∙◌, ◌&&◌, inl, inr, List, [], ◌∷◌, Option, none, some,
}
use sovereign_core.Model.{MeteringEvent}
use sovereign_core.Store.{Store, zero_value, rollup, usage_rollup}

module _ {F : Type 0} ⦃float : Float64 F⦄ where
  -- The values of the events of one org and kind, in the order of the log.
  abbrev pub values : Text → Text → List (MeteringEvent F) → List F
  values o kind [] = []
  values o kind (e ∷ es) =
      let rest = values o kind es in
      if e.org_id == o && e.kind == kind then e.value ∷ rest else rest

  -- The sum of the values from zero; no entry if there is no event.
  abbrev pub total : List F → Option F
  total [] = none
  total (v ∷ vs) = some (foldl float.add (float.decimal (pos 0) 0) (v ∷ vs))

  extend : Option F → List F → Option F
  extend o [] = o
  extend o (v ∷ vs) = extend (some (float.add (zero_value o) v)) vs

  extend-some : (x : F) (vs : List F) → extend (some x) vs ≡ some (foldl float.add x vs)
  unfolding extend
  extend-some x [] = refl
  extend-some x (v ∷ vs) = extend-some (float.add x v) vs

  extend-none : (vs : List F) → extend none vs ≡ total vs
  unfolding extend
  extend-none [] = refl
  extend-none (v ∷ vs) = extend-some (float.add (float.decimal (pos 0) 0) v) vs

  lookup-rollup :
      (o kind : Text) (es : List (MeteringEvent F)) (out : Dict F)
      → lookup kind (rollup o out es) ≡ extend (lookup kind out) (values o kind es)
  unfolding rollup extend
  lookup-rollup o kind [] out = refl
  lookup-rollup o kind (e ∷ es) out = elim (Bool-cases (e.org_id == o)) [
    | inr other ↦ rw other (lookup-rollup o kind es out)
    | inl own ↦ rw own (elim (Bool-cases (e.kind == kind)) [
      | inl same ↦
          rw same
            (lookup-rollup o kind es _ ∙ rw (lookup-insert, same, (==_iff e.kind kind).0 same) refl)
      | inr differs ↦ rw differs (lookup-rollup o kind es _ ∙ rw (lookup-insert, differs) refl)
    ])
  ]

  -- For every org and kind of usage, the rollup holds the sum of the values of the org's events of
  -- that kind, in the order of the log, and no entry if there is none.
  pub usage_rollup-total :
      (s : Store F) (o kind : Text)
      → lookup kind (usage_rollup s o) ≡ total (values o kind s.metering)
  unfolding usage_rollup lookup
  usage_rollup-total s o kind =
      lookup-rollup o kind s.metering [] ∙ extend-none (values o kind s.metering)
