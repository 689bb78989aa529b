-- ===== src/App/Tenants/Tests.antt =====
-- An org with an endpoint, while goroutines of another org run.
use sovereign_core.Prelude.{
  ==_iff, false, true, ◌≢◌, Bool-cases, inl, inr, [], ◌∷◌, Text, ℕ, pos, bytes, ◌==◌, lookup,
  insert, All, ◌≡◌, refl, none,
}
use sovereign_core.Prelude.FixedPoint.{Fixed, fin, fixed_point}
use sovereign_core.Store.{
  Store, endpoint, new_store, put, run, step, get_branch, get_project, get_endpoint, op_snapshot,
}
use sovereign_core.Store
use sovereign_core.Store.Tenancy.{SameView}
use sovereign_core.Base64.{encode_url}
use sovereign_core.Ids.{trim_right, new_id}
use sovereign_core.Tasks.{interleave}
use sovereign_core.App.{App}
use sovereign_core.App.Samples.{ports, acme, gate_endpoint, plane, jobs, turns}
use sovereign_core.App.Tenants.{NewToOrg, OtherBody, IsOthers, others-SameView}

-- Another org, with an endpoint beside acme's.
abbrev beta : Text
beta = bytes "beta"

abbrev two_orgs : App Fixed ℕ
two_orgs = record plane {
  core = record (plane.core) {
    store =
        put (plane.core.store) (endpoint (record gate_endpoint { id = bytes "g1"; org_id = beta }));
  };
}

unknown_branch : (br : Text) → get_branch two_orgs.core.store beta br ≡ none
unfolding run new_store Store.step put insert bytes ◌==◌ lookup get_branch
unknown_branch br = refl

beta-NewToOrg : NewToOrg ports beta two_orgs.core.store
unfolding run new_store Store.step put insert bytes ◌==◌ lookup get_branch get_project get_endpoint
    new_id
beta-NewToOrg = record {
  branch_new = λ o project parent br w e. unknown_branch br;
  project_new = λ w. refl;
  endpoint_new = λ w. elim (Bool-cases (bytes "gate" == trim_right b'=' (encode_url (w ∷ [])))) [
    | inl same ↦ rw same refl
    | inr other ↦ rw other refl
  ];
}

two : acme ≢ beta
unfolding bytes ◌==◌
two e = let unequal : false ≡ true = (==_iff acme beta).1 e in cc

jobs-IsOthers : All (IsOthers ports beta two_orgs.core.store) jobs
unfolding run new_store Store.step put insert bytes ◌==◌ lookup op_snapshot
jobs-IsOthers = (
  (OtherBody.other_branch acme (bytes "proj_1") [] two, refl),
  ((OtherBody.other_endpoint acme (bytes "br_1") (fin (pos 250)) (fin (pos 2000)) two, refl), tt),
)

others-SameView_example :
    SameView beta two_orgs.core.store (interleave turns jobs two_orgs).1.core.store
others-SameView_example =
    others-SameView Fixed ℕ ports beta turns jobs two_orgs beta-NewToOrg jobs-IsOthers
