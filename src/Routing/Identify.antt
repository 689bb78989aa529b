-- ===== src/Routing/Identify.antt =====
-- src/controlplane/routing.go: resolveEndpointID and parseKV.
pub mod Options
pub mod RoundTrip
use sovereign_core.Prelude.{
  ℕ, Text, bytes, ◌==◌, eqb, strip, trim_suffix, cut, if◌then◌else◌, Bool, not, ◌&&◌, ◌||◌, List,
  [], ◌∷◌, ◌++◌, Option, none, some, Result, ok, err,
}

pub record ConnAttempt : Type 0 where
  pub sni : Text
  pub options : Text
  pub password : Text

abbrev pub is_separator : ℕ → Bool
is_separator c = eqb c b' ' || eqb c b','

-- strings.FieldsFunc: the runs of bytes that are no separators; `cur` is the run so far.
fields_from : Text → Text → List Text
fields_from cur [] = if cur == [] then [] else cur ∷ []
fields_from cur (c ∷ s) =
    let fresh = fields_from [] s in
    let longer = fields_from (cur ++ c ∷ []) s in
    if is_separator c then (if cur == [] then fresh else cur ∷ fresh) else longer

-- The loop of parseKV. strings.SplitN(tok, "=", 2) has two parts if tok has a '='.
first_value : Text → List Text → Text
first_value key [] = []
first_value key (tok ∷ toks) =
    let rest = first_value key toks in
    elim (cut b'=' tok) [ none ↦ rest | some (k, v) ↦ if k == key then v else rest ]

unfoldable pub parse_kv : Text → Text → Text
unfolding fields_from first_value
parse_kv s key = first_value key (fields_from [] s)

-- The first label, without the suffix of the pooled host.
unfoldable pub sni_label : Text → Text
sni_label sni =
    trim_suffix (elim (cut b'.' sni) [ none ↦ sni | some (label, rest) ↦ label ]) (bytes "-pooler")

from_password : Text → Result (Text × Text × Text)
from_password password = elim (strip (bytes "endpoint=") password) [
  | none ↦ err (bytes "no endpoint id (SNI/options/password 모두 없음)")
  | some rest ↦ elim (cut b';' rest) [
    | none ↦ err (bytes "no endpoint id (SNI/options/password 모두 없음)")
    | some (id, real) ↦ ok (id, real, bytes "password")
  ]
]

from_options : ConnAttempt → Result (Text × Text × Text)
unfolding from_password
from_options a =
    let id = parse_kv a.options (bytes "endpoint") in
    if id == [] then from_password a.password else ok (id, a.password, bytes "options")

-- (endpointID, password, method)
unfoldable pub resolve_endpoint_id : ConnAttempt → Result (Text × Text × Text)
unfolding from_options
resolve_endpoint_id a =
    if not (a.sni == []) && not (sni_label a.sni == [])
    then ok (sni_label a.sni, a.password, bytes "sni")
    else from_options a
