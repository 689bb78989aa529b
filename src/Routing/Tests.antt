-- ===== src/Routing/Tests.antt =====
-- A registry with one suspended and one active endpoint, and connections to them.
use sovereign_core.Prelude.{
  Text, bytes, ◌==◌, ◌≡◌, refl, ◌≢◌, ◌⊎◌, lookup, insert, All, if◌then◌else◌, List, [], ◌∷◌, ◌++◌,
  none, some, ok, pos, arith, trim_suffix,
}
use mathlib.Core.Option
use sovereign_core.Routing.Registry.{
  RoutingRegistry, Resolved, new_registry, register, set_state, deregister, write_awake, resolve,
  Call, registers, deregisters,
}
use sovereign_core.Routing.Registry.View.{
  view, IsSound, awake, with_state, new_registry-IsSound, register-IsSound, registry_refines_map,
}
use sovereign_core.Routing.Registry.Resolve.{Outcome, resolve_cases}
use sovereign_core.Routing.Registry.Race
use sovereign_core.Routing.Registry.Race.{resolve_race}
use sovereign_core.Routing.Identify.{resolve_endpoint_id, parse_kv}
use sovereign_core.Routing.Identify.Options.{Pair, IsPair, print, value_of, parse_kv-print}
use sovereign_core.Routing.Identify.RoundTrip.{IsRoutable, host, three_ways_agree}

abbrev gate : Text
gate = bytes "ep_gate"

abbrev busy : Text
busy = bytes "ep_busy"

abbrev asleep : RoutingRegistry
asleep = register new_registry gate [] (bytes "suspended")

abbrev both : RoutingRegistry
both = register asleep busy (bytes "vm-2") (bytes "active")

both-IsSound : IsSound both
both-IsSound =
    register-IsSound asleep busy _ _ (register-IsSound new_registry gate _ _ new_registry-IsSound)

gate_pointer : lookup gate both.tbl ≡ some 0
unfolding register new_registry insert lookup bytes ◌==◌
gate_pointer = refl

-- The hook wakes any endpoint at vm-9; it has no state.
abbrev wake : Text → Unit {0} → Resolved × Unit {0}
wake id s = (record { addr = bytes "vm-9"; boot_ms = pos 120; err = none }, s)

registry_refines_map_example :
    (IsSound (register both gate (bytes "vm-3") (bytes "active"))
      × (view (register both gate (bytes "vm-3") (bytes "active")) busy ≡ (
          if gate == busy
          then some (record { addr = bytes "vm-3"; state = bytes "active" })
          else view both busy)))
    × (IsSound (set_state both gate (bytes "active"))
        × (view (set_state both gate (bytes "active")) busy ≡ (
            if gate == busy
            then Option.map (with_state (bytes "active")) (view both busy)
            else view both busy)))
    × (IsSound (deregister both gate)
        × (view (deregister both gate) busy ≡ (if gate == busy then none else view both busy)))
    × (IsSound new_registry × (view new_registry busy ≡ none))
registry_refines_map_example =
    registry_refines_map both gate (bytes "vm-3") (bytes "active") busy both-IsSound

resolve_cases_example :
    Outcome wake both gate tt (resolve wake both gate tt) × IsSound (resolve wake both gate tt).1
resolve_cases_example = resolve_cases wake both gate tt both-IsSound

wake_fine : (resolve wake both gate tt).0.err ≡ none
unfolding resolve register new_registry insert lookup bytes ◌==◌
wake_fine = refl

-- While one Resolve wakes the endpoint, it is deregistered and registered anew.
abbrev meanwhile : List Call
meanwhile = deregisters gate ∷ registers gate (bytes "vm-7") (bytes "active") ∷ []

resolve_race_example :
    let now = Race.run both meanwhile in
    let after = write_awake now 0 (bytes "vm-9") in
    ((lookup gate now.tbl ≡ some 0)
      × ((j : Text)
          → view after j ≡ (if gate == j then some (awake (bytes "vm-9")) else view now j)))
    ⊎ ((lookup gate now.tbl ≢ some 0) × ((j : Text) → view after j ≡ view now j))
resolve_race_example = resolve_race both gate 0 (bytes "vm-9") meanwhile both-IsSound gate_pointer

gate-IsRoutable : IsRoutable gate
unfolding bytes ◌==◌ trim_suffix
gate-IsRoutable = record {
  named = ground arith;
  no_dot = omega arith;
  no_semicolon = omega arith;
  plain = (refl, (refl, (refl, (refl, (refl, (refl, (refl, tt)))))));
  not_pooled = refl;
}

three_ways_agree_example :
    (resolve_endpoint_id
        (record { sni = host gate [] (bytes "kr.db"); options = []; password = bytes "pw" })
      ≡ ok (gate, bytes "pw", bytes "sni"))
    × (resolve_endpoint_id (record {
      sni = host gate (bytes "-pooler") (bytes "kr.db");
      options = [];
      password = bytes "pw";
    })
        ≡ ok (gate, bytes "pw", bytes "sni"))
    × (resolve_endpoint_id
          (record { sni = []; options = bytes "endpoint=" ++ gate; password = bytes "pw" })
        ≡ ok (gate, bytes "pw", bytes "options"))
    × (resolve_endpoint_id (record {
      sni = [];
      options = [];
      password = bytes "endpoint=" ++ (gate ++ b';' ∷ bytes "pw");
    })
        ≡ ok (gate, bytes "pw", bytes "password"))
three_ways_agree_example = three_ways_agree gate (bytes "kr.db") [] (bytes "pw") gate-IsRoutable

-- a=b endpoint=c
abbrev pairs : List Pair
pairs =
    record { key = bytes "a"; value = bytes "b"; gap = bytes ", " }
    ∷ record { key = bytes "endpoint"; value = bytes "c"; gap = bytes "," }
    ∷ []

pairs-IsPair : All IsPair pairs
unfolding bytes
pairs-IsPair = (
  record {
    key_plain = (refl, tt);
    key_lacks = omega arith;
    value_plain = (refl, tt);
    apart = λ e. cc;
    gap_separates = (refl, (refl, tt));
  },
  (
    record {
      key_plain = (refl, (refl, (refl, (refl, (refl, (refl, (refl, (refl, tt))))))));
      key_lacks = omega arith;
      value_plain = (refl, tt);
      apart = λ e. cc;
      gap_separates = (refl, tt);
    },
    tt,
  ),
)

parse_kv-print_example :
    parse_kv (print pairs) (bytes "endpoint") ≡ value_of (bytes "endpoint") pairs
parse_kv-print_example = parse_kv-print (bytes "endpoint") pairs pairs-IsPair
