-- ===== src/App/Startup/Tests.antt =====
-- An endpoint of acme, started on an instance that the pool boots.
use sovereign_core.Prelude.{
  ℕ, pos, Text, bytes, ◌==◌, lookup, insert, trim_suffix, All, ◌≡◌, refl, [], ◌∷◌, none, some,
  arith,
}
use sovereign_core.Prelude.FixedPoint.{Fixed, fin, fixed_point}
use sovereign_core.Model.{Branch}
use sovereign_core.Model.BranchState
use sovereign_core.Store.{Store, branch, operation, new_store, put, puts, run, step, get_branch}
use sovereign_core.Store
use sovereign_core.Base64.{encode_url}
use sovereign_core.Base64.RoundTrip.{IsByte}
use sovereign_core.Ids.{trim_right, new_id}
use sovereign_core.WarmPool.{acquire, replenish}
use sovereign_core.Routing.Registry.{new_registry}
use sovereign_core.Routing.Registry.View.{IsSound, new_registry-IsSound, register-IsSound}
use sovereign_core.Tasks.{run_task}
use sovereign_core.App.{App, logical, resolve_connection}
use sovereign_core.App.Goroutines.{start_endpoint_body}
use sovereign_core.App.Samples.{running_op, ports, acme, gate, plane}
use sovereign_core.Model.{Operation}
use sovereign_core.Walkthrough.Launch.{Readable, Supplied, launch_reports}
use sovereign_core.App.Startup.{running, got, attach, named, issued, started_endpoint_reached}

abbrev main : Branch
main = record {
  id = bytes "br_1";
  org_id = acme;
  project_id = bytes "proj_1";
  parent_id = [];
  state = BranchState.ready;
  created_at = 1;
}

abbrev cu : Fixed
cu = fin (pos 250)

abbrev branched : App Fixed ℕ
branched = record plane {
  core = record (plane.core) {
    store = run new_store (puts (branch main) ∷ puts (operation (running_op (bytes "op_1"))) ∷ []);
  };
}

abbrev id : Text
id = (named ports (bytes "br_1") branched).0

main_found : get_branch branched.core.store acme (bytes "br_1") ≡ some main
unfolding run new_store Store.step put lookup insert bytes ◌==◌ get_branch
main_found = refl

booted : (got ports branched).err ≡ none
unfolding acquire
booted = refl

attached : (attach ports (bytes "br_1") branched).0 ≡ none
attached = refl

plane-IsSound : IsSound branched.registry
plane-IsSound = register-IsSound new_registry gate _ _ new_registry-IsSound

drawn : All IsByte (ports.random 9 (attach ports (bytes "br_1") branched).1).0
unfolding acquire replenish
drawn = omega arith

unpooled : trim_suffix id (bytes "-pooler") ≡ id
unfolding acquire replenish new_id trim_right encode_url bytes trim_suffix ◌==◌
unpooled = refl

abbrev started : App Fixed ℕ
started = (run_task (start_endpoint_body ports acme (bytes "br_1") cu cu (bytes "op_1")) branched).1

started_endpoint_reached_example :
    (lookup id started.core.store.endpoints
      ≡ some (
          running Fixed ℕ ports acme
            (bytes "br_1")
            cu
            cu
            (bytes "op_1")
            id
            (bytes "u")
            (bytes "pw")
            (ports.clock.now (issued ports acme (bytes "br_1") branched).1).0))
    × (resolve_connection ports
          (record { sni = logical (bytes "kr") id []; options = []; password = bytes "pw" })
          started
        ≡ ((id, (got ports branched).inst.host, pos 0, none), started))
    × (resolve_connection ports
          (record {
            sni = logical (bytes "kr") id (bytes "-pooler");
            options = [];
            password = bytes "pw";
          })
          started
        ≡ ((id, (got ports branched).inst.host, pos 0, none), started))
started_endpoint_reached_example =
    started_endpoint_reached Fixed ℕ ports acme (bytes "br_1") cu cu (bytes "op_1") branched main
      (bytes "u") (bytes "pw") [] (bytes "pw") main_found booted attached refl plane-IsSound drawn
      unpooled

op_1_stored :
    lookup (bytes "op_1") branched.core.store.operations ≡ some (running_op (bytes "op_1"))
unfolding run new_store Store.step put lookup insert bytes ◌==◌
op_1_stored = refl

launch_reports_example :
    ((q : Operation) × (lookup (bytes "op_1") started.core.store.operations ≡ some q)
      × Readable q id (got ports branched).hit (got ports branched).boot_ms)
    × Supplied ports branched (got ports branched).hit (got ports branched).boot_ms
launch_reports_example =
    launch_reports Fixed ℕ ports acme (bytes "br_1") cu cu (bytes "op_1") branched main (bytes "u")
      (bytes "pw") (running_op (bytes "op_1")) main_found booted attached refl op_1_stored
