-- ===== src/Routing/Registry.antt =====
-- src/controlplane/routing.go: RoutingRegistry. The table holds pointers to backends, so the
-- backends stand on a heap: a pointer is an index, Register allocates at the end, and nothing is
-- freed. Resolve looks up the pointer under one lock, wakes with none, and writes through the
-- pointer under another.
pub mod Heap
pub mod View
pub mod Resolve
pub mod Race
use sovereign_core.Prelude.{
  ℕ, ℤ, pos, Text, bytes, ◌==◌, Dict, lookup, insert, remove, if◌then◌else◌, length, get_elem?, set,
  Bool, List, [], ◌∷◌, ◌++◌, Option, none, some,
}

pub record Backend : Type 0 where
  pub addr : Text
  pub state : Text

pub record RoutingRegistry : Type 0 where
  pub tbl : Dict ℕ
  pub heap : List Backend

-- What a WakeHook returns, and Resolve: (addr, bootMS, err).
pub record Resolved : Type 0 where
  pub addr : Text
  pub boot_ms : ℤ
  pub err : Option Text

unfoldable pub new_registry : RoutingRegistry
new_registry = record { tbl = []; heap = [] }

unfoldable pub register : RoutingRegistry → Text → Text → Text → RoutingRegistry
register r endpoint_id addr state = record {
  tbl = insert endpoint_id (length r.heap) r.tbl;
  heap = r.heap ++ record { addr = addr; state = state } ∷ [];
}

-- *p = f(*p); no pointer of the table dangles.
abbrev update : List Backend → ℕ → (Backend → Backend) → List Backend
update heap p f = elim (get_elem? heap p) [ none ↦ heap | some b ↦ set heap p (f b) ]

unfoldable pub set_state : RoutingRegistry → Text → Text → RoutingRegistry
set_state r endpoint_id state = elim (lookup endpoint_id r.tbl) [
  | none ↦ r
  | some p ↦ record r { heap = update r.heap p (λ b. record b { state = state }) }
]

unfoldable pub deregister : RoutingRegistry → Text → RoutingRegistry
deregister r endpoint_id = record r { tbl = remove endpoint_id r.tbl }

-- The write of Resolve after the wake: b.addr, b.state = newAddr, "active".
unfoldable pub write_awake : RoutingRegistry → ℕ → Text → RoutingRegistry
write_awake r p new_addr = record r {
  heap = update r.heap p (λ b. record { addr = new_addr; state = bytes "active" });
}

-- The WakeHook works on a state of its own, `S`.
module _ {S : Type 0} (wake : Text → S → Resolved × S) where
  -- From the pointer on: a warm backend is answered at once, another is woken.
  resolve_at : RoutingRegistry → Text → ℕ → Backend → S → Resolved × RoutingRegistry × S
  resolve_at r endpoint_id p b s =
      if b.state == bytes "active"
      then (record { addr = b.addr; boot_ms = pos 0; err = none }, r, s)
      else elim ((wake endpoint_id s).0.err) [
        | some e ↦ (
          record {
            addr = [];
            boot_ms = (wake endpoint_id s).0.boot_ms;
            err = some (bytes "wake " ++ (endpoint_id ++ (bytes ": " ++ e)));
          },
          r,
          (wake endpoint_id s).1,
        )
        | none ↦ (
          record {
            addr = (wake endpoint_id s).0.addr;
            boot_ms = (wake endpoint_id s).0.boot_ms;
            err = none;
          },
          write_awake r p (wake endpoint_id s).0.addr,
          (wake endpoint_id s).1,
        )
      ]

  not_found : Text → Resolved
  not_found endpoint_id = record {
    addr = [];
    boot_ms = pos 0;
    err = some (bytes "endpoint " ++ (endpoint_id ++ bytes " not found"));
  }

  unfoldable pub resolve : RoutingRegistry → Text → S → Resolved × RoutingRegistry × S
  unfolding resolve_at not_found
  resolve r endpoint_id s = elim (lookup endpoint_id r.tbl) [
    | none ↦ (not_found endpoint_id, r, s)
    | some p ↦ elim (get_elem? r.heap p) [
      | none ↦ (not_found endpoint_id, r, s)
      | some b ↦ resolve_at r endpoint_id p b s
    ]
  ]

-- The calls of the other methods, which may come between the two locks of Resolve.
pub data Call : Type 0 where
  registers : Text → Text → Text → Call
  sets_state : Text → Text → Call
  deregisters : Text → Call
  writes_awake : ℕ → Text → Call
