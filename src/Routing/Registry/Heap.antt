-- ===== src/Routing/Registry/Heap.antt =====
-- Reads of a heap after a write through a pointer and after an allocation.
use mathlib.Core.Option
use sovereign_core.Prelude.{
  ℕ, zero, suc, ◌<◌, eqb, if◌then◌else◌, length, get_elem?, ◌≡◌, refl, List, [], ◌∷◌, ◌++◌, some,
  arith,
}
use sovereign_core.Routing.Registry.{Backend, update}

pub length-update :
    (h : List Backend) (p : ℕ) (f : Backend → Backend) → length (update h p f) ≡ length h
length-update [] p f = refl
length-update (b ∷ h) zero f = refl
length-update (b ∷ h) (suc p) f = ground (arith, length-update h p f)

pub get_elem?-update :
    (h : List Backend) (p q : ℕ) (f : Backend → Backend)
    → get_elem? (update h p f) q ≡ (if eqb p q then Option.map f (get_elem? h q) else get_elem? h q)
get_elem?-update [] p q f = ground arith
get_elem?-update (b ∷ h) zero zero f = ground arith
get_elem?-update (b ∷ h) zero (suc q) f = ground arith
get_elem?-update (b ∷ h) (suc p) zero f = ground arith
get_elem?-update (b ∷ h) (suc p) (suc q) f = ground (arith, get_elem?-update h p q f)

pub get_elem?-new : (h : List Backend) (b : Backend) → get_elem? (h ++ b ∷ []) (length h) ≡ some b
get_elem?-new [] b = refl
get_elem?-new (c ∷ h) b = get_elem?-new h b

pub get_elem?-old :
    (h : List Backend) (b : Backend) (p : ℕ)
    → p < length h
    → get_elem? (h ++ b ∷ []) p ≡ get_elem? h p
get_elem?-old [] b p l = elim l [ ]
get_elem?-old (c ∷ h) b zero l = refl
get_elem?-old (c ∷ h) b (suc p) l = get_elem?-old h b p (omega arith)

pub get_elem?-lt :
    (h : List Backend) (p : ℕ) → p < length h → (b : Backend) × (get_elem? h p ≡ some b)
get_elem?-lt [] p l = elim l [ ]
get_elem?-lt (c ∷ h) zero l = (c, refl)
get_elem?-lt (c ∷ h) (suc p) l = get_elem?-lt h p (omega arith)
