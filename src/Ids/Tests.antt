-- ===== src/Ids/Tests.antt =====
-- Ids from a source whose nine bytes are all the same.
use sovereign_core.Prelude.{ℕ, zero, suc, ◌%◌, ◌<◌, bytes, List, [], ◌∷◌, ◌≡◌, refl, arith}
use sovereign_core.Ids.{new_id}
use sovereign_core.Ids.Unique.{Bytes, new_id_injective}

abbrev copies : ℕ → ℕ → List ℕ
copies zero x = []
copies (suc n) x = x ∷ copies n x

abbrev cycle : ℕ → ℕ → List ℕ × ℕ
cycle n w = (copies n (w % 256), suc w)

copies-Bytes : (n x : ℕ) → x < 256 → Bytes n (copies n x)
copies-Bytes zero x h = tt
copies-Bytes (suc n) x h = (h, copies-Bytes n x h)

-- The source is at 1, or once around it at 257.
new_id_injective_example : (cycle 9 1).0 ≡ (cycle 9 257).0
unfolding new_id
new_id_injective_example =
    new_id_injective cycle (bytes "ep") 1 257 (copies-Bytes 9 1 (omega arith))
      (copies-Bytes 9 1 (omega arith)) refl
