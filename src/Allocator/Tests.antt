-- ===== src/Allocator/Tests.antt =====
-- Tests of `BlockAllocator` (engine/block_manager.py), and its theorems at concrete pools.
use nanoserve.Prelude.{
  List, [], arith, count, false, get_or, if◌then◌else◌, length, ltb, map, none, refl, some, suc,
  true, zero, ℕ, ◌&&◌, ◌+◌, ◌<◌, ◌==◌, ◌∷◌, ◌≡◌, ◌≤◌,
}
use nanoserve.Exec.{ok, err, incref_on_free, decref_on_free}
use nanoserve.Allocator.{
  Allocator, init, allocate, allocate_many, allocate_times, incref, decref, num_allocated, num_free,
  num_shared, count_above,
}
use nanoserve.Allocator.Invariant.{Holds}
use nanoserve.Allocator.Owns.{
  Allocates, allocate-Allocates, incref-Holds, decref-Holds, unheld_raises,
}
use nanoserve.Allocator.Laws.{Grants, allocate_many-Grants, held_above, num_allocated_exact}

-- Three blocks: the first two are held, block 0 twice.
abbrev shared : Allocator
shared = record { num_blocks = 3; free = 2 ∷ []; refs = 2 ∷ 1 ∷ 0 ∷ [] }

shared-Holds : Holds shared (0 ∷ 1 ∷ 0 ∷ [])
unfolding count_above
shared-Holds = record {
  valid = record { sized = refl; free_zero = free_zero; balance = refl };
  counted = counted;
}
  where
    free_zero :
        (b : ℕ) → count b shared.free ≡ (if ltb b 3 && (get_or shared.refs b 0 == 0) then 1 else 0)
    free_zero zero = refl
    free_zero (suc zero) = refl
    free_zero (suc (suc zero)) = refl
    free_zero (suc (suc (suc b))) = ground arith

    counted : (b : ℕ) → get_or shared.refs b 0 ≡ count b (0 ∷ 1 ∷ 0 ∷ [])
    counted zero = refl
    counted (suc zero) = refl
    counted (suc (suc zero)) = refl
    counted (suc (suc (suc b))) = ground arith

first_is_zero : (allocate (init 2)).0 ≡ some 0
unfolding allocate init
first_is_zero = refl

many_run : (allocate_many 2 (init 3)).0 ≡ some (some 0 ∷ some 1 ∷ [])
unfolding allocate_many allocate_times allocate init
many_run = refl

last_reference_frees :
    decref 1 shared ≡ (ok true, record { num_blocks = 3; free = 1 ∷ 2 ∷ []; refs = 2 ∷ 0 ∷ 0 ∷ [] })
unfolding decref
last_reference_frees = refl

allocate-Allocates_example : Allocates shared (0 ∷ 1 ∷ 0 ∷ []) (allocate shared)
allocate-Allocates_example = allocate-Allocates shared (0 ∷ 1 ∷ 0 ∷ []) shared-Holds

incref-Holds_example :
    (a : Allocator) × (incref 1 shared ≡ (ok tt, a))
    × Holds a (1 ∷ 0 ∷ 1 ∷ 0 ∷ [])
    × (a.free ≡ shared.free)
    × (a.num_blocks ≡ 3)
incref-Holds_example = incref-Holds 1 (0 ∷ 1 ∷ 0 ∷ []) shared-Holds (omega arith)

decref-Holds_example :
    (a : Allocator) × (decref 0 shared ≡ (ok false, a))
    × Holds a (1 ∷ 0 ∷ [])
    × (length a.free ≡ 1)
    × (a.num_blocks ≡ 3)
decref-Holds_example = decref-Holds 0 (1 ∷ 0 ∷ []) shared-Holds

unheld_raises_example :
    (incref 2 shared ≡ (err incref_on_free, shared))
    × (decref 2 shared ≡ (err decref_on_free, shared))
unheld_raises_example = unheld_raises 2 (0 ∷ 1 ∷ 0 ∷ []) shared-Holds refl

allocate_many-Grants_example :
    (length shared.free < 2 → allocate_many 2 shared ≡ (none, shared))
    × (2 ≤ length shared.free
        → (blocks : List ℕ) × (a : Allocator) × (allocate_many 2 shared
            ≡ (some (map some blocks), a))
          × Grants 2 shared (0 ∷ 1 ∷ 0 ∷ []) blocks a)
allocate_many-Grants_example = allocate_many-Grants 2 shared (0 ∷ 1 ∷ 0 ∷ []) shared-Holds

num_allocated_exact_example :
    (num_allocated shared ≡ held_above 0 (0 ∷ 1 ∷ 0 ∷ []) 0 3)
    × (num_shared shared ≡ held_above 1 (0 ∷ 1 ∷ 0 ∷ []) 0 3)
    × (num_free shared + held_above 0 (0 ∷ 1 ∷ 0 ∷ []) 0 3 ≡ 3)
num_allocated_exact_example = num_allocated_exact shared (0 ∷ 1 ∷ 0 ∷ []) shared-Holds
