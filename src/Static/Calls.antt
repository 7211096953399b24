-- ===== src/Static/Calls.antt =====
-- Any sequence of calls on the pool of engine/kv_cache.py.
use nanoserve.Prelude.{List, Option, [], ℕ, ◌∷◌}
use nanoserve.Paged.{Side}
use nanoserve.Static.{Slots, new_slots, allocate, release, reset, update}
use nanoserve.Static.Invariant.{
  WellFormed, WellFormed-SameSlots, new_slots-WellFormed, reset-WellFormed, allocate-WellFormed,
  release-WellFormed,
}
use nanoserve.Static.Update.{update-SameSlots}

-- A call on the pool or on one of its caches. A handle may be stale, and an `update` may raise.
pub data Call (V : Type 0) : Type 0 where
  allocate_slot : Option ℕ → Call V
  free_handle : ℕ → Call V
  update_layer : ℕ → ℕ → ℕ → (Side → List V) → Call V
  reset_pool : Call V

module _ {V : Type 0} where
  -- The pool after a call.
  unfoldable pub call : Call V → Slots V → Slots V
  unfolding allocate release update reset
  call (allocate_slot expected_len) s = (allocate expected_len s).1
  call (free_handle handle) s = release handle s
  call (update_layer handle layer n rows) s = (update handle layer n rows s).1
  call reset_pool s = reset s

  unfoldable pub calls : List (Call V) → Slots V → Slots V
  unfolding call
  calls [] s = s
  calls (c ∷ cs) s = calls cs (call c s)

  call-WellFormed : (c : Call V) (s : Slots V) → WellFormed s → WellFormed (call c s)
  unfolding call
  call-WellFormed (allocate_slot e) s w = allocate-WellFormed e s w
  call-WellFormed (free_handle handle) s w = release-WellFormed handle s w
  call-WellFormed (update_layer handle layer n rows) s w =
      WellFormed-SameSlots (update-SameSlots handle layer n rows s) w
  call-WellFormed reset_pool s w = reset-WellFormed s

  calls-WellFormed_from :
      (cs : List (Call V)) (s : Slots V) → WellFormed s → WellFormed (calls cs s)
  unfolding calls
  calls-WellFormed_from [] s w = w
  calls-WellFormed_from (c ∷ cs) s w = calls-WellFormed_from cs (call c s) (call-WellFormed c s w)

  -- Whatever is called on a new pool and its caches, in whatever order, stale handles and raising
  -- updates included: every slot is free or live, once; the live slots are the ones with an expected
  -- length; and no expected length is above the slot's capacity.
  pub calls-WellFormed :
      (cs : List (Call V)) (n : ℕ) (m : Option ℕ) (positions : ℕ) (zeros : V)
      → WellFormed (calls cs (new_slots n m positions zeros))
  calls-WellFormed cs n m positions zeros =
      calls-WellFormed_from cs (new_slots n m positions zeros)
        (new_slots-WellFormed n m positions zeros)
