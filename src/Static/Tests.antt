-- ===== src/Static/Tests.antt =====
-- Tests of the contiguous cache (engine/kv_cache.py), and its theorems at concrete pools.
use nanoserve.Prelude.{
  List, [], arith, false, none, refl, some, suc, zero, ℕ, ◌+◌, ◌<◌, ◌∷◌, ◌≡◌, ◌≤◌,
}
use nanoserve.Dict.{has}
use nanoserve.Paged.{Side}
use nanoserve.Static.{
  Slots, new_slots, allocate, object, release, reset, update, stats, used_tokens, tokens_allocated,
  tokens_capacity, internal_fragmentation, external_fragmentation, slots_for_budget, expected_of,
  NanoConfig, total_bytes, bytes_per_token, head_dim, or_else,
}
use nanoserve.Static.Invariant.{WellFormed}
use nanoserve.Static.Calls.{Call, allocate_slot, free_handle, update_layer, calls, calls-WellFormed}
use nanoserve.Static.Account.{stats_balance, slots_for_budget-total_bytes}

program : Unit {0}
unfolding calls new_slots allocate release reset update stats used_tokens internal_fragmentation
    external_fragmentation slots_for_budget
program = tt

abbrev rows : Side → List ℕ
rows side = 7 ∷ 8 ∷ []

-- Two slots of eight tokens: one sequence of two tokens that expects five, and a slot that is free.
abbrev pub history : List (Call ℕ)
history = allocate_slot (some 5) ∷ allocate_slot none ∷ update_layer 0 0 2 rows ∷ free_handle 1 ∷ []

abbrev pub pool : Slots ℕ
pool = record {
  num_slots = 2;
  max_seq_len = 8;
  store = λ side layer slot x. 0;
  free = 0 ∷ [];
  live = (1, 0) ∷ [];
  expected = (1, 5) ∷ [];
  objects = record { slot = 1; pos = 2; start = 0 } ∷ record { slot = 0; pos = 0; start = 0 } ∷ [];
}

history_live : (calls history (new_slots 2 none 8 0)).live ≡ pool.live
unfolding program
history_live = refl

history_objects : (calls history (new_slots 2 none 8 0)).objects ≡ pool.objects
unfolding program
history_objects = refl

-- A stale handle frees the slot of the sequence that came after it.
stale_free :
    has 0
      (calls {V = ℕ}
        (allocate_slot none ∷ free_handle 0 ∷ allocate_slot none ∷ free_handle 0 ∷ [])
        (new_slots 1 none 8 0)).live
    ≡ false
unfolding program
stale_free = refl

-- An update past the capacity raises, and its tokens are counted as used.
overflow_used :
    (stats (
      calls (allocate_slot none ∷ update_layer 0 0 9 rows ∷ []) (new_slots 1 none 8 0))).tokens_used
    ≡ 9
unfolding program
overflow_used = refl

calls-WellFormed_example : WellFormed (calls history (new_slots 2 none 8 0))
calls-WellFormed_example = calls-WellFormed history 2 none 8 0

pub pool-WellFormed : WellFormed pool
unfolding program expected_of
pool-WellFormed = record {
  once = λ x. ground arith;
  same_keys = λ x. refl;
  balance = refl;
  bounded = λ x. ground arith;
}

within : (handle : ℕ) → (object handle pool).pos ≤ 8
within zero = omega arith
within (suc zero) = omega arith
within (suc (suc handle)) = omega arith

stats_balance_example :
    ((stats pool).tokens_used + (stats pool).tokens_reserved + internal_fragmentation (stats pool)
      ≡ tokens_allocated (stats pool))
    × (tokens_allocated (stats pool) + external_fragmentation (stats pool)
        ≡ tokens_capacity (stats pool))
stats_balance_example = stats_balance pool pool-WellFormed within

-- Two heads of dimension 4 in 3 layers: 96 bytes for a token of two-byte items.
abbrev small : NanoConfig
small = record {
  hidden_size = 16;
  num_hidden_layers = 3;
  num_attention_heads = 4;
  num_key_value_heads = 2;
  max_position_embeddings = 10;
}

slots_for_budget-total_bytes_example :
    (total_bytes small 2 (new_slots {V = ℕ} (slots_for_budget small 5000 none 2) none 10 0) ≤ 5000)
    × (5000
        < total_bytes small 2
            (new_slots {V = ℕ} (slots_for_budget small 5000 none 2 + 1) none 10 0))
unfolding bytes_per_token head_dim or_else
slots_for_budget-total_bytes_example =
    slots_for_budget-total_bytes small 5000 none 2 0 (omega arith)
