-- ===== src/Static/Account.antt =====
-- The accounts of engine/kv_cache.py: where the capacity of a pool goes.
use nanoserve.Prelude.{
  List, Option, [], ap, arith, length, suc, sym, ℕ, ◌*◌, ◌+◌, ◌-◌, ◌/◌, ◌<◌, ◌∙◌, ◌∷◌, ◌≡◌, ◌≤◌,
}
use native.Mathlib.Nat.{mul_assoc, mul_comm, suc-mul, add-mul, div-mul-le_self, lt-div-mul-add}
use nanoserve.Static.{
  Slots, object, expected_of, used_tokens, reserved_tokens, stats, tokens_capacity,
  tokens_allocated, internal_fragmentation, external_fragmentation, slots_for_budget, or_else,
  bytes_per_token, total_bytes, new_slots, NanoConfig,
}
use nanoserve.Static.Invariant.{WellFormed}

module _ {V : Type 0} where
  -- What the sequences hold and may still write fits in their slots.
  used-reserved :
      (d : List (ℕ × ℕ)) (s : Slots V)
      → ((x : ℕ) → expected_of x s.expected ≤ s.max_seq_len)
      → ((handle : ℕ) → (object handle s).pos ≤ s.max_seq_len)
      → used_tokens d s + reserved_tokens d s ≤ length d * s.max_seq_len
  unfolding used_tokens reserved_tokens
  used-reserved [] s e h = omega arith
  used-reserved ((slot, handle) ∷ d) s e h =
      let split : suc (length d) * s.max_seq_len ≡ length d * s.max_seq_len + s.max_seq_len =
        suc-mul (length d) s.max_seq_len in
      omega (arith, used-reserved d s e h, e slot, h handle, split)

  -- In a pool whose sequences stayed within their slots, every token of the capacity is counted
  -- once: used, reserved, lost inside a slot, or in a slot that is free.
  pub stats_balance :
      (s : Slots V)
      → WellFormed s
      → ((handle : ℕ) → (object handle s).pos ≤ s.max_seq_len)
      → ((stats s).tokens_used + (stats s).tokens_reserved + internal_fragmentation (stats s)
          ≡ tokens_allocated (stats s))
        × (tokens_allocated (stats s) + external_fragmentation (stats s)
            ≡ tokens_capacity (stats s))
  unfolding stats internal_fragmentation external_fragmentation
  stats_balance s w h = (
    omega (arith, used-reserved s.live s w.bounded h),
    sym (add-mul (length s.live) (s.num_slots - length s.live) s.max_seq_len)
        ∙ ap (λ n. n * s.max_seq_len) (omega (arith, w.balance)),
  )

-- A pool with the slots that the budget buys takes no more than the budget, and with one slot more it
-- takes more; for a positive size of a token and of a slot.
pub slots_for_budget-total_bytes :
    {V : Type 0} (cfg : NanoConfig) (budget : ℕ) (max_seq_len : Option ℕ) (itemsize : ℕ) (zeros : V)
    → 0 < bytes_per_token cfg itemsize * or_else max_seq_len cfg.max_position_embeddings
    → (total_bytes cfg itemsize (
          new_slots
            (slots_for_budget cfg budget max_seq_len itemsize)
            max_seq_len
            cfg.max_position_embeddings
            zeros)
        ≤ budget)
      × (budget
          < total_bytes cfg itemsize (
              new_slots
                (slots_for_budget cfg budget max_seq_len itemsize + 1)
                max_seq_len
                cfg.max_position_embeddings
                zeros))
unfolding slots_for_budget total_bytes bytes_per_token new_slots
slots_for_budget-total_bytes cfg budget max_seq_len itemsize zeros h =
    let tokens = or_else max_seq_len cfg.max_position_embeddings in
    let bytes = bytes_per_token cfg itemsize in
    let n = budget / (bytes * tokens) in
    let swap : (m : ℕ) → m * tokens * bytes ≡ m * (bytes * tokens) =
      λ m. mul_assoc m tokens bytes ∙ ap (λ x. m * x) (mul_comm tokens bytes) in
    let one_more : (n + 1) * (bytes * tokens) ≡ n * (bytes * tokens) + bytes * tokens =
      add-mul n 1 (bytes * tokens) ∙ omega arith in
    (
      omega (arith, swap n, div-mul-le_self budget (bytes * tokens)),
      omega (arith, swap (n + 1), one_more, lt-div-mul-add {a = budget} {b = bytes * tokens} h),
    )
