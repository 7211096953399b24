-- ===== src/Batch/Need.antt =====
-- The count of `_prepare` (engine/scheduler.py): what one more token of a sequence takes, before
-- and after other sequences have taken theirs.
use nanoserve.Prelude.{
  ==→eq, Bool-cases, List, Option, [], ap, arith, count, count-append, get_last?, get_or,
  if◌then◌else◌, inl, inr, length, none, refl, snoc_of_last, some, ℕ, ◌%◌, ◌*◌, ◌++◌, ◌+◌, ◌-◌, ◌/◌,
  ◌<◌, ◌==◌, ◌∷◌, ◌≡◌, ◌≤◌,
}
use native.Mathlib.Nat.{div-add-mod, mod-lt}
use nanoserve.Paged.{Cache, Paged, ceil_div}
use nanoserve.Paged.Invariant.{Owned, Tight}
use nanoserve.Paged.Unshare.{copies, copies_needed}
use nanoserve.Paged.Extend.{ceil_div_bounds, le_of_mul, blocks_needed}
use nanoserve.Batch.{shared_tail, need_of, total_need}

-- The quotient and the number of blocks of a tight table.
tight_length :
    (bs n q r l : ℕ)
    → bs * q + r ≡ n
    → r < bs
    → n ≤ l * bs
    → l * bs < n + bs
    → l ≡ (if r == 0 then q else q + 1)
tight_length bs n q r l e h enough snug = elim (Bool-cases (r == 0)) [
  | inl z ↦
      let low = le_of_mul q l bs n (grind (arith, ==→eq r 0 z)) enough in
      let high = le_of_mul l q bs n snug (grind (arith, ==→eq r 0 z)) in rw z (omega arith)
  | inr s ↦
      let some_left : 0 < r = ground arith in
      let low = le_of_mul (q + 1) l bs n (grind arith) enough in
      let high = le_of_mul l (q + 1) bs n snug (grind arith) in rw s (omega arith)
]

next_length :
    (bs n q r c : ℕ) → bs * q + r ≡ n → r < bs → n + 1 ≤ c * bs → c * bs < n + 1 + bs → c ≡ q + 1
next_length bs n q r c e h enough snug =
    let low = le_of_mul (q + 1) c bs (n + 1) (grind arith) enough in
    let high = le_of_mul c (q + 1) bs (n + 1) snug (grind arith) in omega arith

module _ {V : Type 0} where
  -- One more token takes what `_prepare` counts: a block for a full table, or a copy of a shared
  -- tail.
  pub need_exact :
      (others : List ℕ) (s : Paged V)
      → Owned others s
      → Tight s
      → blocks_needed 1 s ≡ need_of s.block_size s.alloc.refs s.cache
  unfolding blocks_needed copies_needed need_of copies shared_tail
  need_exact others s o t =
      let bs = s.block_size in
      let q = s.num_tokens / bs in
      let r = s.num_tokens % bs in
      let e = div-add-mod s.num_tokens bs in
      let lt = mod-lt s.num_tokens o.positive in
      let now = tight_length bs s.num_tokens q r (length s.block_table) e lt t.enough t.snug in
      let bounds = ceil_div_bounds (s.num_tokens + 1) bs o.positive in
      let next =
        next_length bs s.num_tokens q r (ceil_div (s.num_tokens + 1) bs) e lt bounds.0 bounds.1 in
      elim (Bool-cases (r == 0)) [
        | inl z ↦ rw (z, next) (ground (arith, now))
        | inr z ↦
            rw (z, next) (tail_case (get_last? s.block_table) s.alloc.refs (ground (arith, now)))
      ]
    where
      tail_case :
          (last : Option ℕ) (refs : List ℕ)
          → length s.block_table ≡ s.num_tokens / s.block_size + 1
          → copies last refs + (s.num_tokens / s.block_size + 1 - length s.block_table)
            ≡ shared_tail refs last
      tail_case none refs h = omega arith
      tail_case (some b) refs h = ground arith

tail_mono :
    (refs refs' : List ℕ) (last : Option ℕ)
    → ((b : ℕ) → last ≡ some b → get_or refs' b 0 ≤ get_or refs b 0)
    → shared_tail refs' last ≤ shared_tail refs last
unfolding shared_tail
tail_mono refs refs' none h = omega arith
tail_mono refs refs' (some b) h = ground (arith, h b refl)

held_last : (xs : List ℕ) (b : ℕ) → get_last? xs ≡ some b → 0 < count b xs
held_last xs b e =
    let (ys, f) = snoc_of_last xs b e in ground (arith, ap (count b) f, count-append b ys (b ∷ []))

abbrev pub tables : List Cache → List ℕ
tables [] = []
tables (c ∷ cs) = c.block_table ++ tables cs

-- Where no block of these sequences gained a reference, they need no more than before.
pub need_mono :
    (bs : ℕ) (refs refs' : List ℕ) (cs : List Cache)
    → ((b : ℕ) → 0 < count b (tables cs) → get_or refs' b 0 ≤ get_or refs b 0)
    → total_need bs refs' cs ≤ total_need bs refs cs
unfolding total_need need_of
need_mono bs refs refs' [] h = omega arith
need_mono bs refs refs' (c ∷ cs) h =
    let head = tail_mono refs refs' (get_last? c.block_table) (λ b e.
      h b (omega (arith, held_last c.block_table b e, count-append b c.block_table (tables cs)))) in
    let rest =
      need_mono bs refs refs' cs
        (λ b p. h b (omega (arith, count-append b c.block_table (tables cs)))) in
    ground arith
