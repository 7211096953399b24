-- ===== src/Batch/Step.antt =====
-- One round of the second loop of `_prepare` (engine/scheduler.py): a sequence gets the slot of its
-- next token.
use nanoserve.Prelude.{
  Distinct, List, [], ap, ap₂, arith, count, get_elem?, get_elem?_lt, get_or, length,
  length-range_from, map, range_from, refl, some, subst, suc, sym, take, zero, ℕ, ◌%◌, ◌*◌, ◌++◌,
  ◌+◌, ◌-◌, ◌/◌, ◌<◌, ◌∙◌, ◌∷◌, ◌≡◌, ◌≤◌,
}
use native.Mathlib.Nat.{div-add-mod, mod-lt, zero-add, suc-add}
use nanoserve.Exec.{ok, bind_run}
use nanoserve.Allocator.Invariant.{Holds}
use nanoserve.Paged.{Side, Pool, Cache, Paged}
use nanoserve.Paged.Slots.{slots_of, in_block}
use nanoserve.Paged.Invariant.{Owned, Tight}
use nanoserve.Paged.Extend.{le_of_mul, extend, Extended, extend-Extended}
use nanoserve.Batch.{need_of, slot_in, write_slot, prepare_one}
use nanoserve.Batch.Need.{need_exact}

-- What holds of a cache whatever the others do.
pub record Fit (bs : ℕ) (c : Cache) : Type 0 where
  pub linked : c.slots ≡ slots_of bs c.block_table
  pub distinct : Distinct c.block_table
  pub enough : c.num_tokens ≤ length c.block_table * bs
  pub snug : length c.block_table * bs < c.num_tokens + bs

nth_append : (xs ys : List ℕ) (i x : ℕ) → get_elem? xs i ≡ some x → get_elem? (xs ++ ys) i ≡ some x
nth_append [] ys i x e = cc
nth_append (y ∷ xs) ys zero x e = e
nth_append (y ∷ xs) ys (suc i) x e = nth_append xs ys i x e

nth_behind : (xs ys : List ℕ) (i : ℕ) → get_elem? (xs ++ ys) (length xs + i) ≡ get_elem? ys i
nth_behind [] ys i = rw zero-add refl
nth_behind (x ∷ xs) ys i = rw suc-add (nth_behind xs ys i)

nth-range_from : (i n k : ℕ) → k < n → get_elem? (range_from i n) k ≡ some (i + k)
nth-range_from i zero k h = absurd (omega arith)
nth-range_from i (suc n) zero h = ap some (omega arith)
nth-range_from i (suc n) (suc k) h =
    nth-range_from (i + 1) n k (omega arith) ∙ ap some (omega arith)

-- Where token `q * bs + r` of a table is stored.
pub nth-slots_of :
    (bs : ℕ) (table : List ℕ) (q r b : ℕ)
    → r < bs
    → get_elem? table q ≡ some b
    → get_elem? (slots_of bs table) (bs * q + r) ≡ some (b * bs + r)
nth-slots_of bs [] q r b h e = cc
nth-slots_of bs (c ∷ table) zero r b h e =
    nth_append (range_from (c * bs) bs) (slots_of bs table) (bs * 0 + r) (b * bs + r) (
      ap (get_elem? (range_from (c * bs) bs)) (omega arith)
      ∙ nth-range_from (c * bs) bs r h
      ∙ ground arith)
nth-slots_of bs (c ∷ table) (suc q) r b h e =
    ap (get_elem? (slots_of bs (c ∷ table))) (grind (arith, length-range_from (c * bs) bs))
    ∙ nth_behind (range_from (c * bs) bs) (slots_of bs table) (bs * q + r)
    ∙ nth-slots_of bs table q r b h e

pub take_next :
    (xs : List ℕ) (n x : ℕ) → get_elem? xs n ≡ some x → take (suc n) xs ≡ take n xs ++ x ∷ []
take_next [] n x e = cc
take_next (y ∷ xs) zero x e = cc
take_next (y ∷ xs) (suc n) x e = ap (◌∷◌ y) (take_next xs n x e)

nth_count : (xs : List ℕ) (i x : ℕ) → get_elem? xs i ≡ some x → 0 < count x xs
nth_count [] i x e = cc
nth_count (y ∷ xs) zero x e = ground arith
nth_count (y ∷ xs) (suc i) x e = omega (arith, nth_count xs i x e)

nth_after :
    (front back : List ℕ) (i x : ℕ)
    → length front ≤ i
    → get_elem? (front ++ back) i ≡ some x
    → 0 < count x back
nth_after front back i x h e = nth_count back (i - length front) x (
    sym (nth_behind front back (i - length front))
    ∙ ap (get_elem? (front ++ back)) (omega arith)
    ∙ e)

nth_some : (xs : List ℕ) (i : ℕ) → i < length xs → (x : ℕ) × (get_elem? xs i ≡ some x)
nth_some xs i h = (get_or xs i 0, get_elem?_lt xs i 0 h)

pub block_of_slot : (bs b r : ℕ) → r < bs → (b * bs + r) / bs ≡ b
block_of_slot bs b r h = ground (arith, in_block bs b (b * bs + r))

module _ {V : Type 0} where
  -- `s` is the cache before, and `w` its new slot.
  pub record Stepped (others : List ℕ) (s t : Paged V) (w : ℕ) : Type 0 where
    pub fit : Fit s.block_size t.cache
    pub holds : Holds t.alloc (t.block_table ++ others)
    pub tokens : t.num_tokens ≡ s.num_tokens + 1
    pub same_size : t.block_size ≡ s.block_size
    pub same_layers : t.num_layers ≡ s.num_layers
    pub no_gain : (b : ℕ) → 0 < count b others → count b t.block_table ≤ count b s.block_table
    pub foreign :
        (side : Side) (l x : ℕ)
        → 0 < count (x / s.block_size) others
        → t.store side l x ≡ s.store side l x
    pub own :
        (side : Side) (l : ℕ)
        → l < s.num_layers
        → map (t.store side l) (take s.num_tokens t.slots)
          ≡ map (s.store side l) (take s.num_tokens s.slots)
    pub used : length s.alloc.free ≡ length t.alloc.free + need_of s.block_size s.alloc.refs s.cache
    pub slot : take t.num_tokens t.slots ≡ take s.num_tokens t.slots ++ w ∷ []
    pub mine : 0 < count (w / s.block_size) t.block_table
    pub alone : count (w / s.block_size) others ≡ 0

  Owned-Fit :
      {others : List ℕ} {p : Pool V} {c : Cache}
      → 0 < p.block_size
      → Fit p.block_size c
      → Holds p.alloc (c.block_table ++ others)
      → Owned others (record { pool = p; cache = c })
  Owned-Fit pos f h = record { positive = pos; linked = f.linked; distinct = f.distinct; holds = h }

  Stepped-of :
      (others : List ℕ) (s t : Paged V) (q r b : ℕ)
      → Owned others s
      → Tight s
      → Extended others 1 s t
      → s.block_size * q + r ≡ s.num_tokens
      → r < s.block_size
      → get_elem? t.block_table q ≡ some b
      → Stepped others s t (b * s.block_size + r)
  Stepped-of others s t q r b o tight e split lt at =
      let bs = s.block_size in
      let back : (b * bs + r) / bs ≡ b = block_of_slot bs b r lt in
      let linked : t.slots ≡ slots_of bs t.block_table =
        e.owned.linked ∙ ap (λ k. slots_of k t.block_table) e.same_size in
      let fit : Fit bs t.cache = record {
        linked = linked;
        distinct = e.owned.distinct;
        enough = subst (λ k. t.num_tokens ≤ length t.block_table * k) e.same_size e.tight.enough;
        snug = subst (λ k. length t.block_table * k < t.num_tokens + k) e.same_size e.tight.snug;
      } in
      let private = e.private in
      let before : length private.full * bs ≤ s.num_tokens =
        subst (λ k. length private.full * k ≤ s.num_tokens) e.same_size private.before in
      let first : length private.full ≤ q =
        le_of_mul (length private.full) q bs (q * bs) (grind (arith, before)) (omega arith) in
      let in_rest : 0 < count b private.rest =
        nth_after private.full private.rest q b first
          (ap (λ u. get_elem? u q) (sym private.split) ∙ at) in
      record {
        fit = fit;
        holds = e.owned.holds;
        tokens = e.tokens;
        same_size = e.same_size;
        same_layers = e.same_layers;
        no_gain = e.no_gain;
        foreign = e.foreign;
        own = e.own;
        used = omega (arith, e.used, need_exact others s o tight);
        slot =
            ap (λ n. take n t.slots) {y = suc s.num_tokens} (omega (arith, e.tokens))
            ∙ take_next t.slots s.num_tokens (b * bs + r)
                (ap₂ get_elem? linked (sym split) ∙ nth-slots_of bs t.block_table q r b lt at);
        mine = subst (λ k. 0 < count k t.block_table) (sym back) (nth_count t.block_table q b at);
        alone = ap (λ k. count k others) back ∙ private.unshared b in_rest;
      }

  write_slot_at :
      (t : Paged V) (n bs b : ℕ)
      → t.num_tokens - 1 ≡ n
      → t.block_size ≡ bs
      → get_elem? t.block_table (n / bs) ≡ some b
      → write_slot t ≡ (ok (b * bs + n % bs), t)
  unfolding write_slot slot_in
  write_slot_at t n bs b tokens size at = rw (tokens, size, at) refl

  -- With the blocks that it needs, the round succeeds, and the new slot is the sequence's alone.
  pub prepare_one-Stepped :
      (others : List ℕ) (p : Pool V) (c : Cache)
      → 0 < p.block_size
      → Fit p.block_size c
      → Holds p.alloc (c.block_table ++ others)
      → need_of p.block_size p.alloc.refs c ≤ length p.alloc.free
      → (t : Paged V) × (w : ℕ) × (prepare_one (record { pool = p; cache = c }) ≡ (ok w, t))
        × Stepped others (record { pool = p; cache = c }) t w
  unfolding prepare_one write_slot slot_in
  prepare_one-Stepped others p c pos f h need =
      let s : Paged V = record { pool = p; cache = c } in
      let o = Owned-Fit pos f h in
      let tight : Tight s = record { enough = f.enough; snug = f.snug } in
      let (t, run, e) =
        extend-Extended others 1 s o tight (omega (arith, need_exact others s o tight)) in
      let bs = p.block_size in
      let q = c.num_tokens / bs in
      let r = c.num_tokens % bs in
      let split = div-add-mod c.num_tokens bs in
      let lt = mod-lt c.num_tokens pos in
      let tight' : t.num_tokens ≤ length t.block_table * bs =
        subst (λ k. t.num_tokens ≤ length t.block_table * k) e.same_size e.tight.enough in
      let full =
        le_of_mul (q + 1) (length t.block_table) bs (c.num_tokens + 1) (grind arith)
          (omega (arith, e.tokens)) in
      let inside : q < length t.block_table = omega (arith, full) in
      let (b, at) = nth_some t.block_table q inside in
      let pos_now : t.num_tokens - 1 ≡ c.num_tokens = omega (arith, e.tokens) in
      let written : write_slot t ≡ (ok (b * bs + r), t) =
        write_slot_at t c.num_tokens bs b pos_now e.same_size at in
      (
        t,
        b * bs + r,
        bind_run (extend 1) (λ _. write_slot) s t tt run ∙ written,
        Stepped-of others s t q r b o tight e split lt at,
      )
