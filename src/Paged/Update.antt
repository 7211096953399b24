-- ===== src/Paged/Update.antt =====
-- `update` of engine/block_manager.py: a pass takes its blocks on layer 0, and each layer writes the
-- new rows behind the old ones.
use nanoserve.Prelude.{
  List, arith, count, length, map, subst, sym, take, ℕ, ◌+◌, ◌/◌, ◌<◌, ◌≡◌, ◌≤◌,
}
use nanoserve.Exec.{ok, err, out_of_blocks}
use nanoserve.Paged.{Side, Paged, begin_pass, set_start}
use nanoserve.Paged.Invariant.{Owned, Tight, Private, Preserves}
use nanoserve.Paged.Unshare.{copies_needed}
use nanoserve.Paged.Extend.{blocks_needed, extend-Extended, extend_short}

module _ {V : Type 0} where
  -- Between the layers of a pass over `n` tokens.
  pub record InPass (others : List ℕ) (n : ℕ) (s : Paged V) : Type 0 where
    pub owned : Owned others s
    pub tight : Tight s
    pub private : Private others s.start s
    pub tokens : s.num_tokens ≡ s.start + n

  pub record Begun (others : List ℕ) (n : ℕ) (s t : Paged V) : Type 0 where
    pub pass : InPass others n t
    pub start : t.start ≡ s.num_tokens
    pub same_size : t.block_size ≡ s.block_size
    pub same_layers : t.num_layers ≡ s.num_layers
    pub foreign :
        (side : Side) (l x : ℕ)
        → 0 < count (x / s.block_size) others
        → t.store side l x ≡ s.store side l x
    pub own :
        (side : Side) (l : ℕ)
        → l < s.num_layers
        → map (t.store side l) (take s.num_tokens t.slots)
          ≡ map (s.store side l) (take s.num_tokens s.slots)
    pub used : length s.alloc.free ≡ length t.alloc.free + blocks_needed n s

  Owned-start : {others : List ℕ} {s : Paged V} → Owned others s → Owned others (set_start s)
  Owned-start o = record {
    positive = o.positive;
    linked = o.linked;
    distinct = o.distinct;
    holds = o.holds;
  }

  Tight-start : {s : Paged V} → Tight s → Tight (set_start s)
  Tight-start t = record { enough = t.enough; snug = t.snug }

  -- With enough free blocks a pass begins: exactly the blocks needed are taken, the blocks that
  -- will be written are the sequence's alone, and nothing that anybody reads has changed.
  pub begin_pass-Begun :
      (others : List ℕ) (n : ℕ) (s : Paged V)
      → Owned others s
      → Tight s
      → blocks_needed n s ≤ length s.alloc.free
      → (t : Paged V) × (begin_pass n s ≡ (ok tt, t)) × Begun others n s t
  unfolding begin_pass blocks_needed copies_needed
  begin_pass-Begun others n s o t h =
      let (u, run, e) = extend-Extended others n (set_start s) (Owned-start o) (Tight-start t) h in
      (
        u,
        run,
        record {
          pass = record {
            owned = e.owned;
            tight = e.tight;
            private = subst (λ m. Private others m u) (sym e.start) e.private;
            tokens = omega (arith, e.tokens, e.start);
          };
          start = e.start;
          same_size = e.same_size;
          same_layers = e.same_layers;
          foreign = e.foreign;
          own = e.own;
          used = e.used;
        },
      )

  -- With too few free blocks the pass raises `OutOfBlocks`. The cache still owns what it holds, so
  -- `free` gives it all back, and nothing that anybody reads has changed.
  pub begin_pass_short :
      (others : List ℕ) (n : ℕ) (s : Paged V)
      → Owned others s
      → Tight s
      → length s.alloc.free < blocks_needed n s
      → (t : Paged V) × (begin_pass n s ≡ (err out_of_blocks, t))
        × Owned others t
        × Preserves others s.num_tokens (set_start s) t
        × (length t.alloc.free ≡ 0)
  unfolding begin_pass blocks_needed copies_needed
  begin_pass_short others n s o t h =
      extend_short others n (set_start s) (Owned-start o) (Tight-start t) h
