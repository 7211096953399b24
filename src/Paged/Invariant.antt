-- ===== src/Paged/Invariant.antt =====
-- What holds of a `PagedKVCache` (engine/block_manager.py) and its pool between two calls, and
-- what a call leaves as it was.
use nanoserve.Prelude.{
  Distinct, List, arith, count, count-append, length, map, refl, take, ℕ, ◌*◌, ◌++◌, ◌+◌, ◌/◌, ◌<◌,
  ◌∙◌, ◌≡◌, ◌≤◌,
}
use nanoserve.Allocator.Invariant.{Holds}
use nanoserve.Paged.{Side, Paged}
use nanoserve.Paged.Slots.{slots_of}

module _ {V : Type 0} where
  -- `others` lists the references that everybody else holds: the tables of the other sequences and
  -- the prefix cache.
  pub record Owned (others : List ℕ) (s : Paged V) : Type 0 where
    pub positive : 0 < s.block_size
    pub linked : s.slots ≡ slots_of s.block_size s.block_table
    pub distinct : Distinct s.block_table
    pub holds : Holds s.alloc (s.block_table ++ others)

  -- The table has the blocks that the tokens need, and no more.
  pub record Tight (s : Paged V) : Type 0 where
    pub enough : s.num_tokens ≤ length s.block_table * s.block_size
    pub snug : length s.block_table * s.block_size < s.num_tokens + s.block_size

  -- From the block of token `m` on, the table's blocks are nobody else's.
  pub record Private (others : List ℕ) (m : ℕ) (s : Paged V) : Type 0 where
    pub full : List ℕ
    pub rest : List ℕ
    pub split : s.block_table ≡ full ++ rest
    pub before : length full * s.block_size ≤ m
    pub unshared : (b : ℕ) → 0 < count b rest → count b others ≡ 0

  -- No slot of the others' blocks changed, nor what the first `m` tokens read, and no block of
  -- theirs joined the table.
  pub record Preserves (others : List ℕ) (m : ℕ) (s s' : Paged V) : Type 0 where
    pub same_size : s'.block_size ≡ s.block_size
    pub same_layers : s'.num_layers ≡ s.num_layers
    pub same_blocks : s'.alloc.num_blocks ≡ s.alloc.num_blocks
    pub same_tokens : s'.num_tokens ≡ s.num_tokens
    pub same_start : s'.start ≡ s.start
    pub no_gain : (b : ℕ) → 0 < count b others → count b s'.block_table ≤ count b s.block_table
    pub foreign :
        (side : Side) (l x : ℕ)
        → 0 < count (x / s.block_size) others
        → s'.store side l x ≡ s.store side l x
    pub own :
        (side : Side) (l : ℕ)
        → l < s.num_layers
        → map (s'.store side l) (take m s'.slots) ≡ map (s.store side l) (take m s.slots)

  pub Preserves-refl : (others : List ℕ) (m : ℕ) (s : Paged V) → Preserves others m s s
  Preserves-refl others m s = record {
    same_size = refl;
    same_layers = refl;
    same_blocks = refl;
    same_tokens = refl;
    same_start = refl;
    no_gain = λ b h. omega arith;
    foreign = λ side l x h. refl;
    own = λ side l h. refl;
  }

  pub Preserves-trans :
      {others : List ℕ} {m : ℕ} {s t u : Paged V}
      → Preserves others m s t
      → Preserves others m t u
      → Preserves others m s u
  Preserves-trans {others} {m} {s} {t} {u} p q = record {
    same_size = q.same_size ∙ p.same_size;
    same_layers = q.same_layers ∙ p.same_layers;
    same_blocks = q.same_blocks ∙ p.same_blocks;
    same_tokens = q.same_tokens ∙ p.same_tokens;
    same_start = q.same_start ∙ p.same_start;
    no_gain = λ b h. omega (arith, p.no_gain b h, q.no_gain b h);
    foreign = λ side l x h. q.foreign side l x (rw p.same_size h) ∙ p.foreign side l x h;
    own = λ side l h. q.own side l (rw p.same_layers h) ∙ p.own side l h;
  }

  pub table_count :
      {others : List ℕ} {s : Paged V} (b : ℕ)
      → Owned others s
      → count b (s.block_table ++ others) ≡ count b s.block_table + count b others
  table_count {others} {s} b o = count-append b s.block_table others
