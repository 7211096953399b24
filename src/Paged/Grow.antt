-- ===== src/Paged/Grow.antt =====
-- `_ensure_capacity` of engine/block_manager.py: blocks are taken one by one, and each is private.
use nanoserve.Prelude.{
  List, Option, [], ap, append_assoc, arith, count, count-append, length, length-append, map,
  range_from, refl, some, suc, sym, take-append_le, zero, ℕ, ◌*◌, ◌++◌, ◌+◌, ◌<◌, ◌∙◌, ◌∷◌, ◌≡◌,
  ◌≤◌,
}
use nanoserve.Exec.{Result, ok, err, out_of_blocks, ◌>>◌}
use nanoserve.Allocator.{Allocator, allocate}
use nanoserve.Allocator.Invariant.{Holds, Holds-same}
use nanoserve.Allocator.Owns.{Allocates, exhausted, fresh, allocate-Allocates}
use nanoserve.Paged.{Paged, take_block, grow}
use nanoserve.Paged.Slots.{slots_of-snoc, length-slots_of}
use nanoserve.Paged.Invariant.{Owned, Private, Preserves, Preserves-refl, Preserves-trans}

module _ {V : Type 0} where
  -- What `n` rounds of the loop do: with `n` free blocks they are all taken; with fewer the loop
  -- raises `OutOfBlocks` when none is left, and keeps what it took.
  pub record Grown (others : List ℕ) (m n : ℕ) (s : Paged V) (r : Result (Unit {0}) × Paged V)
      : Type 0 where
    pub owned : Owned others r.1
    pub private : Private others m r.1
    pub keeps : Preserves others m s r.1
    pub all :
        n ≤ length s.alloc.free
        → (r.0 ≡ ok tt)
          × (length r.1.block_table ≡ length s.block_table + n)
          × (length s.alloc.free ≡ length r.1.alloc.free + n)
    pub short : length s.alloc.free < n → (r.0 ≡ err out_of_blocks) × (length r.1.alloc.free ≡ 0)

  Owned-take :
      {others : List ℕ} {s : Paged V} (b : ℕ) (a : Allocator)
      → Owned others s
      → count b (s.block_table ++ others) ≡ 0
      → Holds a (b ∷ s.block_table ++ others)
      → Owned others (take_block (some b, a) s).1
  unfolding take_block
  Owned-take {others} {s} b a o new h = record {
    positive = o.positive;
    linked =
        ap (λ xs. xs ++ range_from (b * s.block_size) s.block_size) o.linked
        ∙ sym (slots_of-snoc s.block_size s.block_table b);
    distinct = λ c. ground (
      arith,
      o.distinct c,
      count-append c s.block_table (b ∷ []),
      count-append b s.block_table others,
    );
    holds =
        Holds-same (b ∷ s.block_table ++ others) ((s.block_table ++ b ∷ []) ++ others)
          (λ c. omega (
            arith,
            count-append c s.block_table others,
            count-append c (s.block_table ++ b ∷ []) others,
            count-append c s.block_table (b ∷ []),
          ))
          h;
  }

  Private-take :
      {others : List ℕ} {s : Paged V} (m b : ℕ) (a : Allocator)
      → count b (s.block_table ++ others) ≡ 0
      → Private others m s
      → Private others m (take_block (some b, a) s).1
  unfolding take_block
  Private-take {others} {s} m b a new p = record {
    full = p.full;
    rest = p.rest ++ b ∷ [];
    split = ap (λ t. t ++ b ∷ []) p.split ∙ append_assoc p.full p.rest (b ∷ []);
    before = p.before;
    unshared = λ c h.
        ground (
          arith,
          p.unshared c,
          count-append c p.rest (b ∷ []),
          count-append b s.block_table others,
        );
  }

  Preserves-take :
      {others : List ℕ} {s : Paged V} (m b : ℕ) (a : Allocator)
      → Owned others s
      → count b (s.block_table ++ others) ≡ 0
      → a.num_blocks ≡ s.alloc.num_blocks
      → m ≤ length s.block_table * s.block_size
      → Preserves others m s (take_block (some b, a) s).1
  unfolding take_block
  Preserves-take {others} {s} m b a o new same h = record {
    same_size = refl;
    same_layers = refl;
    same_blocks = same;
    same_tokens = refl;
    same_start = refl;
    no_gain = λ c p.
        ground (arith, count-append c s.block_table (b ∷ []), count-append b s.block_table others);
    foreign = λ side l x h. refl;
    own = λ side l k. ap (map (s.store side l)) (
        take-append_le m s.slots _
          (omega (arith, ap length o.linked, length-slots_of s.block_size s.block_table)));
  }

  Grown-zero :
      {others : List ℕ} {m : ℕ} {s : Paged V}
      → Owned others s
      → Private others m s
      → Grown others m 0 s (ok tt, s)
  Grown-zero {others} {m} {s} o p = record {
    owned = o;
    private = p;
    keeps = Preserves-refl others m s;
    all = λ h. (refl, omega arith, omega arith);
    short = λ h. absurd (omega arith);
  }

  Grown-exhausted :
      {others : List ℕ} {m : ℕ} {s : Paged V} (n : ℕ)
      → Owned others s
      → Private others m s
      → length s.alloc.free ≡ 0
      → Grown others m (suc n) s (err out_of_blocks, s)
  Grown-exhausted {others} {m} {s} n o p e = record {
    owned = o;
    private = p;
    keeps = Preserves-refl others m s;
    all = λ h. absurd (omega arith);
    short = λ h. (refl, e);
  }

  Grown-suc :
      {others : List ℕ} {m : ℕ} {s t : Paged V} (n : ℕ) (r : Result (Unit {0}) × Paged V)
      → Preserves others m s t
      → length t.block_table ≡ length s.block_table + 1
      → length s.alloc.free ≡ suc (length t.alloc.free)
      → Grown others m n t r
      → Grown others m (suc n) s r
  Grown-suc n r k more less g = record {
    owned = g.owned;
    private = g.private;
    keeps = Preserves-trans k g.keeps;
    all = λ h. let (a0, a1, a2) = g.all (omega arith) in (a0, omega arith, omega arith);
    short = λ h. g.short (omega arith);
  }

  grow_step :
      (others : List ℕ) (m n : ℕ) (s : Paged V)
      → Owned others s
      → Private others m s
      → m ≤ length s.block_table * s.block_size
      → ((t : Paged V)
          → Owned others t
          → Private others m t
          → m ≤ length t.block_table * t.block_size
          → Grown others m n t (grow n t))
      → (r : Option ℕ × Allocator) → Allocates s.alloc (s.block_table ++ others) r
      → Grown others m (suc n) s ((take_block r >> grow n) s)
  unfolding take_block
  grow_step others m n s o p h more _ (exhausted e) = Grown-exhausted n o p e
  grow_step others m n s o p h more _ (fresh b a new _ less same held) =
      let t : Paged V = (take_block (some b, a) s).1 in
      Grown-suc n (grow n t) (Preserves-take m b a o new same h)
        (length-append s.block_table (b ∷ [])) less
        (more t (Owned-take b a o new held) (Private-take m b a new p)
          (grind (arith, length-append s.block_table (b ∷ []))))

  -- `n` rounds of the loop of `_ensure_capacity`, whatever the number of free blocks.
  pub grow-Grown :
      (others : List ℕ) (m n : ℕ) (s : Paged V)
      → Owned others s
      → Private others m s
      → m ≤ length s.block_table * s.block_size
      → Grown others m n s (grow n s)
  unfolding grow
  grow-Grown others m zero s o p h = Grown-zero o p
  grow-Grown others m (suc n) s o p h =
      grow_step others m n s o p h (grow-Grown others m n) (allocate s.alloc)
        (allocate-Allocates s.alloc (s.block_table ++ others) o.holds)
