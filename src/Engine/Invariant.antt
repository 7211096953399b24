-- ===== src/Engine/Invariant.antt =====
-- What holds of an engine (engine/scheduler.py) between two steps, and what the end of one sequence
-- gives back.
use nanoserve.Prelude.{List, [], arith, count, count-append, refl, ℕ, ◌++◌, ◌+◌, ◌<◌, ◌∷◌, ◌≡◌}
use nanoserve.Exec.{ok}
use nanoserve.Allocator.{Allocator}
use nanoserve.Allocator.Invariant.{Holds-same}
use nanoserve.Paged.{Paged}
use nanoserve.Paged.Invariant.{Owned}
use nanoserve.Paged.Share.{free_run}
use nanoserve.Prefix.Invariant.{Valid, blocks_of}
use nanoserve.Batch.Need.{tables}
use nanoserve.Batch.Step.{Fit}
use nanoserve.Batch.Prepare.{AllFit}
use nanoserve.Engine.{caches_of, Sequence, Engine, free_cache}

abbrev pub held_by : List Sequence → List ℕ
held_by qs = tables (caches_of qs)

module _ {V : Type 0} where
  -- The blocks of the pool are held by the running sequences and by the prefix cache, and by
  -- nobody else.
  pub record Served (s : Engine V) : Type 0 where
    pub positive : 0 < s.prefix.block_size
    pub fit : AllFit s.prefix.block_size (caches_of s.running)
    pub valid : Valid (held_by s.running) s.prefix

  abbrev pub with_pool : Allocator → Engine V → Engine V
  with_pool a s = record s {
    prefix = record s.prefix { pool = record s.prefix.pool { alloc = a } };
  }

count-held_by :
    (b : ℕ) (front : List Sequence) (q : Sequence) (back : List Sequence)
    → count b (held_by (front ++ q ∷ back))
      ≡ count b q.cache.block_table + count b (held_by (front ++ back))
count-held_by b [] q back = count-append b q.cache.block_table (held_by back)
count-held_by b (r ∷ front) q back = omega (
  arith,
  count-append b r.cache.block_table (held_by (front ++ q ∷ back)),
  count-append b r.cache.block_table (held_by (front ++ back)),
  count-held_by b front q back,
)

pub AllFit-one :
    (bs : ℕ) (front : List Sequence) (q : Sequence) (back : List Sequence)
    → AllFit bs (caches_of (front ++ q ∷ back))
    → Fit bs q.cache × AllFit bs (caches_of (front ++ back))
AllFit-one bs [] q back f = f
AllFit-one bs (r ∷ front) q back (f, fs) =
    let (g, gs) = AllFit-one bs front q back fs in (g, (f, gs))

module _ {V : Type 0} where
  -- Freeing one running sequence succeeds; what is then held is what the others and the prefix
  -- cache hold.
  pub free_cache-Valid :
      (front : List Sequence) (q : Sequence) (back : List Sequence) (s : Engine V)
      → 0 < s.prefix.block_size
      → Fit s.prefix.block_size q.cache
      → Valid (held_by (front ++ q ∷ back)) s.prefix
      → (a : Allocator) × (free_cache q.cache s ≡ (ok tt, with_pool a s))
        × Valid (held_by (front ++ back)) (with_pool a s).prefix
  unfolding free_cache
  free_cache-Valid front q back s pos f v =
      let rest = held_by (front ++ back) in
      let others = blocks_of s.prefix.entries ++ rest in
      let p : Paged V = record { pool = s.prefix.pool; cache = q.cache } in
      let o : Owned others p = record {
        positive = pos;
        linked = f.linked;
        distinct = f.distinct;
        holds =
            Holds-same (blocks_of s.prefix.entries ++ held_by (front ++ q ∷ back))
              (q.cache.block_table ++ others)
              (λ b. omega (
                arith,
                count-held_by b front q back,
                count-append b (blocks_of s.prefix.entries) (held_by (front ++ q ∷ back)),
                count-append b q.cache.block_table others,
                count-append b (blocks_of s.prefix.entries) rest,
              ))
              v.holds;
      } in
      let (a, run, h) = free_run others p o in
      (
        a,
        rw run refl,
        record {
          holds = h;
          keys = v.keys;
          distinct = v.distinct;
          indexed = v.indexed;
          stamps = v.stamps;
          recent = v.recent;
        },
      )
