-- ===== src/Paged/Share.antt =====
-- `fork` and `free` of engine/block_manager.py: sharing a table, and giving its blocks back.
use nanoserve.Prelude.{List, [], arith, count, count-append, refl, ℕ, ◌++◌, ◌<◌, ◌∙◌, ◌∷◌, ◌≡◌}
use nanoserve.Exec.{ok, for_each}
use nanoserve.Allocator.{Allocator, incref}
use nanoserve.Allocator.Invariant.{Holds, Holds-same}
use nanoserve.Allocator.Owns.{incref-Holds, decref-Holds}
use nanoserve.Paged.{Side, Cache, Paged, on_alloc, drop_block, fork, free}
use nanoserve.Paged.Invariant.{Owned, Tight}

module _ {V : Type 0} where
  abbrev pub with_alloc : Allocator → Paged V → Paged V
  with_alloc a s = record s { pool = record s.pool { alloc = a } }

  -- The loop of `fork`: one more reference on each block of the table.
  share_all :
      (bs held : List ℕ) (s : Paged V)
      → Holds s.alloc held
      → ((b : ℕ) → 0 < count b bs → 0 < count b held)
      → (a : Allocator) × (for_each (λ block. on_alloc (incref block)) bs s
          ≡ (ok tt, with_alloc a s))
        × Holds a (bs ++ held)
        × (a.free ≡ s.alloc.free)
  unfolding for_each on_alloc
  share_all [] held s h all = (s.alloc, refl, h, refl)
  share_all (b ∷ bs) held s h all =
      let (a, run, h', free, _) = incref-Holds b held h (all b (ground arith)) in
      let (a', rest, h'', free') =
        share_all bs (b ∷ held) (with_alloc a s) h' (λ c p. omega (arith, all c (omega arith))) in
      (
        a',
        rw run rest,
        Holds-same (bs ++ b ∷ held) (b ∷ bs ++ held)
            (λ c. omega (arith, count-append c bs (b ∷ held), count-append c bs held)) h'',
        free' ∙ free,
      )

  -- The loop of `free`: each reference of the table is given back.
  drop_all :
      (bs held : List ℕ) (s : Paged V)
      → Holds s.alloc (bs ++ held)
      → (a : Allocator) × (for_each drop_block bs s ≡ (ok tt, with_alloc a s))
        × Holds a held
        × (a.num_blocks ≡ s.alloc.num_blocks)
  unfolding for_each on_alloc
  drop_all [] held s h = (s.alloc, refl, h, refl)
  drop_all (b ∷ bs) held s h =
      let (a, run, h', _, same) = decref-Holds b (bs ++ held) h in
      let (a', rest, h'', same') = drop_all bs held (with_alloc a s) h' in
      (a', rw run rest, h'', same' ∙ same)

  -- `fork` copies nothing: the parent keeps its state, the child has the same table, tokens and
  -- slots, no block is taken from the free list, and each block of the table has one more holder.
  -- So each of the two still owns its table, beside the other's.
  pub fork-Owned :
      (others : List ℕ) (s : Paged V)
      → Owned others s
      → (child : Cache) × (a : Allocator) × (fork s ≡ (ok child, with_alloc a s))
        × (child.num_tokens ≡ s.num_tokens)
        × (child.block_table ≡ s.block_table)
        × (child.slots ≡ s.slots)
        × (a.free ≡ s.alloc.free)
        × Owned (s.block_table ++ others) (with_alloc a s)
        × Owned (s.block_table ++ others) (record { pool = (with_alloc a s).pool; cache = child })
  unfolding fork
  fork-Owned others s o =
      let (a, run, h, same) =
        share_all s.block_table (s.block_table ++ others) s o.holds
          (λ b p. omega (arith, count-append b s.block_table others)) in
      (
        record {
          block_table = s.block_table;
          num_tokens = s.num_tokens;
          start = 0;
          slots = s.slots;
        },
        a,
        rw run refl,
        refl,
        refl,
        refl,
        same,
        record { positive = o.positive; linked = o.linked; distinct = o.distinct; holds = h },
        record { positive = o.positive; linked = o.linked; distinct = o.distinct; holds = h },
      )

  abbrev pub emptied : Allocator → Paged V → Paged V
  emptied a s = record (with_alloc a s) {
    cache = record s.cache { block_table = []; num_tokens = 0; slots = [] };
  }

  pub free_run :
      (others : List ℕ) (s : Paged V)
      → Owned others s
      → (a : Allocator) × (free s ≡ (ok tt, emptied a s)) × Holds a others
  unfolding free
  free_run others s o =
      let (a, run, h, _) = drop_all s.block_table others s o.holds in (a, rw run refl, h)

  -- `free` never raises on a cache that owns its table, gives back exactly that table's
  -- references, and leaves an empty cache; a second `free` changes nothing more.
  pub free-Owned :
      (others : List ℕ) (s : Paged V)
      → Owned others s
      → (t : Paged V) × (free s ≡ (ok tt, t))
        × Holds t.alloc others
        × Owned others t
        × Tight t
        × (t.block_table ≡ [])
        × (t.num_tokens ≡ 0)
        × ((side : Side) → t.store side ≡ s.store side)
        × (free t ≡ (ok tt, t))
  unfolding free for_each
  free-Owned others s o =
      let (a, run, h) = free_run others s o in
      (
        emptied a s,
        run,
        h,
        record { positive = o.positive; linked = refl; distinct = λ b. omega arith; holds = h },
        record { enough = omega arith; snug = omega (arith, o.positive) },
        refl,
        refl,
        λ side. refl,
        refl,
      )
