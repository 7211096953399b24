-- ===== src/Prefill/Run.antt =====
-- `_prefill` of engine/scheduler.py keeps the pool's accounts, and reads what it reuses.
use nanoserve.Prelude.{
  Bool-cases, Distinct, List, [], ap, ap₂, arith, count, count-append, drop, if_true, inl, inr,
  length, length-drop, length-take, refl, subst, sym, take, true, ℕ, ◌%◌, ◌*◌, ◌++◌, ◌+◌, ◌-◌, ◌/◌,
  ◌<◌, ◌==◌, ◌∙◌, ◌≡◌, ◌≤◌,
}
use native.Mathlib.Nat.{mul-le-mul_right, mul-mod_left}
use nanoserve.Exec.{Result, ok, ◌>>=◌, bind_run}
use nanoserve.Allocator.Invariant.{Holds-same}
use nanoserve.Paged.{Side, Pool, Cache, Paged, ceil_div, empty_cache}
use nanoserve.Paged.Invariant.{Owned, Tight}
use nanoserve.Paged.Unshare.{copies_needed}
use nanoserve.Paged.Extend.{blocks_needed}
use nanoserve.Prefix.{Prefix, match, insert, hash_chain, root_hash}
use nanoserve.Prefix.Invariant.{Valid, blocks_of}
use nanoserve.Prefix.Match.{Matched, Matched-nil, longest, match-Matched}
use nanoserve.Prefix.Insert.{insert-Inserted}
use nanoserve.Batch.Step.{Fit}
use nanoserve.Model.{Network, embed_rows, dynamic_layers, paged_layers, heads}
use nanoserve.Model.Split.{length-embed_rows}
use nanoserve.Model.Paging.{view, paged_layers-dynamic_layers}
use nanoserve.Prefill.{Filling, on_prefix, on_paged, attached, run_suffix, register, prefill}
use nanoserve.Prefill.Attach.{seeded_with, attached_run}
use nanoserve.Prefill.Reuse.{longest-Distinct, length-longest, length-hash_chain}

module _ {V : Type 0} where
  -- The blocks reused for a prompt whose keys are distinct.
  pub record Reused (hash : ℕ → List ℕ → ℕ) (tokens others : List ℕ) (s : Prefix V) (found : List ℕ)
      (t : Prefix V) : Type 0 where
    pub run : match hash tokens s ≡ (ok found, t)
    pub matched : Matched others s found t
    pub distinct : Distinct found
    pub short : length found * s.block_size ≤ length tokens

  reuse :
      (hash : ℕ → List ℕ → ℕ) (tokens others : List ℕ) (s : Prefix V)
      → Valid others s
      → Distinct (hash_chain hash root_hash s.block_size tokens)
      → (found : List ℕ) × (t : Prefix V) × Reused hash tokens others s found t
  reuse hash tokens others s v keys = elim (Bool-cases s.enabled) [
    | inl on ↦
        let hs = hash_chain hash root_hash s.block_size tokens in
        let (t, run, m) = (match-Matched hash others tokens s v).1 on in
        (
          longest hs s.entries,
          t,
          record {
            run = run;
            matched = m;
            distinct = longest-Distinct hs s.entries v.distinct keys;
            short = omega (
              arith,
              mul-le-mul_right s.block_size (length-longest hs s.entries),
              length-hash_chain hash root_hash s.block_size tokens,
            );
          },
        )
    | inr off ↦ (
      [],
      s,
      record {
        run = (match-Matched hash others tokens s v).0 off;
        matched = Matched-nil v;
        distinct = λ b. omega arith;
        short = omega arith;
      },
    )
  ]

  seeded-Owned :
      (others found : List ℕ) (t : Prefix V)
      → 0 < t.block_size
      → Distinct found
      → Valid (found ++ others) t
      → Owned
          (blocks_of t.entries ++ others)
          (record { pool = t.pool; cache = seeded_with t.block_size found })
  seeded-Owned others found t pos d v = record {
    positive = pos;
    linked = refl;
    distinct = d;
    holds =
        Holds-same (blocks_of t.entries ++ (found ++ others))
          (found ++ (blocks_of t.entries ++ others))
          (λ b. omega (
            arith,
            count-append b (blocks_of t.entries) (found ++ others),
            count-append b found others,
            count-append b found (blocks_of t.entries ++ others),
            count-append b (blocks_of t.entries) others,
          ))
          v.holds;
  }

  -- Whole blocks need no copy, and the prompt's blocks are enough for the rest.
  seeded_need :
      (found : List ℕ) (p : Pool V) (n : ℕ)
      → blocks_needed n (record { pool = p; cache = seeded_with p.block_size found })
        ≡ ceil_div (length found * p.block_size + n) p.block_size - length found
  unfolding blocks_needed copies_needed
  seeded_need found p n =
      ap (λ k. k + (ceil_div (length found * p.block_size + n) p.block_size - length found))
        (if_true ((length found * p.block_size) % p.block_size == 0) _ _
          (whole (mul-mod_left (length found) p.block_size)))
      ∙ omega arith
    where
      whole :
          (length found * p.block_size) % p.block_size ≡ 0
          → ((length found * p.block_size) % p.block_size == 0) ≡ true
      whole e = ground (arith, e)

module _ {H V L : Type 0} (net : Network H V L) where
  run_suffix_run :
      (ids : List ℕ) (n : ℕ) (s t : Paged V) (rows : List (ℕ × H))
      → paged_layers net s.num_layers 0 (embed_rows net (drop n ids) n) s ≡ (ok rows, t)
      → run_suffix net ids n s ≡ (ok (heads net rows), t)
  unfolding run_suffix
  run_suffix_run ids n s t rows e =
      bind_run (paged_layers net s.num_layers 0 (embed_rows net (drop n ids) n))
        (λ r s'. (ok (heads net r), s')) s t rows e

  -- What a prefill leaves: the new cache and the prefix cache.
  pub record Prefilled (ids others : List ℕ) (s : Prefix V) (c : Cache) (p : Prefix V)
      : Type 0 where
    pub same_size : p.block_size ≡ s.block_size
    pub fit : Fit p.block_size c
    pub tokens : c.num_tokens ≡ length ids
    pub valid : Valid (c.block_table ++ others) p
    pub foreign :
        (side : Side) (l x : ℕ)
        → 0 < count (x / s.block_size) others
        → p.store side l x ≡ s.store side l x

  module _ (hash : ℕ → List ℕ → ℕ) where
    -- The steps of `_prefill`, one after the other.
    prefill_run :
        (ids found : List ℕ) (s t p : Prefix V) (u : Paged V) (rows : List (ℕ × H))
        → match hash (take (length ids - 1) ids) s ≡ (ok found, t)
        → run_suffix net ids
            (length found * t.block_size)
            (record { pool = t.pool; cache = seeded_with t.block_size found })
          ≡ (ok (heads net rows), u)
        → insert hash ids u.block_table (record t { pool = u.pool }) ≡ (ok tt, p)
        → prefill net hash ids (record { prefix = s; cache = empty_cache })
          ≡ (ok (heads net rows), record { prefix = p; cache = u.cache })
    unfolding prefill
    prefill_run ids found s t p u rows m r i =
        let n = length found * t.block_size in
        let s0 : Filling V = record { prefix = s; cache = empty_cache } in
        let s1 : Filling V = record { prefix = t; cache = empty_cache } in
        let s2 : Filling V = record { prefix = t; cache = seeded_with t.block_size found } in
        let s3 : Filling V = record { prefix = record t { pool = u.pool }; cache = u.cache } in
        let last = λ (logits : List L). register net hash ids logits in
        let suffix = λ (n_cached : ℕ). on_paged (run_suffix net ids n_cached) >>= last in
        bind_run (on_prefix (match hash (take (length ids - 1) ids)))
          (λ blocks. on_paged (attached blocks) >>= suffix) s0 s1 found
          (ap (λ (x : Result (List ℕ) × Prefix V). (x.0, record s0 { prefix = x.1 })) m)
        ∙ bind_run (on_paged (attached found)) suffix s1 s2 n (
            ap
              (λ (x : Result ℕ × Paged V).
                (x.0, record { prefix = record t { pool = x.1.pool }; cache = x.1.cache }))
              (attached_run found t.pool))
        ∙ bind_run (on_paged (run_suffix net ids n)) last s2 s3 (heads net rows) (
            ap
              (λ (x : Result (List L) × Paged V).
                (x.0, record { prefix = record t { pool = x.1.pool }; cache = x.1.cache }))
              r)
        ∙ bind_run (on_prefix (insert hash ids u.block_table)) (λ _ s'. (ok (heads net rows), s'))
            s3 (record { prefix = p; cache = u.cache }) tt
            (ap (λ (x : Result (Unit {0}) × Prefix V). (x.0, record s3 { prefix = x.1 })) i)

    -- On a valid prefix cache, for a prompt that is not empty, whose keys are distinct and whose
    -- blocks are free: `_prefill` of a new cache never raises and returns the logits that the part
    -- of the prompt that is not reused gives over the rows that are; the new cache has all tokens of
    -- the prompt in its own table; the prefix cache is valid with the new sequence and the `others`;
    -- and the blocks of the others hold what they held.
    pub prefill-Prefilled :
        (ids others : List ℕ) (s : Prefix V)
        → Valid others s
        → 0 < s.block_size
        → 0 < s.num_layers
        → 0 < length ids
        → Distinct (hash_chain hash root_hash s.block_size (take (length ids - 1) ids))
        → ceil_div (length ids) s.block_size ≤ length s.alloc.free
        → (found : List ℕ) × (t : Prefix V) × (p : Prefix V) × (c : Cache) × Reused hash
            (take (length ids - 1) ids)
            others
            s
            found
            t
          × (prefill net hash ids (record { prefix = s; cache = empty_cache }) ≡ (
            ok (
                heads net
                  (dynamic_layers net t.num_layers 0
                    (embed_rows net
                      (drop (length found * t.block_size) ids)
                      (length found * t.block_size))
                    (view (record { pool = t.pool; cache = seeded_with t.block_size found }))).0),
            record { prefix = p; cache = c },
          ))
          × Prefilled ids others s c p
    prefill-Prefilled ids others s v pos layers some_tokens keys room =
        let (found, t, re) = reuse hash (take (length ids - 1) ids) others s v keys in
        let m = re.matched in
        let n = length found * t.block_size in
        let rows = embed_rows net (drop n ids) n in
        let q : Paged V = record { pool = t.pool; cache = seeded_with t.block_size found } in
        let left : length rows ≡ length ids - n =
          length-embed_rows net (drop n ids) n ∙ length-drop n ids in
        let before : n ≤ length ids - 1 = omega (
          arith,
          re.short,
          ap (λ b. length found * b) m.same_size,
          length-take (length ids - 1) ids,
        ) in
        let same_need : ceil_div (n + length rows) t.block_size
            ≡ ceil_div (length ids) s.block_size =
          ap₂ ceil_div (omega (arith, left, before, some_tokens)) m.same_size in
        let owned =
          seeded-Owned others found t (omega (arith, m.same_size, pos)) re.distinct m.valid in
        let tight : Tight q = record {
          enough = omega arith;
          snug = omega (arith, m.same_size, pos);
        } in
        let (u, run, seen, owned', tight', tokens, size, foreign) =
          paged_layers-dynamic_layers net (blocks_of t.entries ++ others) rows q owned tight
            (omega (arith, m.same_layers, layers))
            (omega (
              arith,
              seeded_need found t.pool (length rows),
              same_need,
              room,
              ap length m.same_free,
            )) in
        let out = (dynamic_layers net t.num_layers 0 rows (view q)).0 in
        let held : Valid (u.block_table ++ others) (record t { pool = u.pool }) = record {
          holds =
              Holds-same (u.block_table ++ (blocks_of t.entries ++ others))
                (blocks_of t.entries ++ (u.block_table ++ others))
                (λ b. omega (
                  arith,
                  count-append b u.block_table (blocks_of t.entries ++ others),
                  count-append b (blocks_of t.entries) others,
                  count-append b (blocks_of t.entries) (u.block_table ++ others),
                  count-append b u.block_table others,
                ))
                owned'.holds;
          keys = m.valid.keys;
          distinct = m.valid.distinct;
          indexed = m.valid.indexed;
          stamps = m.valid.stamps;
          recent = m.valid.recent;
        } in
        let (p, insertion, ins) =
          insert-Inserted hash ids u.block_table (u.block_table ++ others)
            (record t { pool = u.pool })
            (λ b k. omega (arith, k, count-append b u.block_table others)) held in
        (
          found,
          t,
          p,
          u.cache,
          re,
          prefill_run ids found s t p u out re.run (run_suffix_run ids n q u out run) insertion,
          record {
            same_size = ins.same_size ∙ size ∙ m.same_size;
            fit =
                subst (λ b. Fit b u.cache) (sym ins.same_size)
                  (record {
                    linked = owned'.linked;
                    distinct = owned'.distinct;
                    enough = tight'.enough;
                    snug = tight'.snug;
                  });
            tokens = omega (arith, tokens, left, before, some_tokens);
            valid = ins.valid;
            foreign = λ side l x k.
                ap (λ (f : Side → ℕ → ℕ → V). f side l x) ins.same_store
                ∙ foreign side l x (
                    subst (λ b. 0 < count (x / b) (blocks_of t.entries ++ others)) (sym m.same_size)
                      (omega
                        (arith, k, count-append (x / s.block_size) (blocks_of t.entries) others)))
                ∙ ap (λ (f : Side → ℕ → ℕ → V). f side l x) m.same_store;
          },
        )
