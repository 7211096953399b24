-- ===== src/Prefix/Insert.antt =====
-- `insert` of engine/prefix_cache.py: a sequence's full blocks enter the cache under their hashes.
use nanoserve.Prelude.{
  ==→eq, Bool-cases, List, Option, [], ap, arith, count, count-append, false, if_false, if_true,
  if◌then◌else◌, inl, inr, none, refl, some, ℕ, ◌++◌, ◌+◌, ◌<◌, ◌==◌, ◌∙◌, ◌∷◌, ◌≡◌,
}
use nanoserve.Exec.{ok, ◌>>=◌, bind_run}
use nanoserve.Dict.{
  get, put, has, keys_of, keys_of-append, vals_of-append, put_new, get-count, get-put, has-count,
  count_keys-put,
}
use nanoserve.Allocator.{Allocator, incref}
use nanoserve.Allocator.Invariant.{Holds, Holds-same}
use nanoserve.Allocator.Owns.{incref-Holds}
use nanoserve.Prefix.{
  Prefix, Entry, touch, on_pool, add_entry, insert_entry, insert_loop, insert, hash_chain,
  root_hash, count_entries,
}
use nanoserve.Prefix.Invariant.{Valid, touch-Valid, block_at, blocks_of, stamps_of}
use nanoserve.Prefix.Match.{block_at-put}

module _ {V : Type 0} where
  -- Keys only come: what was cached is cached under the same block.
  pub record Inserted (others : List ℕ) (s t : Prefix V) : Type 0 where
    pub valid : Valid others t
    pub kept : (h b : ℕ) → block_at h s.entries ≡ some b → block_at h t.entries ≡ some b
    pub same_free : t.alloc.free ≡ s.alloc.free
    pub same_store : t.store ≡ s.store
    pub same_size : t.block_size ≡ s.block_size

  Inserted-none : {others : List ℕ} {s : Prefix V} → Valid others s → Inserted others s s
  Inserted-none v = record {
    valid = v;
    kept = λ h b e. e;
    same_free = refl;
    same_store = refl;
    same_size = refl;
  }

  Inserted-trans :
      {others : List ℕ} {s t u : Prefix V}
      → Inserted others s t
      → Inserted others t u
      → Inserted others s u
  Inserted-trans p q = record {
    valid = q.valid;
    kept = λ h b e. q.kept h b (p.kept h b e);
    same_free = q.same_free ∙ p.same_free;
    same_store = q.same_store ∙ p.same_store;
    same_size = q.same_size ∙ p.same_size;
  }

  Inserted-touch :
      {others : List ℕ} {s : Prefix V} (h : ℕ) (e : Entry)
      → get h s.entries ≡ some e
      → Valid others s
      → Inserted others s (touch h e s)
  unfolding touch
  Inserted-touch {others} {s} h e found v = record {
    valid = touch-Valid h e found v;
    kept = λ j b at.
        block_at-put h j e (record e { last_used = s.clock + 1 }) s.entries found refl ∙ at;
    same_free = refl;
    same_store = refl;
    same_size = refl;
  }

  add-Valid :
      (others : List ℕ) (s : Prefix V) (h parent depth block : ℕ) (a : Allocator)
      → get h s.entries ≡ none
      → has block s.by_block ≡ false
      → Holds a (block ∷ blocks_of s.entries ++ others)
      → Valid others s
      → Valid others
          (add_entry h parent depth block (record s { pool = record s.pool { alloc = a } }))
  add-Valid others s h parent depth block a missing new held v = record {
    holds =
        Holds-same (block ∷ blocks_of s.entries ++ others) (blocks_of (put h e s.entries) ++ others)
          (λ b. omega (
            arith,
            blocks b,
            count-append b (blocks_of s.entries) others,
            count-append b (blocks_of (put h e s.entries)) others,
          ))
          held;
    keys = λ k. ground (arith, keys k, v.keys k, get-count h s.entries missing);
    distinct =
        λ b. ground (arith, blocks b, v.distinct b, v.indexed block, has-count block s.by_block);
    indexed = λ b. ground (arith, blocks b, v.indexed b, count_keys-put b block h s.by_block);
    stamps = λ t. ground (arith, stamps t, v.stamps t, v.recent t);
    recent = λ t late. ground (arith, stamps t, v.recent t);
  }
    where
      e : Entry
      e = record { block_id = block; parent_hash = parent; last_used = s.clock + 1; depth = depth }

      fresh : put h e s.entries ≡ s.entries ++ (h, e) ∷ []
      fresh = put_new h e s.entries (get-count h s.entries missing)

      blocks :
          (b : ℕ)
          → count b (blocks_of (put h e s.entries))
            ≡ count b (blocks_of s.entries) + (if block == b then 1 else 0)
      blocks b = omega (
        arith,
        ap (λ d. count b (blocks_of d)) fresh,
        ap (count b) (vals_of-append (λ (x : Entry). x.block_id) s.entries ((h, e) ∷ [])),
        count-append b (blocks_of s.entries) (block ∷ []),
      )

      stamps :
          (t : ℕ)
          → count t (stamps_of (put h e s.entries))
            ≡ count t (stamps_of s.entries) + (if (s.clock + 1) == t then 1 else 0)
      stamps t = omega (
        arith,
        ap (λ d. count t (stamps_of d)) fresh,
        ap (count t) (vals_of-append (λ (x : Entry). x.last_used) s.entries ((h, e) ∷ [])),
        count-append t (stamps_of s.entries) ((s.clock + 1) ∷ []),
      )

      keys :
          (k : ℕ)
          → count k (keys_of (put h e s.entries))
            ≡ count k (keys_of s.entries) + (if h == k then 1 else 0)
      keys k = omega (
        arith,
        ap (λ d. count k (keys_of d)) fresh,
        ap (count k) (keys_of-append s.entries ((h, e) ∷ [])),
        count-append k (keys_of s.entries) (h ∷ []),
      )

  kept-put :
      (s : Prefix V) (h : ℕ) (e : Entry) (j b : ℕ)
      → get h s.entries ≡ none
      → block_at j s.entries ≡ some b
      → block_at j (put h e s.entries) ≡ some b
  unfolding block_at
  kept-put s h e j b missing at = ground (arith, get-put h j e s.entries, ==→eq h j)

  add-Inserted :
      (others : List ℕ) (s : Prefix V) (h parent depth block : ℕ)
      → get h s.entries ≡ none
      → has block s.by_block ≡ false
      → 0 < count block others
      → Valid others s
      → (t : Prefix V) × ((on_pool (incref block) >>= λ _ s'.
              (ok tt, add_entry h parent depth block s'))
            s
          ≡ (ok tt, t))
        × Inserted others s t
  unfolding on_pool
  add-Inserted others s h parent depth block missing new held v =
      let (a, run, h', free, _) =
        incref-Holds block (blocks_of s.entries ++ others) v.holds
          (omega (arith, count-append block (blocks_of s.entries) others)) in
      (
        add_entry h parent depth block (record s { pool = record s.pool { alloc = a } }),
        rw run refl,
        record {
          valid = add-Valid others s h parent depth block a missing new h' v;
          kept = λ j b at. kept-put s h _ j b missing at;
          same_free = free;
          same_store = refl;
          same_size = refl;
        },
      )

  insert_entry-Inserted :
      (others : List ℕ) (s : Prefix V) (h parent depth block : ℕ) (o : Option Entry)
      → get h s.entries ≡ o
      → 0 < count block others
      → Valid others s
      → (t : Prefix V) × (insert_entry h parent depth block o s ≡ (ok tt, t)) × Inserted others s t
  unfolding insert_entry
  insert_entry-Inserted others s h parent depth block (some e) found held v =
      (touch h e s, refl, Inserted-touch h e found v)
  insert_entry-Inserted others s h parent depth block none missing held v =
      elim (Bool-cases (has block s.by_block)) [
        | inl old ↦ (s, if_true _ _ _ old, Inserted-none v)
        | inr new ↦
            let (t, run, p) = add-Inserted others s h parent depth block missing new held v in
            (t, if_false _ _ _ new ∙ run, p)
      ]

  insert_loop-Inserted :
      (hs : List ℕ) (parent depth : ℕ) (table others : List ℕ) (s : Prefix V)
      → ((b : ℕ) → 0 < count b table → 0 < count b others)
      → Valid others s
      → (t : Prefix V) × (insert_loop hs parent depth table s ≡ (ok tt, t)) × Inserted others s t
  unfolding insert_loop
  insert_loop-Inserted [] parent depth table others s held v = (s, refl, Inserted-none v)
  insert_loop-Inserted (h ∷ hs) parent depth [] others s held v = (s, refl, Inserted-none v)
  insert_loop-Inserted (h ∷ hs) parent depth (block ∷ table) others s held v =
      let (t, run, p) =
        insert_entry-Inserted others s h parent depth block (get h s.entries) refl
          (held block (ground arith)) v in
      let (u, rest, q) =
        insert_loop-Inserted hs h (depth + 1) table others t (λ b k. held b (omega arith))
          p.valid in
      (
        u,
        bind_run (insert_entry h parent depth block (get h s.entries))
              (λ _. insert_loop hs h (depth + 1) table) s t tt run
            ∙ rest,
        Inserted-trans p q,
      )

  -- On a valid cache `insert` of a held table never raises. The cache stays valid, every key that was
  -- cached keeps its block, and no block is taken from the free list or written.
  pub insert-Inserted :
      (hash : ℕ → List ℕ → ℕ) (tokens table others : List ℕ) (s : Prefix V)
      → ((b : ℕ) → 0 < count b table → 0 < count b others)
      → Valid others s
      → (t : Prefix V) × (insert hash tokens table s ≡ (ok tt, t)) × Inserted others s t
  unfolding insert
  insert-Inserted hash tokens table others s held v = elim (Bool-cases s.enabled) [
    | inr off ↦ (s, if_false _ _ _ off, Inserted-none v)
    | inl on ↦
        let hs = hash_chain hash root_hash s.block_size tokens in
        let (t, run, p) = insert_loop-Inserted hs root_hash 0 table others s held v in
        (
          count_entries t,
          if_true _ _ _ on
              ∙ bind_run (insert_loop hs root_hash 0 table) (λ _ s'. (ok tt, count_entries s')) s t
                  tt run,
          record {
            valid = record {
              holds = p.valid.holds;
              keys = p.valid.keys;
              distinct = p.valid.distinct;
              indexed = p.valid.indexed;
              stamps = p.valid.stamps;
              recent = p.valid.recent;
            };
            kept = p.kept;
            same_free = p.same_free;
            same_store = p.same_store;
            same_size = p.same_size;
          },
        )
  ]
