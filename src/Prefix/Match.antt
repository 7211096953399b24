-- ===== src/Prefix/Match.antt =====
-- `match` of engine/prefix_cache.py: the longest cached prefix, with a reference on each block.
use nanoserve.Prelude.{
  ==→eq, List, Option, Option-cases, [], ap, arith, count, count-append, false, if_true, inl, inr,
  length, none, refl, some, subst, true, ℕ, ◌++◌, ◌+◌, ◌<◌, ◌∙◌, ◌∷◌, ◌≡◌,
}
use nanoserve.Exec.{ok, ◌>>=◌, bind_run, Exec}
use nanoserve.Dict.{get, put, get-put}
use nanoserve.Allocator.{incref}
use nanoserve.Allocator.Invariant.{Holds-same}
use nanoserve.Allocator.Owns.{incref-Holds}
use nanoserve.Prefix.{
  Prefix, Entry, touch, match_loop, match_entry, returns, match, hash_chain, root_hash, on_pool,
  count_query, count_hits,
}
use nanoserve.Prefix.Invariant.{Valid, Valid-same, touch-Valid, block_at, blocks_of}

unfoldable pub while_found : Option ℕ → List ℕ → List ℕ
while_found none rest = []
while_found (some b) rest = b ∷ rest

-- The blocks under the leading keys, up to the first that is missing.
unfoldable pub longest : List ℕ → List (ℕ × Entry) → List ℕ
unfolding while_found
longest [] d = []
longest (h ∷ hs) d = let rest = longest hs d in while_found (block_at h d) rest

pub block_at-put :
    (h j : ℕ) (e e' : Entry) (d : List (ℕ × Entry))
    → get h d ≡ some e
    → e'.block_id ≡ e.block_id
    → block_at j (put h e' d) ≡ block_at j d
unfolding block_at
block_at-put h j e e' d found same = ground (arith, get-put h j e' d, ==→eq h j)

longest-put :
    (hs : List ℕ) (h : ℕ) (e e' : Entry) (d : List (ℕ × Entry))
    → get h d ≡ some e
    → e'.block_id ≡ e.block_id
    → longest hs (put h e' d) ≡ longest hs d
unfolding longest
longest-put [] h e e' d found same = refl
longest-put (j ∷ hs) h e e' d found same =
    ground (arith, block_at-put h j e e' d found same, longest-put hs h e e' d found same)

pub count_of_get :
    (h : ℕ) (e : Entry) (d : List (ℕ × Entry))
    → get h d ≡ some e
    → 0 < count e.block_id (blocks_of d)
unfolding get
count_of_get h e [] found = cc
count_of_get h e ((j, x) ∷ d) found = ground (arith, count_of_get h e d)

module _ {V : Type 0} where
  -- What `match` leaves: the entries are the same but for the ticks, and the caller holds `found`.
  pub record Matched (others : List ℕ) (s : Prefix V) (found : List ℕ) (t : Prefix V) : Type 0 where
    pub valid : Valid (found ++ others) t
    pub same_blocks : (h : ℕ) → block_at h t.entries ≡ block_at h s.entries
    pub same_free : t.alloc.free ≡ s.alloc.free
    pub same_store : t.store ≡ s.store
    pub same_size : t.block_size ≡ s.block_size
    pub same_layers : t.num_layers ≡ s.num_layers

  pub Matched-nil : {others : List ℕ} {s : Prefix V} → Valid others s → Matched others s [] s
  Matched-nil v = record {
    valid = v;
    same_blocks = λ h. refl;
    same_free = refl;
    same_store = refl;
    same_size = refl;
    same_layers = refl;
  }

  -- One step: the entry is touched, and its block gets a reference.
  incref_entry :
      (others : List ℕ) (s : Prefix V) (h : ℕ) (e : Entry)
      → get h s.entries ≡ some e
      → Valid others s
      → (t : Prefix V) × (on_pool (incref e.block_id) (touch h e s) ≡ (ok tt, t))
        × (t.entries ≡ (touch h e s).entries)
        × Matched others s (e.block_id ∷ []) t
  unfolding on_pool touch
  incref_entry others s h e found v =
      let s' = touch h e s in
      let v' = touch-Valid h e found v in
      let stored : get h s'.entries ≡ some (record e { last_used = s.clock + 1 }) =
        ground (arith, get-put h h (record e { last_used = s.clock + 1 }) s.entries) in
      let held = blocks_of s'.entries ++ others in
      let (a, run, h', free, _) = incref-Holds e.block_id held v'.holds (
        ground (
          arith,
          count-append e.block_id (blocks_of s'.entries) others,
          count_of_get h (record e { last_used = s.clock + 1 }) s'.entries stored,
        )) in
      (
        record s' { pool = record s'.pool { alloc = a } },
        rw run refl,
        refl,
        record {
          valid = record {
            holds =
                Holds-same (e.block_id ∷ held) (blocks_of s'.entries ++ e.block_id ∷ others)
                  (λ b. omega (
                    arith,
                    count-append b (blocks_of s'.entries) others,
                    count-append b (blocks_of s'.entries) (e.block_id ∷ others),
                  ))
                  h';
            keys = v'.keys;
            distinct = v'.distinct;
            indexed = v'.indexed;
            stamps = v'.stamps;
            recent = v'.recent;
          };
          same_blocks =
              λ j. block_at-put h j e (record e { last_used = s.clock + 1 }) s.entries found refl;
          same_free = free;
          same_store = refl;
          same_size = refl;
          same_layers = refl;
        },
      )

  Matched-cons :
      {others : List ℕ} {s t u : Prefix V} (b : ℕ) (found : List ℕ)
      → Matched others s (b ∷ []) t
      → Matched (b ∷ others) t found u
      → Matched others s (b ∷ found) u
  Matched-cons {others} {s} {t} {u} b found m n = record {
    valid =
        Valid-same
          (λ c. omega (arith, count-append c found (b ∷ others), count-append c found others))
          n.valid;
    same_blocks = λ h. n.same_blocks h ∙ m.same_blocks h;
    same_free = n.same_free ∙ m.same_free;
    same_store = n.same_store ∙ m.same_store;
    same_size = n.same_size ∙ m.same_size;
    same_layers = n.same_layers ∙ m.same_layers;
  }

  match_hit :
      (rest : Exec (Prefix V) (List ℕ)) (h : ℕ) (x : Entry) (s t u : Prefix V) (found : List ℕ)
      → on_pool (incref x.block_id) (touch h x s) ≡ (ok tt, t)
      → rest t ≡ (ok found, u)
      → match_entry rest h (some x) s ≡ (ok (x.block_id ∷ found), u)
  unfolding match_entry
  match_hit rest h x s t u found run more =
      bind_run (on_pool (incref x.block_id)) (λ _. rest >>= λ f. returns (x.block_id ∷ f))
        (touch h x s) t tt run
      ∙ bind_run rest (λ f. returns (x.block_id ∷ f)) t u found more

  match_loop-Matched :
      (hs others : List ℕ) (s : Prefix V)
      → Valid others s
      → (t : Prefix V) × (match_loop hs s ≡ (ok (longest hs s.entries), t))
        × Matched others s (longest hs s.entries) t
  unfolding match_loop longest
  match_loop-Matched [] others s v = (s, refl, Matched-nil v)
  match_loop-Matched (h ∷ hs) others s v = elim (Option-cases (get h s.entries)) [
    | inl e ↦
        let missing : block_at h s.entries ≡ none = unfold block_at in rw e refl in
        (s, rw (e, missing) refl, rw missing (Matched-nil v))
    | inr (x, e) ↦
        let (t, run, entries, m) = incref_entry others s h x e v in
        let (u, rest, n) = match_loop-Matched hs (x.block_id ∷ others) t (m.valid) in
        let present : block_at h s.entries ≡ some x.block_id = unfold block_at in rw e refl in
        let same : longest hs t.entries ≡ longest hs s.entries =
          ap (longest hs) entries
          ∙ longest-put hs h x (record x { last_used = s.clock + 1 }) s.entries e refl in
        let whole0 : x.block_id ∷ longest hs s.entries ≡ longest (h ∷ hs) s.entries =
          rw present refl in
        let whole : x.block_id ∷ longest hs t.entries ≡ longest (h ∷ hs) s.entries =
          ap (◌∷◌ x.block_id) same ∙ whole0 in
        (
          u,
          rw e (
              match_hit (match_loop hs) h x s t u (longest hs t.entries) run rest
              ∙ ap (λ f. (ok f, u)) whole),
          subst (λ f. Matched others s f u) whole0
              (Matched-cons x.block_id (longest hs s.entries) m
                (subst (λ f. Matched (x.block_id ∷ others) t f u) same n)),
        )
  ]

  -- On a valid cache `match` never raises. It returns the blocks of the longest cached prefix of the
  -- tokens, each with a new reference that the caller holds; no block is taken or freed, every key
  -- keeps its block, and the rows stored are as before. A cache that is off returns nothing and
  -- changes nothing.
  pub match-Matched :
      (hash : ℕ → List ℕ → ℕ) (others tokens : List ℕ) (s : Prefix V)
      → Valid others s
      → (s.enabled ≡ false → match hash tokens s ≡ (ok [], s))
        × (s.enabled ≡ true
            → (t : Prefix V) × (match hash tokens s
                ≡ (ok (longest (hash_chain hash root_hash s.block_size tokens) s.entries), t))
              × Matched others s
                  (longest (hash_chain hash root_hash s.block_size tokens) s.entries)
                  t)
  unfolding match
  match-Matched hash others tokens s v = (
    λ off. rw off refl,
    λ on.
        (let hs = hash_chain hash root_hash s.block_size tokens in
          let s0 : Prefix V = count_query (length hs) s in
          let (t, run, m) = match_loop-Matched hs others s0 (counted (length hs) v) in
          let found = longest hs s.entries in
          let t' : Prefix V = (count_hits found t).1 in
          (
            t',
            if_true s.enabled _ _ on
                ∙ (bind_run (match_loop hs) (λ f. count_hits f) s0 t found run),
            record {
              valid = record {
                holds = m.valid.holds;
                keys = m.valid.keys;
                distinct = m.valid.distinct;
                indexed = m.valid.indexed;
                stamps = m.valid.stamps;
                recent = m.valid.recent;
              };
              same_blocks = m.same_blocks;
              same_free = m.same_free;
              same_store = m.same_store;
              same_size = m.same_size;
              same_layers = m.same_layers;
            },
          )),
  )
    where
      counted : (n : ℕ) → Valid others s → Valid others (count_query n s)
      counted n w = record {
        holds = w.holds;
        keys = w.keys;
        distinct = w.distinct;
        indexed = w.indexed;
        stamps = w.stamps;
        recent = w.recent;
      }
