-- ===== src/Prefix/Evict.antt =====
-- `evict` and `ensure_free` of engine/prefix_cache.py: only blocks that no running sequence refers to
-- leave the cache, and each of them becomes free.
use nanoserve.Prelude.{
  Bool-cases, Distinct, List, [], ap, arith, count, count-append, false, get_or, if◌then◌else◌, inl,
  inr, length, length-take, min, refl, some, subst, suc, sym, take, true, ℕ, ◌++◌, ◌+◌, ◌<◌, ◌==◌,
  ◌∙◌, ◌∷◌, ◌≡◌, ◌≤◌,
}
use nanoserve.Exec.{ok, ◌>>=◌, bind_run, Exec}
use nanoserve.Dict.{
  get, pop, keys_of, count_vals-pop, count_keys-pop, get-pop_ne, has-count, length-pop,
}
use nanoserve.Allocator.{decref}
use nanoserve.Allocator.Invariant.{Holds-same}
use nanoserve.Allocator.Owns.{decref-Holds}
use nanoserve.Prefix.{
  Prefix, Entry, on_pool, returns, evict_entry, evict_loop, evictable, insert_sorted, sort,
  count_evictions, evict_found, evict,
}
use nanoserve.Prefix.Invariant.{Valid, blocks_of}
use nanoserve.Paged.Slots.{count-take-le}
use nanoserve.Prefix.Match.{count_of_get}

-- The entry's block is referred to by the cache alone.
abbrev Sole : List ℕ → List (ℕ × Entry) → ℕ → Type 0
Sole others d h = (e : Entry) × (get h d ≡ some e) × (count e.block_id others ≡ 0)

Sole-pop :
    (others : List ℕ) (d : List (ℕ × Entry)) (h k : ℕ)
    → (h == k) ≡ false
    → Sole others d k
    → Sole others (pop h d) k
Sole-pop others d h k ne (e, found, alone) = (e, get-pop_ne k h d ne ∙ found, alone)

-- The entries that may be evicted, their keys, and their order.
pub keys-evictable-le :
    (k : ℕ) (d : List (ℕ × Entry)) (refs : List ℕ)
    → count k (keys_of (evictable d refs)) ≤ count k (keys_of d)
unfolding evictable
keys-evictable-le k [] refs = omega arith
keys-evictable-le k ((h, e) ∷ d) refs = ground (arith, keys-evictable-le k d refs)

found_evictable :
    (k : ℕ) (d : List (ℕ × Entry)) (refs : List ℕ)
    → Distinct (keys_of d)
    → 0 < count k (keys_of (evictable d refs))
    → (e : Entry) × (get k d ≡ some e) × (get_or refs e.block_id 0 ≡ 1)
unfolding evictable get
found_evictable k [] refs dist h = absurd (omega arith)
found_evictable k ((j, e) ∷ d) refs dist h = elim (Bool-cases (j == k)) [
  | inl here ↦ (e, rw here refl, ground (arith, dist k, keys-evictable-le k d refs))
  | inr there ↦
      let (x, found, one) = found_evictable k d refs (λ c. omega (arith, dist c)) (ground arith) in
      (x, rw there found, one)
]

count_keys-insert :
    (k : ℕ) (x : ℕ × Entry) (ys : List (ℕ × Entry))
    → count k (keys_of (insert_sorted x ys)) ≡ (if x.0 == k then 1 else 0) + count k (keys_of ys)
unfolding insert_sorted
count_keys-insert k x [] = refl
count_keys-insert k x (y ∷ ys) = ground (arith, count_keys-insert k x ys)

count_keys-sort :
    (k : ℕ) (xs : List (ℕ × Entry)) → count k (keys_of (sort xs)) ≡ count k (keys_of xs)
unfolding sort
count_keys-sort k [] = refl
count_keys-sort k (x ∷ xs) = omega (arith, count_keys-insert k x (sort xs), count_keys-sort k xs)

length-insert :
    (x : ℕ × Entry) (ys : List (ℕ × Entry))
    → length (keys_of (insert_sorted x ys)) ≡ suc (length (keys_of ys))
unfolding insert_sorted
length-insert x [] = refl
length-insert x (y ∷ ys) = ground (arith, length-insert x ys)

length-sort : (xs : List (ℕ × Entry)) → length (keys_of (sort xs)) ≡ length xs
unfolding sort
length-sort [] = refl
length-sort (x ∷ xs) = omega (arith, length-insert x (sort xs), length-sort xs)

module _ {V : Type 0} where
  -- `n` entries left the cache: their blocks are free, and what a sequence refers to is still there.
  pub record Evicted (others : List ℕ) (n : ℕ) (s t : Prefix V) : Type 0 where
    pub valid : Valid others t
    pub fewer : length s.entries ≡ length t.entries + n
    pub freed : length t.alloc.free ≡ length s.alloc.free + n
    pub pinned :
        (b : ℕ) → 0 < count b others → count b (blocks_of t.entries) ≡ count b (blocks_of s.entries)
    pub same_store : t.store ≡ s.store

  pub Evicted-none : {others : List ℕ} {s : Prefix V} → Valid others s → Evicted others 0 s s
  Evicted-none v = record {
    valid = v;
    fewer = omega arith;
    freed = omega arith;
    pinned = λ b h. refl;
    same_store = refl;
  }

  pub Evicted-trans :
      {others : List ℕ} {k m : ℕ} {s t u : Prefix V}
      → Evicted others k s t
      → Evicted others m t u
      → Evicted others (m + k) s u
  Evicted-trans e f = record {
    valid = f.valid;
    fewer = omega (arith, e.fewer, f.fewer);
    freed = omega (arith, e.freed, f.freed);
    pinned = λ b h. f.pinned b h ∙ e.pinned b h;
    same_store = f.same_store ∙ e.same_store;
  }

  Evicted-more :
      {others : List ℕ} {s t u : Prefix V} (n : ℕ)
      → Evicted others 1 s t
      → Evicted others n t u
      → Evicted others (n + 1) s u
  Evicted-more n e f = Evicted-trans e f

  abbrev popped : ℕ → Entry → Prefix V → Prefix V
  popped h e s = record s { entries = pop h s.entries; by_block = pop e.block_id s.by_block }

  decref_entry :
      (others : List ℕ) (s : Prefix V) (h : ℕ) (e : Entry)
      → get h s.entries ≡ some e
      → count e.block_id others ≡ 0
      → Valid others s
      → (t : Prefix V) × (on_pool (decref e.block_id) (popped h e s) ≡ (ok true, t))
        × (t.entries ≡ pop h s.entries)
        × Evicted others 1 s t
  unfolding on_pool
  decref_entry others s h e found alone v =
      let held = blocks_of (pop h s.entries) ++ others in
      let (a, run, h', free, _) = decref-Holds e.block_id held (
        Holds-same (blocks_of s.entries ++ others) (e.block_id ∷ held)
          (λ b. omega (
            arith,
            gone b,
            count-append b (blocks_of s.entries) others,
            count-append b (blocks_of (pop h s.entries)) others,
          ))
          v.holds) in
      let last : (count e.block_id held == 0) ≡ true = ground (
        arith,
        gone e.block_id,
        v.distinct e.block_id,
        count-append e.block_id (blocks_of (pop h s.entries)) others,
      ) in
      (
        record (popped h e s) { pool = record s.pool { alloc = a } },
        rw (run, last) refl,
        refl,
        record {
          valid = record {
            holds = h';
            keys = λ k. omega (arith, v.keys k, count_keys-pop k h s.entries);
            distinct = λ b. omega (arith, v.distinct b, gone b);
            indexed = λ b. ground (
              arith,
              v.indexed b,
              gone b,
              count_keys-pop b e.block_id s.by_block,
              has-count e.block_id s.by_block,
              v.indexed e.block_id,
              count_of_get h e s.entries found,
            );
            stamps = λ t. omega (
              arith,
              v.stamps t,
              count_vals-pop (λ (x : Entry). x.last_used) t h e s.entries found,
            );
            recent = λ t late. omega (
              arith,
              v.recent t late,
              count_vals-pop (λ (x : Entry). x.last_used) t h e s.entries found,
            );
          };
          fewer = omega (arith, length-pop h e s.entries found);
          freed = ground (arith, free, last);
          pinned = λ b p. ground (arith, gone b, alone);
          same_store = refl;
        },
      )
    where
      gone :
          (b : ℕ)
          → count b (blocks_of (pop h s.entries)) + (if e.block_id == b then 1 else 0)
            ≡ count b (blocks_of s.entries)
      gone b = count_vals-pop (λ (x : Entry). x.block_id) b h e s.entries found

  evict_hit :
      (rest : Exec (Prefix V) ℕ) (h : ℕ) (e : Entry) (s t u : Prefix V) (n : ℕ)
      → on_pool (decref e.block_id) (popped h e s) ≡ (ok true, t)
      → rest t ≡ (ok n, u)
      → evict_entry rest h (some e) s ≡ (ok (n + 1), u)
  unfolding evict_entry
  evict_hit rest h e s t u n run more =
      bind_run (on_pool (decref e.block_id)) (λ _. rest >>= λ k. returns (k + 1)) (popped h e s) t
        true run
      ∙ bind_run rest (λ k. returns (k + 1)) t u n more

  evict_loop-Evicted :
      (hs others : List ℕ) (s : Prefix V)
      → Distinct hs
      → ((h : ℕ) → 0 < count h hs → Sole others s.entries h)
      → Valid others s
      → (t : Prefix V) × (evict_loop hs s ≡ (ok (length hs), t)) × Evicted others (length hs) s t
  unfolding evict_loop
  evict_loop-Evicted [] others s d all v = (s, refl, Evicted-none v)
  evict_loop-Evicted (h ∷ hs) others s d all v =
      let (e, found, alone) = all h (ground arith) in
      let (t, run, entries, one) = decref_entry others s h e found alone v in
      let (u, more, ev) =
        evict_loop-Evicted hs others t (λ k. omega (arith, d k))
          (λ k p.
            subst (λ l. Sole others l k) (sym entries)
              (Sole-pop others s.entries h k (ground (arith, d k)) (all k (omega arith))))
          one.valid in
      let add_one : length hs + 1 ≡ suc (length hs) = omega arith in
      (
        u,
        rw found (
            evict_hit (evict_loop hs) h e s t u (length hs) run more ∙ ap (λ n. (ok n, u)) add_one),
        subst (λ n. Evicted others n s u) add_one (Evicted-more (length hs) one ev),
      )

  found-Sole :
      (others : List ℕ) (s : Prefix V) (k : ℕ)
      → Valid others s
      → 0 < count k (keys_of (evictable s.entries s.alloc.refs))
      → Sole others s.entries k
  found-Sole others s k v h =
      let (e, found, one) = found_evictable k s.entries s.alloc.refs v.keys h in
      (
        e,
        found,
        omega (
          arith,
          v.holds.counted e.block_id,
          one,
          count-append e.block_id (blocks_of s.entries) others,
          count_of_get k e s.entries found,
        ),
      )

  counted-Evicted :
      {others : List ℕ} {s t : Prefix V} (n : ℕ)
      → Evicted others n s t
      → Evicted others n s (count_evictions n t).1
  counted-Evicted n e = record {
    valid = record {
      holds = e.valid.holds;
      keys = e.valid.keys;
      distinct = e.valid.distinct;
      indexed = e.valid.indexed;
      stamps = e.valid.stamps;
      recent = e.valid.recent;
    };
    fewer = e.fewer;
    freed = e.freed;
    pinned = e.pinned;
    same_store = e.same_store;
  }

  evict_cases :
      (n : ℕ) (found : List (ℕ × Entry)) (others : List ℕ) (s : Prefix V)
      → evictable s.entries s.alloc.refs ≡ found
      → Valid others s
      → (t : Prefix V) × (evict_found n found s ≡ (ok (min n (length found)), t))
        × Evicted others (min n (length found)) s t
        × (min n (length found) ≡ 0 → 0 < n → t ≡ s)
  unfolding evict_found
  evict_cases n [] others s e v = (
    s,
    ap (λ k. (ok k, s)) (omega arith),
    subst (λ k. Evicted others k s s) (omega arith) (Evicted-none v),
    λ p q. refl,
  )
  evict_cases n (x ∷ xs) others s e v =
      let hs = take n (keys_of (sort (x ∷ xs))) in
      let taken : (k : ℕ) → count k hs ≤ count k (keys_of (evictable s.entries s.alloc.refs)) = λ k.
        omega (
          arith,
          count-take-le k n (keys_of (sort (x ∷ xs))),
          count_keys-sort k (x ∷ xs),
          ap (λ (d : List (ℕ × Entry)). count k (keys_of d)) e,
        ) in
      let many : length hs ≡ min n (length (x ∷ xs)) =
        omega (arith, length-take n (keys_of (sort (x ∷ xs))), length-sort (x ∷ xs)) in
      let (t, run, ev) =
        evict_loop-Evicted hs others s
          (λ k. omega (arith, taken k, keys-evictable-le k s.entries s.alloc.refs, v.keys k))
          (λ k h. found-Sole others s k v (omega (arith, taken k))) v in
      (
        (count_evictions (length hs) t).1,
        bind_run (evict_loop hs) (λ k. count_evictions k) s t (length hs) run
            ∙ ap (λ k. (ok k, (count_evictions (length hs) t).1)) many,
        subst (λ k. Evicted others k s (count_evictions (length hs) t).1) many
            (counted-Evicted (length hs) ev),
        λ p q. absurd (omega arith),
      )

  -- On a valid cache `evict n` never raises. It drops as many entries as it can, at most `n`, each
  -- one that only the cache refers to: each makes one block free, the blocks of running sequences
  -- stay cached and held, and the cache stays valid. Where nothing can be dropped nothing changes.
  pub evict-Evicted :
      (n : ℕ) (others : List ℕ) (s : Prefix V)
      → Valid others s
      → (t : Prefix V) × (evict n s ≡ (ok (min n (length (evictable s.entries s.alloc.refs))), t))
        × Evicted others (min n (length (evictable s.entries s.alloc.refs))) s t
        × (min n (length (evictable s.entries s.alloc.refs)) ≡ 0 → 0 < n → t ≡ s)
  unfolding evict
  evict-Evicted n others s v = evict_cases n (evictable s.entries s.alloc.refs) others s refl v
