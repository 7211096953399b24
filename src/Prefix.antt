-- ===== src/Prefix.antt =====
-- `PrefixCache` of engine/prefix_cache.py: full blocks keyed by a hash chained over all that comes
-- before them. `block_hash`, which calls Python's `hash`, is a parameter.
pub mod Chain
pub mod Invariant
pub mod Match
pub mod Insert
pub mod Evict
pub mod Ensure
mod Tests
use nanoserve.Prelude.{
  Bool, List, Option, [], drop, false, get_or, if◌then◌else◌, leb, length, ltb, none, some, suc,
  take, true, zero, ℕ, ◌*◌, ◌+◌, ◌-◌, ◌/◌, ◌==◌, ◌∷◌,
}
use nanoserve.Exec.{Result, ok, err, index_error, Exec, ◌>>=◌, ◌>>◌, proceed}
use nanoserve.Dict.{get, has, put, pop, keys_of}
use nanoserve.Allocator.{Allocator, incref, decref, num_free}
use nanoserve.Paged.{Pool, Paged, append_block}

pub record Entry : Type 0 where
  pub block_id : ℕ
  pub parent_hash : ℕ
  pub last_used : ℕ
  pub depth : ℕ

pub record Stats : Type 0 where
  pub queries : ℕ
  pub hit_blocks : ℕ
  pub query_blocks : ℕ
  pub evictions : ℕ
  pub num_entries : ℕ

-- The cache, with the pool that it shares. `by_block` is `_by_block`.
pub record Prefix (V : Type 0) : Type 0 where
  pub pool : Pool V
  pub open pool use *
  pub enabled : Bool
  pub entries : List (ℕ × Entry)
  pub by_block : List (ℕ × ℕ)
  pub clock : ℕ
  pub stats : Stats

abbrev pub root_hash : ℕ
root_hash = 0x9E3779B97F4A7C15

-- `PrefixCache.__init__`
unfoldable pub empty_prefix : {V : Type 0} → Pool V → Bool → Prefix V
empty_prefix p enabled = record {
  pool = p;
  enabled = enabled;
  entries = [];
  by_block = [];
  clock = 0;
  stats = record { queries = 0; hit_blocks = 0; query_blocks = 0; evictions = 0; num_entries = 0 };
}

-- `k` blocks from the hash `parent` on, each over the next `bs` tokens.
unfoldable pub chain_from {ℓ} : {H : Type ℓ} → (H → List ℕ → H) → ℕ → ℕ → H → List ℕ → List H
chain_from hash bs zero parent tokens = []
chain_from hash bs (suc k) parent tokens =
    let h = hash parent (take bs tokens) in h ∷ chain_from hash bs k h (drop bs tokens)

-- `range(0, len(token_ids) - bs + 1, bs)` has `len(token_ids) // bs` items.
unfoldable pub hash_chain {ℓ} : {H : Type ℓ} → (H → List ℕ → H) → H → ℕ → List ℕ → List H
unfolding chain_from
hash_chain hash root bs tokens = chain_from hash bs (length tokens / bs) root tokens

-- The entries that only the cache refers to. Every entry's block is in the pool, so the read of
-- its count does not raise (`Invariant.Valid`).
unfoldable pub evictable : List (ℕ × Entry) → List ℕ → List (ℕ × Entry)
evictable [] refs = []
evictable ((h, e) ∷ d) refs =
    let rest = evictable d refs in if get_or refs e.block_id 0 == 1 then (h, e) ∷ rest else rest

-- `(e.last_used, -e.depth, h)` of the first is no larger.
unfoldable pub colder : ℕ × Entry → ℕ × Entry → Bool
colder (h, e) (k, f) =
    if e.last_used == f.last_used
    then if e.depth == f.depth then leb h k else ltb f.depth e.depth
    else ltb e.last_used f.last_used

unfoldable pub insert_sorted : ℕ × Entry → List (ℕ × Entry) → List (ℕ × Entry)
unfolding colder
insert_sorted x [] = x ∷ []
insert_sorted x (y ∷ ys) = if colder x y then x ∷ y ∷ ys else y ∷ insert_sorted x ys

-- `evictable.sort()`
unfoldable pub sort : List (ℕ × Entry) → List (ℕ × Entry)
unfolding insert_sorted
sort [] = []
sort (x ∷ xs) = insert_sorted x (sort xs)

module _ {V : Type 0} where
  unfoldable pub on_pool : {A : Type 0} → Exec Allocator A → Exec (Prefix V) A
  on_pool m s = let (r, a) = m s.alloc in (r, record s { pool = record s.pool { alloc = a } })

  -- `self._clock += 1; entry.last_used = self._clock`
  unfoldable pub touch : ℕ → Entry → Prefix V → Prefix V
  touch h e s = record s {
    clock = s.clock + 1;
    entries = put h (record e { last_used = s.clock + 1 }) s.entries;
  }

  abbrev pub returns : {A : Type 0} → A → Exec (Prefix V) A
  returns a s = (ok a, s)

  -- The body of the loop of `match`, for what the key finds; `rest` is the rest of the loop.
  unfoldable pub match_entry :
      Exec (Prefix V) (List ℕ) → ℕ → Option Entry → Exec (Prefix V) (List ℕ)
  unfolding on_pool touch
  match_entry rest h none s = (ok [], s)
  match_entry rest h (some e) s =
      (on_pool (incref e.block_id) >>= λ _. rest >>= λ found. returns (e.block_id ∷ found))
        (touch h e s)

  unfoldable pub match_loop : List ℕ → Exec (Prefix V) (List ℕ)
  unfolding match_entry
  match_loop [] s = (ok [], s)
  match_loop (h ∷ hs) s = let rest = match_loop hs in match_entry rest h (get h s.entries) s

  abbrev pub count_query : ℕ → Prefix V → Prefix V
  count_query n s = record s {
    stats = record s.stats {
      queries = s.stats.queries + 1;
      query_blocks = s.stats.query_blocks + n;
    };
  }

  abbrev pub count_hits : List ℕ → Exec (Prefix V) (List ℕ)
  count_hits found s = (
    ok found,
    record s { stats = record s.stats { hit_blocks = s.stats.hit_blocks + length found } },
  )

  module _ (hash : ℕ → List ℕ → ℕ) where
    unfoldable pub match : List ℕ → Exec (Prefix V) (List ℕ)
    unfolding match_loop hash_chain
    match tokens s =
        let hs = hash_chain hash root_hash s.block_size tokens in
        if s.enabled
        then (match_loop hs >>= λ found. count_hits found) (count_query (length hs) s)
        else (ok [], s)

  abbrev pub add_entry : ℕ → ℕ → ℕ → ℕ → Prefix V → Prefix V
  add_entry h parent depth block s = record s {
    clock = s.clock + 1;
    entries =
        put h
          (record {
            block_id = block;
            parent_hash = parent;
            last_used = s.clock + 1;
            depth = depth;
          })
          s.entries;
    by_block = put block h s.by_block;
  }

  -- The body of the loop of `insert`, for what the key finds and the block in that place.
  unfoldable pub insert_entry : ℕ → ℕ → ℕ → ℕ → Option Entry → Exec (Prefix V) (Unit {0})
  unfolding on_pool touch
  insert_entry h parent depth block (some e) s = (ok tt, touch h e s)
  insert_entry h parent depth block none s =
      if has block s.by_block
      then (ok tt, s)
      else (on_pool (incref block) >>= λ _ s'. (ok tt, add_entry h parent depth block s')) s

  -- `parent` is `ROOT_HASH`, and then `hashes[depth - 1]`.
  unfoldable pub insert_loop : List ℕ → ℕ → ℕ → List ℕ → Exec (Prefix V) (Unit {0})
  unfolding insert_entry
  insert_loop [] parent depth table s = (ok tt, s)
  insert_loop (h ∷ hs) parent depth [] s = (ok tt, s)
  insert_loop (h ∷ hs) parent depth (block ∷ table) s =
      let rest = insert_loop hs h (depth + 1) table in
      (insert_entry h parent depth block (get h s.entries) >> rest) s

  abbrev pub count_entries : Prefix V → Prefix V
  count_entries s = record s { stats = record s.stats { num_entries = length s.entries } }

  module _ (hash : ℕ → List ℕ → ℕ) where
    unfoldable pub insert : List ℕ → List ℕ → Exec (Prefix V) (Unit {0})
    unfolding insert_loop hash_chain
    insert tokens table s =
        if s.enabled
        then (insert_loop (hash_chain hash root_hash s.block_size tokens) root_hash 0 table >> λ s'.
              (ok tt, count_entries s'))
            s
        else (ok tt, s)

  -- The body of the loop of `evict`; `pop(h)` of a key that is not there would raise.
  unfoldable pub evict_entry : Exec (Prefix V) ℕ → ℕ → Option Entry → Exec (Prefix V) ℕ
  unfolding on_pool
  evict_entry rest h none s = (err index_error, s)
  evict_entry rest h (some e) s =
      (on_pool (decref e.block_id) >>= λ _. rest >>= λ n. returns (n + 1))
        (record s { entries = pop h s.entries; by_block = pop e.block_id s.by_block })

  -- `for _, _, h in evictable[:num_blocks]`, with the number of blocks freed.
  unfoldable pub evict_loop : List ℕ → Exec (Prefix V) ℕ
  unfolding evict_entry
  evict_loop [] s = (ok 0, s)
  evict_loop (h ∷ hs) s = let rest = evict_loop hs in evict_entry rest h (get h s.entries) s

  abbrev pub count_evictions : ℕ → Exec (Prefix V) ℕ
  count_evictions n s = (
    ok n,
    record s {
      stats = record s.stats { evictions = s.stats.evictions + n; num_entries = length s.entries };
    },
  )

  unfoldable pub evict_found : ℕ → List (ℕ × Entry) → Exec (Prefix V) ℕ
  unfolding evict_loop sort
  evict_found n [] s = (ok 0, s)
  evict_found n (x ∷ xs) s =
      (evict_loop (take n (keys_of (sort (x ∷ xs)))) >>= λ freed. count_evictions freed) s

  unfoldable pub evict : ℕ → Exec (Prefix V) ℕ
  unfolding evict_found evictable
  evict n s = evict_found n (evictable s.entries s.alloc.refs) s

  -- `while num_free < n`, on fuel: `none` means that the fuel ran out.
  unfoldable pub ensure_loop : ℕ → ℕ → Exec (Prefix V) (Option Bool)
  unfolding evict num_free
  ensure_loop zero n s = (ok none, s)
  ensure_loop (suc fuel) n s =
      let rest = ensure_loop fuel n in
      let round =
        (evict (n - num_free s.alloc) >>= λ freed s'.
        let more = rest s' in if freed == 0 then (ok (some false), s') else more)
          s in
      if ltb (num_free s.alloc) n then round else (ok (some true), s)

  -- Each round evicts an entry or ends the loop, so one more than the entries is enough fuel.
  unfoldable pub ensure_free : ℕ → Exec (Prefix V) (Option Bool)
  unfolding ensure_loop
  ensure_free n s = ensure_loop (length s.entries + 1) n s

  -- The loop of `clear`, over a copy of the items.
  unfoldable pub clear_loop : List (ℕ × Entry) → Exec (Prefix V) (Unit {0})
  unfolding on_pool
  clear_loop [] s = (ok tt, s)
  clear_loop ((h, e) ∷ d) s =
      let rest = clear_loop d in
      (on_pool (decref e.block_id) >>= λ _ s'. rest (record s' { entries = pop h s'.entries })) s

  unfoldable pub clear : Exec (Prefix V) (Unit {0})
  unfolding clear_loop
  clear s =
      (clear_loop s.entries >> λ s'.
      (ok tt, record s' { by_block = []; stats = record s'.stats { num_entries = 0 } }))
        s

  -- `for block in blocks: cache._append_block(block)`
  unfoldable pub append_all : List ℕ → Paged V → Paged V
  unfolding append_block
  append_all [] s = s
  append_all (block ∷ blocks) s = append_all blocks (append_block block s)

  abbrev seeded : ℕ → Paged V → Paged V
  seeded n s = record s { cache = record s.cache { num_tokens = n * s.block_size } }

  -- `attach`, on the sequence's cache: the number of tokens that it starts with.
  unfoldable pub attach : List ℕ → Paged V → ℕ × Paged V
  unfolding append_all
  attach [] s = (0, s)
  attach (b ∷ bs) s =
      let s' = seeded (length (b ∷ bs)) (append_all (b ∷ bs) s) in (s'.num_tokens, s')
