-- ===== src/Prefix/Invariant.antt =====
-- What holds of a `PrefixCache` (engine/prefix_cache.py) between two calls.
use nanoserve.Prelude.{
  Distinct, List, Option, arith, count, count-append, if◌then◌else◌, some, ℕ, ◌++◌, ◌+◌, ◌<◌, ◌==◌,
  ◌≡◌,
}
use mathlib.Core.Option
use nanoserve.Dict.{get, put, keys_of, vals_of, count_vals-put, keys-put_old}
use nanoserve.Allocator.Invariant.{Holds, Holds-same}
use nanoserve.Prefix.{Prefix, Entry, touch}

abbrev pub blocks_of : List (ℕ × Entry) → List ℕ
blocks_of = vals_of (λ e. e.block_id)

abbrev pub stamps_of : List (ℕ × Entry) → List ℕ
stamps_of = vals_of (λ e. e.last_used)

-- The block under a key.
unfoldable pub block_at : ℕ → List (ℕ × Entry) → Option ℕ
block_at h d = Option.map (λ (e : Entry). e.block_id) (get h d)

module _ {V : Type 0} where
  -- `others` lists the references of the running sequences. The cache has one reference on each of
  -- its blocks, no block is under two keys, `_by_block` knows exactly the cached blocks, and no two
  -- entries were last used at one tick.
  pub record Valid (others : List ℕ) (s : Prefix V) : Type 0 where
    pub holds : Holds s.alloc (blocks_of s.entries ++ others)
    pub keys : Distinct (keys_of s.entries)
    pub distinct : Distinct (blocks_of s.entries)
    pub indexed : (b : ℕ) → count b (keys_of s.by_block) ≡ count b (blocks_of s.entries)
    pub stamps : Distinct (stamps_of s.entries)
    pub recent : (t : ℕ) → s.clock < t → count t (stamps_of s.entries) ≡ 0

  pub Valid-same :
      {others others' : List ℕ} {s : Prefix V}
      → ((b : ℕ) → count b others ≡ count b others')
      → Valid others s
      → Valid others' s
  Valid-same {others} {others'} {s} e v = record {
    holds =
        Holds-same (blocks_of s.entries ++ others) (blocks_of s.entries ++ others')
          (λ b. omega (
            arith,
            e b,
            count-append b (blocks_of s.entries) others,
            count-append b (blocks_of s.entries) others',
          ))
          v.holds;
    keys = v.keys;
    distinct = v.distinct;
    indexed = v.indexed;
    stamps = v.stamps;
    recent = v.recent;
  }

  pub touch-Valid :
      {others : List ℕ} {s : Prefix V} (h : ℕ) (e : Entry)
      → get h s.entries ≡ some e
      → Valid others s
      → Valid others (touch h e s)
  unfolding touch
  touch-Valid {others} {s} h e found v = record {
    holds =
        Holds-same (blocks_of s.entries ++ others) (blocks_of (put h e' s.entries) ++ others)
          (λ b. omega (
            arith,
            same_blocks b,
            count-append b (blocks_of s.entries) others,
            count-append b (blocks_of (put h e' s.entries)) others,
          ))
          v.holds;
    keys = λ k. rw (keys-put_old h e e' s.entries found) (v.keys k);
    distinct = λ b. omega (arith, same_blocks b, v.distinct b);
    indexed = λ b. omega (arith, same_blocks b, v.indexed b);
    stamps = λ t. ground (arith, new_stamp t, v.stamps t, v.recent t);
    recent = λ t late. ground (arith, new_stamp t, v.recent t);
  }
    where
      e' : Entry
      e' = record e { last_used = s.clock + 1 }

      same_blocks :
          (b : ℕ) → count b (blocks_of (put h e' s.entries)) ≡ count b (blocks_of s.entries)
      same_blocks b =
          omega (arith, count_vals-put (λ (x : Entry). x.block_id) b h e e' s.entries found)

      new_stamp :
          (t : ℕ)
          → count t (stamps_of (put h e' s.entries)) + (if e.last_used == t then 1 else 0)
            ≡ count t (stamps_of s.entries) + (if (s.clock + 1) == t then 1 else 0)
      new_stamp t = count_vals-put (λ (x : Entry). x.last_used) t h e e' s.entries found
