-- ===== src/Paged.antt =====
-- `PagedCachePool` and `PagedKVCache` of engine/block_manager.py. A tensor row, one token's keys or
-- values at one layer, is a value of the parameter `V`; a tensor of the pool is a function of the
-- layer and the slot. `Paged` is one cache with the pool that it shares with the others.
pub mod Slots
pub mod Invariant
pub mod Grow
pub mod Unshare
pub mod Extend
pub mod Update
pub mod Write
pub mod Forward
pub mod Tests
pub mod Share
use nanoserve.Prelude.{
  Bool, List, Option, [], drop, get_elem?, get_last?, if◌then◌else◌, leb, length, ltb, map, none,
  range_from, set_last, some, suc, take, zero, ℕ, ◌%◌, ◌&&◌, ◌*◌, ◌++◌, ◌+◌, ◌-◌, ◌/◌, ◌==◌, ◌∷◌,
}
use nanoserve.Exec.{
  Result, ok, err, index_error, out_of_blocks, Exec, for_each, ◌>>=◌, ◌>>◌, proceed,
}
use nanoserve.Allocator.{Allocator, allocate, incref, decref, num_free}
use nanoserve.Allocator

-- `self.k` and `self.v`.
pub data Side : Type 0 where
  keys values : Side

pub record Pool (V : Type 0) : Type 0 where
  pub block_size : ℕ
  pub num_layers : ℕ
  pub alloc : Allocator
  pub store : Side → ℕ → ℕ → V

pub record Cache : Type 0 where
  pub block_table : List ℕ
  pub num_tokens : ℕ
  pub start : ℕ
  pub slots : List ℕ

pub record Paged (V : Type 0) : Type 0 where
  pub pool : Pool V
  pub open pool use *
  pub cache : Cache
  pub open cache use *

abbrev pub empty_cache : Cache
empty_cache = record { block_table = []; num_tokens = 0; start = 0; slots = [] }

-- `-(-x // b)`
unfoldable pub ceil_div : ℕ → ℕ → ℕ
ceil_div x b = (x + b - 1) / b

-- `t[slots] = rows`
unfoldable pub scatter {ℓ} : {V : Type ℓ} → (ℕ → V) → List ℕ → List V → ℕ → V
scatter f (s ∷ ss) (v ∷ vs) = scatter (λ x. if s == x then v else f x) ss vs
scatter f _ _ = f

-- `t[d : d + bs] = t[s : s + bs]`
unfoldable pub copy_slice {ℓ} : {V : Type ℓ} → ℕ → ℕ → ℕ → (ℕ → V) → ℕ → V
copy_slice bs s d f x = if leb d x && ltb x (d + bs) then f (s + (x - d)) else f x

module _ {V : Type 0} where
  -- A method of the allocator, called through the pool.
  unfoldable pub on_alloc : {A : Type 0} → Exec Allocator A → Exec (Paged V) A
  on_alloc m s = let (r, a) = m s.alloc in (r, record s { pool = record s.pool { alloc = a } })

  unfoldable pub append_block : ℕ → Paged V → Paged V
  append_block block s = record s {
    cache = record s.cache {
      slots = s.slots ++ range_from (block * s.block_size) s.block_size;
      block_table = s.block_table ++ block ∷ [];
    };
  }

  -- The body of the loop of `_ensure_capacity`, once `allocate` has returned.
  unfoldable pub take_block : Option ℕ × Allocator → Exec (Paged V) (Unit {0})
  unfolding append_block
  take_block (none, a) s = (err out_of_blocks, record s { pool = record s.pool { alloc = a } })
  take_block (some block, a) s =
      (ok tt, append_block block (record s { pool = record s.pool { alloc = a } }))

  -- `for _ in range(n)`
  unfoldable pub grow : ℕ → Exec (Paged V) (Unit {0})
  unfolding take_block
  grow zero s = (ok tt, s)
  grow (suc n) s = let rest = grow n in (take_block (allocate s.alloc) >> rest) s

  unfoldable pub ensure_capacity : ℕ → Exec (Paged V) (Unit {0})
  unfolding grow ceil_div
  ensure_capacity n_new s =
      grow (ceil_div (s.num_tokens + n_new) s.block_size - length s.block_table) s

  unfoldable pub copy_block : ℕ → ℕ → Pool V → Pool V
  unfolding copy_slice
  copy_block src dst p = record p {
    store = λ side layer.
        if ltb layer p.num_layers
        then copy_slice p.block_size (src * p.block_size) (dst * p.block_size) (p.store side layer)
        else p.store side layer;
  }

  -- `self.block_table[-1] = fresh` and the write of the last `bs` slots.
  unfoldable pub relink : ℕ → Exec (Paged V) (Unit {0})
  relink fresh s = (
    ok tt,
    record s {
      cache = record s.cache {
        block_table = set_last s.block_table fresh;
        slots =
            take (length s.slots - s.block_size) s.slots
            ++ range_from (fresh * s.block_size) s.block_size;
      };
    },
  )

  -- The copy, once `allocate` has returned.
  unfoldable pub replace_tail : ℕ → Option ℕ × Allocator → Exec (Paged V) (Unit {0})
  unfolding copy_block on_alloc relink
  replace_tail tail (none, a) s =
      (err out_of_blocks, record s { pool = record s.pool { alloc = a } })
  replace_tail tail (some fresh, a) s =
      (on_alloc (decref tail) >>= λ _. relink fresh)
        (record s { pool = copy_block tail fresh (record s.pool { alloc = a }) })

  -- `ref_count(tail)` is read: an index out of range raises.
  unfoldable pub unshare_counted : ℕ → Option ℕ → Exec (Paged V) (Unit {0})
  unfolding replace_tail
  unshare_counted tail none s = (err index_error, s)
  unshare_counted tail (some refs) s =
      if leb refs 1 then (ok tt, s) else replace_tail tail (allocate s.alloc) s

  unfoldable pub unshare_block : Option ℕ → Exec (Paged V) (Unit {0})
  unfolding unshare_counted
  unshare_block none s = (ok tt, s)
  unshare_block (some tail) s = unshare_counted tail (get_elem? s.alloc.refs tail) s

  unfoldable pub unshare_tail : Exec (Paged V) (Unit {0})
  unfolding unshare_block
  unshare_tail s = unshare_block (get_last? s.block_table) s

  abbrev pub set_start : Paged V → Paged V
  set_start s = record s { cache = record s.cache { start = s.num_tokens } }

  abbrev pub advance : ℕ → Exec (Paged V) (Unit {0})
  advance n s = (ok tt, record s { cache = record s.cache { num_tokens = s.num_tokens + n } })

  -- `if self.num_tokens % self.pool.block_size != 0: self._unshare_tail()`
  unfoldable pub unshare_partial : Exec (Paged V) (Unit {0})
  unfolding unshare_tail
  unshare_partial s = if s.num_tokens % s.block_size == 0 then (ok tt, s) else unshare_tail s

  -- The block of `update` under `if layer_idx == 0`, for `n` new tokens.
  unfoldable pub begin_pass : ℕ → Exec (Paged V) (Unit {0})
  unfolding unshare_partial ensure_capacity
  begin_pass n s = (unshare_partial >> (ensure_capacity n >> advance n)) (set_start s)

  -- `live`, read at one layer.
  unfoldable pub gather : Side → ℕ → ℕ → Paged V → List V
  gather side layer end s = map (s.store side layer) (take end s.slots)

  -- The scatter of `update`.
  unfoldable pub write_layer : ℕ → ℕ → (Side → List V) → Paged V → Paged V
  unfolding scatter
  write_layer layer n rows s = record s {
    pool = record s.pool {
      store = λ side l.
          if l == layer
          then scatter (s.store side l) (take n (drop s.start s.slots)) (rows side)
          else s.store side l;
    };
  }

  -- The scatter and the gather of `update`; `n` is the number of rows.
  unfoldable pub write_pass : ℕ → ℕ → (Side → List V) → Exec (Paged V) (Side → List V)
  unfolding gather write_layer
  write_pass layer n rows s =
      let s' = write_layer layer n rows s in (ok (λ side. gather side layer (s.start + n) s'), s')

  unfoldable pub update : ℕ → ℕ → (Side → List V) → Exec (Paged V) (Side → List V)
  unfolding begin_pass write_pass
  update layer n rows s =
      if layer == 0 then (begin_pass n >> write_pass layer n rows) s else write_pass layer n rows s

  -- The child's cache; the loop takes one more reference on each block.
  unfoldable pub fork : Exec (Paged V) Cache
  unfolding on_alloc for_each
  fork s =
      (for_each (λ block. on_alloc (incref block)) s.block_table >> (λ s'. (
        ok (record {
          block_table = s.block_table;
          num_tokens = s.num_tokens;
          start = 0;
          slots = s.slots;
        }),
        s',
      )))
        s

  abbrev pub drop_block : ℕ → Exec (Paged V) (Unit {0})
  drop_block block = on_alloc (decref block) >>= λ _ s. (ok tt, s)

  abbrev pub clear_cache : Exec (Paged V) (Unit {0})
  clear_cache s =
      (ok tt, record s { cache = record s.cache { block_table = []; num_tokens = 0; slots = [] } })

  unfoldable pub free : Exec (Paged V) (Unit {0})
  unfolding on_alloc for_each
  free s = (for_each drop_block s.block_table >> clear_cache) s

  -- `PagedCachePool.allocate`
  unfoldable pub start_sequence : Pool V → Option Cache
  unfolding num_free
  start_sequence p = if num_free p.alloc == 0 then none else some empty_cache

  unfoldable pub can_fit : ℕ → Pool V → Bool
  unfolding num_free ceil_div
  can_fit num_tokens p = leb (ceil_div num_tokens p.block_size) (num_free p.alloc)

  unfoldable pub reset : Pool V → Pool V
  reset p = record p { alloc = Allocator.init p.alloc.num_blocks }
