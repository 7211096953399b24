-- ===== src/Batch.antt =====
-- `BatchedPagedCache` of engine/scheduler.py: one decode pass over many sequences, each with its own
-- cache in one pool. A tensor of the pool is as in Paged.
pub mod Need
pub mod Step
pub mod Prepare
pub mod Layer
pub mod Pass
pub mod Tests
use nanoserve.Prelude.{
  Bool, List, Option, [], false, get_elem?, get_last?, get_or, if◌then◌else◌, length, ltb, map, max,
  none, not, range_from, replicate, some, suc, take, true, zero, ℕ, ◌%◌, ◌&&◌, ◌*◌, ◌++◌, ◌+◌, ◌-◌,
  ◌/◌, ◌==◌, ◌∷◌,
}
use nanoserve.Exec.{Result, ok, err, index_error, out_of_blocks, Exec, ◌>>=◌, ◌>>◌, proceed}
use nanoserve.Allocator.{Allocator, num_free}
use nanoserve.Paged.{Side, Pool, Cache, Paged, unshare_partial, ensure_capacity, advance, scatter}

-- `seqs` is the list of the sequences' caches. The last three fields are `None` until `_prepare`
-- sets them; here they are then empty.
pub record Batch (V : Type 0) : Type 0 where
  pub pool : Pool V
  pub open pool use *
  pub caches : List Cache
  pub prepared : Bool
  pub write_slots : List ℕ
  pub read_index : List (List ℕ)
  pub mask : List (List Bool)

-- `BatchedPagedCache.__init__`
unfoldable pub new_batch : {V : Type 0} → Pool V → List Cache → Batch V
new_batch p cs = record {
  pool = p;
  caches = cs;
  prepared = false;
  write_slots = [];
  read_index = [];
  mask = [];
}

-- `ref_count(cache.block_table[-1]) > 1`. A table's blocks are in the pool, so the read of the count
-- does not raise.
unfoldable pub shared_tail : List ℕ → Option ℕ → ℕ
shared_tail refs none = 0
shared_tail refs (some tail) = if ltb 1 (get_or refs tail 0) then 1 else 0

-- The blocks that one more token of a sequence takes.
unfoldable pub need_of : ℕ → List ℕ → Cache → ℕ
unfolding shared_tail
need_of bs refs c = if c.num_tokens % bs == 0 then 1 else shared_tail refs (get_last? c.block_table)

-- `need`
unfoldable pub total_need : ℕ → List ℕ → List Cache → ℕ
unfolding need_of
total_need bs refs [] = 0
total_need bs refs (c ∷ cs) = need_of bs refs c + total_need bs refs cs

-- The longest sequence, `max(...)`. Of none, where the source raises, it is 0: no pass has an empty
-- batch, for `step` returns before the call of the model when nothing runs.
unfoldable pub longest : List Cache → ℕ
longest [] = 0
longest (c ∷ cs) = max c.num_tokens (longest cs)

-- One row of `pad_sequence`.
unfoldable pub padded : ℕ → List ℕ → List ℕ
padded n xs = xs ++ replicate (n - length xs) 0

unfoldable pub index_rows : ℕ → List Cache → List (List ℕ)
unfolding padded
index_rows n [] = []
index_rows n (c ∷ cs) = padded n (take c.num_tokens c.slots) ∷ index_rows n cs

-- `torch.arange(max_len)[None, :] < valid[:, None]`
unfoldable pub mask_rows : ℕ → List Cache → List (List Bool)
mask_rows n [] = []
mask_rows n (c ∷ cs) = map (λ j. ltb j c.num_tokens) (range_from 0 n) ∷ mask_rows n cs

abbrev pub with_slot : ℕ → Result (List ℕ) → Result (List ℕ)
with_slot w (ok ws) = ok (w ∷ ws)
with_slot w (err e) = err e

-- `tensor[index]`
abbrev pub gather_rows {ℓ} : {A : Type ℓ} → (ℕ → A) → List (List ℕ) → List (List A)
gather_rows f [] = []
gather_rows f (xs ∷ xss) = map f xs ∷ gather_rows f xss

module _ {V : Type 0} where
  -- `cache.block_table[pos // bs] * bs + (pos % bs)`, for what the index finds.
  unfoldable pub slot_in : ℕ → Option ℕ → Exec (Paged V) ℕ
  slot_in pos none s = (err index_error, s)
  slot_in pos (some block) s = (ok (block * s.block_size + pos % s.block_size), s)

  -- `pos` is the number of tokens before the advance.
  unfoldable pub write_slot : Exec (Paged V) ℕ
  unfolding slot_in
  write_slot s =
      let pos = s.num_tokens - 1 in slot_in pos (get_elem? s.block_table (pos / s.block_size)) s

  -- The body of the second loop of `_prepare`.
  unfoldable pub prepare_one : Exec (Paged V) ℕ
  unfolding unshare_partial ensure_capacity write_slot
  prepare_one = (unshare_partial >> (ensure_capacity 1 >> advance 1)) >>= λ _. write_slot

  abbrev pub commit_rest :
      (Pool V → Result (List ℕ) × Pool V × List Cache)
      → List Cache
      → Result ℕ × Paged V
      → Result (List ℕ) × Pool V × List Cache
  commit_rest rest cs (err e, s) = (err e, s.pool, s.cache ∷ cs)
  commit_rest rest cs (ok w, s) = let (r, p, ds) = rest s.pool in (with_slot w r, p, s.cache ∷ ds)

  -- The second loop of `_prepare`: the write slots, the pool and the caches. A raise leaves what
  -- was done, and the caches behind as they were.
  unfoldable pub commit_loop : List Cache → Pool V → Result (List ℕ) × Pool V × List Cache
  unfolding prepare_one
  commit_loop [] p = (ok [], p, [])
  commit_loop (c ∷ cs) p =
      let rest = commit_loop cs in
      commit_rest rest cs (prepare_one (record { pool = p; cache = c }))

  abbrev pub finish_prepare : Result (List ℕ) × Pool V × List Cache → Exec (Batch V) (Unit {0})
  finish_prepare (err e, p, cs) s = (err e, record s { pool = p; caches = cs })
  finish_prepare (ok ws, p, cs) s = (
    ok tt,
    record s {
      pool = p;
      caches = cs;
      prepared = true;
      write_slots = ws;
      read_index = index_rows (longest cs) cs;
      mask = mask_rows (longest cs) cs;
    },
  )

  unfoldable pub prepare : Exec (Batch V) (Unit {0})
  unfolding commit_loop total_need num_free index_rows mask_rows longest
  prepare s =
      if ltb (num_free s.alloc) (total_need s.block_size s.alloc.refs s.caches)
      then (err out_of_blocks, s)
      else finish_prepare (commit_loop s.caches s.pool) s

  -- The scatter and the gather of `update`, with one row for each sequence.
  unfoldable pub exchange : ℕ → (Side → List V) → Exec (Batch V) (Side → List (List V))
  unfolding scatter
  exchange layer rows s =
      let s' : Batch V = record s {
        pool = record s.pool {
          store = λ side l.
              if l == layer
              then scatter (s.store side l) s.write_slots (rows side)
              else s.store side l;
        };
      } in
      (ok (λ side. gather_rows (s'.store side layer) s.read_index), s')

  unfoldable pub update : ℕ → (Side → List V) → Exec (Batch V) (Side → List (List V))
  unfolding prepare exchange
  update layer rows s =
      if (layer == 0) && not s.prepared
      then (prepare >> exchange layer rows) s
      else exchange layer rows s

-- `cache_mask`: `prepare` is run first, where it has not been.
unfoldable pub cache_mask : {V : Type 0} → Exec (Batch V) (List (List Bool))
unfolding prepare
cache_mask s = if s.prepared then (ok s.mask, s) else (prepare >>= λ _ s'. (ok s'.mask, s')) s

module _ {V : Type 0} where
  abbrev pub with_out :
      (Side → List (List V))
      → List (Side → List (List V))
      → Exec (Batch V) (List (Side → List (List V)))
  with_out out outs s = (ok (out ∷ outs), s)

  -- `update` in each of `n` layers, the first one `layer`; `rows` gives the new rows of a layer.
  unfoldable pub run_layers :
      ℕ → ℕ → (ℕ → Side → List V) → Exec (Batch V) (List (Side → List (List V)))
  unfolding update
  run_layers zero layer rows s = (ok [], s)
  run_layers (suc n) layer rows s =
      let rest = run_layers n (layer + 1) rows in
      (update layer (rows layer) >>= λ out. rest >>= λ outs. with_out out outs) s

  -- The model's pass in `step`: the mask, made before the first layer, and what each layer reads.
  unfoldable pub run_pass :
      (ℕ → Side → List V) → Exec (Batch V) (List (List Bool) × List (Side → List (List V)))
  unfolding cache_mask run_layers
  run_pass rows s =
      (cache_mask >>= λ mask. run_layers s.num_layers 0 rows >>= λ outs s'. (ok (mask, outs), s')) s
