-- ===== src/Static.antt =====
-- `StaticCachePool`, `StaticKVCache` and `PoolStats` of engine/kv_cache.py: one contiguous slot for
-- each sequence. A slab is a function of the layer, the slot and the position; a `StaticKVCache` is
-- an object, known by its index in `objects`, so that a handle can outlive its slot.
pub mod Invariant
pub mod Account
pub mod Update
pub mod Calls
pub mod Tests
use nanoserve.Prelude.{
  List, Option, [], get_or, if◌then◌else◌, leb, length, ltb, map, min, none, range_from, set, some,
  suc, zero, ℕ, ◌&&◌, ◌*◌, ◌++◌, ◌+◌, ◌-◌, ◌/◌, ◌==◌, ◌∷◌,
}
use nanoserve.Exec.{Result, ok, err, slot_capacity, Exec, ◌>>=◌, ◌>>◌, proceed}
use nanoserve.Dict.{get, has, put, pop}
use nanoserve.Paged.{Side}

pub record Slot : Type 0 where
  pub slot : ℕ
  pub pos : ℕ
  pub start : ℕ

-- The head of `free` is the end of the Python list. `live` gives the object of a slot.
pub record Slots (V : Type 0) : Type 0 where
  pub num_slots : ℕ
  pub max_seq_len : ℕ
  pub store : Side → ℕ → ℕ → ℕ → V
  pub free : List ℕ
  pub live : List (ℕ × ℕ)
  pub expected : List (ℕ × ℕ)
  pub objects : List Slot

pub record Stats : Type 0 where
  pub slots_total : ℕ
  pub slots_allocated : ℕ
  pub tokens_per_slot : ℕ
  pub tokens_used : ℕ
  pub tokens_reserved : ℕ

-- `list(range(n))`, read from its end.
unfoldable pub count_down : ℕ → List ℕ
count_down zero = []
count_down (suc n) = n ∷ count_down n

-- `max_seq_len or cfg.max_position_embeddings`, and `expected_len or self.max_seq_len`.
unfoldable pub or_else : Option ℕ → ℕ → ℕ
or_else none d = d
or_else (some n) d = if n == 0 then d else n

-- `__init__`, with what the slabs hold at first.
unfoldable pub new_slots : {V : Type 0} → ℕ → Option ℕ → ℕ → V → Slots V
unfolding count_down or_else
new_slots num_slots max_seq_len max_positions zeros = record {
  num_slots = num_slots;
  max_seq_len = or_else max_seq_len max_positions;
  store = λ side layer slot x. zeros;
  free = count_down num_slots;
  live = [];
  expected = [];
  objects = [];
}

abbrev or_zero : Option ℕ → ℕ
or_zero none = 0
or_zero (some n) = n

-- `self._expected[slot]`, which is there for every live slot.
unfoldable pub expected_of : ℕ → List (ℕ × ℕ) → ℕ
unfolding get
expected_of slot d = or_zero (get slot d)

abbrev pub no_slot : Slot
no_slot = record { slot = 0; pos = 0; start = 0 }

module _ {V : Type 0} where
  -- `allocate`: the handle, none when the pool is full.
  unfoldable pub allocate : Option ℕ → Slots V → Option ℕ × Slots V
  unfolding put or_else
  allocate expected_len s = elim s.free [
    | [] ↦ (none, s)
    | slot ∷ rest ↦ (
      some (length s.objects),
      record s {
        free = rest;
        live = put slot (length s.objects) s.live;
        expected = put slot (min (or_else expected_len s.max_seq_len) s.max_seq_len) s.expected;
        objects = s.objects ++ record { slot = slot; pos = 0; start = 0 } ∷ [];
      },
    )
  ]

  abbrev pub object : ℕ → Slots V → Slot
  object handle s = get_or s.objects handle no_slot

  -- `free`
  unfoldable pub release : ℕ → Slots V → Slots V
  unfolding has pop
  release handle s =
      let slot = (object handle s).slot in
      if has slot s.live
      then record s { live = pop slot s.live; expected = pop slot s.expected; free = slot ∷ s.free }
      else s

  unfoldable pub reset : Slots V → Slots V
  unfolding count_down
  reset s = record s { live = []; expected = []; free = count_down s.num_slots }

  abbrev pub advanced : ℕ → ℕ → Slots V → Slots V
  advanced handle n s =
      let o = object handle s in
      record s { objects = set s.objects handle (record o { start = o.pos; pos = o.pos + n }) }

  -- The positions advance once, on layer 0, and before the check.
  unfoldable pub advance : ℕ → ℕ → Exec (Slots V) (Unit {0})
  advance handle n s =
      if ltb s.max_seq_len ((object handle s).pos + n)
      then (err slot_capacity, advanced handle n s)
      else (ok tt, advanced handle n s)

  -- `slab[slot, :, start:end] = rows`, a slice within the slot.
  unfoldable pub write_slice : ℕ → List V → (ℕ → V) → ℕ → V
  write_slice start rows f x =
      if leb start x && ltb x (start + length rows) then get_or rows (x - start) (f x) else f x

  -- `slab[slot, :, :end]`
  unfoldable pub read_slice : ℕ → (ℕ → V) → List V
  read_slice end f = map f (range_from 0 end)

  -- The rest of `update`: the write, and what attention reads.
  unfoldable pub write_rows : ℕ → ℕ → ℕ → (Side → List V) → Exec (Slots V) (Side → List V)
  unfolding write_slice read_slice
  write_rows handle layer n rows s =
      let o = object handle s in
      let s' : Slots V = record s {
        store = λ side l slot.
            if (l == layer) && (slot == o.slot)
            then write_slice o.start (rows side) (s.store side l slot)
            else s.store side l slot;
      } in
      (ok (λ side. read_slice (o.start + n) (s'.store side layer o.slot)), s')

  unfoldable pub update : ℕ → ℕ → ℕ → (Side → List V) → Exec (Slots V) (Side → List V)
  unfolding advance write_rows
  update handle layer n rows s =
      if layer == 0
      then (advance handle n >> write_rows handle layer n rows) s
      else write_rows handle layer n rows s

  -- The two sums of `stats`, over the items of `_live`.
  unfoldable pub used_tokens : List (ℕ × ℕ) → Slots V → ℕ
  used_tokens [] s = 0
  used_tokens ((slot, handle) ∷ d) s = (object handle s).pos + used_tokens d s

  unfoldable pub reserved_tokens : List (ℕ × ℕ) → Slots V → ℕ
  unfolding expected_of
  reserved_tokens [] s = 0
  reserved_tokens ((slot, handle) ∷ d) s =
      (expected_of slot s.expected - (object handle s).pos) + reserved_tokens d s

  unfoldable pub stats : Slots V → Stats
  unfolding used_tokens reserved_tokens
  stats s = record {
    slots_total = s.num_slots;
    slots_allocated = length s.live;
    tokens_per_slot = s.max_seq_len;
    tokens_used = used_tokens s.live s;
    tokens_reserved = reserved_tokens s.live s;
  }

abbrev pub tokens_capacity : Stats → ℕ
tokens_capacity p = p.slots_total * p.tokens_per_slot

abbrev pub tokens_allocated : Stats → ℕ
tokens_allocated p = p.slots_allocated * p.tokens_per_slot

unfoldable pub internal_fragmentation : Stats → ℕ
internal_fragmentation p = tokens_allocated p - p.tokens_used - p.tokens_reserved

unfoldable pub external_fragmentation : Stats → ℕ
external_fragmentation p = (p.slots_total - p.slots_allocated) * p.tokens_per_slot

-- The fields of `NanoConfig` (model/config.py) that size a cache.
pub record NanoConfig : Type 0 where
  pub hidden_size : ℕ
  pub num_hidden_layers : ℕ
  pub num_attention_heads : ℕ
  pub num_key_value_heads : ℕ
  pub max_position_embeddings : ℕ

unfoldable pub head_dim : NanoConfig → ℕ
head_dim cfg = cfg.hidden_size / cfg.num_attention_heads

-- `bytes_per_token` of a pool, whose dtype has items of `itemsize` bytes.
unfoldable pub bytes_per_token : NanoConfig → ℕ → ℕ
unfolding head_dim
bytes_per_token cfg itemsize =
    let per_layer = 2 * cfg.num_key_value_heads * head_dim cfg in
    per_layer * cfg.num_hidden_layers * itemsize

unfoldable pub total_bytes : {V : Type 0} → NanoConfig → ℕ → Slots V → ℕ
unfolding bytes_per_token
total_bytes cfg itemsize s = s.num_slots * s.max_seq_len * bytes_per_token cfg itemsize

-- `slots_for_budget`, for a budget that is not negative and a divisor that is not 0.
unfoldable pub slots_for_budget : NanoConfig → ℕ → Option ℕ → ℕ → ℕ
unfolding or_else head_dim
slots_for_budget cfg budget max_seq_len itemsize =
    let tokens = or_else max_seq_len cfg.max_position_embeddings in
    let per_layer = 2 * cfg.num_key_value_heads * head_dim cfg in
    let token_bytes = per_layer * cfg.num_hidden_layers * itemsize in
    budget / (token_bytes * tokens)
