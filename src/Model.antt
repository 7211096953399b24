-- ===== src/Model.antt =====
-- The forward pass of model/transformer.py around its caches. What the layers compute for one token
-- (linear maps, rotary embedding, softmax, norms) is a parameter; which keys and values a token sees,
-- the masks, and the order in which the caches are called are modelled.
pub mod Mask
pub mod Split
pub mod Cached
pub mod Trace
pub mod Paging
pub mod Batching
pub mod Slotted
pub mod Together
mod Tests
use nanoserve.Prelude.{
  Bool, List, [], if◌then◌else◌, leb, length, ltb, map, range_from, replicate, suc, true, visible,
  zero, ℕ, ◌++◌, ◌+◌, ◌-◌, ◌==◌, ◌∷◌,
}
use nanoserve.Exec.{Result, ok, err, Exec, ◌>>=◌, proceed}
use nanoserve.Paged.{Side, keys, values, Paged}
use nanoserve.Paged
use nanoserve.Static.{Slots}
use nanoserve.Static
use nanoserve.Batch.{Batch, cache_mask}
use nanoserve.Batch

-- One token's part of the model: `H` is a row of activations, `V` a row of keys or values, `L` the
-- logits of a token. `project` gives the row that a layer caches for a token at a position, and
-- `attend` the rest of the layer for it, from the keys and the values that the mask lets through.
pub record Network (H V L : Type 0) : Type 0 where
  pub embed : ℕ → H
  pub project : Side → ℕ → ℕ → H → V
  pub attend : ℕ → ℕ → H → List V → List V → H
  pub head : H → L

-- `offset_causal_mask`
unfoldable pub offset_causal_mask : ℕ → ℕ → List (List Bool)
offset_causal_mask q_len kv_len =
    map (λ q. map (λ k. leb k q) (range_from 0 kv_len)) (range_from (kv_len - q_len) q_len)

-- The square mask of `is_causal`.
unfoldable pub causal_mask : ℕ → List (List Bool)
causal_mask n = map (λ q. map (λ k. leb k q) (range_from 0 n)) (range_from 0 n)

-- The three regimes of `Attention.forward` without a mask of the caller, for `t` queries.
unfoldable pub attention_mask : ℕ → ℕ → List (List Bool)
unfolding offset_causal_mask causal_mask
attention_mask t kv_len =
    if ltb 1 t
    then if t == kv_len then causal_mask t else offset_causal_mask t kv_len
    else replicate t (replicate kv_len true)

-- `DynamicCache`: the rows of each layer, none before the first update.
abbrev pub Dynamic : Type 0 → Type 0
Dynamic V = Side → ℕ → List V

abbrev pub no_rows : {V : Type 0} → Dynamic V
no_rows side layer = []

-- `DynamicCache.update`: what it returns, and the cache after it.
unfoldable pub dynamic_update :
    {V : Type 0} → ℕ → (Side → List V) → Dynamic V → (Side → List V) × Dynamic V
dynamic_update layer rows d = (
  (λ side. d side layer ++ rows side),
  λ side l. if l == layer then d side l ++ rows side else d side l,
)

module _ {H V L : Type 0} (net : Network H V L) where
  open net use {embed, project, attend, head}

  -- `embed_tokens`, with the positions from `p` on.
  unfoldable pub embed_rows : List ℕ → ℕ → List (ℕ × H)
  embed_rows [] p = []
  embed_rows (token ∷ tokens) p = (p, embed token) ∷ embed_rows tokens (p + 1)

  unfoldable pub project_rows : ℕ → List (ℕ × H) → Side → List V
  project_rows layer [] side = []
  project_rows layer ((p, h) ∷ rows) side = project side layer p h ∷ project_rows layer rows side

  -- Each query with its row of the mask, over the same keys and values.
  unfoldable pub attend_rows : ℕ → List (ℕ × H) → List (List Bool) → List V → List V → List (ℕ × H)
  attend_rows layer ((p, h) ∷ rows) (m ∷ mask) ks vs =
      (p, attend layer p h (visible m ks) (visible m vs)) ∷ attend_rows layer rows mask ks vs
  attend_rows layer _ _ ks vs = []

  -- One `DecoderLayer` after the cache has answered.
  unfoldable pub attend_all : ℕ → List (ℕ × H) → (Side → List V) → List (ℕ × H)
  unfolding attend_rows attention_mask
  attend_all layer rows reads =
      attend_rows layer rows (attention_mask (length rows) (length (reads keys))) (reads keys)
        (reads values)

  -- `NanoModel.forward` without a cache, from `layer` on.
  unfoldable pub plain_layers : ℕ → ℕ → List (ℕ × H) → List (ℕ × H)
  unfolding attend_all project_rows
  plain_layers zero layer rows = rows
  plain_layers (suc k) layer rows =
      plain_layers k (layer + 1) (attend_all layer rows (project_rows layer rows))

  -- The same over a `DynamicCache`.
  unfoldable pub dynamic_layers : ℕ → ℕ → List (ℕ × H) → Dynamic V → List (ℕ × H) × Dynamic V
  unfolding attend_all project_rows dynamic_update
  dynamic_layers zero layer rows d = (rows, d)
  dynamic_layers (suc k) layer rows d =
      let (reads, d') = dynamic_update layer (project_rows layer rows) d in
      dynamic_layers k (layer + 1) (attend_all layer rows reads) d'

  -- The same over a paged cache.
  unfoldable pub paged_layers : ℕ → ℕ → List (ℕ × H) → Exec (Paged V) (List (ℕ × H))
  unfolding attend_all project_rows Paged.update
  paged_layers zero layer rows s = (ok rows, s)
  paged_layers (suc k) layer rows s =
      (Paged.update layer (length rows) (project_rows layer rows) >>= λ reads.
      paged_layers k (layer + 1) (attend_all layer rows reads))
        s

  -- The same over one slot of the contiguous cache.
  unfoldable pub static_layers : ℕ → ℕ → ℕ → List (ℕ × H) → Exec (Slots V) (List (ℕ × H))
  unfolding attend_all project_rows Static.update
  static_layers handle zero layer rows s = (ok rows, s)
  static_layers handle (suc k) layer rows s =
      (Static.update handle layer (length rows) (project_rows layer rows) >>= λ reads.
      static_layers handle k (layer + 1) (attend_all layer rows reads))
        s

  -- One query of each sequence of a batch, with its row of the mask.
  unfoldable pub attend_batch :
      ℕ → List (ℕ × H) → List (List Bool) → List (List V) → List (List V) → List (ℕ × H)
  attend_batch layer ((p, h) ∷ rows) (m ∷ mask) (ks ∷ kss) (vs ∷ vss) =
      (p, attend layer p h (visible m ks) (visible m vs)) ∷ attend_batch layer rows mask kss vss
  attend_batch layer _ _ _ _ = []

  -- The same over a batch of paged caches.
  unfoldable pub batch_layers :
      ℕ → ℕ → List (List Bool) → List (ℕ × H) → Exec (Batch V) (List (ℕ × H))
  unfolding attend_batch project_rows Batch.update
  batch_layers zero layer mask rows s = (ok rows, s)
  batch_layers (suc k) layer mask rows s =
      (Batch.update layer (project_rows layer rows) >>= λ reads.
      batch_layers k (layer + 1) mask (attend_batch layer rows mask (reads keys) (reads values)))
        s

  -- The model's pass in `step` (engine/scheduler.py): the mask is made before the first layer.
  unfoldable pub decode_pass : List (ℕ × H) → Exec (Batch V) (List (ℕ × H))
  unfolding cache_mask batch_layers
  decode_pass rows s = (cache_mask >>= λ mask. batch_layers s.num_layers 0 mask rows) s

  -- The logits of each token.
  unfoldable pub heads : List (ℕ × H) → List L
  heads [] = []
  heads ((p, h) ∷ rows) = head h ∷ heads rows

  -- `NanoForCausalLM.forward` over `n` layers, without a cache.
  unfoldable pub forward_plain : ℕ → List ℕ → List L
  unfolding plain_layers embed_rows heads
  forward_plain n tokens = heads (plain_layers n 0 (embed_rows tokens 0))

  -- The same with a `DynamicCache`: the positions continue behind what it holds, `len(cache)`.
  unfoldable pub forward_cached : ℕ → List ℕ → Dynamic V → List L × Dynamic V
  unfolding dynamic_layers embed_rows heads
  forward_cached n tokens d =
      let (rows, d') = dynamic_layers n 0 (embed_rows tokens (length (d keys 0))) d in
      (heads rows, d')

  -- Several calls on one cache, as prefill and decode make them: the logits of all of them.
  unfoldable pub run_chunks : ℕ → List (List ℕ) → Dynamic V → List L × Dynamic V
  unfolding forward_cached
  run_chunks n [] d = ([], d)
  run_chunks n (tokens ∷ chunks) d =
      let (logits, d') = forward_cached n tokens d in
      let (more, d'') = run_chunks n chunks d' in (logits ++ more, d'')
