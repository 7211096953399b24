-- ===== src/Batch/Pass.antt =====
-- The pass of `step` over a batch (engine/scheduler.py), through all layers.
use nanoserve.Prelude.{
  Bool, Bool-cases, List, [], ap, ap₂, arith, count, false, if_false, if_true, if◌then◌else◌, inl,
  inr, length, not, refl, suc, true, zero, ℕ, ◌&&◌, ◌+◌, ◌/◌, ◌<◌, ◌==◌, ◌∙◌, ◌∷◌, ◌≡◌, ◌≤◌,
}
use nanoserve.Exec.{Result, ok, err, out_of_blocks, ◌>>=◌, bind_run, raise_run}
use nanoserve.Paged.{Side, Pool, Cache, scatter}
use nanoserve.Batch.{
  Batch, longest, gather_rows, exchange, update, prepare, total_need, cache_mask, run_layers,
  run_pass, with_out,
}
use nanoserve.Batch.Prepare.{Apart, AllMoved, Ready, Prepared, prepare-Prepared}
use nanoserve.Batch.Layer.{visible_rows, live, grown, scatter-Apart, visible-live, batch_reads}

module _ {V : Type 0} where
  abbrev pub with_store : (Side → ℕ → ℕ → V) → Batch V → Batch V
  with_store f t = record t { pool = record t.pool { store = f } }

  -- What one layer leaves in the pool.
  abbrev pub stored : ℕ → (Side → List V) → List ℕ → (Side → ℕ → ℕ → V) → Side → ℕ → ℕ → V
  stored layer rows ws f side l = if l == layer then scatter (f side l) ws (rows side) else f side l

  pub length-moved :
      (p q : Pool V) (cs ds : List Cache) (ws : List ℕ)
      → AllMoved p q cs ds ws
      → length cs ≡ length ds
  length-moved p q [] [] [] m = refl
  length-moved p q [] [] (w ∷ ws) m = elim m [ ]
  length-moved p q [] (d ∷ ds) ws m = elim m [ ]
  length-moved p q (c ∷ cs) [] ws m = elim m [ ]
  length-moved p q (c ∷ cs) (d ∷ ds) [] m = elim m [ ]
  length-moved p q (c ∷ cs) (d ∷ ds) (w ∷ ws) (_, ms) = ap suc (length-moved p q cs ds ws ms)

  -- What each sequence holds at a layer after the exchange.
  pub layer_live :
      (others : List ℕ) (s t : Batch V) (f : Side → ℕ → ℕ → V) (layer : ℕ) (rows : Side → List V)
      (side : Side)
      → Ready others s
      → Prepared others s t
      → layer < s.num_layers
      → length (rows side) ≡ length s.caches
      → f side layer ≡ t.store side layer
      → live (stored layer rows t.write_slots f side layer) t.caches
        ≡ grown (s.store side layer) s.caches (rows side)
  layer_live others s t f layer rows side r k h e same =
      let c = k.committed in
      ap (λ (x : ℕ → V). live x t.caches) (if_true (layer == layer) _ _ (ground arith))
      ∙ batch_reads s.pool t.pool side layer (f side layer) others s.caches t.caches t.write_slots
          (rows side) r.positive h c.fit c.moved c.apart
          (e ∙ length-moved s.pool t.pool s.caches t.caches t.write_slots c.moved)
          (λ x _. ap (λ (y : ℕ → V). y x) same)

  -- What attention reads at a layer, under the mask.
  pub layer_reads :
      (others : List ℕ) (s t : Batch V) (f : Side → ℕ → ℕ → V) (layer : ℕ) (rows : Side → List V)
      (side : Side)
      → Ready others s
      → Prepared others s t
      → layer < s.num_layers
      → length (rows side) ≡ length s.caches
      → f side layer ≡ t.store side layer
      → visible_rows t.mask
          (gather_rows (stored layer rows t.write_slots f side layer) t.read_index)
        ≡ grown (s.store side layer) s.caches (rows side)
  layer_reads others s t f layer rows side r k h e same =
      let g = stored layer rows t.write_slots f side layer in
      ap₂ (λ m i. visible_rows m (gather_rows g i)) k.masked k.index
      ∙ visible-live s.block_size (longest t.caches) g t.caches k.committed.fit (omega arith)
      ∙ layer_live others s t f layer rows side r k h e same

  -- Layer after layer, from `layer` on: each sequence reads its tokens before the pass and its new row.
  abbrev pub AllRead :
      Batch V → (ℕ → Side → List V) → List (List Bool) → ℕ → List (Side → List (List V)) → Type 0
  AllRead s rows mask layer [] = Unit {0}
  AllRead s rows mask layer (out ∷ outs) =
      ((side : Side)
        → visible_rows mask (out side) ≡ grown (s.store side layer) s.caches (rows layer side))
      × AllRead s rows mask (layer + 1) outs

  -- The blocks of everybody else hold what they held.
  abbrev pub Untouched : List ℕ → ℕ → (Side → ℕ → ℕ → V) → (Side → ℕ → ℕ → V) → Type 0
  Untouched others bs f g =
      (side : Side) (l x : ℕ) → 0 < count (x / bs) others → f side l x ≡ g side l x

  pub stored-Untouched :
      (others : List ℕ) (bs layer : ℕ) (rows : Side → List V) (ds : List Cache) (ws : List ℕ)
      (f g : Side → ℕ → ℕ → V)
      → Apart bs others ds ws
      → Untouched others bs f g
      → Untouched others bs (stored layer rows ws f) g
  stored-Untouched others bs layer rows ds ws f g a h side l x p = elim (Bool-cases (l == layer)) [
    | inl here ↦
        ap (λ (y : ℕ → V). y x) (if_true (l == layer) _ _ here)
        ∙ scatter-Apart bs (f side l) others ds ws (rows side) x a p
        ∙ h side l x p
    | inr other ↦ ap (λ (y : ℕ → V). y x) (if_false (l == layer) _ _ other) ∙ h side l x p
  ]

  pub update_prepared :
      (layer : ℕ) (rows : Side → List V) (t : Batch V)
      → t.prepared ≡ true
      → update layer rows t ≡ exchange layer rows t
  unfolding update
  update_prepared layer rows t e = if_false ((layer == 0) && not t.prepared) _ _ (ground (arith, e))

  run_layers-AllRead :
      (n layer : ℕ) (others : List ℕ) (s t : Batch V) (f : Side → ℕ → ℕ → V)
      (rows : ℕ → Side → List V)
      → Ready others s
      → Prepared others s t
      → layer + n ≤ s.num_layers
      → ((l : ℕ) (side : Side) → length (rows l side) ≡ length s.caches)
      → ((side : Side) (l : ℕ) → layer ≤ l → f side l ≡ t.store side l)
      → Untouched others s.block_size f s.store
      → (outs : List (Side → List (List V))) × (g : Side → ℕ → ℕ → V) × (run_layers n layer rows
            (with_store f t)
          ≡ (ok outs, with_store g t))
        × (length outs ≡ n)
        × AllRead s rows t.mask layer outs
        × Untouched others s.block_size g s.store
  unfolding run_layers exchange
  run_layers-AllRead zero layer others s t f rows r k h sizes later kept =
      ([], f, refl, refl, tt, kept)
  run_layers-AllRead (suc n) layer others s t f rows r k h sizes later kept =
      let f' = stored layer (rows layer) t.write_slots f in
      let out : Side → List (List V) = λ side. gather_rows (f' side layer) t.read_index in
      let first : update layer (rows layer) (with_store f t) ≡ (ok out, with_store f' t) =
        update_prepared layer (rows layer) (with_store f t) k.done in
      let (outs, g, rest, many, reads, kept') =
        run_layers-AllRead n (layer + 1) others s t f' rows r k (omega arith) sizes
          (λ side l p. if_false (l == layer) _ _ (ground arith) ∙ later side l (omega arith))
          (stored-Untouched others s.block_size layer (rows layer) t.caches t.write_slots f s.store
            k.committed.apart kept) in
      (
        out ∷ outs,
        g,
        bind_run (update layer (rows layer))
              (λ o. run_layers n (layer + 1) rows >>= λ os. with_out o os) (with_store f t)
              (with_store f' t) out first
            ∙ bind_run (run_layers n (layer + 1) rows) (λ os. with_out out os) (with_store f' t)
                (with_store g t) outs rest,
        omega arith,
        (
          λ side.
              layer_reads others s t f layer (rows layer) side r k (omega arith) (sizes layer side)
                (later side layer (omega arith)),
          reads,
        ),
        kept',
      )

  -- One pass over a batch whose sequences own their tables, with one new row for each sequence at
  -- each layer and side. With fewer free blocks than the batch needs it raises `OutOfBlocks` and
  -- changes nothing. Otherwise it returns; at every layer, under the mask, each sequence reads its
  -- tokens followed by its own new row and nothing else; every slot of the blocks that others hold
  -- is unchanged, and the sequences own their tables again.
  pub run_pass-AllRead :
      (others : List ℕ) (s : Batch V) (rows : ℕ → Side → List V)
      → Ready others s
      → s.prepared ≡ false
      → ((l : ℕ) (side : Side) → length (rows l side) ≡ length s.caches)
      → (length s.alloc.free < total_need s.block_size s.alloc.refs s.caches
          → run_pass rows s ≡ (err out_of_blocks, s))
        × (total_need s.block_size s.alloc.refs s.caches ≤ length s.alloc.free
            → (mask : List (List Bool)) × (outs : List (Side → List (List V))) × (t : Batch V)
              × (run_pass rows s ≡ (ok (mask, outs), t))
              × (length outs ≡ s.num_layers)
              × AllRead s rows mask 0 outs
              × Untouched others s.block_size t.store s.store
              × Ready others t)
  unfolding run_pass cache_mask
  run_pass-AllRead others s rows r fresh sizes =
      let (short, enough) = prepare-Prepared others s r in
      let after : List (List Bool)
          → Batch V
          → Result (List (List Bool) × List (Side → List (List V))) × Batch V =
        λ mask. run_layers s.num_layers 0 rows >>= λ outs s'. (ok (mask, outs), s') in
      (
        λ few. raise_run cache_mask after s s out_of_blocks (
            if_false s.prepared _ _ fresh
            ∙ raise_run prepare (λ _ s'. (ok s'.mask, s')) s s out_of_blocks (short few)),
        λ all.
            let (t, run, k) = enough all in
            let (outs, g, layers, many, reads, kept) =
              run_layers-AllRead s.num_layers 0 others s t t.store rows r k (omega arith) sizes
                (λ side l p. refl) k.committed.foreign in
            (
              t.mask,
              outs,
              with_store g t,
              bind_run cache_mask after s t t.mask (
                    if_false s.prepared _ _ fresh
                    ∙ bind_run prepare (λ _ s'. (ok s'.mask, s')) s t tt run)
                  ∙ bind_run (run_layers s.num_layers 0 rows) (λ os s'. (ok (t.mask, os), s')) t
                      (with_store g t) outs layers,
              many,
              reads,
              kept,
              record { positive = k.ready.positive; fit = k.ready.fit; holds = k.ready.holds },
            ),
      )
