-- ===== src/Model/Together.antt =====
-- The decode pass of model/transformer.py over a batch (engine/scheduler.py), against each sequence
-- alone over a `DynamicCache`.
use nanoserve.Prelude.{
  ==→eq, ==→ne, Bool, Bool-cases, List, [], ap, ap₂, arith, drop, false, get_or, if_false, inl, inr,
  length, refl, subst, suc, sym, zero, ℕ, ◌++◌, ◌+◌, ◌<◌, ◌==◌, ◌∙◌, ◌∷◌, ◌≡◌, ◌≤◌,
}
use nanoserve.Exec.{ok, err, out_of_blocks, bind_run, raise_run}
use nanoserve.Paged.{Side, keys, values, Pool, Cache, gather}
use nanoserve.Batch.{Batch, gather_rows, exchange, update, prepare, total_need, cache_mask}
use nanoserve.Batch.Prepare.{Ready, Prepared, prepare-Prepared}
use nanoserve.Batch.Layer.{live, grown}
use nanoserve.Batch.Pass.{
  length-moved, with_store, stored, layer_live, layer_reads, Untouched, stored-Untouched,
  update_prepared,
}
use nanoserve.Model.{Network, project_rows, attend_batch, dynamic_layers, batch_layers, decode_pass}
use nanoserve.Model.Trace.{entering, dynamic_layers-entering, dynamic_layers-written}
use nanoserve.Model.Paging.{view}
use nanoserve.Model.Batching.{
  one, one-Even, entering_one, each, length-each, each_zero, attend_pairs, attend_batch-visible,
  attend_pairs-each,
}
use nanoserve.Model.Split.{length-project_rows}

module _ {H V L : Type 0} (net : Network H V L) where
  -- The new rows of the batch at a layer.
  abbrev fresh : Batch V → List (ℕ × H) → ℕ → Side → List V
  fresh s rs l = project_rows net l (each net l s.pool rs s.caches)

  batch_layers-step :
      (n layer : ℕ) (mask : List (List Bool)) (rows : List (ℕ × H)) (out : Side → List (List V))
      (s t : Batch V)
      → update layer (project_rows net layer rows) s ≡ (ok out, t)
      → batch_layers net (suc n) layer mask rows s
        ≡ batch_layers net n
            (layer + 1)
            mask
            (attend_batch net layer rows mask (out keys) (out values))
            t
  unfolding batch_layers
  batch_layers-step n layer mask rows out s t e =
      bind_run (update layer (project_rows net layer rows))
        (λ reads.
          batch_layers net n (layer + 1) mask
            (attend_batch net layer rows mask (reads keys) (reads values)))
        s t out e

  module _ (others : List ℕ) (s t : Batch V) (rs : List (ℕ × H)) where
    -- What the layers below have stored.
    abbrev Stored : ℕ → (Side → ℕ → ℕ → V) → Type 0
    Stored i f =
        (side : Side) (l : ℕ)
        → l < i
        → live (f side l) t.caches ≡ grown (s.store side l) s.caches (fresh s rs l side)

    batch_layers-each :
        (n layer last : ℕ) (f : Side → ℕ → ℕ → V)
        → Ready others s
        → Prepared others s t
        → layer + n ≡ last
        → last ≤ s.num_layers
        → length rs ≡ length s.caches
        → ((side : Side) (l : ℕ) → layer ≤ l → f side l ≡ t.store side l)
        → Untouched others s.block_size f s.store
        → Stored layer f
        → (g : Side → ℕ → ℕ → V) × (batch_layers net n layer t.mask
              (each net layer s.pool rs s.caches)
              (with_store f t)
            ≡ (ok (each net last s.pool rs s.caches), with_store g t))
          × Untouched others s.block_size g s.store
          × Stored last g
    unfolding batch_layers exchange
    batch_layers-each zero layer last f r k e h sizes later kept below =
        let same : layer ≡ last = omega arith in
        (
          f,
          ap (λ l. (ok (each net l s.pool rs s.caches), with_store f t)) same,
          kept,
          subst (λ l. Stored l f) same below,
        )
    batch_layers-each (suc n) layer last f r k e h sizes later kept below =
        let rows = each net layer s.pool rs s.caches in
        let f' = stored layer (fresh s rs layer) t.write_slots f in
        let out : Side → List (List V) = λ side. gather_rows (f' side layer) t.read_index in
        let many = λ (side : Side).
          length-project_rows net layer rows side
          ∙ length-each net layer s.pool rs s.caches sizes in
        let reads = λ (side : Side).
          layer_reads others s t f layer (fresh s rs layer) side r k (omega arith) (many side)
            (later side layer (omega arith)) in
        let next : attend_batch net layer rows t.mask (out keys) (out values)
            ≡ each net (suc layer) s.pool rs s.caches =
          attend_batch-visible net layer rows t.mask (out keys) (out values)
          ∙ ap₂ (attend_pairs net layer rows) (reads keys) (reads values)
          ∙ attend_pairs-each net layer s.pool rs s.caches in
        let (g, run, kept', held) =
          batch_layers-each n (suc layer) last f' r k (omega arith) h sizes
            (λ side l p. if_false (l == layer) _ _ (ground arith) ∙ later side l (omega arith))
            (stored-Untouched others s.block_size layer (fresh s rs layer) t.caches t.write_slots f
              s.store k.committed.apart kept)
            (λ side l p. elim (Bool-cases (l == layer)) [
              | inl here ↦
                  subst
                    (λ j.
                      live (f' side j) t.caches
                      ≡ grown (s.store side j) s.caches (fresh s rs j side))
                    (sym (==→eq l layer here))
                    (layer_live others s t f layer (fresh s rs layer) side r k (omega arith)
                      (many side) (later side layer (omega arith)))
              | inr there ↦
                  ap (λ (x : ℕ → V). live x t.caches) (if_false (l == layer) _ _ there)
                  ∙ below side l (omega (arith, ==→ne l layer there))
            ]) in
        (
          g,
          batch_layers-step n layer t.mask rows out (with_store f t) (with_store f' t)
                (update_prepared layer (fresh s rs layer) (with_store f t) k.done)
              ∙ ap₂ (λ l x. batch_layers net n l t.mask x (with_store f' t)) {y = suc layer}
                  (omega arith) next
              ∙ run,
          kept',
          held,
        )

  -- Each sequence alone, with its own token, over a `DynamicCache` with its rows.
  unfoldable pub alone : ℕ → Pool V → List (ℕ × H) → List Cache → List (ℕ × H)
  alone n p (r ∷ rs) (c ∷ cs) = (dynamic_layers net n 0 (r ∷ []) (one net p c)).0 ++ alone n p rs cs
  alone n p _ _ = []

  -- Each sequence's cache reads, at every layer, what that `DynamicCache` then holds.
  abbrev pub AllSeen : Pool V → Pool V → List (ℕ × H) → List Cache → List Cache → Type 0
  AllSeen p q (r ∷ rs) (c ∷ cs) (d ∷ ds) =
      ((side : Side) (l : ℕ)
        → l < p.num_layers
        → one net q d side l ≡ (dynamic_layers net p.num_layers 0 (r ∷ []) (one net p c)).1 side l)
      × AllSeen p q rs cs ds
  AllSeen p q _ _ _ = Unit {0}

  alone-each :
      (n : ℕ) (p : Pool V) (rs : List (ℕ × H)) (cs : List Cache)
      → each net n p rs cs ≡ alone n p rs cs
  unfolding alone each entering
  alone-each n p [] cs = refl
  alone-each n p (r ∷ rs) [] = refl
  alone-each n p (r ∷ rs) (c ∷ cs) =
      ap₂ ◌++◌
        (sym (entering_one net n r.0 r.1 (one net p c) (one-Even net p c))
          ∙ sym (
              dynamic_layers-entering net n 0 n (r ∷ []) (one net p c) (one net p c) (omega arith)
                (λ side l h. refl)))
        (alone-each n p rs cs)

  seen-alone :
      (p q : Pool V) (rs : List (ℕ × H)) (cs ds : List Cache)
      → ((side : Side) (l : ℕ)
          → l < p.num_layers
          → live (q.store side l) ds
            ≡ grown (p.store side l) cs (project_rows net l (each net l p rs cs) side))
      → AllSeen p q rs cs ds
  unfolding each entering project_rows view gather
  seen-alone p q [] cs ds h = tt
  seen-alone p q (r ∷ rs) [] ds h = tt
  seen-alone p q (r ∷ rs) (c ∷ cs) [] h = tt
  seen-alone p q (r ∷ rs) (c ∷ cs) (d ∷ ds) h = (
    λ side l k.
        ap (λ xs. get_or xs 0 []) (h side l k)
        ∙ ap (λ x. one net p c side l ++ project_rows net l x side)
            (sym (entering_one net l r.0 r.1 (one net p c) (one-Even net p c)))
        ∙ sym (
            dynamic_layers-written net p.num_layers 0 (r ∷ []) (one net p c) (one net p c) side l
              (λ sd j g. refl) (omega arith) (omega arith)),
    seen-alone p q rs cs ds (λ side l k. ap (drop 1) (h side l k)),
  )

  pub length-alone :
      (n : ℕ) (p : Pool V) (rs : List (ℕ × H)) (cs : List Cache)
      → length rs ≡ length cs
      → length (alone n p rs cs) ≡ length cs
  length-alone n p rs cs e = ap length (sym (alone-each n p rs cs)) ∙ length-each net n p rs cs e

  -- With too few free blocks the pass raises and changes nothing.
  pub decode_pass_short :
      (others : List ℕ) (s : Batch V) (rs : List (ℕ × H))
      → Ready others s
      → s.prepared ≡ false
      → length s.alloc.free < total_need s.block_size s.alloc.refs s.caches
      → decode_pass net rs s ≡ (err out_of_blocks, s)
  unfolding decode_pass cache_mask
  decode_pass_short others s rs r unprepared few =
      raise_run cache_mask (λ mask. batch_layers net s.num_layers 0 mask rs) s s out_of_blocks
        (if_false s.prepared _ _ unprepared
          ∙ raise_run prepare (λ _ s'. (ok s'.mask, s')) s s out_of_blocks
              ((prepare-Prepared others s r).0 few))

  -- A decode pass over a batch whose sequences own their tables, with one token for each sequence
  -- and the blocks that the batch needs: it returns for each token what the sequence alone would
  -- return for it over a `DynamicCache` with its rows, whatever the other sequences are; each
  -- sequence's cache then reads, at every layer, what that `DynamicCache` holds; the blocks that
  -- others hold are unchanged, and the sequences, as many as before, own their tables again.
  pub decode_pass-alone :
      (others : List ℕ) (s : Batch V) (rs : List (ℕ × H))
      → Ready others s
      → s.prepared ≡ false
      → length rs ≡ length s.caches
      → total_need s.block_size s.alloc.refs s.caches ≤ length s.alloc.free
      → (t : Batch V) × (decode_pass net rs s ≡ (ok (alone s.num_layers s.pool rs s.caches), t))
        × AllSeen s.pool t.pool rs s.caches t.caches
        × Untouched others s.block_size t.store s.store
        × Ready others t
        × (length t.caches ≡ length s.caches)
  unfolding decode_pass cache_mask
  decode_pass-alone others s rs r unprepared sizes enough =
      let (t, run, k) = (prepare-Prepared others s r).1 enough in
      let rows : each net 0 s.pool rs s.caches ≡ rs = each_zero net s.pool rs s.caches sizes in
      let (g, layers, kept, held) =
        batch_layers-each others s t rs s.num_layers 0 s.num_layers t.store r k (omega arith)
          (omega arith) sizes (λ side l p. refl) k.committed.foreign
          (λ side l p. absurd (omega arith)) in
      (
        with_store g t,
        bind_run cache_mask (λ mask. batch_layers net s.num_layers 0 mask rs) s t t.mask
              (if_false s.prepared _ _ unprepared
                ∙ bind_run prepare (λ _ s'. (ok s'.mask, s')) s t tt run)
            ∙ ap (λ x. batch_layers net s.num_layers 0 t.mask x t) (sym rows)
            ∙ layers
            ∙ ap (λ x. (ok x, with_store g t)) (alone-each s.num_layers s.pool rs s.caches),
        seen-alone s.pool (record t.pool { store = g }) rs s.caches t.caches held,
        kept,
        record { positive = k.ready.positive; fit = k.ready.fit; holds = k.ready.holds },
        sym (length-moved s.pool t.pool s.caches t.caches t.write_slots k.committed.moved),
      )
