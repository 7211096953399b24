-- ===== src/Model/Batching.antt =====
-- One token of each sequence of a batch (engine/scheduler.py) in the layers of model/transformer.py,
-- each as if it were alone.
use nanoserve.Prelude.{
  Bool, List, [], ap, ap₂, arith, length, length-append, refl, replicate, suc, true, visible, zero,
  ℕ, ◌++◌, ◌∙◌, ◌∷◌, ◌≡◌,
}
use nanoserve.Paged.{Side, keys, values, Pool, Cache, gather}
use nanoserve.Batch.Layer.{visible_rows, grown}
use nanoserve.Model.{
  Network, Dynamic, project_rows, attend_all, attend_rows, attention_mask, attend_batch,
}
use nanoserve.Model.Mask.{visible_all}
use nanoserve.Model.Split.{Even}
use nanoserve.Model.Trace.{entering}
use nanoserve.Model.Paging.{view, view-Even}

module _ {H V L : Type 0} (net : Network H V L) where
  open net use {project, attend}

  -- One token alone, as it enters a layer.
  unfoldable pub token_at : ℕ → ℕ × H → Dynamic V → H
  token_at zero (p, h) d = h
  token_at (suc l) (p, h) d =
      let x = token_at l (p, h) d in
      attend l p x (d keys l ++ project keys l p x ∷ []) (d values l ++ project values l p x ∷ [])

  pub entering_one :
      (l p : ℕ) (h : H) (d : Dynamic V)
      → Even 0 d
      → entering net l ((p, h) ∷ []) d ≡ (p, token_at l (p, h) d) ∷ []
  unfolding token_at entering attend_all attention_mask attend_rows project_rows
  entering_one zero p h d even = refl
  entering_one (suc l) p h d even =
      let x = token_at l (p, h) d in
      let size = λ (side : Side). length-append (d side l) (project side l p x ∷ []) in
      let held = λ (side : Side). d side l ++ project side l p x ∷ [] in
      ap (λ r. attend_all net l r (λ side. d side l ++ project_rows net l r side))
        (entering_one l p h d even)
      ∙ ap₂ (λ ks vs. (p, attend l p x ks vs) ∷ []) (visible_all (held keys))
          (ap (λ n. visible (replicate n true) (held values)) {y = length (held values)}
              (omega (arith, size keys, size values, even l (omega arith)))
            ∙ visible_all (held values))

  abbrev pub one : Pool V → Cache → Dynamic V
  one p c = view (record { pool = p; cache = c })

  pub one-Even : (p : Pool V) (c : Cache) → Even 0 (one p c)
  one-Even p c = view-Even (record { pool = p; cache = c })

  -- The tokens of the batch, as they enter a layer.
  unfoldable pub each : ℕ → Pool V → List (ℕ × H) → List Cache → List (ℕ × H)
  each l p (r ∷ rs) (c ∷ cs) = (r.0, token_at l r (one p c)) ∷ each l p rs cs
  each l p _ _ = []

  pub length-each :
      (l : ℕ) (p : Pool V) (rs : List (ℕ × H)) (cs : List Cache)
      → length rs ≡ length cs
      → length (each l p rs cs) ≡ length cs
  unfolding each
  length-each l p [] [] e = refl
  length-each l p [] (c ∷ cs) e = refl ∙ e
  length-each l p (r ∷ rs) [] e = absurd (omega arith)
  length-each l p (r ∷ rs) (c ∷ cs) e = ap suc (length-each l p rs cs (omega arith))

  pub each_zero :
      (p : Pool V) (rs : List (ℕ × H)) (cs : List Cache)
      → length rs ≡ length cs
      → each 0 p rs cs ≡ rs
  unfolding each token_at
  each_zero p [] cs e = refl
  each_zero p (r ∷ rs) [] e = absurd (omega arith)
  each_zero p (r ∷ rs) (c ∷ cs) e = ap (◌∷◌ r) (each_zero p rs cs (omega arith))

  -- Attention of a batch, once the masks are applied.
  unfoldable pub attend_pairs : ℕ → List (ℕ × H) → List (List V) → List (List V) → List (ℕ × H)
  attend_pairs layer ((p, h) ∷ rows) (ks ∷ kss) (vs ∷ vss) =
      (p, attend layer p h ks vs) ∷ attend_pairs layer rows kss vss
  attend_pairs layer _ _ _ = []

  pub attend_batch-visible :
      (layer : ℕ) (rows : List (ℕ × H)) (mask : List (List Bool)) (kss vss : List (List V))
      → attend_batch net layer rows mask kss vss
        ≡ attend_pairs layer rows (visible_rows mask kss) (visible_rows mask vss)
  unfolding attend_batch attend_pairs
  attend_batch-visible layer [] mask kss vss = refl
  attend_batch-visible layer ((p, h) ∷ rows) [] kss vss = refl
  attend_batch-visible layer ((p, h) ∷ rows) (m ∷ mask) [] vss = refl
  attend_batch-visible layer ((p, h) ∷ rows) (m ∷ mask) (ks ∷ kss) [] = refl
  attend_batch-visible layer ((p, h) ∷ rows) (m ∷ mask) (ks ∷ kss) (vs ∷ vss) =
      ap (◌∷◌ (p, attend layer p h (visible m ks) (visible m vs)))
        (attend_batch-visible layer rows mask kss vss)

  pub attend_pairs-each :
      (l : ℕ) (p : Pool V) (rs : List (ℕ × H)) (cs : List Cache)
      → attend_pairs l
          (each l p rs cs)
          (grown (p.store keys l) cs (project_rows net l (each l p rs cs) keys))
          (grown (p.store values l) cs (project_rows net l (each l p rs cs) values))
        ≡ each (suc l) p rs cs
  unfolding attend_pairs each token_at project_rows view gather
  attend_pairs-each l p [] cs = refl
  attend_pairs-each l p (r ∷ rs) [] = refl
  attend_pairs-each l p (r ∷ rs) (c ∷ cs) =
      ap (◌∷◌ (r.0, token_at (suc l) r (one p c))) (attend_pairs-each l p rs cs)
