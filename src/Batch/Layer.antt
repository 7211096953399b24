-- ===== src/Batch/Layer.antt =====
-- `update` of `BatchedPagedCache` (engine/scheduler.py): what attention reads at one layer, under the
-- mask.
use nanoserve.Prelude.{
  ==→eq, Bool, Bool-cases, List, [], ap, ap₂, arith, count, count-append, false, if_false, if_true,
  if◌then◌else◌, inl, inr, length, length-take, ltb, map, map-append, range_from, refl, replicate,
  suc, take, visible, zero, ℕ, ◌++◌, ◌+◌, ◌-◌, ◌/◌, ◌<◌, ◌==◌, ◌∙◌, ◌∷◌, ◌≡◌, ◌≤◌,
}
use nanoserve.Paged.{Side, Pool, Cache, scatter}
use nanoserve.Paged.Slots.{length-slots_of, map_agree, count-slots_of, count-take-le}
use nanoserve.Batch.{longest, padded, index_rows, mask_rows, gather_rows}
use nanoserve.Batch.Need.{tables}
use nanoserve.Batch.Step.{Fit}
use nanoserve.Batch.Prepare.{AllFit, Apart, Moved, AllMoved}

abbrev pub visible_rows {ℓ} : {A : Type ℓ} → List (List Bool) → List (List A) → List (List A)
visible_rows (m ∷ ms) (x ∷ xs) = visible m x ∷ visible_rows ms xs
visible_rows _ _ = []

-- What each sequence has stored.
abbrev pub live {ℓ} : {V : Type ℓ} → (ℕ → V) → List Cache → List (List V)
live f [] = []
live f (c ∷ cs) = map f (take c.num_tokens c.slots) ∷ live f cs

-- The same with one more row for each sequence.
abbrev pub grown {ℓ} : {V : Type ℓ} → (ℕ → V) → List Cache → List V → List (List V)
grown f (c ∷ cs) (r ∷ rs) = (map f (take c.num_tokens c.slots) ++ r ∷ []) ∷ grown f cs rs
grown f _ _ = []

module _ {ℓ} {V : Type ℓ} where
  nothing_visible :
      (f : ℕ → V) (i n m : ℕ) (xs : List ℕ)
      → n ≤ i
      → visible (map (λ j. ltb j n) (range_from i m)) (map f xs) ≡ []
  nothing_visible f i n zero xs h = refl
  nothing_visible f i n (suc m) [] h = refl
  nothing_visible f i n (suc m) (x ∷ xs) h =
      if_false (ltb i n) _ _ (ground arith) ∙ nothing_visible f (i + 1) n m xs (omega arith)

  visible_from :
      (f : ℕ → V) (i n m : ℕ) (xs ys : List ℕ)
      → i + length xs ≡ n
      → length xs ≤ m
      → visible (map (λ j. ltb j n) (range_from i m)) (map f (xs ++ ys)) ≡ map f xs
  visible_from f i n m [] ys e h = nothing_visible f i n m ys (omega arith)
  visible_from f i n zero (x ∷ xs) ys e h = absurd (omega arith)
  visible_from f i n (suc m) (x ∷ xs) ys e h =
      if_true (ltb i n) _ _ (ground arith)
      ∙ ap (◌∷◌ (f x)) (visible_from f (i + 1) n m xs ys (omega arith) (omega arith))

  missed :
      (bs : ℕ) (f : ℕ → V) (held : List ℕ) (w x : ℕ) (r : V)
      → count (w / bs) held ≡ 0
      → 0 < count (x / bs) held
      → (if w == x then r else f x) ≡ f x
  missed bs f held w x r e h = elim (Bool-cases (w == x)) [
    | inl same ↦ absurd (omega (arith, ap (λ y. count (y / bs) held) (==→eq w x same)))
    | inr other ↦ if_false _ _ _ other
  ]

  -- A write by one slot of each sequence leaves the others' blocks alone.
  pub scatter-Apart :
      (bs : ℕ) (f : ℕ → V) (others : List ℕ) (ds : List Cache) (ws : List ℕ) (rows : List V) (x : ℕ)
      → Apart bs others ds ws
      → 0 < count (x / bs) others
      → scatter f ws rows x ≡ f x
  unfolding scatter
  scatter-Apart bs f others ds [] rows x a h = refl
  scatter-Apart bs f others ds (w ∷ ws) [] x a h = refl
  scatter-Apart bs f others [] (w ∷ ws) (r ∷ rows) x a h = elim a [ ]
  scatter-Apart bs f others (d ∷ ds) (w ∷ ws) (r ∷ rows) x (mine, alone, a) h =
      scatter-Apart bs (λ y. if w == y then r else f y) (d.block_table ++ others) ds ws rows x a
        (omega (arith, count-append (x / bs) d.block_table others))
      ∙ missed bs f others w x r (omega (arith, count-append (w / bs) (tables ds) others)) h

longest_bound :
    (c : Cache) (cs : List Cache)
    → (c.num_tokens ≤ longest (c ∷ cs)) × (longest cs ≤ longest (c ∷ cs))
unfolding longest
longest_bound c cs = (omega arith, omega arith)

full_slots : (bs : ℕ) (c : Cache) → Fit bs c → length (take c.num_tokens c.slots) ≡ c.num_tokens
full_slots bs c f = omega (
  arith,
  length-take c.num_tokens c.slots,
  ap length f.linked,
  length-slots_of bs c.block_table,
  f.enough,
)

module _ {ℓ} {V : Type ℓ} where
  -- The padding is exactly what the mask removes.
  pub visible-live :
      (bs n : ℕ) (f : ℕ → V) (cs : List Cache)
      → AllFit bs cs
      → longest cs ≤ n
      → visible_rows (mask_rows n cs) (gather_rows f (index_rows n cs)) ≡ live f cs
  unfolding mask_rows index_rows padded
  visible-live bs n f [] fits h = refl
  visible-live bs n f (c ∷ cs) (fit, fits) h =
      let bounds = longest_bound c cs in
      let size = full_slots bs c fit in
      ap₂ ◌∷◌
        (visible_from f 0 c.num_tokens n (take c.num_tokens c.slots)
          (replicate (n - length (take c.num_tokens c.slots)) 0) (omega (arith, size))
          (omega (arith, size)))
        (visible-live bs n f cs fits (omega arith))

module _ {V : Type 0} where
  abbrev wrote : ℕ → V → (ℕ → V) → ℕ → V
  wrote w r f x = if w == x then r else f x

  -- One sequence: its old tokens, and the new row behind them.
  head_reads :
      (p q : Pool V) (side : Side) (l : ℕ) (f : ℕ → V) (c d : Cache) (w : ℕ) (r : V)
      → 0 < p.block_size
      → l < p.num_layers
      → Fit p.block_size d
      → Moved p q c d w
      → ((x : ℕ) → 0 < count (x / p.block_size) d.block_table → f x ≡ q.store side l x)
      → map (wrote w r f) (take d.num_tokens d.slots)
        ≡ map (p.store side l) (take c.num_tokens c.slots) ++ r ∷ []
  head_reads p q side l f c d w r pos h fit m same =
      ap (map (wrote w r f)) m.slot
      ∙ map-append (wrote w r f) old (w ∷ [])
      ∙ ap₂ ◌++◌
          (map_agree (wrote w r f) (q.store side l) old
              (λ x k. if_false (w == x) _ _ (fresh x k) ∙ same x (inside x k))
            ∙ m.own side l h)
          (ap (λ v. v ∷ []) (if_true (w == w) _ _ (ground arith)))
    where
      old : List ℕ
      old = take c.num_tokens d.slots

      inside : (x : ℕ) → 0 < count x old → 0 < count (x / p.block_size) d.block_table
      inside x k = omega (
        arith,
        count-slots_of p.block_size x d.block_table pos,
        count-take-le x c.num_tokens d.slots,
        ap (count x) fit.linked,
      )

      once : count w old ≡ 0
      once = omega (
        arith,
        count-take-le w d.num_tokens d.slots,
        ap (count w) m.slot,
        count-append w old (w ∷ []),
        ap (count w) fit.linked,
        count-slots_of p.block_size w d.block_table pos,
        fit.distinct (w / p.block_size),
        if_true {A = ℕ} (w == w) 1 0 (ground arith),
      )

      fresh : (x : ℕ) → 0 < count x old → (w == x) ≡ false
      fresh x k = ground (arith, once)

  -- The whole batch: each sequence reads its old tokens and its own new row.
  pub batch_reads :
      (p q : Pool V) (side : Side) (l : ℕ) (f : ℕ → V) (others : List ℕ) (cs ds : List Cache)
      (ws : List ℕ) (rows : List V)
      → 0 < p.block_size
      → l < p.num_layers
      → AllFit p.block_size ds
      → AllMoved p q cs ds ws
      → Apart p.block_size others ds ws
      → length rows ≡ length ds
      → ((x : ℕ) → 0 < count (x / p.block_size) (tables ds) → f x ≡ q.store side l x)
      → live (scatter f ws rows) ds ≡ grown (p.store side l) cs rows
  unfolding scatter
  batch_reads p q side l f others [] [] [] rows pos h fits m a e same = refl
  batch_reads p q side l f others [] [] (w ∷ ws) rows pos h fits m a e same = elim m [ ]
  batch_reads p q side l f others [] (d ∷ ds) ws rows pos h fits m a e same = elim m [ ]
  batch_reads p q side l f others (c ∷ cs) [] ws rows pos h fits m a e same = elim m [ ]
  batch_reads p q side l f others (c ∷ cs) (d ∷ ds) [] rows pos h fits m a e same = elim m [ ]
  batch_reads p q side l f others (c ∷ cs) (d ∷ ds) (w ∷ ws) [] pos h fits m a e same =
      absurd (omega arith)
  batch_reads p q side l f others (c ∷ cs) (d ∷ ds) (w ∷ ws) (r ∷ rows) pos h (fit, fits) (m, ms)
        (mine, alone, a) e same =
      let bs = p.block_size in
      let behind = d.block_table ++ others in
      ap₂ ◌∷◌
        (map_agree (scatter (wrote w r f) ws rows) (wrote w r f) (take d.num_tokens d.slots) (λ x k.
            scatter-Apart bs (wrote w r f) behind ds ws rows x a (
              omega (
                arith,
                count-append (x / bs) d.block_table others,
                count-slots_of bs x d.block_table pos,
                count-take-le x d.num_tokens d.slots,
                ap (count x) fit.linked,
              )))
          ∙ head_reads p q side l f c d w r pos h fit m
              (λ x k. same x (omega (arith, count-append (x / bs) d.block_table (tables ds)))))
        (batch_reads p q side l (wrote w r f) behind cs ds ws rows pos h fits ms a (omega arith)
          (λ x k.
            missed bs f (tables ds) w x r (omega (arith, count-append (w / bs) (tables ds) others))
              k
            ∙ same x (omega (arith, count-append (x / bs) d.block_table (tables ds)))))
