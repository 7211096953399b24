-- ===== src/Model/Mask.antt =====
-- The masks of model/transformer.py: each query sees the tokens up to its own, and nothing behind.
use nanoserve.Prelude.{
  ==→eq, Bool, Bool-cases, List, [], ap, ap₂, arith, if_false, if_true, inl, inr, leb, leb→gt,
  leb→le, length, ltb, map, range_from, refl, replicate, suc, sym, take, true, visible, zero, ℕ,
  ◌+◌, ◌-◌, ◌<◌, ◌==◌, ◌∙◌, ◌∷◌, ◌≡◌, ◌≤◌,
}
use nanoserve.Paged.{Side, keys, values}
use nanoserve.Model.{
  Network, offset_causal_mask, causal_mask, attention_mask, attend_rows, attend_all,
}

module _ {ℓ} {A : Type ℓ} where
  take-nil : (n : ℕ) → take {A = A} n [] ≡ []
  take-nil zero = refl
  take-nil (suc n) = refl

  -- A row of a causal mask lets through what stands no later than the query.
  visible_until :
      (q i : ℕ) (xs : List A)
      → visible (map (λ k. leb k q) (range_from i (length xs))) xs ≡ take (suc q - i) xs
  visible_until q i [] = sym (take-nil (suc q - i))
  visible_until q i (x ∷ xs) = elim (Bool-cases (leb i q)) [
    | inl sees ↦
        let n : suc q - i ≡ suc (suc q - (i + 1)) = omega (arith, leb→le i q sees) in
        if_true (leb i q) _ _ sees
        ∙ ap (◌∷◌ x) (visible_until q (i + 1) xs)
        ∙ ap (λ m. take m (x ∷ xs)) (sym n)
    | inr not_yet ↦
        let n : suc q - i ≡ 0 = omega (arith, leb→gt i q not_yet) in
        let m : suc q - (i + 1) ≡ 0 = omega (arith, leb→gt i q not_yet) in
        if_false (leb i q) _ _ not_yet
        ∙ visible_until q (i + 1) xs
        ∙ ap (λ k. take k xs) m
        ∙ ap (λ k. take k (x ∷ xs)) (sym n)
  ]

  pub visible_all : (xs : List A) → visible (replicate (length xs) true) xs ≡ xs
  visible_all [] = refl
  visible_all (x ∷ xs) = ap (◌∷◌ x) (visible_all xs)

  pub take_all : (n : ℕ) (xs : List A) → length xs ≤ n → take n xs ≡ xs
  take_all zero [] h = refl
  take_all (suc n) [] h = refl
  take_all zero (x ∷ xs) h = absurd (omega arith)
  take_all (suc n) (x ∷ xs) h = ap (◌∷◌ x) (take_all n xs (omega arith))

module _ {H V L : Type 0} (net : Network H V L) where
  open net use {attend}

  -- What the masks amount to: the first query sees `n` tokens and itself, each later one one more.
  unfoldable pub attend_from : ℕ → ℕ → List (ℕ × H) → List V → List V → List (ℕ × H)
  attend_from layer n [] ks vs = []
  attend_from layer n ((p, h) ∷ rows) ks vs =
      (p, attend layer p h (take (suc n) ks) (take (suc n) vs))
      ∷ attend_from layer (suc n) rows ks vs

  pub length-attend_from :
      (layer n : ℕ) (rows : List (ℕ × H)) (ks vs : List V)
      → length (attend_from layer n rows ks vs) ≡ length rows
  unfolding attend_from
  length-attend_from layer n [] ks vs = refl
  length-attend_from layer n ((p, h) ∷ rows) ks vs =
      ap suc (length-attend_from layer (suc n) rows ks vs)

  attend_masked :
      (layer n m : ℕ) (rows : List (ℕ × H)) (ks vs : List V)
      → m ≡ length ks
      → m ≡ length vs
      → attend_rows net layer rows
          (map (λ q. map (λ k. leb k q) (range_from 0 m)) (range_from n (length rows)))
          ks
          vs
        ≡ attend_from layer n rows ks vs
  unfolding attend_rows attend_from
  attend_masked layer n m [] ks vs e f = refl
  attend_masked layer n m ((p, h) ∷ rows) ks vs e f =
      let seen : visible (map (λ k. leb k n) (range_from 0 m)) ks ≡ take (suc n) ks =
        ap (λ j. visible (map (λ k. leb k n) (range_from 0 j)) ks) e
        ∙ visible_until n 0 ks
        ∙ ap (λ j. take j ks) {y = suc n} (omega arith) in
      let read : visible (map (λ k. leb k n) (range_from 0 m)) vs ≡ take (suc n) vs =
        ap (λ j. visible (map (λ k. leb k n) (range_from 0 j)) vs) f
        ∙ visible_until n 0 vs
        ∙ ap (λ j. take j vs) {y = suc n} (omega arith) in
      let next : n + 1 ≡ suc n = omega arith in
      ap₂ ◌∷◌ (ap₂ (λ x y. (p, attend layer p h x y)) seen read) (
        ap
          (λ j.
            attend_rows net layer rows
              (map (λ q. map (λ k. leb k q) (range_from 0 m)) (range_from j (length rows))) ks vs)
          next
        ∙ attend_masked layer (suc n) m rows ks vs e f)

  attend_one :
      (layer : ℕ) (p : ℕ) (h : H) (ks vs : List V)
      → 0 < length ks
      → length ks ≡ length vs
      → attend_rows net layer ((p, h) ∷ []) (replicate (length ks) true ∷ []) ks vs
        ≡ attend_from layer (length ks - 1) ((p, h) ∷ []) ks vs
  unfolding attend_rows attend_from
  attend_one layer p h ks vs pos e =
      let n : suc (length ks - 1) ≡ length ks = omega arith in
      ap (λ x. x ∷ [])
        (ap₂ (λ x y. (p, attend layer p h x y))
          (visible_all ks ∙ sym (take_all (suc (length ks - 1)) ks (omega arith)))
          (ap (λ j. visible (replicate j true) vs) e
            ∙ visible_all vs
            ∙ sym (take_all (suc (length ks - 1)) vs (omega arith))))

  -- Whatever regime the layer takes, a query sees the tokens up to its own.
  pub attend_all-from :
      (layer : ℕ) (rows : List (ℕ × H)) (reads : Side → List V)
      → length (reads keys) ≡ length (reads values)
      → length rows ≤ length (reads keys)
      → attend_all net layer rows reads
        ≡ attend_from layer (length (reads keys) - length rows) rows (reads keys) (reads values)
  unfolding attend_all attention_mask offset_causal_mask causal_mask attend_rows attend_from
  attend_all-from layer [] reads e h = refl
  attend_all-from layer ((p, x) ∷ []) reads e h =
      attend_one layer p x (reads keys) (reads values) (omega arith) e
  attend_all-from layer ((p, x) ∷ (q, y) ∷ rows) reads e h =
      let r = (p, x) ∷ (q, y) ∷ rows in
      let kv = length (reads keys) in
      let masked =
        λ (m : List (List Bool)). attend_rows net layer r m (reads keys) (reads values) in
      ap masked (if_true (ltb 1 (length r)) _ _ (ground arith))
      ∙ elim (Bool-cases (length r == kv)) [
        | inl whole ↦
            let same = ==→eq (length r) kv whole in
            let zero_off : kv - length r ≡ 0 = omega (arith, same) in
            ap masked (if_true (length r == kv) _ _ whole)
            ∙ attend_masked layer 0 (length r) r (reads keys) (reads values) same
                (omega (arith, same, e))
            ∙ ap (λ n. attend_from layer n r (reads keys) (reads values)) (sym zero_off)
        | inr part ↦
            ap masked (if_false (length r == kv) _ _ part)
            ∙ attend_masked layer (kv - length r) kv r (reads keys) (reads values) refl e
      ]
