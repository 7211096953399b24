-- ===== src/Model/Trace.antt =====
-- The activations that enter each layer of model/transformer.py, from what the cache held before.
use nanoserve.Prelude.{
  ==→eq, ==→ne, Bool-cases, List, ap, arith, fun_ext, inl, inr, length, length-append, refl, subst,
  suc, sym, zero, ℕ, ◌++◌, ◌+◌, ◌-◌, ◌<◌, ◌==◌, ◌∙◌, ◌≡◌, ◌≤◌,
}
use nanoserve.Paged.{Side, keys, values}
use nanoserve.Model.{Network, Dynamic, dynamic_update, project_rows, attend_all, dynamic_layers}
use nanoserve.Model.Mask.{attend_all-from, length-attend_from}
use nanoserve.Model.Split.{Even, Agree, length-project_rows}
use nanoserve.Model.Cached.{after, after_there, dynamic_layers-here}

module _ {H V L : Type 0} (net : Network H V L) where
  unfoldable pub entering : ℕ → List (ℕ × H) → Dynamic V → List (ℕ × H)
  entering zero rows d = rows
  entering (suc l) rows d =
      attend_all net l (entering l rows d)
        (λ side. d side l ++ project_rows net l (entering l rows d) side)

  -- The rows that each layer writes.
  abbrev pub written : List (ℕ × H) → Dynamic V → ℕ → Side → List V
  written rows d l = project_rows net l (entering l rows d)

  pub length-entering :
      (l : ℕ) (rows : List (ℕ × H)) (d : Dynamic V)
      → Even 0 d
      → length (entering l rows d) ≡ length rows
  unfolding entering
  length-entering zero rows d even = refl
  length-entering (suc l) rows d even =
      let r = entering l rows d in
      let size = λ (side : Side).
        length-append (d side l) (project_rows net l r side)
        ∙ ap (λ n. length (d side l) + n) (length-project_rows net l r side) in
      ap length (
        attend_all-from net l r (λ side. d side l ++ project_rows net l r side)
          (omega (arith, size keys, size values, even l (omega arith))) (omega (arith, size keys)))
      ∙ length-attend_from net l (length (d keys l ++ project_rows net l r keys) - length r) r
          (d keys l ++ project_rows net l r keys) (d values l ++ project_rows net l r values)
      ∙ length-entering l rows d even

  entering_next :
      (k layer : ℕ) (rows : List (ℕ × H)) (d e : Dynamic V)
      → Agree layer e d
      → dynamic_layers net (suc k) layer (entering layer rows d) e
        ≡ dynamic_layers net k
            (suc layer)
            (entering (suc layer) rows d)
            (after net layer (entering layer rows d) e)
  unfolding dynamic_layers dynamic_update entering
  entering_next k layer rows d e a =
      let r = entering layer rows d in
      ap (λ x. dynamic_layers net k (layer + 1) (attend_all net layer r x) (after net layer r e))
        (fun_ext
          (λ side. ap (λ xs. xs ++ project_rows net layer r side) (a side layer (omega arith))))
      ∙ ap (λ n. dynamic_layers net k n (entering (suc layer) rows d) (after net layer r e))
          {x = layer + 1} {y = suc layer} (omega arith)

  after_later :
      (layer : ℕ) (rows : List (ℕ × H)) (d e : Dynamic V)
      → Agree layer e d
      → Agree (suc layer) (after net layer rows e) d
  after_later layer rows d e a side l h =
      after_there net layer l rows e side (ground (arith, h)) ∙ a side l (omega arith)

  pub dynamic_layers-entering :
      (k layer j : ℕ) (rows : List (ℕ × H)) (d e : Dynamic V)
      → layer + k ≡ j
      → Agree layer e d
      → (dynamic_layers net k layer (entering layer rows d) e).0 ≡ entering j rows d
  unfolding dynamic_layers
  dynamic_layers-entering zero layer j rows d e h a =
      ap (λ n. entering n rows d) {x = layer} {y = j} (omega arith)
  dynamic_layers-entering (suc k) layer j rows d e h a =
      let r = entering layer rows d in
      ap (λ x. x.0) (entering_next k layer rows d e a)
      ∙ dynamic_layers-entering k (suc layer) j rows d (after net layer r e) (omega arith)
          (after_later layer r d e a)

  pub dynamic_layers-written :
      (k layer : ℕ) (rows : List (ℕ × H)) (d e : Dynamic V) (side : Side) (l : ℕ)
      → Agree layer e d
      → layer ≤ l
      → l < layer + k
      → (dynamic_layers net k layer (entering layer rows d) e).1 side l
        ≡ d side l ++ written rows d l side
  dynamic_layers-written zero layer rows d e side l a h g = absurd (omega arith)
  dynamic_layers-written (suc k) layer rows d e side l a h g =
      let r = entering layer rows d in
      elim (Bool-cases (l == layer)) [
        | inl here ↦
            subst
              (λ j.
                (dynamic_layers net (suc k) layer r e).1 side j ≡ d side j ++ written rows d j side)
              (sym (==→eq l layer here))
              (dynamic_layers-here net k layer r e side
                ∙ ap (λ xs. xs ++ written rows d layer side) (a side layer (omega arith)))
        | inr there ↦
            ap (λ x. x.1 side l) (entering_next k layer rows d e a)
            ∙ dynamic_layers-written k (suc layer) rows d (after net layer r e) side l
                (after_later layer r d e a) (omega (arith, ==→ne l layer there)) (omega arith)
      ]
