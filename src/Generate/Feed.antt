-- ===== src/Generate/Feed.antt =====
-- Feeding tokens to a model that keeps a cache (model/generate.py, engine/baseline.py): the last logits.
use nanoserve.Prelude.{
  List, [], ap, arith, length, refl, subst, suc, sym, ℕ, ◌++◌, ◌<◌, ◌∙◌, ◌∷◌, ◌≡◌,
}
use nanoserve.Paged.{keys}
use nanoserve.Model.{
  Network, Dynamic, no_rows, embed_rows, dynamic_layers, heads, forward_plain, forward_cached,
}
use nanoserve.Model.Split.{Even, length-embed_rows}
use nanoserve.Model.Trace.{entering, length-entering, dynamic_layers-entering}
use nanoserve.Model.Cached.{behind, forward_cached-append, forward_cached-Even, plain-dynamic}
use nanoserve.Generate.{pick_last}

pick_last-append {ℓ} :
    {L : Type ℓ} (pick : L → ℕ) (xs ys : List L)
    → 0 < length ys
    → pick_last pick (xs ++ ys) ≡ pick_last pick ys
unfolding pick_last
pick_last-append pick [] ys h = refl
pick_last-append pick (x ∷ []) [] h = absurd (omega arith)
pick_last-append pick (x ∷ []) (y ∷ ys) h = refl
pick_last-append pick (x ∷ z ∷ xs) ys h = pick_last-append pick (z ∷ xs) ys h

module _ {H V L : Type 0} (net : Network H V L) where
  length-heads : (rows : List (ℕ × H)) → length (heads net rows) ≡ length rows
  unfolding heads
  length-heads [] = refl
  length-heads ((p, h) ∷ rows) = ap suc (length-heads rows)

  length-forward_cached :
      (n : ℕ) (ts : List ℕ) (d : Dynamic V)
      → Even 0 d
      → length (forward_cached net n ts d).0 ≡ length ts
  unfolding forward_cached entering
  length-forward_cached n ts d even =
      let rows = embed_rows net ts (length (d keys 0)) in
      length-heads (dynamic_layers net n 0 rows d).0
      ∙ ap length (dynamic_layers-entering net n 0 n rows d d (omega arith) (λ side l h. refl))
      ∙ length-entering net n rows d even
      ∙ length-embed_rows net ts (length (d keys 0))

  pub forward_plain-cached :
      (n : ℕ) (ts : List ℕ) → forward_plain net n ts ≡ (forward_cached net n ts no_rows).0
  unfolding forward_plain forward_cached
  forward_plain-cached n ts =
      ap (heads net) (plain-dynamic net n 0 (embed_rows net ts 0) no_rows (λ side l h. refl))

  -- A cache that holds `tokens`, and a token on top.
  module _ (n token : ℕ) (tokens : List ℕ) (cache : Dynamic V) where
    before : List L × Dynamic V
    before = forward_cached net n tokens no_rows

    step : List L × Dynamic V
    step = forward_cached net n (token ∷ []) cache

    append_one :
        0 < n
        → cache ≡ before.1
        → forward_cached net n (tokens ++ token ∷ []) no_rows ≡ behind net before.0 step
    unfolding forward_cached before step
    append_one pos c =
        forward_cached-append net n tokens (token ∷ []) no_rows pos (λ l h. refl)
        ∙ ap (λ x. behind net before.0 (forward_cached net n (token ∷ []) x)) (sym c)

    pub append_one_cache :
        0 < n
        → cache ≡ (forward_cached net n tokens no_rows).1
        → (forward_cached net n (token ∷ []) cache).1
          ≡ (forward_cached net n (tokens ++ token ∷ []) no_rows).1
    unfolding forward_cached before step
    append_one_cache pos c = sym (ap (λ (r : List L × Dynamic V). r.1) (append_one pos c))

    pub append_one_logits :
        (pick : L → ℕ)
        → 0 < n
        → cache ≡ (forward_cached net n tokens no_rows).1
        → pick_last pick (forward_cached net n (token ∷ []) cache).0
          ≡ pick_last pick (forward_plain net n (tokens ++ token ∷ []))
    unfolding forward_cached before step
    append_one_logits pick pos c =
        let even : Even 0 cache =
          subst (Even 0) (sym c) (forward_cached-Even net n tokens no_rows (λ l h. refl)) in
        sym (
          pick_last-append pick before.0 step.0
            (omega (arith, length-forward_cached n (token ∷ []) cache even)))
        ∙ ap (λ (r : List L × Dynamic V). pick_last pick r.0) (sym (append_one pos c))
        ∙ ap (pick_last pick) (sym (forward_plain-cached n (tokens ++ token ∷ [])))
