-- ===== src/Baseline/Cached.antt =====
-- `BaselineEngine` of engine/baseline.py with a `DynamicCache`, against the engine without a cache.
use nanoserve.Prelude.{
  Bool-cases, List, [], ap, append-nil, append_assoc, false, if_false, if_true, inl, inr, refl,
  some, suc, sym, true, zero, ℕ, ◌++◌, ◌+◌, ◌<◌, ◌∙◌, ◌∷◌, ◌≡◌,
}
use nanoserve.Request.{Request, record_token}
use nanoserve.Model.{Network, Dynamic, no_rows, forward_plain, forward_cached}
use nanoserve.Generate.{pick_last}
use nanoserve.Generate.Feed.{forward_plain-cached, append_one_cache, append_one_logits}
use nanoserve.Baseline.{stops, recorded, generate_cached, generate_plain, finish_open, serve}

module _ {H V L : Type 0} (net : Network H V L) (n : ℕ) (sample : Request → L → ℕ) (eos_id : ℕ)
    (clock : ℕ → ℕ) where
  abbrev tokens_of : Request → List ℕ
  tokens_of r = r.prompt_token_ids ++ r.output_token_ids

  abbrev recompute_from : ℕ → Request → ℕ → Request × ℕ
  recompute_from k r m =
      generate_plain net n sample eos_id clock k (forward_plain net n (tokens_of r)) r m

  append_token :
      (r : Request) (t : ℕ)
      → (tokens_of r) ++ t ∷ [] ≡ tokens_of (recorded net n sample eos_id clock t r)
  unfolding record_token
  append_token r t = append_assoc r.prompt_token_ids r.output_token_ids (t ∷ [])

  -- The cache holds the prompt and the outputs so far, and the last logits are theirs.
  generate_cached-plain :
      (k : ℕ) (r : Request) (m : ℕ) (logits : List L) (cache : Dynamic V)
      → 0 < n
      → cache ≡ (forward_cached net n (tokens_of r) no_rows).1
      → ((pick : L → ℕ)
          → pick_last pick logits ≡ pick_last pick (forward_plain net n (tokens_of r)))
      → generate_cached net n sample eos_id clock k logits cache r m ≡ recompute_from k r m
  unfolding generate_cached generate_plain
  generate_cached-plain zero r m logits cache pos c p = refl
  generate_cached-plain (suc k) r m logits cache pos c p =
      elim (Bool-cases (stops net n sample eos_id clock token r)) [
        | inl stop ↦
            if_true (stops net n sample eos_id clock token r) _ _ stop
            ∙ sym (
                if_true (stops net n sample eos_id clock token' r) _ _
                  (ap (λ t. stops net n sample eos_id clock t r) (sym (p (sample r))) ∙ stop))
        | inr go ↦
            if_false (stops net n sample eos_id clock token r) _ _ go
            ∙ generate_cached-plain k (recorded net n sample eos_id clock token r) (m + 1) step.0
                step.1 pos
                (append_one_cache net n token (tokens_of r) cache pos c
                  ∙ ap (λ ts. (forward_cached net n ts no_rows).1) (append_token r token))
                (λ pick.
                  append_one_logits net n token (tokens_of r) cache pick pos c
                  ∙ ap (λ ts. pick_last pick (forward_plain net n ts)) (append_token r token))
            ∙ ap (λ t. recompute_from k (recorded net n sample eos_id clock t r) (m + 1))
                (p (sample r))
            ∙ sym (
                if_false (stops net n sample eos_id clock token' r) _ _
                  (ap (λ t. stops net n sample eos_id clock t r) (sym (p (sample r))) ∙ go))
      ]
    where
      token : ℕ
      token = pick_last (sample r) logits

      token' : ℕ
      token' = pick_last (sample r) (forward_plain net n (tokens_of r))

      step : List L × Dynamic V
      step = forward_cached net n (token ∷ []) cache

  -- In a network of at least one layer, a request without outputs is answered alike with a
  -- `DynamicCache` and without a cache, where the clock gives both the same times: with the same
  -- tokens, the same end and the same count in `_tokens_generated`.
  pub serve_cached :
      (now : ℕ) (r : Request) (m : ℕ)
      → 0 < n
      → r.output_token_ids ≡ []
      → serve net n sample eos_id clock true now r m ≡ serve net n sample eos_id clock false now r m
  unfolding serve
  serve_cached now r m pos fresh =
      ap (λ (x : Request × ℕ). (finish_open clock x.0, x.1))
        (generate_cached-plain r.max_tokens (record r { scheduled_time = some now }) m _ _ pos
            (ap (λ ts. (forward_cached net n ts no_rows).1) (sym alone))
            (λ pick.
              ap (pick_last pick) (sym (forward_plain-cached net n r.prompt_token_ids))
              ∙ ap (λ ts. pick_last pick (forward_plain net n ts)) (sym alone))
          ∙ ap
              (λ ts.
                generate_plain net n sample eos_id clock r.max_tokens (forward_plain net n ts)
                  (record r { scheduled_time = some now }) m)
              alone)
    where
      alone : tokens_of r ≡ r.prompt_token_ids
      alone = ap (λ ts. r.prompt_token_ids ++ ts) fresh ∙ append-nil r.prompt_token_ids
