-- ===== src/Generate/Greedy.antt =====
-- Greedy decoding of model/generate.py with a cache, against recomputing every token.
use nanoserve.Prelude.{
  Bool, Bool-cases, List, [], ap, ap₂, fun_ext, if_false, if_true, inl, inr, refl, suc, sym, zero,
  ℕ, ◌&&◌, ◌++◌, ◌<◌, ◌==◌, ◌∙◌, ◌∷◌, ◌≡◌,
}
use nanoserve.Model.{Network, Dynamic, no_rows, forward_plain, forward_cached}
use nanoserve.Generate.Feed.{forward_plain-cached, append_one_cache, append_one_logits}
use nanoserve.Generate.{
  Streamed, decode, deliver, or_end, pick_last, generate_loop, generate_stream, recompute,
}

module _ {H V L : Type 0} (net : Network H V L) (n : ℕ) (pick : L → ℕ) (eos_id : ℕ)
    (stop_at_eos : Bool) (utf8 : List ℕ → List ℕ) (vocab : List (ℕ × List ℕ)) where
  -- The loop goes on with the token `t`, without a cache.
  abbrev recompute_with : ℕ → List ℕ → List ℕ → ℕ → ℕ → Streamed
  recompute_with k fed produced emitted t =
      deliver (produced ++ t ∷ []) emitted
        (recompute net n pick eos_id stop_at_eos utf8 vocab k fed (produced ++ t ∷ []) emitted)
        (λ e.
          recompute net n pick eos_id stop_at_eos utf8 vocab k (fed ++ t ∷ []) (produced ++ t ∷ [])
            e)
        (decode utf8 vocab (produced ++ t ∷ []))

  -- The loop has fed `fed`: the cache is theirs, and the last logits too.
  loop-recompute :
      (k : ℕ) (fed : List ℕ) (logits : List L) (cache : Dynamic V) (produced : List ℕ) (emitted : ℕ)
      → 0 < n
      → cache ≡ (forward_cached net n fed no_rows).1
      → pick_last pick logits ≡ pick_last pick (forward_plain net n fed)
      → generate_loop net n pick eos_id stop_at_eos utf8 vocab k logits cache produced emitted
        ≡ recompute net n pick eos_id stop_at_eos utf8 vocab k fed produced emitted
  unfolding generate_loop recompute
  loop-recompute zero fed logits cache produced emitted pos c p = refl
  loop-recompute (suc k) fed logits cache produced emitted pos c p =
      elim (Bool-cases (stop_at_eos && (token == eos_id))) [
        | inl stop ↦
            if_true (stop_at_eos && (token == eos_id)) _ _ stop
            ∙ sym (if_true (stop_at_eos && (token' == eos_id)) _ _ (again ∙ stop))
        | inr go ↦
            if_false (stop_at_eos && (token == eos_id)) _ _ go
            ∙ ap₂ (λ same next. deliver produced' emitted same next (decode utf8 vocab produced'))
                (loop-recompute k fed logits cache produced' emitted pos c p)
                (fun_ext (λ e.
                  loop-recompute k (fed ++ token ∷ []) step.0 step.1 produced' e pos
                    (append_one_cache net n token fed cache pos c)
                    (append_one_logits net n token fed cache pick pos c)))
            ∙ ap (recompute_with k fed produced emitted) p
            ∙ sym (if_false (stop_at_eos && (token' == eos_id)) _ _ (again ∙ go))
      ]
    where
      token : ℕ
      token = pick_last pick logits

      token' : ℕ
      token' = pick_last pick (forward_plain net n fed)

      produced' : List ℕ
      produced' = produced ++ token ∷ []

      step : List L × Dynamic V
      step = forward_cached net n (token ∷ []) cache

      again : (stop_at_eos && (token' == eos_id)) ≡ (stop_at_eos && (token == eos_id))
      again = ap (λ t. stop_at_eos && (t == eos_id)) (sym p)

  -- Greedy decoding of a prompt with the cache, through a network of at least one layer: it yields the
  -- same texts, produces the same tokens and raises exactly where the decoding does that picks each
  -- token after a pass without a cache over the prompt and all tokens before it whose text was not
  -- held back.
  pub generate_stream-recompute :
      (max_new_tokens : ℕ) (prompt : List ℕ)
      → 0 < n
      → generate_stream net n pick eos_id stop_at_eos utf8 vocab max_new_tokens prompt
        ≡ recompute net n pick eos_id stop_at_eos utf8 vocab max_new_tokens
            (or_end eos_id prompt)
            []
            0
  unfolding generate_stream
  generate_stream-recompute max_new_tokens prompt pos =
      let (logits, cache) = forward_cached net n (or_end eos_id prompt) no_rows in
      loop-recompute max_new_tokens (or_end eos_id prompt) logits cache [] 0 pos refl
        (ap (pick_last pick) (sym (forward_plain-cached net n (or_end eos_id prompt))))
