-- ===== src/Baseline.antt =====
-- `BaselineEngine` of engine/baseline.py: one request at a time, with a `DynamicCache` or without a
-- cache. Picking a token is a parameter; `clock` gives the time at which
-- an output token is recorded, or the end is.
pub mod Cached
pub mod Drain
mod Tests
use nanoserve.Prelude.{
  Bool, List, [], false, if◌then◌else◌, none, not, some, suc, true, zero, ℕ, ◌&&◌, ◌++◌, ◌+◌, ◌==◌,
  ◌∷◌,
}
use nanoserve.Request.{Request, eos, length_reached, record_token, finish, output_len}
use nanoserve.Model.{Network, Dynamic, no_rows, forward_plain, forward_cached}
use nanoserve.Generate.{pick_last}

pub record Baseline : Type 0 where
  pub waiting : List Request
  pub finished : List Request
  pub tokens_generated : ℕ

abbrev pub new_baseline : Baseline
new_baseline = record { waiting = []; finished = []; tokens_generated = 0 }

unfoldable pub add_waiting : Request → Baseline → Baseline
add_waiting r s = record s { waiting = s.waiting ++ r ∷ [] }

-- The first loop of `run`.
unfoldable pub add_all : List Request → Baseline → Baseline
unfolding add_waiting
add_all [] s = s
add_all (r ∷ rs) s = add_all rs (add_waiting r s)

abbrev pub has_work : Baseline → Bool
has_work s = elim s.waiting [ [] ↦ false | r ∷ rs ↦ true ]

-- `if req.finish_reason is None`
abbrev pub finish_open : (ℕ → ℕ) → Request → Request
finish_open clock r = elim r.finish_reason [
  | none ↦ finish length_reached (clock (output_len r)) r
  | some reason ↦ r
]

module _ {H V L : Type 0} (net : Network H V L) (n : ℕ) (sample : Request → L → ℕ) (eos_id : ℕ)
    (clock : ℕ → ℕ) where
  abbrev pub stops : ℕ → Request → Bool
  stops token r = (token == eos_id) && not r.ignore_eos

  abbrev pub recorded : ℕ → Request → Request
  recorded token r = record_token token (clock (output_len r)) r

  -- `_generate` with a cache, for `k` more tokens: the request and `_tokens_generated`.
  unfoldable pub generate_cached : ℕ → List L → Dynamic V → Request → ℕ → Request × ℕ
  unfolding pick_last forward_cached record_token finish
  generate_cached zero logits cache r m = (r, m)
  generate_cached (suc k) logits cache r m =
      let token = pick_last (sample r) logits in
      let (logits', cache') = forward_cached net n (token ∷ []) cache in
      let rest = generate_cached k logits' cache' (recorded token r) (m + 1) in
      if stops token r then (finish eos (clock (output_len r)) r, m) else rest

  -- `_generate` without: the model sees the prompt and the outputs so far.
  unfoldable pub generate_plain : ℕ → List L → Request → ℕ → Request × ℕ
  unfolding pick_last forward_plain record_token finish
  generate_plain zero logits r m = (r, m)
  generate_plain (suc k) logits r m =
      let token = pick_last (sample r) logits in
      let r' = recorded token r in
      let rest =
        generate_plain k (forward_plain net n (r'.prompt_token_ids ++ r'.output_token_ids)) r'
          (m + 1) in
      if stops token r then (finish eos (clock (output_len r)) r, m) else rest

  -- What `step` makes of a request and of `_tokens_generated`, with a `DynamicCache` or without a
  -- cache.
  unfoldable pub serve : Bool → ℕ → Request → ℕ → Request × ℕ
  unfolding generate_cached generate_plain forward_plain forward_cached
  serve use_cache now r m =
      let r' = record r { scheduled_time = some now } in
      let (logits, cache) = forward_cached net n r'.prompt_token_ids no_rows in
      let with_cache = generate_cached r'.max_tokens logits cache r' m in
      let without = generate_plain r'.max_tokens (forward_plain net n r'.prompt_token_ids) r' m in
      let (r'', m') = if use_cache then with_cache else without in (finish_open clock r'', m')

  -- `step`. The model and `_generate` want a prompt that is not empty: at an empty one the source
  -- raises, and the request is lost, which is not modelled.
  unfoldable pub serve_next : Bool → ℕ → Baseline → List Request × Baseline
  unfolding serve
  serve_next use_cache now s = elim s.waiting [
    | [] ↦ ([], s)
    | r ∷ rs ↦
        let (r', m) = serve use_cache now r s.tokens_generated in
        (r' ∷ [], record s { waiting = rs; finished = s.finished ++ r' ∷ []; tokens_generated = m })
  ]

  -- The loop of `run`, one step at each of the times: what is returned, and the engine.
  unfoldable pub drain : Bool → List ℕ → Baseline → List Request × Baseline
  unfolding serve_next
  drain use_cache [] s = ([], s)
  drain use_cache (now ∷ times) s =
      let (done, s') = serve_next use_cache now s in
      let (out, t) = drain use_cache times s' in if has_work s then (done ++ out, t) else ([], s)

  -- `run`
  unfoldable pub run : Bool → List ℕ → List Request → Baseline → List Request × Baseline
  unfolding drain add_all
  run use_cache times rs s = drain use_cache times (add_all rs s)
