-- ===== src/Baseline/Drain.antt =====
-- `run` of engine/baseline.py: the queue, one request per step, until it is empty.
use nanoserve.Prelude.{
  Bool, Bool-cases, List, [], ap, append-nil, append_assoc, ap₂, arith, false, if_false, if_true,
  inl, inr, length, length-append, map, none, refl, some, subst, suc, sum, sym, true, zero, ℕ, ◌++◌,
  ◌+◌, ◌<◌, ◌∙◌, ◌∷◌, ◌≡◌, ◌≤◌, ◌⊎◌,
}
use nanoserve.Request.{Request, eos, length_reached, record_token, finish, output_len}
use nanoserve.Generate.{pick_last}
use nanoserve.Model.{Network, forward_plain}
use nanoserve.Baseline.{
  Baseline, stops, recorded, generate_plain, finish_open, add_waiting, serve, serve_next, add_all,
  drain, run,
}
use nanoserve.Baseline.Cached.{serve_cached}

-- A request ended at its limit, or before it with the end-of-sequence token.
abbrev pub Complete : Request → Type 0
Complete r =
    ((r.finish_reason ≡ some length_reached) × (output_len r ≡ r.max_tokens))
    ⊎ ((r.finish_reason ≡ some eos) × (output_len r < r.max_tokens))

-- What the engine makes of `r` after `m` tokens: it is answered, and its new tokens are counted.
abbrev Answered : Request → ℕ → Request × ℕ → Type 0
Answered r m (r', m') =
    (r'.request_id ≡ r.request_id) × Complete r' × (m' + output_len r ≡ m + output_len r')

abbrev pub Fresh : Request → Type 0
Fresh r = (0 < length r.prompt_token_ids) × (r.output_token_ids ≡ []) × (r.finish_reason ≡ none)

abbrev pub Every : (Request → Type 0) → List Request → Type 0
Every P [] = Unit {0}
Every P (r ∷ rs) = P r × Every P rs

abbrev pub outputs : List Request → ℕ
outputs [] = 0
outputs (r ∷ rs) = output_len r + outputs rs

abbrev pub ids : List Request → List ℕ
ids = map (λ (r : Request). r.request_id)

-- `out` answers the queue of `s`, and `t` is the engine afterwards.
abbrev pub Drained : List Request → Baseline → List Request × Baseline → Type 0
Drained queue s (out, t) =
    (t.waiting ≡ [])
    × (ids out ≡ ids queue)
    × Every Complete out
    × (t.finished ≡ s.finished ++ out)
    × (t.tokens_generated ≡ s.tokens_generated + outputs out)

add_all-waiting :
    (rs : List Request) (s : Baseline) → add_all rs s ≡ record s { waiting = s.waiting ++ rs }
unfolding add_all add_waiting
add_all-waiting [] s =
    ap (λ (ws : List Request). record s { waiting = ws }) (sym (append-nil s.waiting))
add_all-waiting (r ∷ rs) s =
    add_all-waiting rs (add_waiting r s)
    ∙ ap (λ (ws : List Request). record s { waiting = ws }) (append_assoc s.waiting (r ∷ []) rs)

module _ {H V L : Type 0} (net : Network H V L) (n : ℕ) (sample : Request → L → ℕ) (eos_id : ℕ)
    (clock : ℕ → ℕ) where
  finish_open-none :
      (r : Request)
      → r.finish_reason ≡ none
      → finish_open clock r ≡ finish length_reached (clock (output_len r)) r
  finish_open-none r e = rw e

  finished_open : Request × ℕ → Request × ℕ
  finished_open (r, m) = (finish_open clock r, m)

  generate_plain-Answered :
      (k : ℕ) (r : Request) (m : ℕ) (logits : List L)
      → output_len r + k ≡ r.max_tokens
      → r.finish_reason ≡ none
      → Answered r m (finished_open (generate_plain net n sample eos_id clock k logits r m))
  unfolding generate_plain finish record_token finished_open
  generate_plain-Answered zero r m logits len e =
      subst (λ x. Answered r m (x, m)) (sym (finish_open-none r e))
        (refl, inl (refl, omega (arith, len)), refl)
  generate_plain-Answered (suc k) r m logits len e =
      let token = pick_last (sample r) logits in
      let r' = recorded net n sample eos_id clock token r in
      let grown : output_len r' + k ≡ r'.max_tokens =
        omega (arith, len, length-append r.output_token_ids (token ∷ [])) in
      elim (Bool-cases (stops net n sample eos_id clock token r)) [
        | inl stop ↦
            subst (λ x. Answered r m (finished_open x))
              (sym (if_true (stops net n sample eos_id clock token r) _ _ stop))
              (refl, inr (refl, omega (arith, len)), refl)
        | inr go ↦
            let (same, ended, sum) =
              generate_plain-Answered k r' (m + 1)
                (forward_plain net n (r'.prompt_token_ids ++ r'.output_token_ids)) grown e in
            subst (λ x. Answered r m (finished_open x))
              (sym (if_false (stops net n sample eos_id clock token r) _ _ go))
              (same, ended, omega (arith, sum, length-append r.output_token_ids (token ∷ [])))
      ]

  serve_plain-Answered :
      (now : ℕ) (r : Request) (m : ℕ)
      → Fresh r
      → Answered r m (serve net n sample eos_id clock false now r m)
  unfolding serve finished_open
  serve_plain-Answered now r m (prompt, fresh, e) =
      generate_plain-Answered r.max_tokens (record r { scheduled_time = some now }) m
        (forward_plain net n r.prompt_token_ids) (omega (arith, ap length fresh)) e

  serve-Answered :
      (use_cache : Bool) (now : ℕ) (r : Request) (m : ℕ)
      → 0 < n
      → Fresh r
      → Answered r m (serve net n sample eos_id clock use_cache now r m)
  serve-Answered false now r m pos h = serve_plain-Answered now r m h
  serve-Answered true now r m pos h =
      subst (Answered r m) (sym (serve_cached net n sample eos_id clock now r m pos h.1))
        (serve_plain-Answered now r m h)

  abbrev queue : List Request → List Request → ℕ → Baseline
  queue waiting finished tokens = record {
    waiting = waiting;
    finished = finished;
    tokens_generated = tokens;
  }

  drain-queue :
      (use_cache : Bool) (times : List ℕ) (waiting finished : List Request) (tokens : ℕ)
      → 0 < n
      → Every Fresh waiting
      → length waiting ≤ length times
      → Drained waiting
          (queue waiting finished tokens)
          (drain net n sample eos_id clock use_cache times (queue waiting finished tokens))
  unfolding drain serve_next
  drain-queue use_cache [] [] finished tokens pos fresh enough =
      (refl, refl, tt, sym (append-nil finished), omega arith)
  drain-queue use_cache [] (r ∷ rs) finished tokens pos fresh enough =
      absurd (omega (arith, enough))
  drain-queue use_cache (t ∷ times) [] finished tokens pos fresh enough =
      (refl, refl, tt, sym (append-nil finished), omega arith)
  drain-queue use_cache (t ∷ times) (r ∷ rs) finished tokens pos (fresh, all) enough =
      let (r', m) = serve net n sample eos_id clock use_cache t r tokens in
      let (same, ended, sum) = serve-Answered use_cache t r tokens pos fresh in
      let (empty, names, complete, kept, counted) =
        drain-queue use_cache times rs (finished ++ r' ∷ []) m pos all (omega (arith, enough)) in
      (
        empty,
        ap₂ ◌∷◌ same names,
        (ended, complete),
        kept ∙ append_assoc finished (r' ∷ []) _,
        omega (arith, counted, sum, ap length fresh.1),
      )

  -- In a network of at least one layer, with or without a `DynamicCache`, for requests with a prompt
  -- and neither outputs nor an end, and enough rounds of the loop: `run` leaves nothing waiting, and
  -- returns the requests of the queue and the given ones in their order, each ended with the
  -- end-of-sequence token before its limit or else at its limit; they are put behind the finished
  -- ones, and `_tokens_generated` grows by the number of their tokens.
  pub run-Drained :
      (use_cache : Bool) (times : List ℕ) (rs : List Request) (s : Baseline)
      → 0 < n
      → Every Fresh (s.waiting ++ rs)
      → length (s.waiting ++ rs) ≤ length times
      → Drained (s.waiting ++ rs) s (run net n sample eos_id clock use_cache times rs s)
  unfolding run
  run-Drained use_cache times rs s pos fresh enough =
      subst (λ x. Drained (s.waiting ++ rs) s (drain net n sample eos_id clock use_cache times x))
        (sym (add_all-waiting rs s))
        (drain-queue use_cache times (s.waiting ++ rs) s.finished s.tokens_generated pos fresh
          enough)
