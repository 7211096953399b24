-- ===== src/Scheduler.antt =====
-- The decode part of `step` in engine/scheduler.py, from the call of the model to the end of the
-- sequences that are done. Picking a token from logits is a parameter: `_sample_batch` picks the
-- tokens of all rows at once where `_sample` would pick each. One step reads the clock once.
pub mod Finish
pub mod Decode
mod Tests
use nanoserve.Prelude.{List, [], if◌then◌else◌, ltb, ℕ, ◌++◌, ◌∷◌}
use nanoserve.Exec.{Result, ok, err, out_of_blocks, Exec, ◌>>=◌, proceed}
use nanoserve.Paged.{Cache}
use nanoserve.Batch.{Batch, new_batch}
use nanoserve.Model.{Network, decode_pass, heads}
use nanoserve.Request.{Request, output_len}
use nanoserve.Engine.{caches_of, Sequence, Engine, accept_token, id_of, retire, preempt_newest}

-- `Sequence.position`
abbrev pub position : Sequence → ℕ
position q = q.cache.num_tokens

-- The batch has the sequences' own caches, so that they change with it.
unfoldable pub with_caches : List Sequence → List Cache → List Sequence
with_caches (q ∷ qs) (c ∷ cs) = record q { cache = c } ∷ with_caches qs cs
with_caches _ _ = []

-- The sequence with its new token.
unfoldable pub accepted : ℕ → ℕ → ℕ → Sequence → Sequence
unfolding accept_token
accepted eos_id token now q = accept_token eos_id token now (record q { next_token = token })

module _ {V : Type 0} where
  -- `_emitted.append((seq.request, token_id))`, where the output grew.
  unfoldable pub emit : Sequence → Sequence → ℕ → Engine V → Engine V
  emit before after token s =
      if ltb (output_len before.request) (output_len after.request)
      then record s { emitted = s.emitted ++ (id_of after, token) ∷ [] }
      else s

  abbrev pub end_with :
      Request → List Request × List Sequence → Exec (Engine V) (List Request × List Sequence)
  end_with r (done, still) s = (ok (r ∷ done, still), s)

  abbrev pub stay_with :
      Sequence → List Request × List Sequence → Exec (Engine V) (List Request × List Sequence)
  stay_with q (done, still) s = (ok (done, q ∷ still), s)

  -- The loop over the sequences and their tokens: what has ended, and `still_running`.
  unfoldable pub finish_loop :
      ℕ → List (Sequence × ℕ) → Exec (Engine V) (List Request × List Sequence)
  unfolding accepted emit retire
  finish_loop now [] s = (ok ([], []), s)
  finish_loop now ((q, token) ∷ ps) s =
      let q' = accepted s.config.eos_token_id token now q in
      let s' = emit q q' token s in
      let rest = finish_loop now ps in
      let leaves = (retire now q' >>= λ r. rest >>= λ out. end_with r out) s' in
      let stays = (rest >>= λ out. stay_with q' out) s' in if q'.finished then leaves else stays

  abbrev pub keep_running : List Request × List Sequence → Exec (Engine V) (List Request)
  keep_running (done, still) s = (ok done, record s { running = still })

module _ {H V L : Type 0} (net : Network H V L) (sample : Request → L → ℕ) where
  -- The token and the position of each sequence, embedded.
  unfoldable pub batch_rows : List Sequence → List (ℕ × H)
  batch_rows [] = []
  batch_rows (q ∷ qs) = (position q, net.embed q.next_token) ∷ batch_rows qs

  -- `zip(batch, next_ids)`
  unfoldable pub sampled : List Sequence → List L → List (Sequence × ℕ)
  sampled (q ∷ qs) (l ∷ ls) = (q, sample q.request l) ∷ sampled qs ls
  sampled _ _ = []

  -- The call of the model.
  unfoldable pub run_batch : Exec (Engine V) (List (ℕ × H))
  unfolding decode_pass batch_rows with_caches new_batch
  run_batch s =
      let (r, b) =
        decode_pass net (batch_rows s.running) (new_batch s.prefix.pool (caches_of s.running)) in
      (
        r,
        record s {
          prefix = record s.prefix { pool = b.pool };
          running = with_caches s.running b.caches;
        },
      )

  -- What follows a call that returned, or that raised. An engine here has no admission controller, so
  -- the `record_step` of admission control is left out; Admission models that method.
  unfoldable pub after_pass : ℕ → Result (List (ℕ × H)) → Exec (Engine V) (List Request)
  unfolding finish_loop sampled preempt_newest heads
  after_pass now (ok rows) s =
      (finish_loop now (sampled s.running (heads net rows)) >>= λ out. keep_running out) s
  after_pass now (err out_of_blocks) s = (preempt_newest >>= λ _ s'. (ok [], s')) s
  after_pass now (err e) s = (err e, s)

  -- `step` from the call of the model on: the requests that end in it.
  unfoldable pub decode_step : ℕ → Exec (Engine V) (List Request)
  unfolding run_batch after_pass
  decode_step now s = let (r, s') = run_batch s in after_pass now r s'
