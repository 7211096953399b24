-- ===== src/Admit.antt =====
-- `_admit` of engine/scheduler.py: waiting requests are prefilled while there is room. One call reads
-- the clock once, and picking a token from logits is a parameter.
pub mod Bound
mod Tests
use nanoserve.Prelude.{
  Bool, List, Option, [], false, if◌then◌else◌, length, ltb, max, none, some, true, ℕ, ◌&&◌, ◌++◌,
  ◌+◌, ◌==◌, ◌∷◌,
}
use nanoserve.Exec.{Result, ok, err, out_of_blocks, Exec, ◌>>=◌, proceed}
use nanoserve.Allocator.{num_free}
use nanoserve.Paged.{Cache, ceil_div, empty_cache, start_sequence}
use nanoserve.Prefix.{ensure_free}
use nanoserve.Prefill.{prefill}
use nanoserve.Generate.{pick_last}
use nanoserve.Model.{Network}
use nanoserve.Request.{Request, rejected, preempted, finish, prompt_len}
use nanoserve.Engine.{Sequence, Engine, accept_token, free_cache, record_finished, retire}
use nanoserve.Scheduler.{emit}

-- What becomes of a request that leaves the queue.
pub data Entered : Type 0 where
  joins : Sequence → Entered
  ends : Request → Entered

-- `admitted` and `done`, and what the rest of the loop makes of them.
abbrev pub Lists : Type 0
Lists = List Sequence × List Request

-- `_blocks_needed`
unfoldable pub blocks_for : ℕ → Request → ℕ
unfolding ceil_div
blocks_for block_size r = ceil_div (prompt_len r) block_size

abbrev pub Loop : Type 0 → Type 0
Loop V = List Sequence → List Request → Exec (Engine V) Lists

abbrev pub answer : Result (Option Bool) → Result Bool
answer (ok (some b)) = ok b
answer (ok none) = ok false
answer (err e) = err e

module _ {V : Type 0} where
  abbrev pub enter : Loop V → List Sequence → List Request → Entered → Exec (Engine V) Lists
  enter rest admitted done (joins q) = rest (admitted ++ q ∷ []) done
  enter rest admitted done (ends r) = rest admitted (done ++ r ∷ [])

  -- Whether there are so many free blocks, or can be when cached prefixes are given up.
  unfoldable pub make_room : ℕ → Exec (Engine V) Bool
  unfolding ensure_free num_free
  make_room wanted s =
      let (r, p) = ensure_free wanted s.prefix in
      if ltb (num_free s.prefix.alloc) wanted
      then (answer r, record s { prefix = p })
      else (ok true, s)

  abbrev pub end_as : Request → Exec (Engine V) Entered
  end_as r s = (ok (ends r), record_finished r s)

  abbrev pub join : Sequence → Exec (Engine V) Entered
  join q s = (ok (joins q), s)

  abbrev pub to_end : Request → Exec (Engine V) Entered
  to_end r s = (ok (ends r), s)

module _ {H V L : Type 0} (net : Network H V L) (hash : ℕ → List ℕ → ℕ) (sample : Request → L → ℕ)
    (now : ℕ) where
  -- What follows `_prefill`, or the `OutOfBlocks` that it raises.
  unfoldable pub welcome : Request → Result (List L) → Cache → Exec (Engine V) Entered
  unfolding pick_last accept_token emit retire free_cache finish record_finished
  welcome r (ok logits) cache s =
      let token = pick_last (sample r) logits in
      let q : Sequence = record {
        request = r;
        cache = cache;
        next_token = token;
        finished = false;
        finish_reason = none;
      } in
      let q' = accept_token s.config.eos_token_id token now q in
      let s' = emit q q' token s in
      if q'.finished then (retire now q' >>= to_end) s' else join q' s'
  welcome r (err out_of_blocks) cache s =
      (free_cache cache >>= λ _. end_as (finish preempted now r)) s
  welcome r (err e) cache s = (err e, s)

  -- The body of `try`, with the new cache, and what follows.
  unfoldable pub begin : Request → Cache → Exec (Engine V) Entered
  unfolding prefill welcome
  begin r cache s =
      let (logits, f) =
        prefill net hash r.prompt_token_ids (record { prefix = s.prefix; cache = cache }) in
      welcome r logits f.cache (record s { prefix = f.prefix })

  -- With the pool's answer: no cache, and the request goes back to the head of the queue.
  abbrev pub seated :
      Loop V
      → Request
      → List Request
      → List Sequence
      → List Request
      → Option Cache
      → Exec (Engine V) Lists
  unfolding begin
  seated rest r others admitted done none s =
      (ok (admitted, done), record s { waiting = r ∷ others })
  seated rest r others admitted done (some cache) s =
      (begin r cache >>= enter rest admitted done) (record s { waiting = others })

  -- A request `r` taken off the queue, before the `others`.
  unfoldable pub take_off : Loop V → Request → List Request → Loop V
  unfolding seated start_sequence
  take_off rest r others admitted done s =
      seated rest (record r { scheduled_time = some now }) others admitted done
        (start_sequence s.prefix.pool) s

  -- The tests in front of it, where there is room: `wanted` blocks are in the pool at all, or another
  -- sequence is there to make room.
  unfoldable pub reject_or_take : Loop V → ℕ → Request → List Request → Loop V
  unfolding take_off record_finished finish
  reject_or_take rest wanted r others admitted done s =
      let r' = finish rejected now r in
      let hopeless =
        (length s.running == 0)
        && ((length admitted == 0) && ltb s.prefix.alloc.num_blocks wanted) in
      let rejects =
        rest admitted (done ++ r' ∷ []) (record_finished r' (record s { waiting = others })) in
      let takes = take_off rest r others admitted done s in if hopeless then rejects else takes

  abbrev pub if_room :
      Loop V
      → ℕ
      → Request
      → List Request
      → List Sequence
      → List Request
      → Bool
      → Exec (Engine V) Lists
  if_room rest wanted r others admitted done true s =
      reject_or_take rest wanted r others admitted done s
  if_room rest wanted r others admitted done false s = (ok (admitted, done), s)

  -- A round of the loop. `running` does not change in it.
  unfoldable pub round : Loop V → Request → List Request → Loop V
  unfolding make_room reject_or_take blocks_for
  round rest r others admitted done s =
      let present = length s.running + length admitted in
      let wanted =
        blocks_for s.prefix.block_size r + 1 + max s.config.reserve_blocks (present + 1) in
      let on = (make_room wanted >>= if_room rest wanted r others admitted done) s in
      if ltb present s.config.max_batch_size then on else (ok (admitted, done), s)

  -- The loop. Its argument is what is left of the queue.
  unfoldable pub admit_loop : List Request → Loop V
  unfolding round
  admit_loop [] admitted done s = (ok (admitted, done), s)
  admit_loop (r ∷ others) admitted done s =
      round (λ a d s'. admit_loop others a d s') r others admitted done s

  unfoldable pub admit_waiting : Exec (Engine V) Lists
  unfolding admit_loop
  admit_waiting s = admit_loop s.waiting [] [] s
