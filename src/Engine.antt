-- ===== src/Engine.antt =====
-- `ContinuousBatchingEngine` of engine/scheduler.py: its queues and the end of a request, by a stop
-- condition, a cancellation or a preemption. `now` is what the clock reads.
pub mod Invariant
pub mod Leave
pub mod Cancel
pub mod Preempt
pub mod Accept
pub mod Tests
use nanoserve.Prelude.{
  Bool, List, Option, [], drop, false, if◌then◌else◌, leb, length, none, not, some, true, ℕ, ◌&&◌,
  ◌++◌, ◌+◌, ◌-◌, ◌==◌, ◌||◌, ◌∷◌,
}
use nanoserve.Exec.{Result, ok, err, out_of_blocks, Exec, ◌>>=◌, ◌>>◌, proceed}
use nanoserve.Paged.{Pool, Cache, Paged, free}
use nanoserve.Prefix.{Prefix}
use nanoserve.Request.{
  Request, FinishReason, eos, length_reached, cancelled, record_token, finish, output_len,
}

pub record Sequence : Type 0 where
  pub request : Request
  pub cache : Cache
  pub next_token : ℕ
  pub finished : Bool
  pub finish_reason : Option FinishReason

-- The arguments of the constructor that the queues read.
pub record Config : Type 0 where
  pub eos_token_id : ℕ
  pub max_batch_size : ℕ
  pub reserve_blocks : ℕ
  pub history : ℕ

-- `emitted` has the identifier of the request in place of the request.
pub record Engine (V : Type 0) : Type 0 where
  pub config : Config
  pub prefix : Prefix V
  pub waiting : List Request
  pub running : List Sequence
  pub finished : List Request
  pub num_finished : ℕ
  pub newly_finished : List Request
  pub cancel_requested : List ℕ
  pub emitted : List (ℕ × ℕ)
  pub preemptions : ℕ

-- `x in xs`
unfoldable pub contains : List ℕ → ℕ → Bool
contains [] x = false
contains (y ∷ ys) x = if y == x then true else contains ys x

-- `append` to a `deque` of bounded length.
unfoldable pub append_bounded {ℓ} : {A : Type ℓ} → ℕ → List A → A → List A
append_bounded n xs x = drop (length (xs ++ x ∷ []) - n) (xs ++ x ∷ [])

-- The caches of the sequences.
abbrev pub caches_of : List Sequence → List Cache
caches_of [] = []
caches_of (q ∷ qs) = q.cache ∷ caches_of qs

abbrev pub id_of : Sequence → ℕ
id_of q = q.request.request_id

-- `running.remove(seq)` and `waiting.remove(req)`: the first that has the identifier.
unfoldable pub remove_running : ℕ → List Sequence → List Sequence
remove_running id [] = []
remove_running id (q ∷ qs) = if id_of q == id then qs else q ∷ remove_running id qs

unfoldable pub remove_waiting : ℕ → List Request → List Request
remove_waiting id [] = []
remove_waiting id (r ∷ rs) = if r.request_id == id then rs else r ∷ remove_waiting id rs

-- What `_preempt_newest` and `_retire` do to the request.
unfoldable pub restarted : Request → Request
restarted r = record r {
  output_token_ids = [];
  token_times = [];
  first_token_time = none;
  scheduled_time = none;
}

-- `seq.finish_reason or FinishReason.LENGTH`
abbrev pub reason_of : Option FinishReason → FinishReason
reason_of none = length_reached
reason_of (some reason) = reason

-- `_accept_token`
unfoldable pub accept_token : ℕ → ℕ → ℕ → Sequence → Sequence
unfolding record_token
accept_token eos_id token now q =
    let recorded = record q { request = record_token token now q.request } in
    if (token == eos_id) && not q.request.ignore_eos
    then record q { finished = true; finish_reason = some eos }
    else if leb q.request.max_tokens (output_len recorded.request)
    then record recorded { finished = true; finish_reason = some length_reached }
    else recorded

abbrev pub behind : Sequence → Option (List Sequence × Sequence) → Option (List Sequence × Sequence)
behind q none = some ([], q)
behind q (some (front, last)) = some (q ∷ front, last)

-- `self.running.pop()`: the sequences before the last one, and it.
unfoldable pub pop_last : List Sequence → Option (List Sequence × Sequence)
pop_last [] = none
pop_last (q ∷ qs) = behind q (pop_last qs)

module _ {V : Type 0} where
  -- `ContinuousBatchingEngine.__init__`
  unfoldable pub new_engine : Config → Prefix V → Engine V
  new_engine config prefix = record {
    config = config;
    prefix = prefix;
    waiting = [];
    running = [];
    finished = [];
    num_finished = 0;
    newly_finished = [];
    cancel_requested = [];
    emitted = [];
    preemptions = 0;
  }

  -- A method of a sequence's cache, on the pool of the engine.
  unfoldable pub free_cache : Cache → Exec (Engine V) (Unit {0})
  unfolding free
  free_cache c s =
      let (r, p) = free (record { pool = s.prefix.pool; cache = c }) in
      (r, record s { prefix = record s.prefix { pool = p.pool } })

  unfoldable pub record_finished : Request → Engine V → Engine V
  unfolding append_bounded
  record_finished r s = record s {
    num_finished = s.num_finished + 1;
    finished = append_bounded s.config.history s.finished r;
    newly_finished = s.newly_finished ++ r ∷ [];
  }

  -- `add_request` of an engine without admission control.
  unfoldable pub enqueue : Request → Engine V → Engine V
  enqueue r s = record s { waiting = s.waiting ++ r ∷ [] }

  unfoldable pub request_cancel : ℕ → Engine V → Engine V
  unfolding contains
  request_cancel id s = record s {
    cancel_requested =
        if contains s.cancel_requested id then s.cancel_requested else id ∷ s.cancel_requested;
  }

  abbrev pub with_done : Request → List Request → Exec (Engine V) (List Request)
  with_done r rs s = (ok (r ∷ rs), s)

  unfoldable pub leave_running : ℕ → Sequence → Engine V → Engine V
  unfolding record_finished remove_running finish
  leave_running now q s =
      let s' = record_finished (finish cancelled now q.request) s in
      record s' { running = remove_running (id_of q) s'.running }

  -- The first loop of `apply_cancellations`, over a copy of `running`.
  unfoldable pub cancel_running : List ℕ → ℕ → List Sequence → Exec (Engine V) (List Request)
  unfolding contains free_cache leave_running finish
  cancel_running wanted now [] s = (ok [], s)
  cancel_running wanted now (q ∷ qs) s =
      let rest = cancel_running wanted now qs in
      let leave =
        (free_cache q.cache >>= λ _ s'.
        (rest >>= λ rs. with_done (finish cancelled now q.request) rs) (leave_running now q s'))
          s in
      if contains wanted (id_of q) then leave else rest s

  unfoldable pub leave_waiting : ℕ → Request → Engine V → Engine V
  unfolding record_finished remove_waiting finish
  leave_waiting now r s =
      record_finished (finish cancelled now r)
        (record s { waiting = remove_waiting r.request_id s.waiting })

  -- The second loop, over a copy of `waiting`.
  unfoldable pub cancel_waiting : List ℕ → ℕ → List Request → Exec (Engine V) (List Request)
  unfolding contains leave_waiting finish
  cancel_waiting wanted now [] s = (ok [], s)
  cancel_waiting wanted now (r ∷ rs) s =
      let rest = cancel_waiting wanted now rs in
      let leave =
        (rest >>= λ done. with_done (finish cancelled now r) done) (leave_waiting now r s) in
      if contains wanted r.request_id then leave else rest s

  unfoldable pub cancel_wanted : List ℕ → ℕ → Exec (Engine V) (List Request)
  unfolding cancel_running cancel_waiting
  cancel_wanted [] now s = (ok [], s)
  cancel_wanted (id ∷ ids) now s =
      (cancel_running (id ∷ ids) now s.running >>= λ first s'.
      (cancel_waiting (id ∷ ids) now s'.waiting >>= λ second s''. (ok (first ++ second), s'')) s')
        (record s { cancel_requested = [] })

  unfoldable pub apply_cancellations : ℕ → Exec (Engine V) (List Request)
  unfolding cancel_wanted
  apply_cancellations now s = cancel_wanted s.cancel_requested now s

  -- `cancel`: whether any request was cancelled.
  unfoldable pub cancel : ℕ → ℕ → Exec (Engine V) Bool
  unfolding apply_cancellations request_cancel
  cancel id now s =
      (apply_cancellations now >>= λ done s'. (ok (not (length done == 0)), s'))
        (request_cancel id s)

  unfoldable pub drain_emitted : Engine V → List (ℕ × ℕ) × Engine V
  drain_emitted s = (s.emitted, record s { emitted = [] })

  unfoldable pub drain_finished : Engine V → List Request × Engine V
  drain_finished s = (s.newly_finished, record s { newly_finished = [] })

  unfoldable pub has_work : Engine V → Bool
  has_work s = not (length s.waiting == 0) || not (length s.running == 0)

  -- The victim is taken off `running` before its cache is freed.
  unfoldable pub preempt : Option (List Sequence × Sequence) → Exec (Engine V) (Unit {0})
  unfolding free_cache restarted
  preempt none s = (err out_of_blocks, s)
  preempt (some (front, victim)) s =
      (free_cache victim.cache >>= λ _ s'. (
        ok tt,
        record s' {
          preemptions = s'.preemptions + 1;
          waiting = restarted victim.request ∷ s'.waiting;
        },
      ))
        (record s { running = front })

  unfoldable pub preempt_newest : Exec (Engine V) (Unit {0})
  unfolding preempt pop_last
  preempt_newest s = preempt (pop_last s.running) s

  unfoldable pub retire : ℕ → Sequence → Exec (Engine V) Request
  unfolding free_cache record_finished finish
  retire now q s =
      let r = finish (reason_of q.finish_reason) now q.request in
      (free_cache q.cache >>= λ _ s'. (ok r, record_finished r s')) s
