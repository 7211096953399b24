-- ===== src/Request.antt =====
-- `FinishReason`, `SamplingParams` and `Request` of engine/types.py. A time is a natural number of
-- ticks of the clock, which is passed in as `now`; a request's identifier is a number. The fields
-- that only the sampling of logits reads are left out.
pub mod Latency
mod Tests
use nanoserve.Prelude.{
  Bool, List, Option, [], false, if◌then◌else◌, leb, length, none, some, true, ℕ, ◌*◌, ◌++◌, ◌+◌,
  ◌-◌, ◌∷◌,
}

pub data FinishReason : Type 0 where
  eos length_reached cancelled rejected preempted : FinishReason

-- The gates of engine/admission.py.
pub data Rejection : Type 0 where
  queue_full deadline_exceeded : Rejection

pub record SamplingParams : Type 0 where
  pub max_tokens : ℕ
  pub ignore_eos : Bool

pub record Request : Type 0 where
  pub prompt_token_ids : List ℕ
  pub params : SamplingParams
  pub open params use *
  pub request_id : ℕ
  pub arrival_time : ℕ
  pub deadline : Option ℕ
  pub scheduled_time : Option ℕ
  pub first_token_time : Option ℕ
  pub finish_time : Option ℕ
  pub token_times : List ℕ
  pub output_token_ids : List ℕ
  pub finish_reason : Option FinishReason
  pub rejection_reason : Option Rejection

-- `Request(prompt_token_ids, params, request_id, arrival_time, deadline)`
unfoldable pub new_request : List ℕ → SamplingParams → ℕ → ℕ → Option ℕ → Request
new_request prompt params id arrival deadline = record {
  prompt_token_ids = prompt;
  params = params;
  request_id = id;
  arrival_time = arrival;
  deadline = deadline;
  scheduled_time = none;
  first_token_time = none;
  finish_time = none;
  token_times = [];
  output_token_ids = [];
  finish_reason = none;
  rejection_reason = none;
}

abbrev pub prompt_len : Request → ℕ
prompt_len r = length r.prompt_token_ids

abbrev pub output_len : Request → ℕ
output_len r = length r.output_token_ids

abbrev pub total_len : Request → ℕ
total_len r = prompt_len r + output_len r

abbrev pub total_len_estimate : Request → ℕ
total_len_estimate r = prompt_len r + r.max_tokens

-- `self.first_token_time`, set by the first token only.
abbrev pub first_time : List ℕ → ℕ → Option ℕ → Option ℕ
first_time [] now before = some now
first_time (t ∷ ts) now before = before

unfoldable pub record_token : ℕ → ℕ → Request → Request
record_token token now r = record r {
  first_token_time = first_time r.output_token_ids now r.first_token_time;
  output_token_ids = r.output_token_ids ++ token ∷ [];
  token_times = r.token_times ++ now ∷ [];
}

unfoldable pub finish : FinishReason → ℕ → Request → Request
finish reason now r = record r { finish_time = some now; finish_reason = some reason }

-- A time less the arrival. Every time is read from the clock after the arrival.
abbrev pub since : ℕ → Option ℕ → Option ℕ
since start none = none
since start (some t) = some (t - start)

unfoldable pub ttft : Request → Option ℕ
ttft r = since r.arrival_time r.first_token_time

unfoldable pub queue_time : Request → Option ℕ
queue_time r = since r.arrival_time r.scheduled_time

unfoldable pub e2e_latency : Request → Option ℕ
e2e_latency r = since r.arrival_time r.finish_time

-- `zip(times, times[1:])`
abbrev pub gaps : List ℕ → List ℕ
gaps [] = []
gaps (a ∷ []) = []
gaps (a ∷ b ∷ ts) = (b - a) ∷ gaps (b ∷ ts)

unfoldable pub inter_token_latencies : Request → List ℕ
inter_token_latencies r = gaps r.token_times

abbrev pub completed : Option FinishReason → Bool
completed (some eos) = true
completed (some length_reached) = true
completed _ = false

-- `finish_time is not None and finish_time <= deadline`
abbrev pub in_time : Option ℕ → Option ℕ → Bool
in_time none finish = true
in_time (some limit) none = false
in_time (some limit) (some t) = leb t limit

unfoldable pub met_deadline : Request → Bool
met_deadline r = if completed r.finish_reason then in_time r.deadline r.finish_time else false
