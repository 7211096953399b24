-- ===== src/Admission.antt =====
-- `AdmissionController` of engine/admission.py, and `add_request` of engine/scheduler.py with it. A
-- time is a number of ticks, and a float is the exact fraction that it stands for: rounding is not
-- modelled.
pub mod Counts
pub mod Load
pub mod Queue
mod Tests
use nanoserve.Prelude.{
  Bool, List, Option, [], false, if◌then◌else◌, leb, length, ltb, max, none, some, sum, true, ℕ,
  ◌&&◌, ◌*◌, ◌+◌, ◌-◌, ◌∷◌,
}
use nanoserve.Request.{
  Request, Rejection, queue_full, deadline_exceeded, output_len, finish, rejected,
}
use nanoserve.Engine.{Engine, Sequence, append_bounded, record_finished, enqueue}

pub record Fraction : Type 0 where
  pub num : ℕ
  pub den : ℕ

pub record AdmissionConfig : Type 0 where
  pub max_queue_depth : Option ℕ
  pub enforce_deadlines : Bool
  pub slack : Fraction
  pub window : ℕ
  pub initial_step : ℕ
  pub min_observations : ℕ
  pub min_rate : Fraction

pub record AdmissionStats : Type 0 where
  pub offered : ℕ
  pub admitted : ℕ
  pub rejected_queue_full : ℕ
  pub rejected_deadline : ℕ

pub record Controller : Type 0 where
  pub cfg : AdmissionConfig
  pub stats : AdmissionStats
  pub step_times : List ℕ
  pub batch_sizes : List ℕ

unfoldable pub new_controller : AdmissionConfig → Controller
new_controller cfg = record {
  cfg = cfg;
  stats = record { offered = 0; admitted = 0; rejected_queue_full = 0; rejected_deadline = 0 };
  step_times = [];
  batch_sizes = [];
}

abbrev pub rejected_total : AdmissionStats → ℕ
rejected_total s = s.rejected_queue_full + s.rejected_deadline

unfoldable pub record_step : ℕ → ℕ → Controller → Controller
unfolding append_bounded
record_step seconds batch_size c =
    if ltb 0 seconds
    then record c {
      step_times = append_bounded c.cfg.window c.step_times seconds;
      batch_sizes = append_bounded c.cfg.window c.batch_sizes (max 1 batch_size);
    }
    else c

unfoldable pub is_warm : Controller → Bool
is_warm c = leb c.cfg.min_observations (length c.step_times)

-- `tokens_per_second`: the mean batch by the mean time. Both lists have one length.
unfoldable pub tokens_per_second : Controller → Fraction
tokens_per_second c = elim c.step_times [
  | [] ↦ record { num = 1; den = c.cfg.initial_step }
  | t ∷ ts ↦ record { num = sum c.batch_sizes; den = sum (t ∷ ts) }
]

-- `max` of two fractions.
unfoldable pub max_fraction : Fraction → Fraction → Fraction
max_fraction a b = if ltb (a.num * b.den) (b.num * a.den) then b else a

-- `project_finish`, less `now`: the work by the rate.
unfoldable pub project_finish : Request → ℕ → ℕ → Controller → Fraction
unfolding max_fraction tokens_per_second
project_finish r queued running c =
    let rate = max_fraction (tokens_per_second c) c.cfg.min_rate in
    record { num = (queued + running + r.max_tokens) * rate.den; den = rate.num }

-- `(finish - now) > (deadline - now) * slack`; a deadline in the past makes the right side negative.
unfoldable pub too_late : Fraction → ℕ → ℕ → Fraction → Bool
too_late left deadline now slack =
    if ltb deadline now
    then true
    else ltb ((deadline - now) * slack.num * left.den) (left.num * slack.den)

abbrev at_least : ℕ → Option ℕ → Bool
at_least depth none = false
at_least depth (some most) = leb most depth

abbrev late_for : Option ℕ → Fraction → ℕ → Fraction → Bool
late_for none left now slack = false
late_for (some deadline) left now slack = too_late left deadline now slack

-- The answer of `admit`: the gate that refuses, or none.
unfoldable pub verdict : Request → ℕ → ℕ → ℕ → ℕ → Controller → Option Rejection
unfolding is_warm project_finish too_late
verdict r depth queued running now c =
    if at_least depth c.cfg.max_queue_depth
    then some queue_full
    else if (c.cfg.enforce_deadlines && is_warm c)
        && late_for r.deadline (project_finish r queued running c) now c.cfg.slack
    then some deadline_exceeded
    else none

-- The counters that `admit` advances.
unfoldable pub counted : Option Rejection → AdmissionStats → AdmissionStats
counted none s = record s { offered = s.offered + 1; admitted = s.admitted + 1 }
counted (some queue_full) s = record s {
  offered = s.offered + 1;
  rejected_queue_full = s.rejected_queue_full + 1;
}
counted (some deadline_exceeded) s = record s {
  offered = s.offered + 1;
  rejected_deadline = s.rejected_deadline + 1;
}

unfoldable pub admit : Request → ℕ → ℕ → ℕ → ℕ → Controller → Option Rejection × Controller
unfolding verdict counted
admit r depth queued running now c =
    let v = verdict r depth queued running now c in (v, record c { stats = counted v c.stats })

-- `sum(r.params.max_tokens for r in self.waiting)`
unfoldable pub queued_tokens : List Request → ℕ
queued_tokens [] = 0
queued_tokens (r ∷ rs) = r.max_tokens + queued_tokens rs

-- The sum over the running sequences; none has more output than it asked for.
unfoldable pub running_tokens : List Sequence → ℕ
running_tokens [] = 0
running_tokens (q ∷ qs) = (q.request.max_tokens - output_len q.request) + running_tokens qs

-- An engine with its admission control.
pub record Gated (V : Type 0) : Type 0 where
  pub engine : Engine V
  pub admission : Option Controller

module _ {V : Type 0} where
  -- What `add_request` does with an answer.
  unfoldable pub place : Option Rejection → Request → ℕ → Engine V → Engine V
  unfolding enqueue record_finished finish
  place none r now e = enqueue r e
  place (some reason) r now e =
      record_finished (record (finish rejected now r) { rejection_reason = some reason }) e

  unfoldable pub add_request : Request → ℕ → Gated V → Gated V
  unfolding place admit queued_tokens running_tokens enqueue
  add_request r now g = elim g.admission [
    | none ↦ record g { engine = enqueue r g.engine }
    | some c ↦
        let e = g.engine in
        let (v, c') =
          admit r (length e.waiting) (queued_tokens e.waiting) (running_tokens e.running) now c in
        record { engine = place v r now e; admission = some c' }
  ]
