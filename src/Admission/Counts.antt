-- ===== src/Admission/Counts.antt =====
-- The counters and the measurements of engine/admission.py.
use nanoserve.Prelude.{
  Bool-cases, List, Option, [], ap, arith, drop, if_false, if_true, inl, inr, length, length-append,
  length-drop, ltb, ltb→lt, max, min, none, refl, some, subst, suc, sum, sym, zero, ℕ, ◌++◌, ◌+◌,
  ◌-◌, ◌<◌, ◌∙◌, ◌∷◌, ◌≡◌, ◌≤◌,
}
use nanoserve.Request.{Request, Rejection, queue_full, deadline_exceeded}
use nanoserve.Engine.{append_bounded}
use nanoserve.Admission.{
  Fraction, AdmissionConfig, AdmissionStats, Controller, new_controller, record_step,
  tokens_per_second, counted, admit,
}

abbrev pub AllPositive : List ℕ → Type 0
AllPositive [] = Unit {0}
AllPositive (x ∷ xs) = (0 < x) × AllPositive xs

AllPositive-snoc : (xs : List ℕ) (x : ℕ) → AllPositive xs → 0 < x → AllPositive (xs ++ x ∷ [])
AllPositive-snoc [] x a h = (h, tt)
AllPositive-snoc (y ∷ ys) x (p, a) h = (p, AllPositive-snoc ys x a h)

AllPositive-drop : (n : ℕ) (xs : List ℕ) → AllPositive xs → AllPositive (drop n xs)
AllPositive-drop zero xs a = a
AllPositive-drop (suc n) [] a = tt
AllPositive-drop (suc n) (x ∷ xs) (p, a) = AllPositive-drop n xs a

append_bounded-AllPositive :
    (n : ℕ) (xs : List ℕ) (x : ℕ) → AllPositive xs → 0 < x → AllPositive (append_bounded n xs x)
unfolding append_bounded
append_bounded-AllPositive n xs x a h =
    AllPositive-drop (length (xs ++ x ∷ []) - n) (xs ++ x ∷ []) (AllPositive-snoc xs x a h)

length-append_bounded :
    (n : ℕ) (xs : List ℕ) (x : ℕ)
    → length xs ≤ n
    → length (append_bounded n xs x) ≡ min n (length xs + 1)
unfolding append_bounded
length-append_bounded n xs x h =
    omega (arith, length-drop (length (xs ++ x ∷ []) - n) (xs ++ x ∷ []), length-append xs (x ∷ []))

-- The two windows have one length, at most the configured one, and hold no zero.
pub record Consistent (c : Controller) : Type 0 where
  pub paired : length c.step_times ≡ length c.batch_sizes
  pub bounded : length c.step_times ≤ c.cfg.window
  pub times : AllPositive c.step_times
  pub batches : AllPositive c.batch_sizes

new_controller-Consistent : (cfg : AdmissionConfig) → Consistent (new_controller cfg)
unfolding new_controller
new_controller-Consistent cfg = record {
  paired = refl;
  bounded = omega arith;
  times = tt;
  batches = tt;
}

record_step-Consistent :
    (seconds batch_size : ℕ) (c : Controller)
    → Consistent c
    → Consistent (record_step seconds batch_size c)
unfolding record_step
record_step-Consistent seconds batch_size c k = elim (Bool-cases (ltb 0 seconds)) [
  | inl some_time ↦ subst Consistent (sym (if_true (ltb 0 seconds) _ _ some_time)) (
      let lt = length-append_bounded c.cfg.window c.step_times seconds k.bounded in
      let lb =
        length-append_bounded c.cfg.window c.batch_sizes (max 1 batch_size)
          (omega (arith, k.paired, k.bounded)) in
      record {
        paired = omega (arith, lt, lb, k.paired);
        bounded = omega (arith, lt);
        times =
            append_bounded-AllPositive c.cfg.window c.step_times seconds k.times
              (ltb→lt 0 seconds some_time);
        batches =
            append_bounded-AllPositive c.cfg.window c.batch_sizes (max 1 batch_size) k.batches
              (omega arith);
      })
  | inr no_time ↦ subst Consistent (sym (if_false (ltb 0 seconds) _ _ no_time)) k
]

admit-Consistent :
    (r : Request) (depth queued running now : ℕ) (c : Controller)
    → Consistent c
    → Consistent (admit r depth queued running now c).1
unfolding admit
admit-Consistent r depth queued running now c k = record {
  paired = k.paired;
  bounded = k.bounded;
  times = k.times;
  batches = k.batches;
}

-- What happens to a controller.
pub data Event : Type 0 where
  offer : Request → ℕ → ℕ → ℕ → ℕ → Event
  step_done : ℕ → ℕ → Event

unfoldable pub happen : Event → Controller → Controller
unfolding admit record_step
happen (offer r depth queued running now) c = (admit r depth queued running now c).1
happen (step_done seconds batch_size) c = record_step seconds batch_size c

unfoldable pub history : List Event → Controller → Controller
unfolding happen
history [] c = c
history (e ∷ es) c = history es (happen e c)

-- The answers that the offers got.
unfoldable pub answers : List Event → Controller → List (Option Rejection)
unfolding happen admit
answers [] c = []
answers (offer r depth queued running now ∷ es) c =
    let (answer, c') = admit r depth queued running now c in answer ∷ answers es c'
answers (step_done seconds batch_size ∷ es) c = answers es (happen (step_done seconds batch_size) c)

abbrev pub num_admitted : List (Option Rejection) → ℕ
num_admitted [] = 0
num_admitted (none ∷ vs) = num_admitted vs + 1
num_admitted (some reason ∷ vs) = num_admitted vs

abbrev pub num_queue_full : List (Option Rejection) → ℕ
num_queue_full [] = 0
num_queue_full (some queue_full ∷ vs) = num_queue_full vs + 1
num_queue_full (_ ∷ vs) = num_queue_full vs

abbrev pub num_deadline : List (Option Rejection) → ℕ
num_deadline [] = 0
num_deadline (some deadline_exceeded ∷ vs) = num_deadline vs + 1
num_deadline (_ ∷ vs) = num_deadline vs

abbrev pub no_offers : AdmissionStats
no_offers = record { offered = 0; admitted = 0; rejected_queue_full = 0; rejected_deadline = 0 }

-- From `s` to `t`, the counters have advanced by the answers.
pub record Tallied (vs : List (Option Rejection)) (s t : AdmissionStats) : Type 0 where
  pub offers : t.offered ≡ s.offered + length vs
  pub admissions : t.admitted ≡ s.admitted + num_admitted vs
  pub full : t.rejected_queue_full ≡ s.rejected_queue_full + num_queue_full vs
  pub late : t.rejected_deadline ≡ s.rejected_deadline + num_deadline vs

Tallied-counted :
    (v : Option Rejection) (vs : List (Option Rejection)) (s t : AdmissionStats)
    → Tallied vs (counted v s) t
    → Tallied (v ∷ vs) s t
unfolding counted
Tallied-counted none vs s t k = record {
  offers = omega (arith, k.offers);
  admissions = omega (arith, k.admissions);
  full = k.full;
  late = k.late;
}
Tallied-counted (some queue_full) vs s t k = record {
  offers = omega (arith, k.offers);
  admissions = k.admissions;
  full = omega (arith, k.full);
  late = k.late;
}
Tallied-counted (some deadline_exceeded) vs s t k = record {
  offers = omega (arith, k.offers);
  admissions = k.admissions;
  full = k.full;
  late = omega (arith, k.late);
}

record_step-stats :
    (seconds batch_size : ℕ) (c : Controller) → (record_step seconds batch_size c).stats ≡ c.stats
unfolding record_step
record_step-stats seconds batch_size c = elim (Bool-cases (ltb 0 seconds)) [
  | inl h ↦ ap (λ (x : Controller). x.stats) (if_true (ltb 0 seconds) _ _ h)
  | inr h ↦ ap (λ (x : Controller). x.stats) (if_false (ltb 0 seconds) _ _ h)
]

history-Tallied :
    (es : List Event) (c : Controller) → Tallied (answers es c) c.stats (history es c).stats
unfolding history happen answers admit
history-Tallied [] c = record {
  offers = omega arith;
  admissions = omega arith;
  full = omega arith;
  late = omega arith;
}
history-Tallied (offer r depth queued running now ∷ es) c =
    let (v, c') = admit r depth queued running now c in
    Tallied-counted v (answers es c') c.stats (history es c').stats (history-Tallied es c')
history-Tallied (step_done seconds batch_size ∷ es) c =
    let c' = record_step seconds batch_size c in
    subst (λ s. Tallied (answers es c') s (history es c').stats)
      (record_step-stats seconds batch_size c) (history-Tallied es c')

history-Consistent_from :
    (es : List Event) (c : Controller) → Consistent c → Consistent (history es c)
unfolding history happen
history-Consistent_from [] c k = k
history-Consistent_from (offer r depth queued running now ∷ es) c k =
    history-Consistent_from es (happen (offer r depth queued running now) c)
      (admit-Consistent r depth queued running now c k)
history-Consistent_from (step_done seconds batch_size ∷ es) c k =
    history-Consistent_from es (happen (step_done seconds batch_size) c)
      (record_step-Consistent seconds batch_size c k)

sum_positive : (xs : List ℕ) → AllPositive xs → 0 < length xs → 0 < sum xs
sum_positive [] a h = absurd (omega arith)
sum_positive (x ∷ xs) (p, a) h = omega (arith, p)

rate_measured :
    (c : Controller) (t : ℕ) (ts : List ℕ)
    → c.step_times ≡ t ∷ ts
    → tokens_per_second c ≡ record { num = sum c.batch_sizes; den = sum (t ∷ ts) }
unfolding tokens_per_second
rate_measured c t ts e = rw e refl

rate_assumed :
    (c : Controller)
    → c.step_times ≡ []
    → tokens_per_second c ≡ record { num = 1; den = c.cfg.initial_step }
unfolding tokens_per_second
rate_assumed c e = rw e refl

tokens_per_second-positive :
    (c : Controller)
    → Consistent c
    → 0 < c.cfg.initial_step
    → (0 < (tokens_per_second c).num) × (0 < (tokens_per_second c).den)
tokens_per_second-positive c k pos = cases c.step_times refl
  where
    cases :
        (ts : List ℕ)
        → c.step_times ≡ ts
        → (0 < (tokens_per_second c).num) × (0 < (tokens_per_second c).den)
    cases [] e =
        subst (λ (f : Fraction). (0 < f.num) × (0 < f.den)) (sym (rate_assumed c e))
          (omega arith, pos)
    cases (t ∷ ts) e =
        subst (λ (f : Fraction). (0 < f.num) × (0 < f.den)) (sym (rate_measured c t ts e))
          (
            sum_positive c.batch_sizes k.batches (omega (arith, k.paired, ap length e)),
            sum_positive (t ∷ ts) (subst AllPositive e k.times) (omega arith),
          )

record_step-cfg :
    (seconds batch_size : ℕ) (c : Controller) → (record_step seconds batch_size c).cfg ≡ c.cfg
unfolding record_step
record_step-cfg seconds batch_size c = elim (Bool-cases (ltb 0 seconds)) [
  | inl h ↦ ap (λ (x : Controller). x.cfg) (if_true (ltb 0 seconds) _ _ h)
  | inr h ↦ ap (λ (x : Controller). x.cfg) (if_false (ltb 0 seconds) _ _ h)
]

history-cfg : (es : List Event) (c : Controller) → (history es c).cfg ≡ c.cfg
unfolding history happen admit
history-cfg [] c = refl
history-cfg (offer r depth queued running now ∷ es) c =
    history-cfg es (happen (offer r depth queued running now) c)
history-cfg (step_done seconds batch_size ∷ es) c =
    history-cfg es (happen (step_done seconds batch_size) c) ∙ record_step-cfg seconds batch_size c

-- Whatever a new controller is offered and told, in whatever order, where the assumed time of a step
-- is not 0: the four counters are the numbers of the answers given, of those that admit, of those
-- that the queue's length refused and of those that the deadline refused; the two windows have one
-- length, at most the configured one; and the measured rate is a positive fraction, so no division
-- is by 0.
pub history-Consistent :
    (es : List Event) (cfg : AdmissionConfig)
    → 0 < cfg.initial_step
    → Tallied (answers es (new_controller cfg)) no_offers (history es (new_controller cfg)).stats
      × Consistent (history es (new_controller cfg))
      × (0 < (tokens_per_second (history es (new_controller cfg))).num)
      × (0 < (tokens_per_second (history es (new_controller cfg))).den)
unfolding new_controller
history-Consistent es cfg pos =
    let c = history es (new_controller cfg) in
    let k = history-Consistent_from es (new_controller cfg) (new_controller-Consistent cfg) in
    let same : c.cfg.initial_step ≡ cfg.initial_step =
      ap (λ (x : AdmissionConfig). x.initial_step) (history-cfg es (new_controller cfg)) in
    let (num, den) = tokens_per_second-positive c k (omega (arith, same, pos)) in
    (history-Tallied es (new_controller cfg), k, num, den)
