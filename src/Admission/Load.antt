-- ===== src/Admission/Load.antt =====
-- The gates of engine/admission.py against the load.
use nanoserve.Prelude.{
  Bool, Bool-cases, Option, ap, arith, false, if_false, if_true, if◌then◌else◌, inl, inr,
  le→not_ltb, ltb, ltb→ge, none, refl, some, sym, true, ℕ, ◌&&◌, ◌*◌, ◌-◌, ◌∙◌, ◌≡◌, ◌≤◌, ◌⊎◌,
}
use native.Mathlib.Nat.{mul-le-mul_right}
use nanoserve.Request.{Request, Rejection, queue_full, deadline_exceeded}
use nanoserve.Admission.{
  Fraction, Controller, is_warm, max_fraction, tokens_per_second, project_finish, too_late,
  at_least, late_for, verdict, admit,
}

at_least_mono :
    (depth less : ℕ) (most : Option ℕ)
    → less ≤ depth
    → at_least depth most ≡ false
    → at_least less most ≡ false
at_least_mono depth less none h e = refl
at_least_mono depth less (some most) h e = ground arith

too_late_mono :
    (big small : Fraction) (deadline now : ℕ) (slack : Fraction)
    → small.den ≡ big.den
    → small.num ≤ big.num
    → too_late big deadline now slack ≡ false
    → too_late small deadline now slack ≡ false
unfolding too_late
too_late_mono big small deadline now slack d h e = elim (Bool-cases (ltb deadline now)) [
  | inl past ↦ absurd (
      cc (
        if_true {A = Bool} (ltb deadline now) true
          (ltb ((deadline - now) * slack.num * big.den) (big.num * slack.den)) past))
  | inr ahead ↦
      let less : small.num * slack.den ≤ big.num * slack.den = mul-le-mul_right slack.den h in
      let left = (deadline - now) * slack.num in
      let in_time =
        sym (if_false (ltb deadline now) true (ltb (left * big.den) (big.num * slack.den)) ahead)
        ∙ e in
      if_false (ltb deadline now) _ _ ahead
      ∙ ap (λ n. ltb (left * n) (small.num * slack.den)) d
      ∙ le→not_ltb (small.num * slack.den) (left * big.den)
          (omega (arith, less, ltb→ge _ _ in_time))
]

late_for_mono :
    (big small : Fraction) (deadline : Option ℕ) (now : ℕ) (slack : Fraction)
    → small.den ≡ big.den
    → small.num ≤ big.num
    → late_for deadline big now slack ≡ false
    → late_for deadline small now slack ≡ false
late_for_mono big small none now slack d h e = refl
late_for_mono big small (some deadline) now slack d h e =
    too_late_mono big small deadline now slack d h e

-- Both gates let a request through, and what that takes.
abbrev pub gates : Bool → Bool → Bool → Option Rejection
gates full gate late =
    if full then some queue_full else if gate && late then some deadline_exceeded else none

pub gates_open :
    (full gate late : Bool)
    → gates full gate late ≡ none
    → (full ≡ false) × ((gate ≡ false) ⊎ (late ≡ false))
gates_open true gate late e = cc
gates_open false true true e = cc
gates_open false true false e = (refl, inr refl)
gates_open false false late e = (refl, inl refl)

open_gates :
    (full gate late : Bool)
    → full ≡ false
    → (gate ≡ false) ⊎ (late ≡ false)
    → gates full gate late ≡ none
open_gates true gate late f h = cc
open_gates false true true f (inl e) = cc
open_gates false true true f (inr e) = cc
open_gates false true false f h = refl
open_gates false false late f h = refl

-- A request that is admitted would be admitted too, by the same controller at the same time, with a
-- shorter queue and with less work queued and running.
pub admit_less_load :
    (r : Request) (depth queued running now depth' queued' running' : ℕ) (c : Controller)
    → depth' ≤ depth
    → queued' ≤ queued
    → running' ≤ running
    → (admit r depth queued running now c).0 ≡ none
    → (admit r depth' queued' running' now c).0 ≡ none
unfolding admit verdict project_finish
admit_less_load r depth queued running now depth' queued' running' c hd hq hr e =
    let most = c.cfg.max_queue_depth in
    let gate = c.cfg.enforce_deadlines && is_warm c in
    let big = project_finish r queued running c in
    let small = project_finish r queued' running' c in
    let (short, in_time) =
      gates_open (at_least depth most) gate (late_for r.deadline big now c.cfg.slack) e in
    let work : small.num ≤ big.num =
      mul-le-mul_right (max_fraction (tokens_per_second c) c.cfg.min_rate).den
        (omega (arith, hq, hr)) in
    open_gates (at_least depth' most) gate (late_for r.deadline small now c.cfg.slack)
      (at_least_mono depth depth' most hd short)
      (elim in_time [
        | inl off ↦ inl off
        | inr before ↦ inr (late_for_mono big small r.deadline now c.cfg.slack refl work before)
      ])
