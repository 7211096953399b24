-- ===== src/Admission/Queue.antt =====
-- `add_request` of engine/scheduler.py behind the gates of engine/admission.py.
use nanoserve.Prelude.{
  Bool, Bool-cases, Option, [], ap, arith, false, if_false, if_true, inl, inr, leb, leb→gt, leb→le,
  length, length-append, none, refl, some, subst, sym, true, ℕ, ◌&&◌, ◌++◌, ◌+◌, ◌<◌, ◌∙◌, ◌∷◌, ◌≡◌,
  ◌≤◌,
}
use nanoserve.Request.{Request, Rejection, queue_full, deadline_exceeded, finish, rejected}
use nanoserve.Engine.{Engine, record_finished, enqueue}
use nanoserve.Admission.{
  Controller, at_least, late_for, is_warm, project_finish, verdict, admit, queued_tokens,
  running_tokens, Gated, place, add_request,
}

-- The test of the deadline gate.
abbrev pub deadline_gate : Request → ℕ → ℕ → ℕ → Controller → Bool
deadline_gate r queued running now c =
    (c.cfg.enforce_deadlines && is_warm c)
    && late_for r.deadline (project_finish r queued running c) now c.cfg.slack

-- The answer to a request in front of a queue of `depth`, by the first gate that is shut.
pub data Answer (depth most : ℕ) (late : Bool) : Option Rejection → Type 0 where
  let_in : depth < most → late ≡ false → Answer depth most late none
  no_room : most ≤ depth → Answer depth most late (some queue_full)
  no_time : depth < most → late ≡ true → Answer depth most late (some deadline_exceeded)

admit-Answer :
    (r : Request) (depth queued running now most : ℕ) (c : Controller)
    → c.cfg.max_queue_depth ≡ some most
    → Answer depth most
        (deadline_gate r queued running now c)
        (admit r depth queued running now c).0
unfolding admit verdict
admit-Answer r depth queued running now most c k =
    let bound = ap (at_least depth) k in
    let late = deadline_gate r queued running now c in
    let Is = Answer depth most late in
    elim (Bool-cases (leb most depth)) [
      | inl full ↦
          subst Is (sym (if_true (at_least depth c.cfg.max_queue_depth) _ _ (bound ∙ full)))
            (no_room (leb→le most depth full))
      | inr room ↦
          subst Is (sym (if_false (at_least depth c.cfg.max_queue_depth) _ _ (bound ∙ room)))
            (elim (Bool-cases late) [
              | inl shut ↦
                  subst Is (sym (if_true late _ _ shut)) (no_time (leb→gt most depth room) shut)
              | inr open_gate ↦
                  subst Is (sym (if_false late _ _ open_gate))
                    (let_in (leb→gt most depth room) open_gate)
            ])
    ]

module _ {V : Type 0} where
  add_request_gated :
      (r : Request) (now : ℕ) (e : Engine V) (c : Controller)
      → add_request r now (record { engine = e; admission = some c }) ≡ (
          let (v, c') =
            admit r (length e.waiting) (queued_tokens e.waiting) (running_tokens e.running) now c in
          record { engine = place v r now e; admission = some c' })
  unfolding add_request
  add_request_gated r now e c = refl

  -- `r` is the last in the queue, or it has ended as rejected for a reason and is to be reported.
  abbrev pub Queued : Request → Engine V → Engine V → Type 0
  Queued r e e' =
      (e'.waiting ≡ e.waiting ++ r ∷ [])
      × (e'.newly_finished ≡ e.newly_finished)
      × (e'.num_finished ≡ e.num_finished)

  abbrev pub TurnedAway : Rejection → Request → ℕ → Engine V → Engine V → Type 0
  TurnedAway reason r now e e' =
      (e'.waiting ≡ e.waiting)
      × (e'.newly_finished
          ≡ e.newly_finished
            ++ record (finish rejected now r) { rejection_reason = some reason } ∷ [])
      × (e'.num_finished ≡ e.num_finished + 1)

  -- The queue's length decides first, and then the deadline.
  abbrev pub Placed : ℕ → Bool → Request → ℕ → Engine V → Engine V → Type 0
  Placed most late r now e e' =
      (length e.waiting < most → late ≡ false → Queued r e e')
      × (most ≤ length e.waiting → TurnedAway queue_full r now e e')
      × (length e.waiting < most → late ≡ true → TurnedAway deadline_exceeded r now e e')

  place-Placed :
      (v : Option Rejection) (r : Request) (now most : ℕ) (late : Bool) (e : Engine V)
      → Answer (length e.waiting) most late v
      → Placed most late r now e (place v r now e)
  unfolding place enqueue record_finished
  place-Placed _ r now most late e (let_in room k) =
      (λ _ _. (refl, refl, refl), λ h. absurd (omega arith), λ _ h. absurd (cc))
  place-Placed _ r now most late e (no_room full) =
      (λ h _. absurd (omega arith), λ _. (refl, refl, refl), λ h _. absurd (omega arith))
  place-Placed _ r now most late e (no_time room k) =
      (λ _ h. absurd (cc), λ h. absurd (omega arith), λ _ _. (refl, refl, refl))

  place-running :
      (v : Option Rejection) (r : Request) (now : ℕ) (e : Engine V)
      → ((place v r now e).running ≡ e.running) × ((place v r now e).prefix ≡ e.prefix)
  unfolding place enqueue record_finished
  place-running none r now e = (refl, refl)
  place-running (some reason) r now e = (refl, refl)

  place-depth :
      (v : Option Rejection) (r : Request) (now most : ℕ) (late : Bool) (e : Engine V)
      → length e.waiting ≤ most
      → Answer (length e.waiting) most late v
      → length (place v r now e).waiting ≤ most
  unfolding place enqueue record_finished
  place-depth _ r now most late e h (let_in room k) =
      omega (arith, length-append e.waiting (r ∷ []))
  place-depth _ r now most late e h (no_room full) = h
  place-depth _ r now most late e h (no_time room k) = h

  -- For an engine with admission control whose queue is no longer than its most, `add_request` keeps
  -- it so. A request in front of a full queue ends as rejected for the queue's length; else one that
  -- the deadline gate shuts out ends as rejected for its deadline; each is added once to what is to
  -- be reported; and else the request is put at the end of the queue. The running sequences and the
  -- cache stay as they were.
  pub add_request-Placed :
      (r : Request) (now most : ℕ) (e : Engine V) (c : Controller)
      → c.cfg.max_queue_depth ≡ some most
      → length e.waiting ≤ most
      → (g : Gated V) × (add_request r now (record { engine = e; admission = some c }) ≡ g)
        × (length g.engine.waiting ≤ most)
        × Placed most
            (deadline_gate r (queued_tokens e.waiting) (running_tokens e.running) now c)
            r
            now
            e
            g.engine
        × (g.engine.running ≡ e.running)
        × (g.engine.prefix ≡ e.prefix)
  add_request-Placed r now most e c k h =
      let queued = queued_tokens e.waiting in
      let running = running_tokens e.running in
      let (v, c') = admit r (length e.waiting) queued running now c in
      let late = deadline_gate r queued running now c in
      let answer = admit-Answer r (length e.waiting) queued running now most c k in
      let (same, kept) = place-running v r now e in
      (
        record { engine = place v r now e; admission = some c' },
        add_request_gated r now e c,
        place-depth v r now most late e h answer,
        place-Placed v r now most late e answer,
        same,
        kept,
      )
