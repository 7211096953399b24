-- ===== src/Engine/Cancel.antt =====
-- `apply_cancellations` of engine/scheduler.py: who leaves, and what comes back to the pool.
use nanoserve.Prelude.{
  List, [], ap, append-nil, append_assoc, ap₂, arith, length, length-append, refl, sym, ℕ, ◌++◌,
  ◌+◌, ◌∙◌, ◌∷◌, ◌≡◌,
}
use nanoserve.Exec.{ok, ◌>>=◌, bind_run}
use nanoserve.Request.{Request}
use nanoserve.Engine.{
  Sequence, Engine, contains, cancel_running, cancel_waiting, cancel_wanted, apply_cancellations,
}
use nanoserve.Engine.Invariant.{Served}
use nanoserve.Engine.Leave.{
  kept, ended, kept_waiting, ended_waiting, cancel_running-Left, cancel_waiting-Left,
}

none_kept : (qs : List Sequence) → kept [] qs ≡ qs
unfolding kept contains
none_kept [] = refl
none_kept (q ∷ qs) = ap (◌∷◌ q) (none_kept qs)

none_ended : (now : ℕ) (qs : List Sequence) → ended [] now qs ≡ []
unfolding ended contains
none_ended now [] = refl
none_ended now (q ∷ qs) = none_ended now qs

none_kept_waiting : (rs : List Request) → kept_waiting [] rs ≡ rs
unfolding kept_waiting contains
none_kept_waiting [] = refl
none_kept_waiting (r ∷ rs) = ap (◌∷◌ r) (none_kept_waiting rs)

none_ended_waiting : (now : ℕ) (rs : List Request) → ended_waiting [] now rs ≡ []
unfolding ended_waiting contains
none_ended_waiting now [] = refl
none_ended_waiting now (r ∷ rs) = none_ended_waiting now rs

-- The requests that end: the running ones first.
abbrev pub cancelled_by : {V : Type 0} → List ℕ → ℕ → Engine V → List Request
cancelled_by wanted now s = ended wanted now s.running ++ ended_waiting wanted now s.waiting

module _ {V : Type 0} where
  -- What a call leaves.
  pub record Cancelled (now : ℕ) (s t : Engine V) : Type 0 where
    pub served : Served t
    pub running : t.running ≡ kept s.cancel_requested s.running
    pub waiting : t.waiting ≡ kept_waiting s.cancel_requested s.waiting
    pub newly : t.newly_finished ≡ s.newly_finished ++ cancelled_by s.cancel_requested now s
    pub many : t.num_finished ≡ s.num_finished + length (cancelled_by s.cancel_requested now s)
    pub requested : t.cancel_requested ≡ []
    pub same_emitted : t.emitted ≡ s.emitted
    pub same_cached : t.prefix.entries ≡ s.prefix.entries

  cancel_wanted-Cancelled :
      (wanted : List ℕ) (now : ℕ) (s : Engine V)
      → s.cancel_requested ≡ wanted
      → Served s
      → (t : Engine V) × (cancel_wanted wanted now s ≡ (ok (cancelled_by wanted now s), t))
        × (Served t)
        × (t.running ≡ kept wanted s.running)
        × (t.waiting ≡ kept_waiting wanted s.waiting)
        × (t.newly_finished ≡ s.newly_finished ++ cancelled_by wanted now s)
        × (t.num_finished ≡ s.num_finished + length (cancelled_by wanted now s))
        × (t.cancel_requested ≡ [])
        × (t.emitted ≡ s.emitted)
        × (t.prefix.entries ≡ s.prefix.entries)
  unfolding cancel_wanted
  cancel_wanted-Cancelled [] now s e v =
      let nobody : cancelled_by [] now s ≡ [] =
        ap₂ ◌++◌ (none_ended now s.running) (none_ended_waiting now s.waiting) in
      (
        s,
        ap (λ (d : List Request). (ok d, s)) (sym nobody),
        v,
        sym (none_kept s.running),
        sym (none_kept_waiting s.waiting),
        sym (append-nil s.newly_finished) ∙ ap (◌++◌ s.newly_finished) (sym nobody),
        omega (arith, ap length nobody),
        e,
        refl,
        refl,
      )
  cancel_wanted-Cancelled (id ∷ ids) now s e v =
      let wanted = id ∷ ids in
      let s0 : Engine V = record s { cancel_requested = [] } in
      let v0 : Served s0 = record { positive = v.positive; fit = v.fit; valid = v.valid } in
      let first = ended wanted now s.running in
      let second = ended_waiting wanted now s.waiting in
      let (t, run, k, running, waiting) =
        cancel_running-Left wanted now s.running [] s0 refl tt v0 in
      let (u, run', m, waiting', running') =
        cancel_waiting-Left wanted now t.waiting [] t refl tt k.served in
      let same : ended_waiting wanted now t.waiting ≡ second =
        ap (ended_waiting wanted now) waiting in
      (
        u,
        bind_run (cancel_running wanted now s.running)
              (λ x s'. (cancel_waiting wanted now s'.waiting >>= λ y s''. (ok (x ++ y), s'')) s') s0
              t first run
            ∙ bind_run (cancel_waiting wanted now t.waiting) (λ y s''. (ok (first ++ y), s'')) t u
                (ended_waiting wanted now t.waiting) run'
            ∙ ap (λ (y : List Request). (ok (first ++ y), u)) same,
        m.served,
        running' ∙ running,
        waiting' ∙ ap (kept_waiting wanted) waiting,
        m.newly ∙ ap₂ ◌++◌ k.newly same ∙ append_assoc s.newly_finished first second,
        omega (arith, m.many, k.many, ap length same, length-append first second),
        m.requested ∙ k.requested,
        m.same_emitted ∙ k.same_emitted,
        m.same_cached ∙ k.same_cached,
      )

  -- On an engine whose blocks are held by its running sequences and its prefix cache,
  -- `apply_cancellations` never raises. Exactly the running and the waiting requests that were asked
  -- for end, as cancelled and in order; they are returned and recorded, once each; all others stay
  -- where they were, in order. The blocks are then held by the remaining sequences and the cache
  -- only, so nothing leaks, and no cancellation is pending.
  pub apply_cancellations-Cancelled :
      (now : ℕ) (s : Engine V)
      → Served s
      → (t : Engine V) × (apply_cancellations now s
          ≡ (ok (cancelled_by s.cancel_requested now s), t))
        × Cancelled now s t
  unfolding apply_cancellations
  apply_cancellations-Cancelled now s v =
      let (t, run, served, running, waiting, newly, many, requested, emitted, cached) =
        cancel_wanted-Cancelled s.cancel_requested now s refl v in
      (
        t,
        run,
        record {
          served = served;
          running = running;
          waiting = waiting;
          newly = newly;
          many = many;
          requested = requested;
          same_emitted = emitted;
          same_cached = cached;
        },
      )
