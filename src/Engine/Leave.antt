-- ===== src/Engine/Leave.antt =====
-- The two loops of `apply_cancellations` (engine/scheduler.py): what one pass over the running
-- sequences, or over the waiting requests, changes.
use nanoserve.Prelude.{
  ==→eq, Bool-cases, List, [], ap, append-nil, append_assoc, arith, false, if_false, if_true,
  if◌then◌else◌, inl, inr, length, refl, subst, sym, true, ℕ, ◌++◌, ◌+◌, ◌==◌, ◌∙◌, ◌∷◌, ◌≡◌,
}
use nanoserve.Exec.{ok, ◌>>=◌, bind_run}
use nanoserve.Allocator.{Allocator}
use nanoserve.Prefix.Invariant.{Valid}
use nanoserve.Batch.Prepare.{AllFit}
use nanoserve.Request.{Request, cancelled, finish}
use nanoserve.Engine.{
  caches_of, Sequence, Engine, contains, id_of, remove_running, remove_waiting, record_finished,
  free_cache, leave_running, leave_waiting, with_done, cancel_running, cancel_waiting,
}
use nanoserve.Engine.Invariant.{Served, held_by, with_pool, AllFit-one, free_cache-Valid}

-- The sequences that stay, and the requests that end.
unfoldable pub kept : List ℕ → List Sequence → List Sequence
unfolding contains
kept wanted [] = []
kept wanted (q ∷ qs) =
    let rest = kept wanted qs in if contains wanted (id_of q) then rest else q ∷ rest

unfoldable pub ended : List ℕ → ℕ → List Sequence → List Request
unfolding contains
ended wanted now [] = []
ended wanted now (q ∷ qs) =
    let rest = ended wanted now qs in
    if contains wanted (id_of q) then finish cancelled now q.request ∷ rest else rest

unfoldable pub kept_waiting : List ℕ → List Request → List Request
unfolding contains
kept_waiting wanted [] = []
kept_waiting wanted (r ∷ rs) =
    let rest = kept_waiting wanted rs in if contains wanted r.request_id then rest else r ∷ rest

unfoldable pub ended_waiting : List ℕ → ℕ → List Request → List Request
unfolding contains
ended_waiting wanted now [] = []
ended_waiting wanted now (r ∷ rs) =
    let rest = ended_waiting wanted now rs in
    if contains wanted r.request_id then finish cancelled now r ∷ rest else rest

-- Nobody in front is wanted.
abbrev pub NoneWanted : List ℕ → List Sequence → Type 0
NoneWanted wanted [] = Unit {0}
NoneWanted wanted (q ∷ qs) = (contains wanted (id_of q) ≡ false) × NoneWanted wanted qs

abbrev pub NoneWaiting : List ℕ → List Request → Type 0
NoneWaiting wanted [] = Unit {0}
NoneWaiting wanted (r ∷ rs) = (contains wanted r.request_id ≡ false) × NoneWaiting wanted rs

other_id :
    (wanted : List ℕ) (x y : ℕ)
    → contains wanted x ≡ false
    → contains wanted y ≡ true
    → (x == y) ≡ false
other_id wanted x y f t = elim (Bool-cases (x == y)) [
  | inl same ↦ absurd (cc (ap (contains wanted) (==→eq x y same)))
  | inr other ↦ other
]

remove_running-front :
    (wanted : List ℕ) (front : List Sequence) (q : Sequence) (back : List Sequence)
    → NoneWanted wanted front
    → contains wanted (id_of q) ≡ true
    → remove_running (id_of q) (front ++ q ∷ back) ≡ front ++ back
unfolding remove_running
remove_running-front wanted [] q back n t = if_true (id_of q == id_of q) _ _ (ground arith)
remove_running-front wanted (r ∷ front) q back (f, n) t =
    if_false (id_of r == id_of q) _ _ (other_id wanted (id_of r) (id_of q) f t)
    ∙ ap (◌∷◌ r) (remove_running-front wanted front q back n t)

remove_waiting-front :
    (wanted : List ℕ) (front : List Request) (r : Request) (back : List Request)
    → NoneWaiting wanted front
    → contains wanted r.request_id ≡ true
    → remove_waiting r.request_id (front ++ r ∷ back) ≡ front ++ back
unfolding remove_waiting
remove_waiting-front wanted [] r back n t =
    if_true (r.request_id == r.request_id) _ _ (ground arith)
remove_waiting-front wanted (x ∷ front) r back (f, n) t =
    if_false (x.request_id == r.request_id) _ _ (other_id wanted x.request_id r.request_id f t)
    ∙ ap (◌∷◌ x) (remove_waiting-front wanted front r back n t)

NoneWanted-snoc :
    (wanted : List ℕ) (front : List Sequence) (q : Sequence)
    → NoneWanted wanted front
    → contains wanted (id_of q) ≡ false
    → NoneWanted wanted (front ++ q ∷ [])
NoneWanted-snoc wanted [] q n f = (f, tt)
NoneWanted-snoc wanted (r ∷ front) q (g, n) f = (g, NoneWanted-snoc wanted front q n f)

NoneWaiting-snoc :
    (wanted : List ℕ) (front : List Request) (r : Request)
    → NoneWaiting wanted front
    → contains wanted r.request_id ≡ false
    → NoneWaiting wanted (front ++ r ∷ [])
NoneWaiting-snoc wanted [] r n f = (f, tt)
NoneWaiting-snoc wanted (x ∷ front) r (g, n) f = (g, NoneWaiting-snoc wanted front r n f)

module _ {V : Type 0} where
  -- What the end of some requests changes in the engine.
  pub record Left (done : List Request) (s t : Engine V) : Type 0 where
    pub served : Served t
    pub newly : t.newly_finished ≡ s.newly_finished ++ done
    pub many : t.num_finished ≡ s.num_finished + length done
    pub requested : t.cancel_requested ≡ s.cancel_requested
    pub same_emitted : t.emitted ≡ s.emitted
    pub same_cached : t.prefix.entries ≡ s.prefix.entries

  Left-nil : {s : Engine V} → Served s → Left [] s s
  Left-nil {s} v = record {
    served = v;
    newly = sym (append-nil s.newly_finished);
    many = omega arith;
    requested = refl;
    same_emitted = refl;
    same_cached = refl;
  }

  Left-cons :
      {s t u : Engine V} (r : Request) (done : List Request)
      → t.newly_finished ≡ s.newly_finished ++ r ∷ []
      → t.num_finished ≡ s.num_finished + 1
      → t.cancel_requested ≡ s.cancel_requested
      → t.emitted ≡ s.emitted
      → t.prefix.entries ≡ s.prefix.entries
      → Left done t u
      → Left (r ∷ done) s u
  Left-cons {s} {t} {u} r done newly many requested emitted cached k = record {
    served = k.served;
    newly = k.newly ∙ ap (λ x. x ++ done) newly ∙ append_assoc s.newly_finished (r ∷ []) done;
    many = omega (arith, k.many, many);
    requested = k.requested ∙ requested;
    same_emitted = k.same_emitted ∙ emitted;
    same_cached = k.same_cached ∙ cached;
  }

  -- One running sequence leaves.
  leave_one :
      (wanted : List ℕ) (now : ℕ) (front : List Sequence) (q : Sequence) (back : List Sequence)
      (s : Engine V)
      → s.running ≡ front ++ q ∷ back
      → NoneWanted wanted front
      → contains wanted (id_of q) ≡ true
      → Served s
      → (a : Allocator) × (free_cache q.cache s ≡ (ok tt, with_pool a s))
        × ((leave_running now q (with_pool a s)).running ≡ front ++ back)
        × Served (leave_running now q (with_pool a s))
  unfolding leave_running record_finished
  leave_one wanted now front q back s e n t v =
      let (fit, fits) =
        AllFit-one s.prefix.block_size front q back
          (subst (λ qs. AllFit s.prefix.block_size (caches_of qs)) e v.fit) in
      let (a, run, v') =
        free_cache-Valid front q back s v.positive fit
          (subst (λ qs. Valid (held_by qs) s.prefix) e v.valid) in
      let stays : remove_running (id_of q) s.running ≡ front ++ back =
        ap (remove_running (id_of q)) e ∙ remove_running-front wanted front q back n t in
      (
        a,
        run,
        stays,
        record {
          positive = v.positive;
          fit = subst (λ qs. AllFit s.prefix.block_size (caches_of qs)) (sym stays) fits;
          valid = subst (λ qs. Valid (held_by qs) (with_pool a s).prefix) (sym stays) v';
        },
      )

  pub cancel_running-Left :
      (wanted : List ℕ) (now : ℕ) (qs front : List Sequence) (s : Engine V)
      → s.running ≡ front ++ qs
      → NoneWanted wanted front
      → Served s
      → (t : Engine V) × (cancel_running wanted now qs s ≡ (ok (ended wanted now qs), t))
        × Left (ended wanted now qs) s t
        × (t.running ≡ front ++ kept wanted qs)
        × (t.waiting ≡ s.waiting)
  unfolding cancel_running ended kept leave_running record_finished
  cancel_running-Left wanted now [] front s e n v = (s, refl, Left-nil v, e, refl)
  cancel_running-Left wanted now (q ∷ qs) front s e n v =
      elim (Bool-cases (contains wanted (id_of q))) [
        | inl leaves ↦
            let (a, run, stays, v') = leave_one wanted now front q qs s e n leaves v in
            let s' : Engine V = leave_running now q (with_pool a s) in
            let (t, rest, k, running, waiting) =
              cancel_running-Left wanted now qs front s' stays n v' in
            let r = finish cancelled now q.request in
            rw leaves (
              t,
              bind_run (free_cache q.cache)
                    (λ _ s'.
                      (cancel_running wanted now qs >>= λ rs. with_done r rs)
                        (leave_running now q s'))
                    s (with_pool a s) tt run
                  ∙ bind_run (cancel_running wanted now qs) (λ rs. with_done r rs) s' t
                      (ended wanted now qs) rest,
              Left-cons r (ended wanted now qs) refl refl refl refl refl k,
              running,
              waiting,
            )
        | inr stays ↦
            let (t, rest, k, running, waiting) =
              cancel_running-Left wanted now qs (front ++ q ∷ []) s
                (e ∙ sym (append_assoc front (q ∷ []) qs)) (NoneWanted-snoc wanted front q n stays)
                v in
            rw stays (t, rest, k, running ∙ append_assoc front (q ∷ []) (kept wanted qs), waiting)
      ]

  pub cancel_waiting-Left :
      (wanted : List ℕ) (now : ℕ) (rs front : List Request) (s : Engine V)
      → s.waiting ≡ front ++ rs
      → NoneWaiting wanted front
      → Served s
      → (t : Engine V) × (cancel_waiting wanted now rs s ≡ (ok (ended_waiting wanted now rs), t))
        × Left (ended_waiting wanted now rs) s t
        × (t.waiting ≡ front ++ kept_waiting wanted rs)
        × (t.running ≡ s.running)
  unfolding cancel_waiting ended_waiting kept_waiting leave_waiting record_finished
  cancel_waiting-Left wanted now [] front s e n v = (s, refl, Left-nil v, e, refl)
  cancel_waiting-Left wanted now (r ∷ rs) front s e n v =
      elim (Bool-cases (contains wanted r.request_id)) [
        | inl leaves ↦
            let s' : Engine V = leave_waiting now r s in
            let v' : Served s' = record { positive = v.positive; fit = v.fit; valid = v.valid } in
            let (t, rest, k, waiting, running) =
              cancel_waiting-Left wanted now rs front s'
                (ap (remove_waiting r.request_id) e
                  ∙ remove_waiting-front wanted front r rs n leaves)
                n v' in
            let f = finish cancelled now r in
            rw leaves (
              t,
              bind_run (cancel_waiting wanted now rs) (λ done. with_done f done) s' t
                  (ended_waiting wanted now rs) rest,
              Left-cons f (ended_waiting wanted now rs) refl refl refl refl refl k,
              waiting,
              running,
            )
        | inr stays ↦
            let (t, rest, k, waiting, running) =
              cancel_waiting-Left wanted now rs (front ++ r ∷ []) s
                (e ∙ sym (append_assoc front (r ∷ []) rs)) (NoneWaiting-snoc wanted front r n stays)
                v in
            rw stays
              (t, rest, k, waiting ∙ append_assoc front (r ∷ []) (kept_waiting wanted rs), running)
      ]
