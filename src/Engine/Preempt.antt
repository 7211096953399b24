-- ===== src/Engine/Preempt.antt =====
-- `_preempt_newest` and `_retire` of engine/scheduler.py: a running sequence gives its blocks back.
use nanoserve.Prelude.{
  List, Option, [], ap, append-nil, arith, length, length-append, none, refl, some, subst, sym,
  ◌++◌, ◌+◌, ◌<◌, ◌∙◌, ◌∷◌, ◌≡◌,
}
use nanoserve.Exec.{ok, err, out_of_blocks, bind_run}
use nanoserve.Prefix.Invariant.{Valid}
use nanoserve.Batch.Prepare.{AllFit}
use nanoserve.Engine.{
  caches_of, Sequence, Engine, pop_last, behind, preempt, preempt_newest, free_cache, restarted,
}
use nanoserve.Engine.Invariant.{Served, held_by, with_pool, AllFit-one, free_cache-Valid}

behind-none : (q : Sequence) (o : Option (List Sequence × Sequence)) → behind q o ≡ none → ⊥
behind-none q none e = cc
behind-none q (some (front, last)) e = cc

pop_last-none : (qs : List Sequence) → pop_last qs ≡ none → qs ≡ []
unfolding pop_last
pop_last-none [] e = refl
pop_last-none (q ∷ qs) e = absurd (behind-none q (pop_last qs) e)

abbrev joined : Option (List Sequence × Sequence) → List Sequence
joined none = []
joined (some (front, q)) = front ++ q ∷ []

joined-behind :
    (q : Sequence) (o : Option (List Sequence × Sequence)) → joined (behind q o) ≡ q ∷ joined o
joined-behind q none = refl
joined-behind q (some (front, last)) = refl

joined-pop_last : (qs : List Sequence) → joined (pop_last qs) ≡ qs
unfolding pop_last
joined-pop_last [] = refl
joined-pop_last (q ∷ qs) = joined-behind q (pop_last qs) ∙ ap (◌∷◌ q) (joined-pop_last qs)

pop_last-some :
    (qs front : List Sequence) (q : Sequence) → pop_last qs ≡ some (front, q) → qs ≡ front ++ q ∷ []
pop_last-some qs front q e = sym (joined-pop_last qs) ∙ ap joined e

module _ {V : Type 0} where
  -- The victim is the last of the running sequences. It loses its output and its blocks, and is the
  -- next to be admitted.
  pub record Preempted (s : Engine V) (t : Engine V) : Type 0 where
    pub victim : Sequence
    pub running : s.running ≡ t.running ++ victim ∷ []
    pub waiting : t.waiting ≡ restarted victim.request ∷ s.waiting
    pub served : Served t
    pub counted : t.preemptions ≡ s.preemptions + 1
    pub same_finished : t.newly_finished ≡ s.newly_finished
    pub same_cached : t.prefix.entries ≡ s.prefix.entries

  preempt-Preempted :
      (front : List Sequence) (q : Sequence) (s : Engine V)
      → s.running ≡ front ++ q ∷ []
      → Served s
      → (t : Engine V) × (preempt (some (front, q)) s ≡ (ok tt, t)) × Preempted s t
  unfolding preempt
  preempt-Preempted front q s e v =
      let (fit, fits) =
        AllFit-one s.prefix.block_size front q []
          (subst (λ qs. AllFit s.prefix.block_size (caches_of qs)) e v.fit) in
      let s0 : Engine V = record s { running = front } in
      let (a, run, v') =
        free_cache-Valid front q [] s0 v.positive fit
          (subst (λ qs. Valid (held_by qs) s.prefix) e v.valid) in
      let t : Engine V = record (with_pool a s0) {
        preemptions = s.preemptions + 1;
        waiting = restarted q.request ∷ s.waiting;
      } in
      (
        t,
        bind_run (free_cache q.cache)
            (λ _ s'. (
              ok tt,
              record s' {
                preemptions = s'.preemptions + 1;
                waiting = restarted q.request ∷ s'.waiting;
              },
            ))
            s0 (with_pool a s0) tt run,
        record {
          victim = q;
          running = e;
          waiting = refl;
          served = record {
            positive = v.positive;
            fit = subst (λ qs. AllFit s.prefix.block_size (caches_of qs)) (append-nil front) fits;
            valid = subst (λ qs. Valid (held_by qs) (with_pool a s0).prefix) (append-nil front) v';
          };
          counted = refl;
          same_finished = refl;
          same_cached = refl;
        },
      )

  preempt_cases :
      (o : Option (List Sequence × Sequence)) (s : Engine V)
      → pop_last s.running ≡ o
      → Served s
      → (s.running ≡ [] → preempt o s ≡ (err out_of_blocks, s))
        × (0 < length s.running → (t : Engine V) × (preempt o s ≡ (ok tt, t)) × Preempted s t)
  unfolding preempt
  preempt_cases none s e v =
      (λ h. refl, λ h. absurd (omega (arith, ap length (pop_last-none s.running e))))
  preempt_cases (some (front, q)) s e v = (
    λ h. absurd (
        omega (
          arith,
          ap length h,
          ap length (pop_last-some s.running front q e),
          length-append front (q ∷ []),
        )),
    λ h. preempt-Preempted front q s (pop_last-some s.running front q e) v,
  )

  -- On an engine whose blocks are held by its running sequences and its prefix cache: with nothing
  -- running `_preempt_newest` raises `OutOfBlocks` and changes nothing. Otherwise it returns, the
  -- last running sequence goes to the head of the queue without its output, its blocks are given
  -- back, and the others keep their places and their blocks.
  pub preempt_newest-Preempted :
      (s : Engine V)
      → Served s
      → (s.running ≡ [] → preempt_newest s ≡ (err out_of_blocks, s))
        × (0 < length s.running → (t : Engine V) × (preempt_newest s ≡ (ok tt, t)) × Preempted s t)
  unfolding preempt_newest
  preempt_newest-Preempted s v = preempt_cases (pop_last s.running) s refl v
