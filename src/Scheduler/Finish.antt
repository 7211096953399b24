-- ===== src/Scheduler/Finish.antt =====
-- The loop of `step` (engine/scheduler.py) that feeds the new tokens to the sequences and retires
-- those that are done.
use nanoserve.Prelude.{
  Bool-cases, List, [], ap, append-nil, append_assoc, arith, count, if_false, if_true,
  if◌then◌else◌, inl, inr, leb, length, ltb, not, refl, subst, sym, ℕ, ◌&&◌, ◌++◌, ◌+◌, ◌<◌, ◌==◌,
  ◌∙◌, ◌∷◌, ◌≡◌,
}
use nanoserve.Exec.{ok, ◌>>=◌, bind_run}
use nanoserve.Allocator.{Allocator}
use nanoserve.Prefix.Invariant.{Valid}
use nanoserve.Batch.Prepare.{AllFit}
use nanoserve.Batch.Need.{tables}
use nanoserve.Request.{Request, record_token, output_len, finish}
use nanoserve.Engine.{
  caches_of, Sequence, Engine, accept_token, id_of, free_cache, record_finished, retire, reason_of,
}
use nanoserve.Engine.Invariant.{held_by, with_pool, AllFit-one, free_cache-Valid}
use nanoserve.Scheduler.{accepted, emit, end_with, stay_with, finish_loop}

abbrev pub firsts : List (Sequence × ℕ) → List Sequence
firsts [] = []
firsts ((q, token) ∷ ps) = q ∷ firsts ps

abbrev pub ids_of : List Sequence → List ℕ
ids_of [] = []
ids_of (q ∷ qs) = id_of q ∷ ids_of qs

abbrev pub request_ids : List Request → List ℕ
request_ids [] = []
request_ids (r ∷ rs) = r.request_id ∷ request_ids rs

-- A token changes neither the cache nor the identifier of a sequence.
accept_token_keeps :
    (eos_id token now : ℕ) (q : Sequence)
    → ((accept_token eos_id token now q).cache ≡ q.cache)
      × (id_of (accept_token eos_id token now q) ≡ id_of q)
unfolding accept_token record_token
accept_token_keeps eos_id token now q =
    elim (Bool-cases ((token == eos_id) && not q.request.ignore_eos)) [
      | inl stop ↦ rw stop (refl, refl)
      | inr go ↦
          elim (Bool-cases
            (leb q.request.max_tokens (length (q.request.output_token_ids ++ token ∷ [])))) [
              | inl long ↦ rw (go, long) (refl, refl)
              | inr short ↦ rw (go, short) (refl, refl)
            ]
    ]

caches_of-swap :
    (front : List Sequence) (q r : Sequence) (back : List Sequence)
    → r.cache ≡ q.cache
    → caches_of (front ++ q ∷ back) ≡ caches_of (front ++ r ∷ back)
caches_of-swap [] q r back e = ap (λ c. c ∷ caches_of back) (sym e)
caches_of-swap (x ∷ front) q r back e = ap (◌∷◌ x.cache) (caches_of-swap front q r back e)

module _ {V : Type 0} where
  emit_keeps :
      (before after : Sequence) (token : ℕ) (s : Engine V)
      → (es : List (ℕ × ℕ)) × (emit before after token s ≡ record s { emitted = es })
  unfolding emit
  emit_keeps before after token s =
      elim (Bool-cases (ltb (output_len before.request) (output_len after.request))) [
        | inl grew ↦ (
          s.emitted ++ (id_of after, token) ∷ [],
          if_true (ltb (output_len before.request) (output_len after.request)) _ _ grew,
        )
        | inr same ↦ (
          s.emitted,
          if_false (ltb (output_len before.request) (output_len after.request)) _ _ same,
        )
      ]

  -- What the loop leaves: `front` is what came before in the batch and stays.
  pub record Finished (front : List Sequence) (ps : List (Sequence × ℕ)) (s : Engine V)
      (done : List Request) (still : List Sequence) (t : Engine V) : Type 0 where
    pub positive : 0 < t.prefix.block_size
    pub fit : AllFit t.prefix.block_size (caches_of (front ++ still))
    pub valid : Valid (held_by (front ++ still)) t.prefix
    pub newly : t.newly_finished ≡ s.newly_finished ++ done
    pub many : t.num_finished ≡ s.num_finished + length done
    pub everyone :
        (x : ℕ) → count x (request_ids done) + count x (ids_of still) ≡ count x (ids_of (firsts ps))
    pub same_waiting : t.waiting ≡ s.waiting
    pub same_requested : t.cancel_requested ≡ s.cancel_requested
    pub same_cached : t.prefix.entries ≡ s.prefix.entries

  retire_run :
      (now : ℕ) (front : List Sequence) (q : Sequence) (back : List Sequence) (s : Engine V)
      → 0 < s.prefix.block_size
      → AllFit s.prefix.block_size (caches_of (front ++ q ∷ back))
      → Valid (held_by (front ++ q ∷ back)) s.prefix
      → (a : Allocator) × (retire now q s ≡ (
        ok (finish (reason_of q.finish_reason) now q.request),
        record_finished (finish (reason_of q.finish_reason) now q.request) (with_pool a s),
      ))
        × AllFit s.prefix.block_size (caches_of (front ++ back))
        × Valid (held_by (front ++ back)) (with_pool a s).prefix
  unfolding retire
  retire_run now front q back s pos fits v =
      let (fit, others) = AllFit-one s.prefix.block_size front q back fits in
      let (a, run, v') = free_cache-Valid front q back s pos fit v in
      let r = finish (reason_of q.finish_reason) now q.request in
      (
        a,
        bind_run (free_cache q.cache) (λ _ s'. (ok r, record_finished r s')) s (with_pool a s) tt
            run,
        others,
        v',
      )

  pub finish_loop-Finished :
      (now : ℕ) (ps : List (Sequence × ℕ)) (front : List Sequence) (s : Engine V)
      → 0 < s.prefix.block_size
      → AllFit s.prefix.block_size (caches_of (front ++ firsts ps))
      → Valid (held_by (front ++ firsts ps)) s.prefix
      → (done : List Request) × (still : List Sequence) × (t : Engine V) × (finish_loop now ps s
          ≡ (ok (done, still), t))
        × Finished front ps s done still t
  unfolding finish_loop accepted record_finished finish
  finish_loop-Finished now [] front s pos fits v = (
    [],
    [],
    s,
    refl,
    record {
      positive = pos;
      fit = fits;
      valid = v;
      newly = sym (append-nil s.newly_finished);
      many = omega arith;
      everyone = λ x. refl;
      same_waiting = refl;
      same_requested = refl;
      same_cached = refl;
    },
  )
  finish_loop-Finished now ((q, token) ∷ ps) front s pos fits v =
      let q' = accepted s.config.eos_token_id token now q in
      let (cache, id) =
        accept_token_keeps s.config.eos_token_id token now (record q { next_token = token }) in
      let (es, emits) = emit_keeps q q' token s in
      let s' : Engine V = record s { emitted = es } in
      let swap = caches_of-swap front q q' (firsts ps) cache in
      let fits' = subst (AllFit s.prefix.block_size) swap fits in
      let v' : Valid (held_by (front ++ q' ∷ firsts ps)) s.prefix =
        subst (λ cs. Valid (tables cs) s.prefix) swap v in
      let leaves =
        λ (x : Engine V). (retire now q' >>= λ r. finish_loop now ps >>= λ out. end_with r out) x in
      let stays = λ (x : Engine V). (finish_loop now ps >>= λ out. stay_with q' out) x in
      let emitted = ap (λ x. if q'.finished then leaves x else stays x) emits in
      elim (Bool-cases q'.finished) [
        | inl ends ↦
            let r = finish (reason_of q'.finish_reason) now q'.request in
            let (a, ret, fits'', v'') = retire_run now front q' (firsts ps) s' pos fits' v' in
            let u : Engine V = record_finished r (with_pool a s') in
            let (done, still, t, run, f) = finish_loop-Finished now ps front u pos fits'' v'' in
            (
              r ∷ done,
              still,
              t,
              emitted
                  ∙ if_true q'.finished _ _ ends
                  ∙ bind_run (retire now q') (λ x. finish_loop now ps >>= λ out. end_with x out) s'
                      u r ret
                  ∙ bind_run (finish_loop now ps) (λ out. end_with r out) u t (done, still) run,
              record {
                positive = f.positive;
                fit = f.fit;
                valid = f.valid;
                newly = f.newly ∙ append_assoc s.newly_finished (r ∷ []) done;
                many = omega (arith, f.many);
                everyone =
                    λ x. omega (arith, f.everyone x, ap {B = ℕ} (λ i. if i == x then 1 else 0) id);
                same_waiting = f.same_waiting;
                same_requested = f.same_requested;
                same_cached = f.same_cached;
              },
            )
        | inr runs ↦
            let apart = append_assoc front (q' ∷ []) in
            let (done, still, t, run, f) =
              finish_loop-Finished now ps (front ++ q' ∷ []) s' pos
                (subst (λ qs. AllFit s.prefix.block_size (caches_of qs)) (sym (apart (firsts ps)))
                  fits')
                (subst (λ qs. Valid (held_by qs) s.prefix) (sym (apart (firsts ps))) v') in
            (
              done,
              q' ∷ still,
              t,
              emitted
                  ∙ if_false q'.finished _ _ runs
                  ∙ bind_run (finish_loop now ps) (λ out. stay_with q' out) s' t (done, still) run,
              record {
                positive = f.positive;
                fit = subst (λ qs. AllFit t.prefix.block_size (caches_of qs)) (apart still) f.fit;
                valid = subst (λ qs. Valid (held_by qs) t.prefix) (apart still) f.valid;
                newly = f.newly;
                many = f.many;
                everyone =
                    λ x. omega (arith, f.everyone x, ap {B = ℕ} (λ i. if i == x then 1 else 0) id);
                same_waiting = f.same_waiting;
                same_requested = f.same_requested;
                same_cached = f.same_cached;
              },
            )
      ]
