-- ===== src/Scheduler/Decode.antt =====
-- `step` of engine/scheduler.py from the call of the model on: no request is lost, and the blocks
-- stay with their holders.
use nanoserve.Prelude.{
  Bool-cases, List, [], ap, append-nil, arith, count, count-append, inl, inr, length, ltb, ltb→ge,
  ltb→lt, refl, subst, suc, sym, ℕ, ◌++◌, ◌+◌, ◌<◌, ◌∙◌, ◌∷◌, ◌≡◌, ◌≤◌,
}
use nanoserve.Exec.{Result, ok, err, out_of_blocks, bind_run}
use nanoserve.Allocator.Invariant.{Holds-same}
use nanoserve.Paged.{Cache}
use nanoserve.Prefix.Invariant.{Valid, blocks_of}
use nanoserve.Batch.{Batch, new_batch, total_need}
use nanoserve.Batch.Need.{tables}
use nanoserve.Batch.Prepare.{AllFit, Ready}
use nanoserve.Request.{Request}
use nanoserve.Engine.{caches_of, Sequence, Engine, id_of, restarted, preempt_newest}
use nanoserve.Engine.Invariant.{Served, held_by}
use nanoserve.Engine.Preempt.{Preempted, preempt_newest-Preempted}
use nanoserve.Model.{Network, heads}
use nanoserve.Model.Together.{alone, length-alone, decode_pass-alone, decode_pass_short}
use nanoserve.Scheduler.{
  with_caches, finish_loop, keep_running, batch_rows, sampled, run_batch, after_pass, decode_step,
}
use nanoserve.Scheduler.Finish.{firsts, ids_of, request_ids, finish_loop-Finished}

with_caches-same : (qs : List Sequence) → with_caches qs (caches_of qs) ≡ qs
unfolding with_caches
with_caches-same [] = refl
with_caches-same (q ∷ qs) = ap (◌∷◌ q) (with_caches-same qs)

length-caches_of : (qs : List Sequence) → length (caches_of qs) ≡ length qs
length-caches_of [] = refl
length-caches_of (q ∷ qs) = ap suc (length-caches_of qs)

-- A batch keeps its sequences, with the caches that the pass left.
with_caches-keeps :
    (qs : List Sequence) (cs : List Cache)
    → length cs ≡ length qs
    → (caches_of (with_caches qs cs) ≡ cs)
      × (ids_of (with_caches qs cs) ≡ ids_of qs)
      × (length (with_caches qs cs) ≡ length qs)
unfolding with_caches
with_caches-keeps [] [] e = (refl, refl, refl)
with_caches-keeps [] (c ∷ cs) e = absurd (omega arith)
with_caches-keeps (q ∷ qs) [] e = absurd (omega arith)
with_caches-keeps (q ∷ qs) (c ∷ cs) e =
    let (caches, ids, size) = with_caches-keeps qs cs (omega arith) in
    (ap (◌∷◌ c) caches, ap (◌∷◌ (id_of q)) ids, ap suc size)

ids_of-append :
    (x : ℕ) (ps qs : List Sequence)
    → count x (ids_of (ps ++ qs)) ≡ count x (ids_of ps) + count x (ids_of qs)
ids_of-append x [] qs = omega arith
ids_of-append x (p ∷ ps) qs = omega (arith, ids_of-append x ps qs)

request_ids-append :
    (x : ℕ) (rs ss : List Request)
    → count x (request_ids (rs ++ ss)) ≡ count x (request_ids rs) + count x (request_ids ss)
request_ids-append x [] ss = omega arith
request_ids-append x (r ∷ rs) ss = omega (arith, request_ids-append x rs ss)

module _ {V : Type 0} where
  -- How often a request is in the engine: waiting, running or ended and not yet reported.
  unfoldable pub census : ℕ → Engine V → ℕ
  census x s =
      count x (request_ids s.waiting)
      + count x (ids_of s.running)
      + count x (request_ids s.newly_finished)

  -- What a decode step leaves, with `done` the requests that ended in it.
  pub record Decoded (s : Engine V) (done : List Request) (t : Engine V) : Type 0 where
    pub served : Served t
    pub newly : t.newly_finished ≡ s.newly_finished ++ done
    pub everyone : (x : ℕ) → census x t ≡ census x s

  -- The blocks that a step of the whole batch takes.
  abbrev pub batch_need : Engine V → ℕ
  batch_need s = total_need s.prefix.block_size s.prefix.alloc.refs (caches_of s.running)

  Preempted-Decoded : {s t : Engine V} → Preempted s t → Decoded s [] t
  unfolding census restarted
  Preempted-Decoded {s} {t} p = record {
    served = p.served;
    newly = p.same_finished ∙ sym (append-nil s.newly_finished);
    everyone = λ x. omega (
      arith,
      ap (λ rs. count x (request_ids rs)) p.waiting,
      ap (λ qs. count x (ids_of qs)) p.running,
      ids_of-append x t.running (p.victim ∷ []),
      ap (λ rs. count x (request_ids rs)) p.same_finished,
    );
  }

module _ {H V L : Type 0} (net : Network H V L) (sample : Request → L → ℕ) where
  length-batch_rows : (qs : List Sequence) → length (batch_rows net sample qs) ≡ length qs
  unfolding batch_rows
  length-batch_rows [] = refl
  length-batch_rows (q ∷ qs) = ap suc (length-batch_rows qs)

  firsts-sampled :
      (qs : List Sequence) (ls : List L)
      → length ls ≡ length qs
      → firsts (sampled net sample qs ls) ≡ qs
  unfolding sampled
  firsts-sampled [] ls e = refl
  firsts-sampled (q ∷ qs) [] e = absurd (omega arith)
  firsts-sampled (q ∷ qs) (l ∷ ls) e = ap (◌∷◌ q) (firsts-sampled qs ls (omega arith))

  length-heads : (rows : List (ℕ × H)) → length (heads net rows) ≡ length rows
  unfolding heads
  length-heads [] = refl
  length-heads ((p, h) ∷ rows) = ap suc (length-heads rows)

  abbrev batch_of : Engine V → Batch V
  batch_of s = new_batch s.prefix.pool (caches_of s.running)

  batch-Ready : (s : Engine V) → Served s → Ready (blocks_of s.prefix.entries) (batch_of s)
  unfolding new_batch
  batch-Ready s v = record {
    positive = v.positive;
    fit = v.fit;
    holds =
        Holds-same (blocks_of s.prefix.entries ++ held_by s.running)
          (held_by s.running ++ blocks_of s.prefix.entries)
          (λ b. omega (
            arith,
            count-append b (blocks_of s.prefix.entries) (held_by s.running),
            count-append b (held_by s.running) (blocks_of s.prefix.entries),
          ))
          v.valid.holds;
  }

  -- With too few free blocks the last sequence is put back on the queue.
  decode_step_short :
      (now : ℕ) (s : Engine V)
      → Served s
      → 0 < length s.running
      → length s.prefix.alloc.free < batch_need s
      → (t : Engine V) × (decode_step net sample now s ≡ (ok [], t)) × Preempted s t
  unfolding decode_step run_batch after_pass new_batch
  decode_step_short now s v some_run few =
      let raised =
        decode_pass_short net (blocks_of s.prefix.entries) (batch_of s)
          (batch_rows net sample s.running) (batch-Ready s v) refl few in
      let whole = λ (r : Result (List (ℕ × H)) × Batch V).
        (after_pass net sample now r.0 (record s {
          prefix = record s.prefix { pool = r.1.pool };
          running = with_caches s.running r.1.caches;
        })) in
      let (t, run, p) = (preempt_newest-Preempted s v).1 some_run in
      (
        t,
        ap whole raised
            ∙ ap (λ qs. after_pass net sample now (err out_of_blocks) (record s { running = qs }))
                (with_caches-same s.running)
            ∙ bind_run preempt_newest (λ _ s'. (ok [], s')) s t tt run,
        p,
      )

  -- With enough each sequence gets its token, and those that are done are retired.
  decode_step_enough :
      (now : ℕ) (s : Engine V)
      → Served s
      → batch_need s ≤ length s.prefix.alloc.free
      → (done : List Request) × (t : Engine V) × (decode_step net sample now s ≡ (ok done, t))
        × Decoded s done t
  unfolding decode_step run_batch after_pass new_batch census
  decode_step_enough now s v enough =
      let toks = batch_rows net sample s.running in
      let cs = caches_of s.running in
      let sizes : length toks ≡ length cs =
        length-batch_rows s.running ∙ sym (length-caches_of s.running) in
      let (b, run, seen, untouched, ready, size) =
        decode_pass-alone net (blocks_of s.prefix.entries) (batch_of s) toks (batch-Ready s v) refl
          sizes enough in
      let rows = alone net s.prefix.num_layers s.prefix.pool toks cs in
      let qs = with_caches s.running b.caches in
      let (caches, ids, many) =
        with_caches-keeps s.running b.caches (size ∙ length-caches_of s.running) in
      let s1 : Engine V = record s { prefix = record s.prefix { pool = b.pool }; running = qs } in
      let ps = sampled net sample qs (heads net rows) in
      let all : firsts ps ≡ qs = firsts-sampled qs (heads net rows) (
        length-heads rows
        ∙ length-alone net s.prefix.num_layers s.prefix.pool toks cs sizes
        ∙ length-caches_of s.running
        ∙ sym many) in
      let held : Valid (held_by qs) s1.prefix = record {
        holds =
            Holds-same (tables b.caches ++ blocks_of s.prefix.entries)
              (blocks_of s.prefix.entries ++ held_by qs)
              (λ x. omega (
                arith,
                ap (λ d. count x (tables d)) caches,
                count-append x (tables b.caches) (blocks_of s.prefix.entries),
                count-append x (blocks_of s.prefix.entries) (held_by qs),
              ))
              ready.holds;
        keys = v.valid.keys;
        distinct = v.valid.distinct;
        indexed = v.valid.indexed;
        stamps = v.valid.stamps;
        recent = v.valid.recent;
      } in
      let (done, still, t, loop, f) =
        finish_loop-Finished now ps [] s1 ready.positive
          (subst (AllFit b.block_size) (sym (ap caches_of all ∙ caches)) ready.fit)
          (subst (λ x. Valid (held_by x) s1.prefix) (sym all) held) in
      let whole = λ (r : Result (List (ℕ × H)) × Batch V).
        (after_pass net sample now r.0 (record s {
          prefix = record s.prefix { pool = r.1.pool };
          running = with_caches s.running r.1.caches;
        })) in
      (
        done,
        record t { running = still },
        ap whole run
            ∙ bind_run (finish_loop now ps) (λ out. keep_running out) s1 t (done, still) loop,
        record {
          served = record { positive = f.positive; fit = f.fit; valid = f.valid };
          newly = f.newly;
          everyone = λ x. omega (
            arith,
            f.everyone x,
            ap (λ d. count x (ids_of d)) all,
            ap (count x) ids,
            ap (λ d. count x (request_ids d)) f.same_waiting,
            ap (λ d. count x (request_ids d)) f.newly,
            request_ids-append x s.newly_finished done,
          );
        },
      )

  -- On an engine whose blocks are held by its running sequences, at least one, and its prefix cache,
  -- the decode part of `step` never raises; each request is afterwards as often in the engine as
  -- before, waiting, running or ended; those that ended are returned and reported; and the blocks
  -- are held by the sequences that are left and the prefix cache. With too few free blocks for the
  -- batch nothing ends, and the last sequence goes back to the head of the queue without its output.
  pub decode_step-Decoded :
      (now : ℕ) (s : Engine V)
      → Served s
      → 0 < length s.running
      → (done : List Request) × (t : Engine V) × (decode_step net sample now s ≡ (ok done, t))
        × Decoded s done t
        × (length s.prefix.alloc.free < batch_need s → (done ≡ []) × Preempted s t)
  decode_step-Decoded now s v some_run =
      elim (Bool-cases (ltb (length s.prefix.alloc.free) (batch_need s))) [
        | inl few ↦
            let (t, run, p) = decode_step_short now s v some_run (ltb→lt _ _ few) in
            ([], t, run, Preempted-Decoded p, λ h. (refl, p))
        | inr enough ↦
            let (done, t, run, d) = decode_step_enough now s v (ltb→ge _ _ enough) in
            (done, t, run, d, λ h. absurd (omega (arith, ltb→ge _ _ enough)))
      ]
