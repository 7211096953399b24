-- ===== src/Admit/Bound.antt =====
-- What `_admit` of engine/scheduler.py keeps: the size of the batch, and the number of requests.
use nanoserve.Prelude.{
  Bool, Bool-cases, List, Option, [], ap, arith, false, if_false, if_true, inl, inr, length,
  length-append, ltb, ltb→lt, max, none, refl, some, subst, sym, true, ℕ, ◌&&◌, ◌++◌, ◌+◌, ◌<◌,
  ◌==◌, ◌∙◌, ◌∷◌, ◌≡◌, ◌≤◌,
}
use nanoserve.Exec.{Result, ok, err, out_of_blocks, Exec, proceed}
use nanoserve.Paged.{Cache, start_sequence}
use nanoserve.Allocator.{num_free}
use nanoserve.Prefill.{prefill}
use nanoserve.Generate.{pick_last}
use nanoserve.Model.{Network}
use nanoserve.Request.{Request, rejected, finish}
use nanoserve.Engine.{Sequence, Engine, Config, accept_token, free_cache, record_finished, retire}
use nanoserve.Scheduler.{emit}
use nanoserve.Admit.{
  Entered, joins, ends, Lists, Loop, enter, make_room, to_end, welcome, begin, seated, take_off,
  reject_or_take, if_room, round, admit_loop, admit_waiting, blocks_for,
}

module _ {V : Type 0} where
  record Same (s t : Engine V) : Type 0 where
    pub running : t.running ≡ s.running
    pub waiting : t.waiting ≡ s.waiting
    pub config : t.config ≡ s.config

  Same-refl : (s : Engine V) → Same s s
  Same-refl s = record { running = refl; waiting = refl; config = refl }

  Same-trans : {s t u : Engine V} → Same s t → Same t u → Same s u
  Same-trans a b = record {
    running = b.running ∙ a.running;
    waiting = b.waiting ∙ a.waiting;
    config = b.config ∙ a.config;
  }

  proceed-Same :
      {A B : Type 0} (r : Result A) (f : A → Exec (Engine V) B) (s t : Engine V)
      → Same s t
      → ((a : A) → Same s (f a t).1)
      → Same s (proceed r f t).1
  proceed-Same (ok a) f s t k h = h a
  proceed-Same (err e) f s t k h = k

  finished-Same : (r : Request) (s : Engine V) → Same s (record_finished r s)
  unfolding record_finished
  finished-Same r s = record { running = refl; waiting = refl; config = refl }

  free_cache-Same : (c : Cache) (s : Engine V) → Same s (free_cache c s).1
  unfolding free_cache
  free_cache-Same c s = record { running = refl; waiting = refl; config = refl }

  retire-Same : (now : ℕ) (q : Sequence) (s : Engine V) → Same s (retire now q s).1
  unfolding retire
  retire-Same now q s =
      let (r, t) = free_cache q.cache s in
      let k = free_cache-Same q.cache s in
      proceed-Same r _ s t k (λ _. Same-trans k (finished-Same _ t))

  emit-Same : (q q' : Sequence) (token : ℕ) (s : Engine V) → Same s (emit q q' token s)
  unfolding emit
  emit-Same q q' token s =
      elim (Bool-cases
        (ltb (length q.request.output_token_ids) (length q'.request.output_token_ids))) [
          | inl h ↦
              subst (Same s)
                (sym (
                  if_true
                    (ltb (length q.request.output_token_ids) (length q'.request.output_token_ids)) _
                    _ h))
                (record { running = refl; waiting = refl; config = refl })
          | inr h ↦
              subst (Same s)
                (sym (
                  if_false
                    (ltb (length q.request.output_token_ids) (length q'.request.output_token_ids)) _
                    _ h))
                (Same-refl s)
        ]

  make_room-Same : (wanted : ℕ) (s : Engine V) → Same s (make_room wanted s).1
  unfolding make_room num_free
  make_room-Same wanted s = elim (Bool-cases (ltb (length s.prefix.alloc.free) wanted)) [
    | inl h ↦
        subst (λ (x : Result Bool × Engine V). Same s x.1)
          (sym (if_true (ltb (length s.prefix.alloc.free) wanted) _ _ h))
          (record { running = refl; waiting = refl; config = refl })
    | inr h ↦
        subst (λ (x : Result Bool × Engine V). Same s x.1)
          (sym (if_false (ltb (length s.prefix.alloc.free) wanted) _ _ h)) (Same-refl s)
  ]

  -- What a return of the loop keeps, for `most` sequences in a batch and `total` requests in all.
  abbrev pub Kept : ℕ → ℕ → Result Lists → Engine V → Type 0
  Kept most total (ok (admitted, done)) t =
      (length t.running + length admitted ≤ most)
      × (length t.waiting + length admitted + length done ≡ total)
  Kept most total (err e) t = Unit {0}

  abbrev Out : ℕ → ℕ → List Sequence → Result Lists × Engine V → Type 0
  Out most total run (r, t) = (t.running ≡ run) × Kept most total r t

  proceed-Out :
      {A : Type 0} (most total : ℕ) (r : Result A) (f : A → Exec (Engine V) Lists) (s t : Engine V)
      → Same s t
      → ((a : A) → Out most total s.running (f a t))
      → Out most total s.running (proceed r f t)
  proceed-Out most total (ok a) f s t k h = h a
  proceed-Out most total (err e) f s t k h = (k.running, tt)

module _ {H V L : Type 0} (net : Network H V L) (hash : ℕ → List ℕ → ℕ) (sample : Request → L → ℕ)
    (now : ℕ) where
  welcome-Same :
      (r : Request) (logits : Result (List L)) (cache : Cache) (s : Engine V)
      → Same s (welcome net hash sample now r logits cache s).1
  unfolding welcome
  welcome-Same r (ok logits) cache s =
      let token = pick_last (sample r) logits in
      let q : Sequence = record {
        request = r;
        cache = cache;
        next_token = token;
        finished = false;
        finish_reason = none;
      } in
      let q' = accept_token s.config.eos_token_id token now q in
      let s' = emit q q' token s in
      let said = emit-Same q q' token s in
      elim (Bool-cases q'.finished) [
        | inl over ↦
            let (x, t) = retire now q' s' in
            let k = Same-trans said (retire-Same now q' s') in
            subst (λ (x : Result Entered × Engine V). Same s x.1)
              (sym (if_true q'.finished _ _ over)) (proceed-Same x to_end s t k (λ _. k))
        | inr on ↦
            subst (λ (x : Result Entered × Engine V). Same s x.1)
              (sym (if_false q'.finished _ _ on)) said
      ]
  welcome-Same r (err out_of_blocks) cache s =
      let (x, t) = free_cache cache s in
      let k = free_cache-Same cache s in
      proceed-Same x _ s t k (λ _. Same-trans k (finished-Same _ t))
  welcome-Same r (err _) cache s = Same-refl s

  begin-Same :
      (r : Request) (cache : Cache) (s : Engine V) → Same s (begin net hash sample now r cache s).1
  unfolding begin
  begin-Same r cache s =
      let f =
        (prefill net hash r.prompt_token_ids (record { prefix = s.prefix; cache = cache })).1 in
      let t : Engine V = record s { prefix = f.prefix } in
      let from : Same s t = record { running = refl; waiting = refl; config = refl } in
      Same-trans from (
        welcome-Same r
          (prefill net hash r.prompt_token_ids (record { prefix = s.prefix; cache = cache })).0
          f.cache t)

  -- The rest of the loop, with `n` requests still in the queue.
  Rest : ℕ → ℕ → Loop V → Type 0
  Rest most n rest =
      (a : List Sequence) (d : List Request) (s : Engine V)
      → s.config.max_batch_size ≡ most
      → length s.running + length a ≤ most
      → length s.waiting ≡ n
      → Out most (n + length a + length d) s.running (rest a d s)

  enter-Out :
      (most n : ℕ) (rest : Loop V) (a : List Sequence) (d : List Request) (x : Entered)
      (s : Engine V)
      → Rest most n rest
      → s.config.max_batch_size ≡ most
      → length s.running + length a < most
      → length s.waiting ≡ n
      → Out most (n + 1 + length a + length d) s.running (enter rest a d x s)
  unfolding Rest
  enter-Out most n rest a d (joins q) s go c room w =
      subst (λ m. Out most m s.running (rest (a ++ q ∷ []) d s))
        (omega (arith, length-append a (q ∷ [])))
        (go (a ++ q ∷ []) d s c (omega (arith, room, length-append a (q ∷ []))) w)
  enter-Out most n rest a d (ends r) s go c room w =
      subst (λ m. Out most m s.running (rest a (d ++ r ∷ []) s))
        (omega (arith, length-append d (r ∷ []))) (go a (d ++ r ∷ []) s c (omega (arith, room)) w)

  seated-Out :
      (most : ℕ) (rest : Loop V) (r : Request) (others : List Request) (a : List Sequence)
      (d : List Request) (o : Option Cache) (s : Engine V)
      → Rest most (length others) rest
      → s.config.max_batch_size ≡ most
      → length s.running + length a < most
      → Out most
          (length others + 1 + length a + length d)
          s.running
          (seated net hash sample now rest r others a d o s)
  unfolding seated
  seated-Out most rest r others a d none s go c room = (refl, (omega (arith, room), omega arith))
  seated-Out most rest r others a d (some cache) s go c room =
      let s' : Engine V = record s { waiting = others } in
      let (x, t) = begin net hash sample now r cache s' in
      let k = begin-Same r cache s' in
      proceed-Out most (length others + 1 + length a + length d) x (enter rest a d) s' t k (λ e.
        subst (λ run. Out most (length others + 1 + length a + length d) run (enter rest a d e t))
          k.running
          (enter-Out most (length others) rest a d e t go
            (ap (λ (x : Config). x.max_batch_size) k.config ∙ c)
            (omega (arith, room, ap length k.running)) (ap length k.waiting)))

  reject_or_take-Out :
      (most : ℕ) (rest : Loop V) (wanted : ℕ) (r : Request) (others : List Request)
      (a : List Sequence) (d : List Request) (s : Engine V)
      → Rest most (length others) rest
      → s.config.max_batch_size ≡ most
      → length s.running + length a < most
      → Out most
          (length others + 1 + length a + length d)
          s.running
          (reject_or_take net hash sample now rest wanted r others a d s)
  unfolding reject_or_take take_off record_finished
  reject_or_take-Out most rest wanted r others a d s go c room =
      let hopeless =
        (length s.running == 0) && ((length a == 0) && ltb s.prefix.alloc.num_blocks wanted) in
      let total = length others + 1 + length a + length d in
      elim (Bool-cases hopeless) [
        | inl h ↦ subst (Out most total s.running) (sym (if_true hopeless _ _ h)) (
            enter-Out most (length others) rest a d (ends (finish rejected now r))
              (record_finished (finish rejected now r) (record s { waiting = others })) go c room
              refl)
        | inr h ↦ subst (Out most total s.running) (sym (if_false hopeless _ _ h)) (
            seated-Out most rest (record r { scheduled_time = some now }) others a d
              (start_sequence s.prefix.pool) s go c room)
      ]

  if_room-Out :
      (most : ℕ) (rest : Loop V) (wanted : ℕ) (r : Request) (others : List Request)
      (a : List Sequence) (d : List Request) (b : Bool) (s : Engine V)
      → Rest most (length others) rest
      → s.config.max_batch_size ≡ most
      → length s.running + length a < most
      → length s.waiting ≡ length others + 1
      → Out most
          (length others + 1 + length a + length d)
          s.running
          (if_room net hash sample now rest wanted r others a d b s)
  if_room-Out most rest wanted r others a d true s go c room w =
      reject_or_take-Out most rest wanted r others a d s go c room
  if_room-Out most rest wanted r others a d false s go c room w =
      (refl, (omega (arith, room), omega (arith, w)))

  round-Out :
      (most : ℕ) (rest : Loop V) (r : Request) (others : List Request) (a : List Sequence)
      (d : List Request) (s : Engine V)
      → Rest most (length others) rest
      → s.config.max_batch_size ≡ most
      → length s.running + length a ≤ most
      → length s.waiting ≡ length others + 1
      → Out most
          (length others + 1 + length a + length d)
          s.running
          (round net hash sample now rest r others a d s)
  unfolding round
  round-Out most rest r others a d s go c fits w =
      let present = length s.running + length a in
      let total = length others + 1 + length a + length d in
      let wanted =
        blocks_for s.prefix.block_size r + 1 + max s.config.reserve_blocks (present + 1) in
      let (x, t) = make_room wanted s in
      let k = make_room-Same wanted s in
      elim (Bool-cases (ltb present s.config.max_batch_size)) [
        | inr full ↦
            subst (Out most total s.running)
              (sym (if_false (ltb present s.config.max_batch_size) _ _ full))
              (refl, (fits, omega (arith, w)))
        | inl some_room ↦
            let room : present < most = omega (arith, ltb→lt _ _ some_room, c) in
            subst (Out most total s.running)
              (sym (if_true (ltb present s.config.max_batch_size) _ _ some_room))
              (proceed-Out most total x (if_room net hash sample now rest wanted r others a d) s t k
                (λ b.
                  subst
                    (λ run.
                      Out most total run (if_room net hash sample now rest wanted r others a d b t))
                    k.running
                    (if_room-Out most rest wanted r others a d b t go
                      (ap (λ (x : Config). x.max_batch_size) k.config ∙ c)
                      (omega (arith, room, ap length k.running)) (ap length k.waiting ∙ w))))
      ]

  admit_loop-Rest :
      (most : ℕ) (ws : List Request) → Rest most (length ws) (admit_loop net hash sample now ws)
  unfolding Rest admit_loop
  admit_loop-Rest most [] a d s c fits w = (refl, (fits, omega (arith, w)))
  admit_loop-Rest most (r ∷ others) a d s c fits w =
      subst
        (λ m. Out most (m + length a + length d) s.running (
          round net hash sample now (λ a d s'. admit_loop net hash sample now others a d s') r
            others a d s))
        (omega arith)
        (round-Out most (λ a d s'. admit_loop net hash sample now others a d s') r others a d s
          (λ a d s'. admit_loop-Rest most others a d s') c fits (omega (arith, w)))

  -- On an engine whose running sequences fit in the batch, `_admit` leaves them as they are, also
  -- where it raises; where it returns, they fit in the batch with the admitted ones, and the requests
  -- that still wait, are admitted or are done are as many as waited before.
  pub admit_waiting-Kept :
      (s : Engine V)
      → length s.running ≤ s.config.max_batch_size
      → let (r, t) = admit_waiting net hash sample now s in
        (t.running ≡ s.running) × Kept s.config.max_batch_size (length s.waiting) r t
  unfolding admit_waiting Rest
  admit_waiting-Kept s fits =
      subst (λ m. Out s.config.max_batch_size m s.running (admit_waiting net hash sample now s))
        (omega arith)
        (admit_loop-Rest s.config.max_batch_size s.waiting [] [] s refl (omega (arith, fits)) refl)
