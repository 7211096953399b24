-- ===== src/Paged/Forward.antt =====
-- A forward pass over the layers of model/transformer.py, through the paged cache of
-- engine/block_manager.py.
use nanoserve.Prelude.{
  ==→eq, ==→ne, Bool-cases, List, [], ap, ap₂, arith, count, false, inl, inr, length, map, refl,
  subst, suc, sym, take, zero, ℕ, ◌++◌, ◌+◌, ◌-◌, ◌/◌, ◌<◌, ◌==◌, ◌∙◌, ◌∷◌, ◌≡◌, ◌≤◌,
}
use nanoserve.Exec.{ok, ◌>>=◌, Exec, bind_run}
use nanoserve.Allocator.{Allocator}
use nanoserve.Paged.{Side, Paged, begin_pass, write_pass, gather, update}
use nanoserve.Paged.Invariant.{Owned, Tight}
use nanoserve.Paged.Update.{InPass, Begun, begin_pass-Begun}
use nanoserve.Paged.Extend.{blocks_needed}
use nanoserve.Paged.Write.{Written, write_pass-Written}

module _ {V : Type 0} where
  -- The calls of `update` in one forward pass: `k` layers from layer `i` on, `n` rows at each, with
  -- what each call returns to attention.
  unfoldable pub forward : ℕ → ℕ → ℕ → (ℕ → Side → List V) → Exec (Paged V) (List (Side → List V))
  forward zero i n rows s = (ok [], s)
  forward (suc k) i n rows s =
      let rest = forward k (i + 1) n rows in
      (update i n (rows i) >>= λ out. rest >>= λ outs s'. (ok (out ∷ outs), s')) s

  -- The layers from `i` on have read the old rows of `s`, and the new ones behind them.
  abbrev pub ReadFrom : ℕ → (ℕ → Side → List V) → Paged V → List (Side → List V) → Type 0
  ReadFrom i rows s [] = Unit {0}
  ReadFrom i rows s (out ∷ outs) =
      ((side : Side) → out side ≡ gather side i s.num_tokens s ++ rows i side)
      × ReadFrom (i + 1) rows s outs

  -- After the layers below `i`: those read the new rows, the others still the old ones.
  pub record Upto (others : List ℕ) (n : ℕ) (rows : ℕ → Side → List V) (i : ℕ) (s t : Paged V)
      : Type 0 where
    pub pass : InPass others n t
    pub start : t.start ≡ s.num_tokens
    pub same_size : t.block_size ≡ s.block_size
    pub same_layers : t.num_layers ≡ s.num_layers
    pub used : length s.alloc.free ≡ length t.alloc.free + blocks_needed n s
    pub foreign :
        (side : Side) (l x : ℕ)
        → 0 < count (x / s.block_size) others
        → t.store side l x ≡ s.store side l x
    pub finished :
        (side : Side) (l : ℕ)
        → l < i
        → map (t.store side l) (take t.num_tokens t.slots)
          ≡ gather side l s.num_tokens s ++ rows l side
    pub pending :
        (side : Side) (l : ℕ)
        → i ≤ l
        → l < s.num_layers
        → map (t.store side l) (take t.start t.slots) ≡ gather side l s.num_tokens s

  pub Upto-begin :
      {others : List ℕ} {n : ℕ} (rows : ℕ → Side → List V) {s t : Paged V}
      → Begun others n s t
      → Upto others n rows 0 s t
  unfolding gather
  Upto-begin rows {s} {t} b = record {
    pass = b.pass;
    start = b.start;
    same_size = b.same_size;
    same_layers = b.same_layers;
    used = b.used;
    foreign = b.foreign;
    finished = λ side l h. absurd (omega arith);
    pending =
        λ side l h k. ap (λ m. map (t.store side l) (take m t.slots)) b.start ∙ b.own side l k;
  }

  pub Upto-write :
      {others : List ℕ} {n : ℕ} {rows : ℕ → Side → List V} {i : ℕ} {s t u : Paged V}
      (out : Side → List V)
      → i < s.num_layers
      → Upto others n rows i s t
      → Written others i n (rows i) t out u
      → Upto others n rows (i + 1) s u
  Upto-write {others} {n} {rows} {i} {s} {t} {u} out h p w = record {
    pass = w.pass;
    start = w.same_start ∙ p.start;
    same_size = w.same_size ∙ p.same_size;
    same_layers = w.same_layers ∙ p.same_layers;
    used = p.used ∙ ap (λ (a : Allocator). length a.free + blocks_needed n s) (sym w.same_alloc);
    foreign = λ side l x k. w.foreign side l x (rw p.same_size k) ∙ p.foreign side l x k;
    finished = λ side l k. elim (Bool-cases (l == i)) [
      | inl same ↦
          subst
            (λ j.
              map (u.store side j) (take u.num_tokens u.slots)
              ≡ gather side j s.num_tokens s ++ rows j side)
            (sym (==→eq _ _ same)) (here side)
      | inr there ↦
          ap₂ map (w.others_layers side l (==→ne _ _ there)) (ap₂ take w.same_tokens w.same_slots)
          ∙ p.finished side l (omega (arith, ==→ne _ _ there))
    ];
    pending = λ side l k b.
        ap₂ map (w.others_layers side l (omega arith)) (ap₂ take w.same_start w.same_slots)
        ∙ p.pending side l (omega arith) b;
  }
    where
      here :
          (side : Side)
          → map (u.store side i) (take u.num_tokens u.slots)
            ≡ gather side i s.num_tokens s ++ rows i side
      here side =
          sym (w.gathers side)
          ∙ w.reads side
          ∙ ap (λ xs. xs ++ rows i side) (p.pending side i (omega arith) h)

  pub update_first :
      (n : ℕ) (rows out : Side → List V) (s b t : Paged V)
      → begin_pass n s ≡ (ok tt, b)
      → write_pass 0 n rows b ≡ (ok out, t)
      → update 0 n rows s ≡ (ok out, t)
  unfolding update
  update_first n rows out s b t e w = rw e w

  pub update_later :
      (i n : ℕ) (rows : Side → List V) (s : Paged V)
      → 0 < i
      → update i n rows s ≡ write_pass i n rows s
  unfolding update
  update_later i n rows s h = let nonzero : (i == 0) ≡ false = ground arith in rw nonzero refl

  forward_step :
      (k i n : ℕ) (rows : ℕ → Side → List V) (out : Side → List V) (outs : List (Side → List V))
      (s t u : Paged V)
      → update i n (rows i) s ≡ (ok out, t)
      → forward k (i + 1) n rows t ≡ (ok outs, u)
      → forward (suc k) i n rows s ≡ (ok (out ∷ outs), u)
  unfolding forward
  forward_step k i n rows out outs s t u e f =
      bind_run (update i n (rows i))
        (λ out. forward k (i + 1) n rows >>= λ outs s'. (ok (out ∷ outs), s')) s t out e
      ∙ bind_run (forward k (i + 1) n rows) (λ outs s'. (ok (out ∷ outs), s')) t u outs f

  -- What `update` returns at the layer that is next.
  here_read :
      {others : List ℕ} {n : ℕ} {rows : ℕ → Side → List V} {i : ℕ} {s t u : Paged V}
      (out : Side → List V)
      → i < s.num_layers
      → Upto others n rows i s t
      → Written others i n (rows i) t out u
      → (side : Side) → out side ≡ gather side i s.num_tokens s ++ rows i side
  here_read {rows} {i} out h p w side =
      w.reads side ∙ ap (λ xs. xs ++ rows i side) (p.pending side i (omega arith) h)

  -- After the first layer's step, the loop over the other layers.
  later_layers :
      {others : List ℕ} {n : ℕ} {rows : ℕ → Side → List V} {s : Paged V} (k i j : ℕ) (t : Paged V)
      → i + k ≡ j
      → 0 < i
      → j ≤ s.num_layers
      → ((l : ℕ) (side : Side) → length (rows l side) ≡ n)
      → Upto others n rows i s t
      → (outs : List (Side → List V)) × (u : Paged V) × (forward k i n rows t ≡ (ok outs, u))
        × (length outs ≡ k)
        × ReadFrom i rows s outs
        × Upto others n rows j s u
  unfolding forward
  later_layers {others} {n} {rows} {s} zero i j t e pos h len p =
      ([], t, refl, refl, tt, subst (λ m. Upto others n rows m s t) (omega arith) p)
  later_layers {others} {n} {rows} {s} (suc k) i j t e pos h len p =
      let (out, t', run, w) = write_pass-Written others i n (rows i) t p.pass (len i) in
      let (outs, u, rest, many, read, q) =
        later_layers k (i + 1) j t' (omega arith) (omega arith) h len
          (Upto-write out (omega arith) p w) in
      (
        out ∷ outs,
        u,
        forward_step k i n rows out outs t t' u (update_later i n (rows i) t pos ∙ run) rest,
        ap suc many,
        (here_read out (omega arith) p w, read),
        q,
      )

  -- A forward pass over `n` new tokens, with enough free blocks, never raises. Every layer gets the
  -- rows of the old tokens and its new rows behind them, in order, and that is what the cache holds
  -- afterwards; the blocks of all the other sequences and of the prefix cache are unchanged; and the
  -- pass took exactly the blocks that it needed.
  pub forward_appends :
      (others : List ℕ) (n : ℕ) (rows : ℕ → Side → List V) (s : Paged V)
      → Owned others s
      → Tight s
      → 0 < s.num_layers
      → ((l : ℕ) (side : Side) → length (rows l side) ≡ n)
      → blocks_needed n s ≤ length s.alloc.free
      → (outs : List (Side → List V)) × (t : Paged V) × (forward s.num_layers 0 n rows s
          ≡ (ok outs, t))
        × (length outs ≡ s.num_layers)
        × ReadFrom 0 rows s outs
        × Owned others t
        × Tight t
        × (t.num_tokens ≡ s.num_tokens + n)
        × ((side : Side) (l : ℕ)
            → l < s.num_layers
            → gather side l t.num_tokens t ≡ gather side l s.num_tokens s ++ rows l side)
        × ((side : Side) (l x : ℕ)
            → 0 < count (x / s.block_size) others
            → t.store side l x ≡ s.store side l x)
        × (length s.alloc.free ≡ length t.alloc.free + blocks_needed n s)
  unfolding gather
  forward_appends others n rows s o tight pos len h =
      let (b, began, begun) = begin_pass-Begun others n s o tight h in
      let (out, t', run, w) = write_pass-Written others 0 n (rows 0) b begun.pass (len 0) in
      let (outs, u, rest, many, read, q) =
        later_layers (s.num_layers - 1) 1 s.num_layers t' (omega arith) (omega arith) (omega arith)
          len (Upto-write out pos (Upto-begin rows begun) w) in
      let layers : s.num_layers ≡ suc (s.num_layers - 1) = omega arith in
      (
        out ∷ outs,
        u,
        ap (λ k. forward k 0 n rows s) layers
            ∙ forward_step (s.num_layers - 1) 0 n rows out outs s t' u
                (update_first n (rows 0) out s b t' began run) rest,
        omega (arith, many),
        (here_read out pos (Upto-begin rows begun) w, read),
        q.pass.owned,
        q.pass.tight,
        omega (arith, q.pass.tokens, q.start),
        q.finished,
        q.foreign,
        q.used,
      )
