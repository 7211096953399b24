-- ===== src/Prefix/Ensure.antt =====
-- `ensure_free` of engine/prefix_cache.py: eviction until the pool has enough free blocks.
use nanoserve.Prelude.{
  ==→eq, Bool, Bool-cases, List, Option, arith, false, if_false, if_true, if◌then◌else◌, inl, inr,
  length, ltb, ltb→ge, ltb→lt, min, refl, some, subst, suc, sym, true, zero, ℕ, ◌+◌, ◌-◌, ◌<◌, ◌==◌,
  ◌∙◌, ◌≡◌, ◌≤◌,
}
use nanoserve.Exec.{ok, bind_run, Exec}
use nanoserve.Prefix.{Prefix, evictable, evict, ensure_loop, ensure_free}
use nanoserve.Prefix.Invariant.{Valid}
use nanoserve.Prefix.Evict.{Evicted, Evicted-none, Evicted-trans, evict-Evicted}

module _ {V : Type 0} where
  -- What the loop reached: `answer` says whether `n` blocks are free, and it gives up only when
  -- nothing more can be evicted.
  pub record Ensured (others : List ℕ) (n : ℕ) (s : Prefix V) (answer : Bool) (t : Prefix V)
      : Type 0 where
    pub dropped : ℕ
    pub evicted : Evicted others dropped s t
    pub enough : answer ≡ true → n ≤ length t.alloc.free
    pub gave_up :
        answer ≡ false → (length t.alloc.free < n) × (length (evictable t.entries t.alloc.refs) ≡ 0)

  Ensured-now :
      {others : List ℕ} {n : ℕ} {s : Prefix V}
      → Valid others s
      → n ≤ length s.alloc.free
      → Ensured others n s true s
  Ensured-now v h = record {
    dropped = 0;
    evicted = Evicted-none v;
    enough = λ e. h;
    gave_up = λ e. absurd (ground arith);
  }

  Ensured-later :
      {others : List ℕ} {n : ℕ} {s t u : Prefix V} {answer : Bool} (k : ℕ)
      → Evicted others k s t
      → Ensured others n t answer u
      → Ensured others n s answer u
  Ensured-later k e f = record {
    dropped = f.dropped + k;
    evicted = Evicted-trans e f.evicted;
    enough = f.enough;
    gave_up = f.gave_up;
  }

  abbrev next_round : (Exec (Prefix V) (Option Bool)) → ℕ → Exec (Prefix V) (Option Bool)
  next_round rest freed s' =
      let more = rest s' in if freed == 0 then (ok (some false), s') else more

  Evicted-step :
      (rest : Exec (Prefix V) (Option Bool)) (n k : ℕ) (others : List ℕ) (s t : Prefix V)
      → Evicted others k s t
      → k ≡ min (n - length s.alloc.free) (length (evictable s.entries s.alloc.refs))
      → length s.alloc.free < n
      → (k ≡ 0 → t ≡ s)
      → (0 < k
          → (u : Prefix V) × (answer : Bool) × (rest t ≡ (ok (some answer), u))
            × Ensured others n t answer u)
      → (u : Prefix V) × (answer : Bool) × (next_round rest k t ≡ (ok (some answer), u))
        × Ensured others n s answer u
  Evicted-step rest n k others s t e size few same more = elim (Bool-cases (k == 0)) [
    | inl none_left ↦
        let k0 = ==→eq k 0 none_left in
        let back = same k0 in
        (
          t,
          false,
          if_true (k == 0) _ _ none_left,
          record {
            dropped = k;
            evicted = e;
            enough = λ x. absurd (ground arith);
            gave_up = λ x.
                subst
                  (λ (w : Prefix V).
                    (length w.alloc.free < n) × (length (evictable w.entries w.alloc.refs) ≡ 0))
                  (sym back) (few, omega (arith, size));
          },
        )
    | inr some_left ↦
        let (u, answer, run, f) = more (ground arith) in
        (u, answer, if_false (k == 0) _ _ some_left ∙ run, Ensured-later k e f)
  ]

  ensure_loop-Ensured :
      (fuel n : ℕ) (others : List ℕ) (s : Prefix V)
      → Valid others s
      → length s.entries < fuel
      → (u : Prefix V) × (answer : Bool) × (ensure_loop fuel n s ≡ (ok (some answer), u))
        × Ensured others n s answer u
  unfolding ensure_loop
  ensure_loop-Ensured zero n others s v h = absurd (omega arith)
  ensure_loop-Ensured (suc fuel) n others s v h = elim (Bool-cases (ltb (length s.alloc.free) n)) [
    | inr enough ↦ (s, true, if_false _ _ _ enough, Ensured-now v (ltb→ge _ _ enough))
    | inl few ↦
        let k = min (n - length s.alloc.free) (length (evictable s.entries s.alloc.refs)) in
        let (t, run, e, same) = evict-Evicted (n - length s.alloc.free) others s v in
        let (u, answer, more, f) =
          Evicted-step (ensure_loop fuel n) n k others s t e refl (ltb→lt _ _ few)
            (λ z. same z (omega (arith, ltb→lt _ _ few)))
            (λ p. ensure_loop-Ensured fuel n others t e.valid (omega (arith, e.fewer))) in
        (
          u,
          answer,
          if_true _ _ _ few
              ∙ bind_run (evict (n - length s.alloc.free)) (next_round (ensure_loop fuel n)) s t k
                  run
              ∙ more,
          f,
        )
  ]

  -- On a valid cache `ensure_free n` ends and never raises. It answers yes with `n` free blocks, and
  -- no only when fewer are free and no entry could be evicted any more; either way the cache is
  -- valid, and every block of a running sequence is still cached if it was, and held.
  pub ensure_free-Ensured :
      (n : ℕ) (others : List ℕ) (s : Prefix V)
      → Valid others s
      → (t : Prefix V) × (answer : Bool) × (ensure_free n s ≡ (ok (some answer), t))
        × Ensured others n s answer t
  unfolding ensure_free
  ensure_free-Ensured n others s v =
      ensure_loop-Ensured (length s.entries + 1) n others s v (omega arith)
