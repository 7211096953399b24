-- ===== src/Paged/Write.antt =====
-- The scatter and gather of `update` (engine/block_manager.py): what attention reads is the tokens
-- so far and then the new rows, and no other sequence sees the write.
use nanoserve.Prelude.{
  ==→eq, ==→ne, Bool-cases, Distinct, List, ap, ap₂, arith, count, count-append, drop,
  drop-append_ge, false, if◌then◌else◌, inl, inr, length, length-drop, length-take, map, map-append,
  refl, sym, take, take-append-drop, take_add, true, ℕ, ◌++◌, ◌+◌, ◌-◌, ◌/◌, ◌<◌, ◌==◌, ◌∙◌, ◌≡◌,
  ◌≢◌, ◌≤◌,
}
use nanoserve.Exec.{ok}
use nanoserve.Paged.{Side, Paged, write_layer, write_pass, gather, scatter}
use nanoserve.Paged.Slots.{
  slots_of, slots_of-append, length-slots_of, count-slots_of, count-take-le, count-drop-le,
  map_agree, scatter_other, scatter_same,
}
use nanoserve.Paged.Invariant.{Owned, Private}
use nanoserve.Paged.Update.{InPass}

-- A write behind the first `m` slots is read back behind them.
read_back {ℓ} :
    {V : Type ℓ} (f : ℕ → V) (slots : List ℕ) (m n : ℕ) (rows : List V)
    → Distinct slots
    → m + n ≤ length slots
    → length rows ≡ n
    → map (scatter f (take n (drop m slots)) rows) (take (m + n) slots)
      ≡ map f (take m slots) ++ rows
read_back {V} f slots m n rows d h e =
    ap (map g) (take_add m n slots)
    ∙ map-append g (take m slots) new
    ∙ ap₂ ◌++◌
        (map_agree g f (take m slots) (λ x p.
          scatter_other f new rows x
            (omega (arith, apart x, d x, count-take-le x n (drop m slots)))))
        (scatter_same f new rows
          (λ x. omega (arith, apart x, d x, count-take-le x n (drop m slots)))
          (omega (arith, length-take n (drop m slots), length-drop m slots)))
  where
    new : List ℕ
    new = take n (drop m slots)

    g : ℕ → V
    g = scatter f new rows

    apart : (x : ℕ) → count x slots ≡ count x (take m slots) + count x (drop m slots)
    apart x =
        sym (ap (count x) (take-append-drop m slots)) ∙ count-append x (take m slots) (drop m slots)

module _ {V : Type 0} where
  Distinct-slots : {others : List ℕ} {s : Paged V} → Owned others s → Distinct s.slots
  Distinct-slots {others} {s} o x = omega (
    arith,
    ap (count x) o.linked,
    count-slots_of s.block_size x s.block_table o.positive,
    o.distinct (x / s.block_size),
  )

  -- The slots that a pass writes lie in blocks that are nobody else's.
  written-Private :
      {others : List ℕ} {s : Paged V} (n x : ℕ)
      → Owned others s
      → Private others s.start s
      → 0 < count (x / s.block_size) others
      → count x (take n (drop s.start s.slots)) ≡ 0
  written-Private {others} {s} n x o p h = omega (
    arith,
    count-take-le x n (drop s.start s.slots),
    ap (count x) behind,
    count-drop-le x (s.start - length (slots_of bs p.full)) (slots_of bs p.rest),
    count-slots_of bs x p.rest o.positive,
    none_shared,
  )
    where
      bs : ℕ
      bs = s.block_size

      behind :
          drop s.start s.slots ≡ drop (s.start - length (slots_of bs p.full)) (slots_of bs p.rest)
      behind =
          ap (drop s.start) (o.linked ∙ ap (slots_of bs) p.split ∙ slots_of-append bs p.full p.rest)
          ∙ drop-append_ge s.start (slots_of bs p.full) (slots_of bs p.rest)
              (omega (arith, length-slots_of bs p.full, p.before))

      none_shared : count (x / bs) p.rest ≡ 0
      none_shared = elim (Bool-cases (count (x / bs) p.rest == 0)) [
        | inl e ↦ ==→eq _ _ e
        | inr f ↦
            absurd (omega (arith, ==→ne _ _ f, p.unshared (x / bs) (omega (arith, ==→ne _ _ f))))
      ]

  -- What the write of one layer does; `out` is what attention reads.
  pub record Written (others : List ℕ) (layer n : ℕ) (rows : Side → List V) (s : Paged V)
      (out : Side → List V) (t : Paged V) : Type 0 where
    pub reads :
        (side : Side) → out side ≡ map (s.store side layer) (take s.start s.slots) ++ rows side
    pub gathers : (side : Side) → out side ≡ map (t.store side layer) (take t.num_tokens t.slots)
    pub pass : InPass others n t
    pub same_slots : t.slots ≡ s.slots
    pub same_start : t.start ≡ s.start
    pub same_tokens : t.num_tokens ≡ s.num_tokens
    pub same_size : t.block_size ≡ s.block_size
    pub same_layers : t.num_layers ≡ s.num_layers
    pub same_alloc : t.alloc ≡ s.alloc
    pub foreign :
        (side : Side) (l x : ℕ)
        → 0 < count (x / s.block_size) others
        → t.store side l x ≡ s.store side l x
    pub others_layers : (side : Side) (l : ℕ) → l ≢ layer → t.store side l ≡ s.store side l

  in_table :
      {others : List ℕ} {n : ℕ} {s : Paged V} → InPass others n s → s.start + n ≤ length s.slots
  in_table {others} {n} {s} p = omega (
    arith,
    p.tokens,
    p.tight.enough,
    ap length p.owned.linked,
    length-slots_of s.block_size s.block_table,
  )

  pub write_pass-Written :
      (others : List ℕ) (layer n : ℕ) (rows : Side → List V) (s : Paged V)
      → InPass others n s
      → ((side : Side) → length (rows side) ≡ n)
      → (out : Side → List V) × (t : Paged V) × (write_pass layer n rows s ≡ (ok out, t))
        × Written others layer n rows s out t
  unfolding write_pass gather write_layer
  write_pass-Written others layer n rows s p e =
      let t : Paged V = write_layer layer n rows s in
      (
        (λ side. gather side layer (s.start + n) t),
        t,
        refl,
        record {
          reads = λ side.
              at_layer side
              ∙ read_back (s.store side layer) s.slots s.start n (rows side)
                  (Distinct-slots p.owned) (in_table p) (e side);
          gathers = λ side. ap (λ m. map (t.store side layer) (take m s.slots)) (sym p.tokens);
          pass = record {
            owned = record {
              positive = p.owned.positive;
              linked = p.owned.linked;
              distinct = p.owned.distinct;
              holds = p.owned.holds;
            };
            tight = record { enough = p.tight.enough; snug = p.tight.snug };
            private = record {
              full = p.private.full;
              rest = p.private.rest;
              split = p.private.split;
              before = p.private.before;
              unshared = p.private.unshared;
            };
            tokens = p.tokens;
          };
          same_slots = refl;
          same_start = refl;
          same_tokens = refl;
          same_size = refl;
          same_layers = refl;
          same_alloc = refl;
          foreign = λ side l x h. elim (Bool-cases (l == layer)) [
            | inl here ↦ rw here (
                scatter_other (s.store side l) new (rows side) x
                  (written-Private n x p.owned p.private h))
            | inr there ↦ rw there refl
          ];
          others_layers = λ side l ne. rw (not_eq l layer ne) refl;
        },
      )
    where
      new : List ℕ
      new = take n (drop s.start s.slots)

      eq_self : (a : ℕ) → (a == a) ≡ true
      eq_self a = ground arith

      not_eq : (a b : ℕ) → a ≢ b → (a == b) ≡ false
      not_eq a b h = ground arith

      at_layer :
          (side : Side)
          → map
              (if layer == layer
                then scatter (s.store side layer) new (rows side)
                else s.store side layer)
              (take (s.start + n) s.slots)
            ≡ map (scatter (s.store side layer) new (rows side)) (take (s.start + n) s.slots)
      at_layer side = rw (eq_self layer) refl
