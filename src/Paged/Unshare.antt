-- ===== src/Paged/Unshare.antt =====
-- `_unshare_tail` of engine/block_manager.py: copy-on-write of the block about to be written into.
use nanoserve.Prelude.{
  ==→eq, Bool, Bool-cases, List, Option, [], ap, append-nil, arith, count, count-append,
  get_elem?_lt, get_last?, get_last?-none, get_or, if◌then◌else◌, inl, inr, leb, leb→gt, leb→le,
  length, length-append, length-set_last, ltb, lt→ltb, map, map-take, none, range_from, refl,
  set_last, set_last-snoc, snoc_of_last, some, sym, take, ℕ, ◌%◌, ◌*◌, ◌++◌, ◌+◌, ◌-◌, ◌/◌, ◌<◌,
  ◌==◌, ◌∙◌, ◌∷◌, ◌≡◌, ◌≤◌,
}
use native.Mathlib.Nat.{div-add-mod}
use nanoserve.Exec.{Result, ok, err, out_of_blocks}
use nanoserve.Allocator.{Allocator, allocate, decref}
use nanoserve.Allocator.Invariant.{Holds, Holds-same, held_in_range}
use nanoserve.Allocator.Owns.{Allocates, exhausted, fresh, allocate-Allocates, decref-Holds}
use nanoserve.Paged.{
  Paged, copy_block, replace_tail, unshare_counted, unshare_block, unshare_tail, unshare_partial,
}
use nanoserve.Paged.Slots.{mul_mono, slots_of, relinked, map-relinked, copy_slice_other}
use nanoserve.Paged.Invariant.{Owned, Tight, Private, Preserves, Preserves-refl}

-- How many blocks a copy of the tail takes.
unfoldable pub copies : Option ℕ → List ℕ → ℕ
copies none refs = 0
copies (some tail) refs = if leb (get_or refs tail 0) 1 then 0 else 1

decref_tail :
    (others ys : List ℕ) (tail new : ℕ) (a : Allocator) (table : List ℕ)
    → table ≡ ys ++ tail ∷ []
    → Holds a (new ∷ table ++ others)
    → 1 < count tail (table ++ others)
    → (a' : Allocator) × (r : Bool) × (decref tail a ≡ (ok r, a'))
      × Holds a' (new ∷ ys ++ others)
      × (length a'.free ≡ length a.free)
      × (a'.num_blocks ≡ a.num_blocks)
decref_tail others ys tail new a table e h many =
    let held = new ∷ ys ++ others in
    let (a', run, h', free, same) = decref-Holds tail held (
      Holds-same (new ∷ table ++ others) (tail ∷ held)
        (λ c. omega (
          arith,
          ap (count c) e,
          count-append c table others,
          count-append c ys (tail ∷ []),
          count-append c ys others,
        ))
        h) in
    (
      a',
      count tail held == 0,
      run,
      h',
      ground (
        arith,
        free,
        ap (count tail) e,
        count-append tail table others,
        count-append tail ys (tail ∷ []),
        count-append tail ys others,
      ),
      same,
    )

multiple_le : (bs q n x : ℕ) → bs * q ≡ x → n * bs < x + bs → n * bs ≤ x
multiple_le bs q n x e h = elim (Bool-cases (leb n q)) [
  | inl t ↦ omega (arith, e, mul_mono n q bs (leb→le _ _ t))
  | inr f ↦ absurd (omega (arith, e, mul_mono (q + 1) n bs (omega (arith, leb→gt _ _ f))))
]

module _ {V : Type 0} where
  -- How many blocks the first step of a pass takes.
  unfoldable pub copies_needed : Paged V → ℕ
  unfolding copies
  copies_needed s =
      if s.num_tokens % s.block_size == 0 then 0 else copies (get_last? s.block_table) s.alloc.refs

  -- The state after the copy of the tail, with the allocator as `decref` left it.
  copied : ℕ → ℕ → Allocator → Paged V → Paged V
  unfolding copy_block
  copied tail new a s = record {
    pool = record (copy_block tail new s.pool) { alloc = a };
    cache = record s.cache {
      block_table = set_last s.block_table new;
      slots =
          take (length s.slots - s.block_size) s.slots
          ++ range_from (new * s.block_size) s.block_size;
    };
  }

  Owned-copied :
      {others : List ℕ} {s : Paged V} (ys : List ℕ) (tail new : ℕ) (a : Allocator)
      → s.block_table ≡ ys ++ tail ∷ []
      → Owned others s
      → count new (s.block_table ++ others) ≡ 0
      → Holds a (new ∷ ys ++ others)
      → Owned others (copied tail new a s)
  unfolding copied
  Owned-copied {others} {s} ys tail new a e o absent h = record {
    positive = o.positive;
    linked =
        relinked s.block_size ys tail new s.slots (o.linked ∙ ap (slots_of s.block_size) e)
        ∙ ap (slots_of s.block_size) (sym table);
    distinct = λ c. ground (
      arith,
      ap (count c) table,
      o.distinct c,
      ap (count c) e,
      ap (count new) e,
      count-append c ys (tail ∷ []),
      count-append c ys (new ∷ []),
      count-append new ys (tail ∷ []),
      count-append new s.block_table others,
    );
    holds =
        Holds-same (new ∷ ys ++ others) (set_last s.block_table new ++ others)
          (λ c. omega (
            arith,
            ap (λ t. count c (t ++ others)) table,
            count-append c (ys ++ new ∷ []) others,
            count-append c ys (new ∷ []),
            count-append c ys others,
          ))
          h;
  }
    where
      table : set_last s.block_table new ≡ ys ++ new ∷ []
      table = ap (λ t. set_last t new) e ∙ set_last-snoc ys tail new

  Preserves-copied :
      {others : List ℕ} {s : Paged V} (m : ℕ) (ys : List ℕ) (tail new : ℕ) (a : Allocator)
      → s.block_table ≡ ys ++ tail ∷ []
      → Owned others s
      → count new (s.block_table ++ others) ≡ 0
      → a.num_blocks ≡ s.alloc.num_blocks
      → Preserves others m s (copied tail new a s)
  unfolding copied
  Preserves-copied {others} {s} m ys tail new a e o absent same = record {
    same_size = refl;
    same_layers = refl;
    same_blocks = same;
    same_tokens = refl;
    same_start = refl;
    no_gain = λ c p. ground (
      arith,
      ap (count c) e,
      ap (λ t. count c (set_last t new)) e,
      ap (count c) (set_last-snoc ys tail new),
      count-append c ys (tail ∷ []),
      count-append c ys (new ∷ []),
      count-append new s.block_table others,
    );
    foreign = λ side l x h. elim (Bool-cases (ltb l s.num_layers)) [
      | inl t ↦ rw t (
          copy_slice_other s.block_size (tail * s.block_size) new x (s.store side l) o.positive
            (λ q. absurd (elsewhere x h q)))
      | inr f ↦ rw f refl
    ];
    own = λ side l k. rw (lt→ltb _ _ k) (
        map-take _ m _
        ∙ ap (take m) (
            ap (map _) (relinked s.block_size ys tail new s.slots slots)
            ∙ map-relinked s.block_size ys tail new (s.store side l) o.positive absent_ys
            ∙ ap (map (s.store side l)) (sym slots))
        ∙ sym (map-take (s.store side l) m s.slots));
  }
    where
      slots : s.slots ≡ slots_of s.block_size (ys ++ tail ∷ [])
      slots = o.linked ∙ ap (slots_of s.block_size) e

      absent_ys : count new ys ≡ 0
      absent_ys = omega (
        arith,
        ap (count new) e,
        count-append new ys (tail ∷ []),
        count-append new s.block_table others,
      )

      elsewhere : (x : ℕ) → 0 < count (x / s.block_size) others → new ≡ x / s.block_size → ⊥
      elsewhere x h q =
          omega (arith, count-append new s.block_table others, ap (λ b. count b others) q)

  -- What the step does, by the number of blocks that it needs.
  pub record Unshared (others : List ℕ) (needed : ℕ) (s : Paged V) (r : Result (Unit {0}) × Paged V)
      : Type 0 where
    pub owned : Owned others r.1
    pub keeps : Preserves others s.num_tokens s r.1
    pub same_length : length r.1.block_table ≡ length s.block_table
    pub done :
        needed ≤ length s.alloc.free
        → (r.0 ≡ ok tt)
          × Private others s.num_tokens r.1
          × (length s.alloc.free ≡ length r.1.alloc.free + needed)
    pub short :
        length s.alloc.free < needed → (r.0 ≡ err out_of_blocks) × (length r.1.alloc.free ≡ 0)

  Unshared-same :
      {others : List ℕ} {s : Paged V}
      → Owned others s
      → Private others s.num_tokens s
      → Unshared others 0 s (ok tt, s)
  Unshared-same {others} {s} o p = record {
    owned = o;
    keeps = Preserves-refl others s.num_tokens s;
    same_length = refl;
    done = λ h. (refl, p, omega arith);
    short = λ h. absurd (omega arith);
  }

  Private-copied :
      (others : List ℕ) (s : Paged V) (ys : List ℕ) (tail new : ℕ) (a : Allocator)
      → s.block_table ≡ ys ++ tail ∷ []
      → count new (s.block_table ++ others) ≡ 0
      → length ys * s.block_size ≤ s.num_tokens
      → Private others s.num_tokens (copied tail new a s)
  unfolding copied
  Private-copied others s ys tail new a e absent h = record {
    full = ys;
    rest = new ∷ [];
    split = ap (λ t. set_last t new) e ∙ set_last-snoc ys tail new;
    before = h;
    unshared = λ b k. ground (arith, count-append new s.block_table others);
  }

  replace_tail-Unshared :
      (others : List ℕ) (s : Paged V) (ys : List ℕ) (tail : ℕ)
      → s.block_table ≡ ys ++ tail ∷ []
      → Owned others s
      → 1 < count tail (s.block_table ++ others)
      → length ys * s.block_size ≤ s.num_tokens
      → (r : Option ℕ × Allocator) → Allocates s.alloc (s.block_table ++ others) r
      → Unshared others 1 s (replace_tail tail r s)
  unfolding replace_tail copied
  replace_tail-Unshared others s ys tail e o many h _ (exhausted none_free) = record {
    owned = o;
    keeps = Preserves-refl others s.num_tokens s;
    same_length = refl;
    done = λ k. absurd (omega arith);
    short = λ k. (refl, none_free);
  }
  replace_tail-Unshared others s ys tail e o many h _ (fresh new a absent _ less same held) =
      let (a', _, run, held', free, same') =
        decref_tail others ys tail new a s.block_table e held many in
      rw run (
        let t : Paged V = copied tail new a' s in
        let u : Unshared others 1 s (ok tt, t) = record {
          owned = Owned-copied ys tail new a' e o absent held';
          keeps = Preserves-copied s.num_tokens ys tail new a' e o absent (same' ∙ same);
          same_length = length-set_last s.block_table new;
          done = λ k. (refl, Private-copied others s ys tail new a' e absent h, omega arith);
          short = λ k. absurd (omega arith);
        } in
        u)

  counted_cases :
      (others : List ℕ) (s : Paged V) (ys : List ℕ) (tail r : ℕ)
      → s.block_table ≡ ys ++ tail ∷ []
      → Owned others s
      → r ≡ count tail (s.block_table ++ others)
      → length ys * s.block_size ≤ s.num_tokens
      → Unshared others (if leb r 1 then 0 else 1) s (unshare_counted tail (some r) s)
  unfolding unshare_counted
  counted_cases others s ys tail r e o q h = elim (Bool-cases (leb r 1)) [
    | inl alone ↦ rw alone (
        Unshared-same o (record {
          full = ys;
          rest = tail ∷ [];
          split = e;
          before = h;
          unshared = λ b k. ground (
            arith,
            count-append tail s.block_table others,
            ap (count tail) e,
            count-append tail ys (tail ∷ []),
          );
        }))
    | inr shared ↦ rw shared (
        replace_tail-Unshared others s ys tail e o (ground arith) h (allocate s.alloc)
          (allocate-Allocates s.alloc _ o.holds))
  ]

  last_before :
      (s : Paged V) (ys : List ℕ) (tail : ℕ)
      → s.block_table ≡ ys ++ tail ∷ []
      → Tight s
      → length ys * s.block_size ≤ s.num_tokens
  last_before s ys tail e t =
      let n : length s.block_table ≡ length ys + 1 = ap length e ∙ length-append ys (tail ∷ []) in
      grind (arith, t.snug, ap (λ k. k * s.block_size) n)

  unshare_block-Unshared :
      (others : List ℕ) (s : Paged V) (last : Option ℕ)
      → get_last? s.block_table ≡ last
      → Owned others s
      → Tight s
      → Unshared others (copies last s.alloc.refs) s (unshare_block last s)
  unfolding unshare_block copies
  unshare_block-Unshared others s none e o t = Unshared-same o (record {
    full = [];
    rest = [];
    split = get_last?-none s.block_table e;
    before = omega arith;
    unshared = λ b k. absurd (omega arith);
  })
  unshare_block-Unshared others s (some tail) e o t =
      let (ys, split) = snoc_of_last s.block_table tail e in
      let held : 0 < count tail (s.block_table ++ others) = ground (
        arith,
        count-append tail s.block_table others,
        ap (count tail) split,
        count-append tail ys (tail ∷ []),
      ) in
      rw (get_elem?_lt s.alloc.refs tail 0 (held_in_range tail o.holds held)) (
        counted_cases others s ys tail (get_or s.alloc.refs tail 0) split o (o.holds.counted tail)
          (last_before s ys tail split t))

  full_before :
      (s : Paged V)
      → Tight s
      → s.num_tokens % s.block_size ≡ 0
      → length s.block_table * s.block_size ≤ s.num_tokens
  full_before s t e =
      multiple_le s.block_size (s.num_tokens / s.block_size) (length s.block_table) s.num_tokens
        (omega (arith, div-add-mod s.num_tokens s.block_size)) t.snug

  -- The copy-on-write step of a pass: a partly filled block that others read is copied, and from
  -- there on the table is the sequence's alone; with no block for the copy it raises.
  pub unshare_partial-Unshared :
      (others : List ℕ) (s : Paged V)
      → Owned others s
      → Tight s
      → Unshared others (copies_needed s) s (unshare_partial s)
  unfolding unshare_partial unshare_tail copies_needed
  unshare_partial-Unshared others s o t = elim (Bool-cases (s.num_tokens % s.block_size == 0)) [
    | inl full ↦ rw full (
        Unshared-same o (record {
          full = s.block_table;
          rest = [];
          split = sym (append-nil s.block_table);
          before = full_before s t (==→eq _ _ full);
          unshared = λ b k. absurd (omega arith);
        }))
    | inr part ↦ rw part (unshare_block-Unshared others s (get_last? s.block_table) refl o t)
  ]
