-- ===== src/Allocator/Owns.antt =====
-- The operations of `BlockAllocator` (engine/block_manager.py) against the multiset of the
-- references that its clients hold.
use nanoserve.Prelude.{
  Bool-cases, List, Option, [], ap, arith, count, get_elem?_ge, get_elem?_lt, get_or, get_or-set,
  if◌then◌else◌, inl, inr, length, length-set, ltb, none, refl, set, some, subst, suc, sym, ℕ, ◌+◌,
  ◌-◌, ◌<◌, ◌==◌, ◌∷◌, ◌≡◌,
}
use nanoserve.Exec.{ok, err, index_error, incref_on_free, decref_on_free}
use nanoserve.Allocator.{Allocator, allocate, incref, decref}
use nanoserve.Allocator.Invariant.{Holds, count_above-set, held_in_range}

-- What `allocate` returns: nothing if no block is free; else a block that nobody held, which its
-- caller now holds.
pub data Allocates (a : Allocator) (held : List ℕ) : Option ℕ × Allocator → Type 0 where
  exhausted : length a.free ≡ 0 → Allocates a held (none, a)
  fresh :
      (b : ℕ) (a' : Allocator)
      → count b held ≡ 0
      → b < a.num_blocks
      → length a.free ≡ suc (length a'.free)
      → a'.num_blocks ≡ a.num_blocks
      → Holds a' (b ∷ held)
      → Allocates a held (some b, a')

taken :
    (a : Allocator) (b : ℕ) (rest held : List ℕ)
    → a.free ≡ b ∷ rest
    → Holds a held
    → (count b held ≡ 0) × (b < length a.refs) × (get_or a.refs b 0 ≡ 0)
taken a b rest held e s = ground (arith, s.counted b, s.free_zero b, s.sized)

take-Holds :
    (a : Allocator) (b : ℕ) (rest held : List ℕ)
    → a.free ≡ b ∷ rest
    → Holds a held
    → Holds (record a { free = rest; refs = set a.refs b 1 }) (b ∷ held)
take-Holds a b rest held e s =
    let (h0, h1, h2) = taken a b rest held e s in
    record {
      valid = record {
        sized = omega (arith, length-set a.refs b 1, s.sized);
        free_zero = λ c.
            ground (arith, s.free_zero c, s.sized, get_or-set a.refs b c 1 0 h1, e, ap (count c) e);
        balance = ground (arith, s.balance, count_above-set 0 a.refs b 1 h1, ap length e, h2);
      };
      counted = λ c. ground (arith, s.counted c, get_or-set a.refs b c 1 0 h1, h2);
    }

set_refs-Holds :
    {a : Allocator} (b v : ℕ) (held held' : List ℕ)
    → Holds a held
    → b < length a.refs
    → 0 < get_or a.refs b 0
    → 0 < v
    → ((c : ℕ) → count c held' ≡ (if b == c then v else count c held))
    → Holds (record a { refs = set a.refs b v }) held'
set_refs-Holds {a} b v held held' s h p q e = record {
  valid = record {
    sized = omega (arith, length-set a.refs b v, s.sized);
    free_zero = λ c. ground (arith, s.free_zero c, get_or-set a.refs b c v 0 h);
    balance = ground (arith, s.balance, count_above-set 0 a.refs b v h);
  };
  counted = λ c. ground (arith, s.counted c, e c, get_or-set a.refs b c v 0 h);
}

release-Holds :
    {a : Allocator} (b : ℕ) (held : List ℕ)
    → Holds a (b ∷ held)
    → b < length a.refs
    → get_or a.refs b 0 ≡ 1
    → Holds (record a { refs = set a.refs b 0; free = b ∷ a.free }) held
release-Holds {a} b held s h p = record {
  valid = record {
    sized = omega (arith, length-set a.refs b 0, s.sized);
    free_zero =
        λ c. ground (arith, s.free_zero c, s.free_zero b, s.sized, get_or-set a.refs b c 0 0 h);
    balance = ground (arith, s.balance, count_above-set 0 a.refs b 0 h);
  };
  counted = λ c. ground (arith, s.counted c, get_or-set a.refs b c 0 0 h);
}

-- `allocate` fails only when no block is free, changing nothing; otherwise the block it returns
-- was nobody's, comes off the free list, and has one reference.
pub allocate-Allocates :
    (a : Allocator) (held : List ℕ) → Holds a held → Allocates a held (allocate a)
unfolding allocate
allocate-Allocates a held s = by_free a.free refl
  where
    by_free : (fs : List ℕ) → a.free ≡ fs → Allocates a held (allocate a)
    by_free [] e =
        let none_free : allocate a ≡ (none, a) = ground arith in
        subst (Allocates a held) (sym none_free) (exhausted (ap length e))
    by_free (b ∷ rest) e =
        let a' : Allocator = record a { free = rest; refs = set a.refs b 1 } in
        let popped : allocate a ≡ (some b, a') = ground arith in
        let (h0, h1, _) = taken a b rest held e s in
        subst (Allocates a held) (sym popped)
          (fresh b a' h0 (omega (arith, s.sized)) (ap length e) refl (take-Holds a b rest held e s))

-- A holder may take another reference: it is counted, and the free list stays.
pub incref-Holds :
    {a : Allocator} (b : ℕ) (held : List ℕ)
    → Holds a held
    → 0 < count b held
    → (a' : Allocator) × (incref b a ≡ (ok tt, a'))
      × Holds a' (b ∷ held)
      × (a'.free ≡ a.free)
      × (a'.num_blocks ≡ a.num_blocks)
unfolding incref
incref-Holds {a} b held s p =
    let h : b < length a.refs = held_in_range b s p in
    let r = get_or a.refs b 0 in
    (
      record a { refs = set a.refs b (r + 1) },
      rw (get_elem?_lt a.refs b 0 h) (ground (arith, s.counted b)),
      set_refs-Holds b (r + 1) held (b ∷ held) s h (omega (arith, s.counted b)) (omega arith)
          (λ c. ground (arith, s.counted b)),
      refl,
      refl,
    )

-- A holder gives its reference back. The block becomes free exactly if it was the last one.
pub decref-Holds :
    {a : Allocator} (b : ℕ) (held : List ℕ)
    → Holds a (b ∷ held)
    → (a' : Allocator) × (decref b a ≡ (ok (count b held == 0), a'))
      × Holds a' held
      × (length a'.free ≡ length a.free + (if count b held == 0 then 1 else 0))
      × (a'.num_blocks ≡ a.num_blocks)
unfolding decref
decref-Holds {a} b held s = elim (Bool-cases (count b held == 0)) [
  | inl last ↦
      let one : get_or a.refs b 0 ≡ 1 = ground (arith, s.counted b) in
      (
        record a { refs = set a.refs b 0; free = b ∷ a.free },
        rw (get_elem?_lt a.refs b 0 h, one, last) refl,
        release-Holds b held s h one,
        rw last (omega arith),
        refl,
      )
  | inr shared ↦
      let r = get_or a.refs b 0 in
      (
        record a { refs = set a.refs b (r - 1) },
        rw (get_elem?_lt a.refs b 0 h) (ground (arith, s.counted b)),
        set_refs-Holds b (r - 1) (b ∷ held) held s h (ground (arith, s.counted b))
            (ground (arith, s.counted b)) (λ c. ground (arith, s.counted b)),
        rw shared (omega arith),
        refl,
      )
]
  where
    h : b < length a.refs
    h = held_in_range b s (ground arith)

-- A block that nobody holds, or that is not in the pool, cannot be shared or given back: the call
-- raises and changes nothing.
pub unheld_raises :
    {a : Allocator} (b : ℕ) (held : List ℕ)
    → Holds a held
    → count b held ≡ 0
    → (incref b a ≡ (err (if ltb b a.num_blocks then incref_on_free else index_error), a))
      × (decref b a ≡ (err (if ltb b a.num_blocks then decref_on_free else index_error), a))
unfolding incref decref
unheld_raises {a} b held s p = elim (Bool-cases (ltb b a.num_blocks)) [
  | inl t ↦
      rw (t, get_elem?_lt a.refs b 0 (ground (arith, s.sized)))
        (ground (arith, s.counted b), ground (arith, s.counted b))
  | inr f ↦ rw (f, get_elem?_ge a.refs b (ground (arith, s.sized))) (refl, refl)
]
