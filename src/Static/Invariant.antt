-- ===== src/Static/Invariant.antt =====
-- The slots of engine/kv_cache.py: each is free or live, once.
use nanoserve.Prelude.{
  Bool-cases, List, Option, [], ap, ap₂, arith, count, if_false, if_true, if◌then◌else◌, inl, inr,
  length, length-append, ltb, min, none, refl, some, subst, suc, sym, true, zero, ℕ, ◌++◌, ◌+◌,
  ◌==◌, ◌∙◌, ◌∷◌, ◌≡◌, ◌≤◌,
}
use nanoserve.Dict.{
  get, has, put, pop, keys_of, has-count, count_keys-put, count_keys-pop, put_new, get-put,
}
use nanoserve.Static.{
  Slots, count_down, or_else, new_slots, allocate, object, release, reset, expected_of,
}

count-count_down : (x n : ℕ) → count x (count_down n) ≡ (if ltb x n then 1 else 0)
unfolding count_down
count-count_down x zero = ground arith
count-count_down x (suc n) = ground (arith, count-count_down x n)

expected_of-put :
    (x slot n : ℕ) (d : List (ℕ × ℕ))
    → expected_of x (put slot n d) ≡ (if slot == x then n else expected_of x d)
unfolding expected_of
expected_of-put x slot n d = ground (arith, get-put slot x n d)

expected_of_absent : (x : ℕ) (d : List (ℕ × ℕ)) → count x (keys_of d) ≡ 0 → expected_of x d ≡ 0
unfolding expected_of get
expected_of_absent x [] h = refl
expected_of_absent x ((j, a) ∷ d) h = ground (arith, expected_of_absent x d)

expected_of-pop :
    (x slot m : ℕ) (d : List (ℕ × ℕ))
    → count slot (keys_of d) ≤ 1
    → expected_of x d ≤ m
    → expected_of x (pop slot d) ≤ m
unfolding expected_of get pop
expected_of-pop x slot m [] one h = h
expected_of-pop x slot m ((j, a) ∷ d) one h =
    ground (arith, expected_of-pop x slot m d, expected_of_absent x d)

length-count_down : (n : ℕ) → length (count_down n) ≡ n
unfolding count_down
length-count_down zero = refl
length-count_down (suc n) = ap suc (length-count_down n)

length-put_new :
    (k a : ℕ) (d : List (ℕ × ℕ)) → count k (keys_of d) ≡ 0 → length (put k a d) ≡ suc (length d)
length-put_new k a d h = ap length (put_new k a d h) ∙ length-append d ((k, a) ∷ []) ∙ omega arith

length-pop-has : (k : ℕ) (d : List (ℕ × ℕ)) → has k d ≡ true → suc (length (pop k d)) ≡ length d
unfolding has pop
length-pop-has k [] h = cc
length-pop-has k ((j, a) ∷ d) h = ground (arith, length-pop-has k d)

module _ {V : Type 0} where
  pub record WellFormed (s : Slots V) : Type 0 where
    pub once :
        (x : ℕ) → count x s.free + count x (keys_of s.live) ≡ (if ltb x s.num_slots then 1 else 0)
    pub same_keys : (x : ℕ) → count x (keys_of s.expected) ≡ count x (keys_of s.live)
    pub balance : length s.free + length s.live ≡ s.num_slots
    pub bounded : (x : ℕ) → expected_of x s.expected ≤ s.max_seq_len

  pub new_slots-WellFormed :
      (n : ℕ) (m : Option ℕ) (positions : ℕ) (zeros : V)
      → WellFormed (new_slots n m positions zeros)
  unfolding new_slots expected_of get
  new_slots-WellFormed n m positions zeros = record {
    once = λ x. omega (arith, count-count_down x n);
    same_keys = λ x. refl;
    balance = omega (arith, length-count_down n);
    bounded = λ x. omega arith;
  }

  pub reset-WellFormed : (s : Slots V) → WellFormed (reset s)
  unfolding reset expected_of get
  reset-WellFormed s = record {
    once = λ x. omega (arith, count-count_down x s.num_slots);
    same_keys = λ x. refl;
    balance = omega (arith, length-count_down s.num_slots);
    bounded = λ x. omega arith;
  }

  pub allocate-some :
      (e : Option ℕ) (s : Slots V) (slot : ℕ) (rest : List ℕ)
      → s.free ≡ slot ∷ rest
      → allocate e s ≡ (
        some (length s.objects),
        record s {
          free = rest;
          live = put slot (length s.objects) s.live;
          expected = put slot (min (or_else e s.max_seq_len) s.max_seq_len) s.expected;
          objects = s.objects ++ record { slot = slot; pos = 0; start = 0 } ∷ [];
        },
      )
  unfolding allocate
  allocate-some e s slot rest h = rw h refl

  pub allocate-none : (e : Option ℕ) (s : Slots V) → s.free ≡ [] → allocate e s ≡ (none, s)
  unfolding allocate
  allocate-none e s h = rw h refl

  pub allocate-WellFormed :
      (e : Option ℕ) (s : Slots V) → WellFormed s → WellFormed (allocate e s).1
  allocate-WellFormed e s w = cases s.free refl
    where
      cases : (f : List ℕ) → s.free ≡ f → WellFormed (allocate e s).1
      cases [] h = subst (λ r. WellFormed r.1) (sym (allocate-none e s h)) w
      cases (slot ∷ rest) h =
          subst (λ r. WellFormed r.1) (sym (allocate-some e s slot rest h))
            (record {
              once = λ x. ground (
                arith,
                w.once x,
                w.once slot,
                ap (count x) h,
                ap (count slot) h,
                count_keys-put x slot (length s.objects) s.live,
                has-count slot s.live,
              );
              same_keys = λ x. ground (
                arith,
                w.same_keys x,
                w.same_keys slot,
                count_keys-put x slot (length s.objects) s.live,
                has-count slot s.live,
                count_keys-put x slot (min (or_else e s.max_seq_len) s.max_seq_len) s.expected,
                has-count slot s.expected,
              );
              balance = omega (
                arith,
                w.balance,
                ap length h,
                length-put_new slot (length s.objects) s.live
                    (ground (arith, w.once slot, ap (count slot) h)),
              );
              bounded = λ x. ground (
                arith,
                expected_of-put x slot (min (or_else e s.max_seq_len) s.max_seq_len) s.expected,
                w.bounded x,
              );
            })

  -- Whatever the handle: `free` looks only at its slot.
  pub release-WellFormed : (handle : ℕ) (s : Slots V) → WellFormed s → WellFormed (release handle s)
  unfolding release
  release-WellFormed handle s w = elim (Bool-cases (has (object handle s).slot s.live)) [
    | inl here ↦
        let slot = (object handle s).slot in
        subst WellFormed (sym (if_true (has slot s.live) _ _ here)) (record {
          once = λ x. ground (arith, here, w.once x, count_keys-pop x slot s.live);
          same_keys = λ x. ground (
            arith,
            here,
            w.same_keys x,
            w.same_keys slot,
            count_keys-pop x slot s.live,
            count_keys-pop x slot s.expected,
            has-count slot s.live,
            has-count slot s.expected,
          );
          balance = omega (arith, w.balance, length-pop-has slot s.live here);
          bounded = λ x.
              expected_of-pop x slot s.max_seq_len s.expected
                (ground (arith, w.same_keys slot, w.once slot)) (w.bounded x);
        })
    | inr gone ↦ subst WellFormed (sym (if_false (has (object handle s).slot s.live) _ _ gone)) w
  ]

  -- Everything but the slabs and the objects is as it was.
  pub record SameSlots (s t : Slots V) : Type 0 where
    pub num_slots : t.num_slots ≡ s.num_slots
    pub max_seq_len : t.max_seq_len ≡ s.max_seq_len
    pub free : t.free ≡ s.free
    pub live : t.live ≡ s.live
    pub expected : t.expected ≡ s.expected

  pub WellFormed-SameSlots : {s t : Slots V} → SameSlots s t → WellFormed s → WellFormed t
  WellFormed-SameSlots {s} {t} e w = record {
    once = λ x.
        ap₂ (λ f d. count x f + count x (keys_of d)) e.free e.live
        ∙ w.once x
        ∙ ap (λ n. if ltb x n then 1 else 0) (sym e.num_slots);
    same_keys = λ x.
        ap (λ d. count x (keys_of d)) e.expected
        ∙ w.same_keys x
        ∙ ap (λ d. count x (keys_of d)) (sym e.live);
    balance = omega (arith, w.balance, e.num_slots, ap length e.free, ap length e.live);
    bounded = λ x. omega (arith, w.bounded x, ap (expected_of x) e.expected, e.max_seq_len);
  }
