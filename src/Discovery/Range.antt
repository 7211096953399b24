-- ===== src/Discovery/Range.antt =====
-- The range of engine/discovery.py covers the keys under a prefix, and no other.
use nanoserve.Prelude.{
  Bool, Bool-cases, List, Option, [], ap, arith, false, if_false, if_true, inl, inr, ltb, none,
  refl, some, suc, sym, true, zero, ℕ, ◌&&◌, ◌+◌, ◌<◌, ◌==◌, ◌||◌, ◌∙◌, ◌∷◌, ◌≡◌,
}
use nanoserve.Discovery.{bump, or_bump, or_zero_byte, range_end}

-- The order of keys: byte by byte, and a key before the longer ones that start with it.
abbrev pub key_le : List ℕ → List ℕ → Bool
key_le [] ks = true
key_le (x ∷ xs) [] = false
key_le (x ∷ xs) (y ∷ ys) = ltb x y || ((x == y) && key_le xs ys)

abbrev pub key_lt : List ℕ → List ℕ → Bool
key_lt xs [] = false
key_lt [] (y ∷ ys) = true
key_lt (x ∷ xs) (y ∷ ys) = ltb x y || ((x == y) && key_lt xs ys)

-- The half-open range from `first` to `last`; a single zero byte for `last` stands for no end.
abbrev pub in_range : List ℕ → List ℕ → List ℕ → Bool
in_range first [] key = key_le first key && key_lt key []
in_range first (zero ∷ []) key = key_le first key
in_range first last key = key_le first key && key_lt key last

abbrev pub starts_with : List ℕ → List ℕ → Bool
starts_with [] key = true
starts_with (x ∷ xs) [] = false
starts_with (x ∷ xs) (y ∷ ys) = (x == y) && starts_with xs ys

abbrev pub Bytes : List ℕ → Type 0
Bytes [] = Unit {0}
Bytes (x ∷ xs) = (x < 256) × Bytes xs

abbrev below : Option (List ℕ) → List ℕ → Bool
below none key = true
below (some last) key = key_lt key last

one_more :
    (b c : ℕ) (p k : List ℕ) (o : Option (List ℕ))
    → c < 256
    → starts_with p k ≡ (key_le p k && below o k)
    → starts_with (b ∷ p) (c ∷ k) ≡ (key_le (b ∷ p) (c ∷ k) && below (or_bump b o) (c ∷ k))
one_more b c p k (some last) h e = ground (arith, e)
one_more b c p k none h e = elim (Bool-cases (ltb b 255)) [
  | inl small ↦
      let here : starts_with (b ∷ p) (c ∷ k)
          ≡ (key_le (b ∷ p) (c ∷ k) && key_lt (c ∷ k) ((b + 1) ∷ [])) =
        ground (arith, e) in
      here
      ∙ ap (λ o. key_le (b ∷ p) (c ∷ k) && below o (c ∷ k))
          (sym (if_true (ltb b 255) (some ((b + 1) ∷ [])) none small))
  | inr full ↦
      let here : starts_with (b ∷ p) (c ∷ k) ≡ (key_le (b ∷ p) (c ∷ k) && true) =
        ground (arith, e, h, full) in
      here
      ∙ ap (λ o. key_le (b ∷ p) (c ∷ k) && below o (c ∷ k))
          (sym (if_false (ltb b 255) (some ((b + 1) ∷ [])) none full))
]

starts_with-bump : (p k : List ℕ) → Bytes k → starts_with p k ≡ (key_le p k && below (bump p) k)
unfolding bump
starts_with-bump [] k h = refl
starts_with-bump (b ∷ p) [] h = refl
starts_with-bump (b ∷ p) (c ∷ k) (h, hs) = one_more b c p k (bump p) h (starts_with-bump p k hs)

-- A bound that does not read as the end of all keys.
abbrev proper : List ℕ → Bool
proper [] = false
proper (x ∷ []) = ltb 0 x
proper (x ∷ y ∷ xs) = true

abbrev proper_or_none : Option (List ℕ) → Bool
proper_or_none none = true
proper_or_none (some last) = proper last

or_bump-proper :
    (b : ℕ) (o : Option (List ℕ)) → proper_or_none o ≡ true → proper_or_none (or_bump b o) ≡ true
or_bump-proper b (some []) h = absurd (grind arith)
or_bump-proper b (some (x ∷ xs)) h = refl
or_bump-proper b none h = elim (Bool-cases (ltb b 255)) [
  | inl small ↦
      let positive : ltb 0 (b + 1) ≡ true = ground arith in
      ap proper_or_none (if_true (ltb b 255) (some ((b + 1) ∷ [])) none small) ∙ positive
  | inr full ↦ ap proper_or_none (if_false (ltb b 255) (some ((b + 1) ∷ [])) none full)
]

bump-proper : (p : List ℕ) → proper_or_none (bump p) ≡ true
unfolding bump
bump-proper [] = refl
bump-proper (b ∷ p) = or_bump-proper b (bump p) (bump-proper p)

in_range-proper :
    (p last k : List ℕ) → proper last ≡ true → in_range p last k ≡ (key_le p k && key_lt k last)
in_range-proper p [] k h = absurd (grind arith)
in_range-proper p (zero ∷ []) k h = absurd (grind arith)
in_range-proper p (suc x ∷ []) k h = refl
in_range-proper p (zero ∷ y ∷ ys) k h = refl
in_range-proper p (suc x ∷ y ∷ ys) k h = refl

and_true : (b : Bool) → b ≡ (b && true)
and_true true = refl
and_true false = refl

in_range-or_zero_byte :
    (p k : List ℕ) (o : Option (List ℕ))
    → proper_or_none o ≡ true
    → in_range p (or_zero_byte o) k ≡ (key_le p k && below o k)
in_range-or_zero_byte p k none h = and_true (key_le p k)
in_range-or_zero_byte p k (some last) h = in_range-proper p last k h

-- The keys in the range from `prefix` to `_range_end(prefix)` are those that start with `prefix`.
pub in_range-range_end :
    (prefix key : List ℕ)
    → Bytes key
    → in_range prefix (range_end prefix) key ≡ starts_with prefix key
unfolding range_end
in_range-range_end prefix key h =
    in_range-or_zero_byte prefix key (bump prefix) (bump-proper prefix)
    ∙ sym (starts_with-bump prefix key h)
