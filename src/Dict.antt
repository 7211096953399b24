-- ===== src/Dict.antt =====
-- Python's `dict` with numbers for keys, as the list of its items in the order of insertion.
use nanoserve.Prelude.{
  Bool, List, Option, [], ap, arith, count, false, if◌then◌else◌, length, none, refl, some, true, ℕ,
  ◌&&◌, ◌++◌, ◌+◌, ◌==◌, ◌∷◌, ◌≡◌,
}

module _ {ℓ} {A : Type ℓ} where
  -- `d.get(k)`
  unfoldable pub get : ℕ → List (ℕ × A) → Option A
  get k [] = none
  get k ((j, a) ∷ d) = if j == k then some a else get k d

  -- `k in d`
  unfoldable pub has : ℕ → List (ℕ × A) → Bool
  has k [] = false
  has k ((j, a) ∷ d) = if j == k then true else has k d

  -- `d[k] = a`: in place, or at the end.
  unfoldable pub put : ℕ → A → List (ℕ × A) → List (ℕ × A)
  put k a [] = (k, a) ∷ []
  put k a ((j, b) ∷ d) = if j == k then (k, a) ∷ d else (j, b) ∷ put k a d

  -- `d.pop(k, None)`
  unfoldable pub pop : ℕ → List (ℕ × A) → List (ℕ × A)
  pop k [] = []
  pop k ((j, a) ∷ d) = if j == k then d else (j, a) ∷ pop k d

  abbrev pub keys_of : List (ℕ × A) → List ℕ
  keys_of [] = []
  keys_of ((k, a) ∷ d) = k ∷ keys_of d

  pub has-count :
      (k : ℕ) (d : List (ℕ × A)) → has k d ≡ (if count k (keys_of d) == 0 then false else true)
  unfolding has
  has-count k [] = refl
  has-count k ((j, a) ∷ d) = ground (arith, has-count k d)

  pub get-count : (k : ℕ) (d : List (ℕ × A)) → get k d ≡ none → count k (keys_of d) ≡ 0
  unfolding get
  get-count k [] e = refl
  get-count k ((j, a) ∷ d) e = ground (arith, get-count k d)

  -- A new key goes to the end.
  pub put_new :
      (k : ℕ) (a : A) (d : List (ℕ × A)) → count k (keys_of d) ≡ 0 → put k a d ≡ d ++ (k, a) ∷ []
  unfolding put
  put_new k a [] e = refl
  put_new k a ((j, b) ∷ d) e = ground (arith, put_new k a d)

  -- What a dictionary holds, seen through a function on its values.
  pub keys_of-append : (d e : List (ℕ × A)) → keys_of (d ++ e) ≡ keys_of d ++ keys_of e
  keys_of-append [] e = refl
  keys_of-append ((k, a) ∷ d) e = ap (◌∷◌ k) (keys_of-append d e)

  pub get-pop_ne : (k j : ℕ) (d : List (ℕ × A)) → (j == k) ≡ false → get k (pop j d) ≡ get k d
  unfolding get pop
  get-pop_ne k j [] h = refl
  get-pop_ne k j ((i, a) ∷ d) h = ground (arith, get-pop_ne k j d)

  pub count_keys-pop :
      (c k : ℕ) (d : List (ℕ × A))
      → count c (keys_of d) ≡ count c (keys_of (pop k d)) + (if has k d && (k == c) then 1 else 0)
  unfolding has pop
  count_keys-pop c k [] = refl
  count_keys-pop c k ((j, a) ∷ d) = ground (arith, count_keys-pop c k d)

module _ {ℓ} {A : Type ℓ} (f : A → ℕ) where
  -- A field of the values.
  abbrev pub vals_of : List (ℕ × A) → List ℕ
  vals_of [] = []
  vals_of ((k, a) ∷ d) = f a ∷ vals_of d

  pub vals_of-append : (d e : List (ℕ × A)) → vals_of (d ++ e) ≡ vals_of d ++ vals_of e
  vals_of-append [] e = refl
  vals_of-append ((k, a) ∷ d) e = ap (◌∷◌ (f a)) (vals_of-append d e)

  pub count_vals-put :
      (c k : ℕ) (a b : A) (d : List (ℕ × A))
      → get k d ≡ some a
      → count c (vals_of (put k b d)) + (if f a == c then 1 else 0)
        ≡ count c (vals_of d) + (if f b == c then 1 else 0)
  unfolding get put
  count_vals-put c k a b [] h = cc
  count_vals-put c k a b ((j, e) ∷ d) h = ground (arith, count_vals-put c k a b d)

  pub count_vals-pop :
      (c k : ℕ) (a : A) (d : List (ℕ × A))
      → get k d ≡ some a
      → count c (vals_of (pop k d)) + (if f a == c then 1 else 0) ≡ count c (vals_of d)
  unfolding get pop
  count_vals-pop c k a [] h = cc
  count_vals-pop c k a ((j, e) ∷ d) h = ground (arith, count_vals-pop c k a d)

module _ {ℓ} {A : Type ℓ} where
  pub keys-put_old :
      (k : ℕ) (a b : A) (d : List (ℕ × A)) → get k d ≡ some a → keys_of (put k b d) ≡ keys_of d
  unfolding get put
  keys-put_old k a b [] h = cc
  keys-put_old k a b ((j, e) ∷ d) h = ground (arith, keys-put_old k a b d)

  pub count_keys-put :
      (c k : ℕ) (a : A) (d : List (ℕ × A))
      → count c (keys_of (put k a d))
        ≡ count c (keys_of d) + (if k == c then (if has k d then 0 else 1) else 0)
  unfolding has put
  count_keys-put c k a [] = ground arith
  count_keys-put c k a ((j, e) ∷ d) = ground (arith, count_keys-put c k a d)

  pub get-put :
      (k j : ℕ) (a : A) (d : List (ℕ × A))
      → get j (put k a d) ≡ (if k == j then some a else get j d)
  unfolding get put
  get-put k j a [] = ground arith
  get-put k j a ((i, e) ∷ d) = ground (arith, get-put k j a d)

  pub length-pop :
      (k : ℕ) (a : A) (d : List (ℕ × A)) → get k d ≡ some a → length (pop k d) + 1 ≡ length d
  unfolding get pop
  length-pop k a [] h = cc
  length-pop k a ((j, e) ∷ d) h = ground (arith, length-pop k a d)
