-- ===== src/Tokenizer/Merge.antt =====
-- `_apply_merge` and the choice of a merge (model/tokenizer.py): the bytes stay, the list shrinks.
use nanoserve.Prelude.{
  ==→eq, Bool-cases, List, Option, [], ap, append_assoc, ap₂, arith, false, if_false, if_true, inl,
  inr, length, none, refl, some, sym, true, ℕ, ◌&&◌, ◌<◌, ◌==◌, ◌∙◌, ◌∷◌, ◌≡◌, ◌≤◌, ◌⊎◌,
}
use nanoserve.Dict.{get}
use nanoserve.Tokenizer.{apply_merge, joined, decode_bytes}

joined_assoc : (x y z : Option (List ℕ)) → joined (joined x y) z ≡ joined x (joined y z)
joined_assoc none y z = refl
joined_assoc (some x) none z = refl
joined_assoc (some x) (some y) none = refl
joined_assoc (some x) (some y) (some z) = ap some (append_assoc x y z)

apply_here :
    (a b new x y : ℕ) (ids : List ℕ)
    → ((x == a) && (y == b)) ≡ true
    → apply_merge a b new (x ∷ y ∷ ids) ≡ new ∷ apply_merge a b new ids
unfolding apply_merge
apply_here a b new x y ids h = if_true ((x == a) && (y == b)) _ _ h

apply_later :
    (a b new x y : ℕ) (ids : List ℕ)
    → ((x == a) && (y == b)) ≡ false
    → apply_merge a b new (x ∷ y ∷ ids) ≡ x ∷ apply_merge a b new (y ∷ ids)
unfolding apply_merge
apply_later a b new x y ids h = if_false ((x == a) && (y == b)) _ _ h

-- A merge replaces two tokens by one with the same bytes.
pub decode_bytes-apply_merge :
    (vocab : List (ℕ × List ℕ)) (a b new : ℕ) (ids : List ℕ)
    → get new vocab ≡ joined (get a vocab) (get b vocab)
    → decode_bytes vocab (apply_merge a b new ids) ≡ decode_bytes vocab ids
unfolding decode_bytes apply_merge
decode_bytes-apply_merge vocab a b new [] e = refl
decode_bytes-apply_merge vocab a b new (x ∷ []) e = refl
decode_bytes-apply_merge vocab a b new (x ∷ y ∷ ids) e = elim (Bool-cases ((x == a) && (y == b))) [
  | inl here ↦
      let rest = decode_bytes-apply_merge vocab a b new ids e in
      let same : get new vocab ≡ joined (get x vocab) (get y vocab) =
        e
        ∙ ap₂ (λ i j. joined (get i vocab) (get j vocab)) (sym (ground (arith, ==→eq x a)))
            (sym (ground (arith, ==→eq y b))) in
      ap (decode_bytes vocab) (apply_here a b new x y ids here)
      ∙ ap₂ joined same rest
      ∙ joined_assoc (get x vocab) (get y vocab) (decode_bytes vocab ids)
  | inr other ↦
      ap (decode_bytes vocab) (apply_later a b new x y ids other)
      ∙ ap (joined (get x vocab)) (decode_bytes-apply_merge vocab a b new (y ∷ ids) e)
]

-- A pair that stands in the list.
abbrev pub Adjacent : ℕ → ℕ → List ℕ → Type 0
Adjacent a b [] = ⊥
Adjacent a b (x ∷ []) = ⊥
Adjacent a b (x ∷ y ∷ ids) = ((x ≡ a) × (y ≡ b)) ⊎ Adjacent a b (y ∷ ids)

apply_merge-le : (a b new : ℕ) (ids : List ℕ) → length (apply_merge a b new ids) ≤ length ids
unfolding apply_merge
apply_merge-le a b new [] = omega arith
apply_merge-le a b new (x ∷ []) = omega arith
apply_merge-le a b new (x ∷ y ∷ ids) = elim (Bool-cases ((x == a) && (y == b))) [
  | inl here ↦
      omega (arith, ap length (apply_here a b new x y ids here), apply_merge-le a b new ids)
  | inr other ↦
      omega (arith, ap length (apply_later a b new x y ids other), apply_merge-le a b new (y ∷ ids))
]

pub apply_merge-lt :
    (a b new : ℕ) (ids : List ℕ) → Adjacent a b ids → length (apply_merge a b new ids) < length ids
unfolding apply_merge
apply_merge-lt a b new [] h = elim h [ ]
apply_merge-lt a b new (x ∷ []) h = elim h [ ]
apply_merge-lt a b new (x ∷ y ∷ ids) (inl (p, q)) =
    let here : ((x == a) && (y == b)) ≡ true = ground arith in
    omega (arith, ap length (apply_here a b new x y ids here), apply_merge-le a b new ids)
apply_merge-lt a b new (x ∷ y ∷ ids) (inr h) = elim (Bool-cases ((x == a) && (y == b))) [
  | inl here ↦
      omega (arith, ap length (apply_here a b new x y ids here), apply_merge-le a b new ids)
  | inr other ↦
      omega
        (arith, ap length (apply_later a b new x y ids other), apply_merge-lt a b new (y ∷ ids) h)
]
