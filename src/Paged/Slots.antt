-- ===== src/Paged/Slots.antt =====
-- The slots of a block table (`_slots` of engine/block_manager.py), and reads and writes by slot.
use nanoserve.Prelude.{
  Distinct, List, [], ap, append-nil, append_assoc, ap₂, arith, count, count-append,
  count-range_from, drop, if◌then◌else◌, leb, length, length-append, length-range_from, ltb, map,
  map-append, range_from, refl, suc, sym, take, take-append_self, zero, ℕ, ◌%◌, ◌&&◌, ◌*◌, ◌++◌,
  ◌+◌, ◌-◌, ◌/◌, ◌<◌, ◌==◌, ◌∎, ◌∙◌, ◌∷◌, ◌≡◌, ◌≡⟨◌⟩◌, ◌≢◌, ◌≤◌,
}
use native.Mathlib.Nat.{add-zero, add_assoc, div-add-mod, mod-lt}
use nanoserve.Paged.{scatter, copy_slice}

-- The token slots of each block, in the order of the table.
abbrev pub slots_of : ℕ → List ℕ → List ℕ
slots_of bs [] = []
slots_of bs (b ∷ t) = range_from (b * bs) bs ++ slots_of bs t

pub slots_of-append :
    (bs : ℕ) (t u : List ℕ) → slots_of bs (t ++ u) ≡ slots_of bs t ++ slots_of bs u
slots_of-append bs [] u = refl
slots_of-append bs (b ∷ t) u =
    ap (◌++◌ (range_from (b * bs) bs)) (slots_of-append bs t u)
    ∙ sym (append_assoc (range_from (b * bs) bs) (slots_of bs t) (slots_of bs u))

pub slots_of-snoc :
    (bs : ℕ) (t : List ℕ) (b : ℕ)
    → slots_of bs (t ++ b ∷ []) ≡ slots_of bs t ++ range_from (b * bs) bs
slots_of-snoc bs t b =
    slots_of-append bs t (b ∷ []) ∙ ap (◌++◌ (slots_of bs t)) (append-nil (range_from (b * bs) bs))

pub length-slots_of : (bs : ℕ) (t : List ℕ) → length (slots_of bs t) ≡ length t * bs
length-slots_of bs [] = omega arith
length-slots_of bs (b ∷ t) = omega (
  arith,
  length-append (range_from (b * bs) bs) (slots_of bs t),
  length-range_from (b * bs) bs,
  length-slots_of bs t,
)

pub mul_mono : (a b c : ℕ) → a ≤ b → a * c ≤ b * c
mul_mono a b c h = grind arith

block_bounds :
    (bs b q r x : ℕ)
    → bs * q + r ≡ x
    → r < bs
    → ((b < q → b * bs + bs ≤ x) × (q < b → x < b * bs))
      × (b ≡ q → (b * bs ≤ x) × (x < b * bs + bs))
block_bounds bs b q r x e h = ((λ p. grind arith, λ p. grind arith), λ p. grind arith)

-- A slot lies in block `b` exactly if the quotient by the block size is `b`.
pub in_block : (bs b x : ℕ) → 0 < bs → (leb (b * bs) x && ltb x (b * bs + bs)) ≡ (b == (x / bs))
in_block bs b x h =
    ground (arith, block_bounds bs b (x / bs) (x % bs) x (div-add-mod x bs), mod-lt x h)

pub count-slots_of : (bs x : ℕ) (t : List ℕ) → 0 < bs → count x (slots_of bs t) ≡ count (x / bs) t
count-slots_of bs x [] h = refl
count-slots_of bs x (b ∷ t) h = ground (
  arith,
  count-append x (range_from (b * bs) bs) (slots_of bs t),
  count-range_from x (b * bs) bs,
  in_block bs b x h,
  count-slots_of bs x t h,
)

pub count-take-le : (x n : ℕ) (xs : List ℕ) → count x (take n xs) ≤ count x xs
count-take-le x zero xs = omega arith
count-take-le x (suc n) [] = omega arith
count-take-le x (suc n) (y ∷ xs) = omega (arith, count-take-le x n xs)

pub count-drop-le : (x n : ℕ) (xs : List ℕ) → count x (drop n xs) ≤ count x xs
count-drop-le x zero xs = omega arith
count-drop-le x (suc n) [] = omega arith
count-drop-le x (suc n) (y ∷ xs) = omega (arith, count-drop-le x n xs)

-- Two stores that agree on the listed slots read the same there.
pub map_agree {ℓ} :
    {V : Type ℓ} (f g : ℕ → V) (xs : List ℕ)
    → ((x : ℕ) → 0 < count x xs → f x ≡ g x)
    → map f xs ≡ map g xs
map_agree f g [] h = refl
map_agree f g (y ∷ xs) h =
    ap₂ ◌∷◌ (h y (ground arith)) (map_agree f g xs (λ x p. h x (omega arith)))

eq_at : (s d i : ℕ) → s + (d + i - d) ≡ s + i
eq_at s d i = omega arith

module _ {ℓ} {V : Type ℓ} where
  -- A write by slots leaves the others alone,
  pub scatter_other :
      (f : ℕ → V) (ss : List ℕ) (vs : List V) (x : ℕ) → count x ss ≡ 0 → scatter f ss vs x ≡ f x
  unfolding scatter
  scatter_other f [] vs x h = refl
  scatter_other f (s ∷ ss) [] x h = refl
  scatter_other f (s ∷ ss) (v ∷ vs) x h =
      scatter_other (λ y. if s == y then v else f y) ss vs x (omega arith) ∙ ground arith

  -- and what was written is read back.
  pub scatter_same :
      (f : ℕ → V) (ss : List ℕ) (vs : List V)
      → Distinct ss
      → length ss ≡ length vs
      → map (scatter f ss vs) ss ≡ vs
  unfolding scatter
  scatter_same f [] [] d e = refl
  scatter_same f [] (v ∷ vs) d e = absurd (omega arith)
  scatter_same f (s ∷ ss) [] d e = absurd (omega arith)
  scatter_same f (s ∷ ss) (v ∷ vs) d e =
      ap₂ ◌∷◌ (scatter_other g ss vs s (ground (arith, d s)) ∙ ground arith)
        (scatter_same g ss vs (λ a. omega (arith, d a)) (omega arith))
    where
      g : ℕ → V
      g x = if s == x then v else f x

  -- The copied block reads as its source, and every other slot as before.
  pub map-copy_slice :
      (bs s d : ℕ) (f : ℕ → V) (i n : ℕ)
      → i + n ≤ bs
      → map (copy_slice bs s d f) (range_from (d + i) n) ≡ map f (range_from (s + i) n)
  unfolding copy_slice
  map-copy_slice bs s d f i zero h = refl
  map-copy_slice bs s d f i (suc n) h =
      ap₂ ◌∷◌ (ground (arith, ap f (eq_at s d i)))
        (rw (add_assoc d i 1, add_assoc s i 1) (map-copy_slice bs s d f (i + 1) n (omega arith)))

  pub copy_slice_other :
      (bs s b x : ℕ) (f : ℕ → V) → 0 < bs → b ≢ x / bs → copy_slice bs s (b * bs) f x ≡ f x
  unfolding copy_slice
  copy_slice_other bs s b x f h ne = ground (arith, in_block bs b x h)

-- After the last block is replaced, the slots are those of the new table.
pub relinked :
    (bs : ℕ) (ys : List ℕ) (tail new : ℕ) (slots : List ℕ)
    → slots ≡ slots_of bs (ys ++ tail ∷ [])
    → take (length slots - bs) slots ++ range_from (new * bs) bs ≡ slots_of bs (ys ++ new ∷ [])
relinked bs ys tail new slots e =
    let whole : slots ≡ slots_of bs ys ++ range_from (tail * bs) bs =
      e ∙ slots_of-snoc bs ys tail in
    let kept : take (length slots - bs) slots ≡ slots_of bs ys =
      ap (take (length slots - bs)) whole
      ∙ take-append_self (length slots - bs) (slots_of bs ys) (range_from (tail * bs) bs) (
          omega (
            arith,
            ap length whole,
            length-append (slots_of bs ys) (range_from (tail * bs) bs),
            length-range_from (tail * bs) bs,
          )) in
    ap (λ xs. xs ++ range_from (new * bs) bs) kept ∙ sym (slots_of-snoc bs ys new)

module _ {ℓ} {V : Type ℓ} where
  -- The table with the copied block reads as the old one.
  pub map-relinked :
      (bs : ℕ) (ys : List ℕ) (tail new : ℕ) (f : ℕ → V)
      → 0 < bs
      → count new ys ≡ 0
      → map (copy_slice bs (tail * bs) (new * bs) f) (slots_of bs (ys ++ new ∷ []))
        ≡ map f (slots_of bs (ys ++ tail ∷ []))
  map-relinked bs ys tail new f h absent =
      map g (slots_of bs (ys ++ new ∷ []))
      ≡⟨ ap (map g) (slots_of-snoc bs ys new)
        ∙ map-append g (slots_of bs ys) (range_from (new * bs) bs) ⟩
        map g (slots_of bs ys) ++ map g (range_from (new * bs) bs)
      ≡⟨ ap₂ ◌++◌ before copied ⟩ map f (slots_of bs ys) ++ map f (range_from (tail * bs) bs)
      ≡⟨ sym (map-append f (slots_of bs ys) (range_from (tail * bs) bs))
        ∙ sym (ap (map f) (slots_of-snoc bs ys tail)) ⟩
        map f (slots_of bs (ys ++ tail ∷ [])) ∎
    where
      g : ℕ → V
      g = copy_slice bs (tail * bs) (new * bs) f

      before : map g (slots_of bs ys) ≡ map f (slots_of bs ys)
      before = map_agree g f (slots_of bs ys) (λ x p.
          copy_slice_other bs (tail * bs) new x f h
            (λ e. absurd (omega (arith, count-slots_of bs x ys h, ap (λ b. count b ys) e))))

      copied : map g (range_from (new * bs) bs) ≡ map f (range_from (tail * bs) bs)
      copied = simp add-zero at (map-copy_slice bs (tail * bs) (new * bs) f 0 bs (omega arith))
