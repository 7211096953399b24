-- ===== src/Prelude/Count.antt =====
-- How often a number stands in a list, the lists of consecutive numbers, and sums.
use Prim.Native.Nat.{ℕ, zero, suc, ◌+◌, ◌≤◌}
use mathlib.Core.Path.{◌≡◌, refl, ap, ap₂, ◌∙◌}
use mathlib.Core.List.{List, [], ◌∷◌, ◌++◌}
use mathlib.Core.Bool.{◌&&◌}
use native.Mathlib.Omega.{arith}
use nanoserve.Prelude.Tests.{◌==◌, ltb, leb, if◌then◌else◌}
use nanoserve.Prelude.Lists.{length}

abbrev pub count : ℕ → List ℕ → ℕ
count a [] = 0
count a (x ∷ xs) = (if x == a then 1 else 0) + count a xs

abbrev pub sum : List ℕ → ℕ
sum [] = 0
sum (x ∷ xs) = x + sum xs

-- `range(i, i + n)`
abbrev pub range_from : ℕ → ℕ → List ℕ
range_from i zero = []
range_from i (suc n) = i ∷ range_from (i + 1) n

-- No number stands twice.
abbrev pub Distinct : List ℕ → Type 0
Distinct xs = (a : ℕ) → count a xs ≤ 1

-- Counting is additive over concatenation.
pub count-append :
    (b : ℕ) (front back : List ℕ) → count b (front ++ back) ≡ count b front + count b back
count-append b [] back = omega arith
count-append b (head ∷ front) back = omega (arith, count-append b front back)

pub sum-append : (xs ys : List ℕ) → sum (xs ++ ys) ≡ sum xs + sum ys
sum-append [] ys = omega arith
sum-append (x ∷ xs) ys = omega (arith, sum-append xs ys)

pub length-range_from : (i n : ℕ) → length (range_from i n) ≡ n
length-range_from i zero = refl
length-range_from i (suc n) = omega (arith, length-range_from (i + 1) n)

pub count-range_from :
    (a i n : ℕ) → count a (range_from i n) ≡ (if leb i a && ltb a (i + n) then 1 else 0)
count-range_from a i zero = ground arith
count-range_from a i (suc n) = ground (arith, count-range_from a (i + 1) n)

pub range_from_add :
    (i m n j : ℕ) → i + m ≡ j → range_from i (m + n) ≡ range_from i m ++ range_from j n
range_from_add i zero n j h = ap₂ range_from {x = i} {y = j} (omega (arith, h)) (omega arith)
range_from_add i (suc m) n j h =
    ap (range_from i) {y = suc (m + n)} (omega arith)
    ∙ ap (◌∷◌ i) (range_from_add (i + 1) m n j (omega (arith, h)))
