-- ===== src/Discovery/Tests.antt =====
-- Tests and examples of the range of engine/discovery.py.
use nanoserve.Prelude.{List, [], arith, refl, ℕ, ◌∷◌, ◌≡◌}
use nanoserve.Discovery.{bump, range_end}
use nanoserve.Discovery.Range.{in_range, starts_with, in_range-range_end}

abbrev a_prefix : List ℕ
a_prefix = 114 ∷ 47 ∷ 255 ∷ []

range_end_test : range_end a_prefix ≡ 114 ∷ 48 ∷ []
unfolding range_end bump
range_end_test = refl

no_end_test : range_end (255 ∷ 255 ∷ []) ≡ 0 ∷ []
unfolding range_end bump
no_end_test = refl

in_range-range_end_example :
    in_range a_prefix (range_end a_prefix) (114 ∷ 47 ∷ 255 ∷ 9 ∷ [])
    ≡ starts_with a_prefix (114 ∷ 47 ∷ 255 ∷ 9 ∷ [])
in_range-range_end_example =
    in_range-range_end a_prefix (114 ∷ 47 ∷ 255 ∷ 9 ∷ [])
      (omega arith, (omega arith, (omega arith, (omega arith, tt))))
