-- ===== src/Allocator/Invariant.antt =====
-- What holds of a `BlockAllocator` (engine/block_manager.py) between two calls.
use nanoserve.Prelude.{
  Bool, Bool-cases, List, [], arith, count, count-range_from, get_or, get_or-replicate, get_or_ge,
  if◌then◌else◌, inl, inr, length, length-range_from, length-replicate, ltb, ltb→ge, ltb→lt, refl,
  replicate, set, suc, zero, ℕ, ◌&&◌, ◌+◌, ◌<◌, ◌==◌, ◌∷◌, ◌≡◌,
}
use nanoserve.Allocator.{Allocator, init, count_above}

-- A block is free, once, exactly if it is one of the pool's and nobody refers to it; and every
-- block is free or counted.
pub record IsValid (a : Allocator) : Type 0 where
  pub sized : length a.refs ≡ a.num_blocks
  pub free_zero :
      (b : ℕ) → count b a.free ≡ (if ltb b a.num_blocks && (get_or a.refs b 0 == 0) then 1 else 0)
  pub balance : length a.free + count_above 0 a.refs ≡ a.num_blocks

-- `held` lists the references that the clients have, each as often as it was taken.
pub record Holds (a : Allocator) (held : List ℕ) : Type 0 where
  pub valid : IsValid a
  pub open valid use *
  pub counted : (b : ℕ) → get_or a.refs b 0 ≡ count b held

abbrev one_if : Bool → ℕ
one_if b = if b then 1 else 0

-- One write changes the count by the item that was there and the item that comes.
pub count_above-set :
    (k : ℕ) (rs : List ℕ) (i v : ℕ)
    → i < length rs
    → count_above k (set rs i v) + one_if (ltb k (get_or rs i 0))
      ≡ count_above k rs + one_if (ltb k v)
unfolding count_above
count_above-set k [] i v h = elim h [ ]
count_above-set k (r ∷ rs) zero v h = omega arith
count_above-set k (r ∷ rs) (suc i) v h = omega (arith, count_above-set k rs i v (omega arith))

count_above-replicate : (n : ℕ) → count_above 0 (replicate n 0) ≡ 0
unfolding count_above
count_above-replicate zero = refl
count_above-replicate (suc n) = omega (arith, count_above-replicate n)

pub init-Holds : (n : ℕ) → Holds (init n) []
unfolding init
init-Holds n = record {
  valid = record {
    sized = length-replicate n 0;
    free_zero = λ b. ground (arith, count-range_from b 0 n, get_or-replicate {A = ℕ} n 0 b);
    balance = omega (arith, count_above-replicate n, length-range_from 0 n);
  };
  counted = λ b. get_or-replicate n 0 b;
}

-- Who holds what is a multiset: the order of the list does not matter.
pub Holds-same :
    {a : Allocator} (h k : List ℕ) → ((b : ℕ) → count b h ≡ count b k) → Holds a h → Holds a k
Holds-same h k e s = record { valid = s.valid; counted = λ b. omega (arith, s.counted b, e b) }

-- What is held lies in the pool.
pub held_in_range :
    {a : Allocator} {h : List ℕ} (b : ℕ) → Holds a h → 0 < count b h → b < length a.refs
held_in_range {a} {h} b s p = elim (Bool-cases (ltb b (length a.refs))) [
  | inl t ↦ ltb→lt _ _ t
  | inr f ↦ absurd (omega (arith, s.counted b, get_or_ge a.refs b 0 (ltb→ge _ _ f)))
]
