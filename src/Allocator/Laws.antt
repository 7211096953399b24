-- ===== src/Allocator/Laws.antt =====
-- `allocate_many` and the accounting properties of `BlockAllocator` (engine/block_manager.py).
use nanoserve.Prelude.{
  Distinct, List, Option, [], ap, ap₂, arith, count, count-append, get_or, if◌then◌else◌, length,
  le→not_ltb, ltb, lt→ltb, map, none, refl, some, suc, zero, ℕ, ◌++◌, ◌+◌, ◌<◌, ◌∙◌, ◌∷◌, ◌≡◌, ◌≤◌,
}
use nanoserve.Allocator.{
  Allocator, allocate, allocate_times, allocate_many, num_allocated, num_free, num_shared,
  count_above,
}
use nanoserve.Allocator.Invariant.{Holds, Holds-same}
use nanoserve.Allocator.Owns.{Allocates, exhausted, fresh, allocate-Allocates}

-- `n` blocks came off the free list: distinct ones, that nobody held.
pub record Grants (n : ℕ) (a : Allocator) (held : List ℕ) (blocks : List ℕ) (a' : Allocator)
    : Type 0 where
  pub many : length blocks ≡ n
  pub distinct : Distinct blocks
  pub unheld : (b : ℕ) → 0 < count b blocks → count b held ≡ 0
  pub holds : Holds a' (blocks ++ held)
  pub left : length a.free ≡ n + length a'.free
  pub same_pool : a'.num_blocks ≡ a.num_blocks

Granted : ℕ → Allocator → List ℕ → List (Option ℕ) × Allocator → Type 0
Granted n a held r = (blocks : List ℕ) × (r.0 ≡ map some blocks) × Grants n a held blocks r.1

Granted-zero : (a : Allocator) (held : List ℕ) → Holds a held → Granted 0 a held ([], a)
unfolding Granted
Granted-zero a held s = (
  [],
  refl,
  record {
    many = refl;
    distinct = λ b. omega arith;
    unheld = λ b h. absurd (omega arith);
    holds = s;
    left = omega arith;
    same_pool = refl;
  },
)

Granted-suc :
    (a a' : Allocator) (n b : ℕ) (held : List ℕ) (r : List (Option ℕ) × Allocator)
    → count b held ≡ 0
    → length a.free ≡ suc (length a'.free)
    → a'.num_blocks ≡ a.num_blocks
    → Granted n a' (b ∷ held) r
    → Granted (suc n) a held (some b ∷ r.0, r.1)
unfolding Granted
Granted-suc a a' n b held r new less same (blocks, e, g) = (
  b ∷ blocks,
  ap (◌∷◌ (some b)) e,
  record {
    many = ap suc g.many;
    distinct = λ c. ground (arith, g.distinct c, g.unheld c);
    unheld = λ c h. ground (arith, g.unheld c, new);
    holds =
        Holds-same (blocks ++ b ∷ held) (b ∷ blocks ++ held)
          (λ c. omega (arith, count-append c blocks (b ∷ held), count-append c blocks held))
          g.holds;
    left = omega (arith, g.left, less);
    same_pool = g.same_pool ∙ same;
  },
)

allocate_first-Granted :
    (n : ℕ) (a : Allocator) (held : List ℕ)
    → suc n ≤ length a.free
    → ((a' : Allocator) (b : ℕ)
        → Holds a' (b ∷ held)
        → n ≤ length a'.free
        → Granted n a' (b ∷ held) (allocate_times n a'))
    → (r : Option ℕ × Allocator) → Allocates a held r
    → Granted (suc n) a held (r.0 ∷ (allocate_times n r.1).0, (allocate_times n r.1).1)
allocate_first-Granted n a held h more _ (exhausted e) = absurd (omega arith)
allocate_first-Granted n a held h more _ (fresh b a' new _ less same s) =
    Granted-suc a a' n b held (allocate_times n a') new less same (more a' b s (omega arith))

allocate_times-Granted :
    (n : ℕ) (a : Allocator) (held : List ℕ)
    → Holds a held
    → n ≤ length a.free
    → Granted n a held (allocate_times n a)
unfolding allocate_times
allocate_times-Granted zero a held s h = Granted-zero a held s
allocate_times-Granted (suc n) a held s h =
    allocate_first-Granted n a held h (λ a' b s' h'. allocate_times-Granted n a' (b ∷ held) s' h')
      (allocate a) (allocate-Allocates a held s)

-- `allocate_many` is all or nothing: with fewer than `n` free blocks it returns `None` and changes
-- nothing; else it returns `n` distinct blocks, none of which was held, and the caller holds each.
pub allocate_many-Grants :
    (n : ℕ) (a : Allocator) (held : List ℕ)
    → Holds a held
    → (length a.free < n → allocate_many n a ≡ (none, a))
      × (n ≤ length a.free
          → (blocks : List ℕ) × (a' : Allocator) × (allocate_many n a
              ≡ (some (map some blocks), a'))
            × Grants n a held blocks a')
unfolding allocate_many Granted
allocate_many-Grants n a held s = (
  λ h. rw (lt→ltb _ _ h) refl,
  λ h.
      (let (blocks, e, g) = allocate_times-Granted n a held s h in
        (
          blocks,
          (allocate_times n a).1,
          rw (le→not_ltb _ _ h) (ap (λ bs. (some bs, (allocate_times n a).1)) e),
          g,
        )),
)

-- How many of the `n` blocks from `i` on are held more than `k` times.
abbrev pub held_above : ℕ → List ℕ → ℕ → ℕ → ℕ
held_above k held i zero = 0
held_above k held i (suc n) = (if ltb k (count i held) then 1 else 0) + held_above k held (i + 1) n

count_above-held :
    (k i : ℕ) (held rs : List ℕ)
    → ((b : ℕ) → b < length rs → get_or rs b 0 ≡ count (i + b) held)
    → count_above k rs ≡ held_above k held i (length rs)
unfolding count_above
count_above-held k i held [] h = refl
count_above-held k i held (r ∷ rs) h =
    let here : r ≡ count i held = h 0 (omega arith) ∙ ap (λ j. count j held) (omega arith) in
    ap₂ ◌+◌ (ap (λ c. if ltb k c then 1 else 0) here) (
      count_above-held k (i + 1) held rs
        (λ b l. h (suc b) (omega arith) ∙ ap (λ j. count j held) (omega arith)))

-- The statistics count the blocks by their holders: `num_allocated` those that are held,
-- `num_shared` those that are held more than once, and `num_free` the others.
pub num_allocated_exact :
    (a : Allocator) (held : List ℕ)
    → Holds a held
    → (num_allocated a ≡ held_above 0 held 0 a.num_blocks)
      × (num_shared a ≡ held_above 1 held 0 a.num_blocks)
      × (num_free a + held_above 0 held 0 a.num_blocks ≡ a.num_blocks)
unfolding num_allocated num_free num_shared
num_allocated_exact a held s =
    let exact : (k : ℕ) → count_above k a.refs ≡ held_above k held 0 a.num_blocks = λ k.
      count_above-held k 0 held a.refs (λ b l. s.counted b ∙ ap (λ j. count j held) (omega arith))
      ∙ ap (held_above k held 0) s.sized in
    (omega (arith, s.balance, exact 0), exact 1, omega (arith, s.balance, exact 0))
