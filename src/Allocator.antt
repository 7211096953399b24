-- ===== src/Allocator.antt =====
-- `BlockAllocator` of engine/block_manager.py: a free list over uniform blocks, with reference
-- counts. The free list's head is the end of the Python list, where `pop` and `append` work.
pub mod Invariant
pub mod Owns
pub mod Laws
mod Tests
use nanoserve.Prelude.{
  ℕ, zero, suc, ◌+◌, ◌-◌, ◌*◌, Bool, true, false, Option, none, some, List, [], ◌∷◌, ltb, leb, ◌==◌,
  if◌then◌else◌, length, get_elem?, get_or, set, replicate, range_from,
}
use nanoserve.Exec.{Result, ok, err, index_error, incref_on_free, decref_on_free, Exec}

pub record Allocator : Type 0 where
  pub num_blocks : ℕ
  pub free : List ℕ
  pub refs : List ℕ

-- `__init__`: block 0 is handed out first.
unfoldable pub init : ℕ → Allocator
init n = record { num_blocks = n; free = range_from 0 n; refs = replicate n 0 }

-- The write `self._refs[block] = 1` is inside the list for every block of the free list of a
-- valid allocator (`IsValid.free_zero`).
unfoldable pub allocate : Allocator → Option ℕ × Allocator
allocate a = elim a.free [
  | [] ↦ (none, a)
  | block ∷ rest ↦ (some block, record a { free = rest; refs = set a.refs block 1 })
]

-- `[self.allocate() for _ in range(n)]`
unfoldable pub allocate_times : ℕ → Allocator → List (Option ℕ) × Allocator
allocate_times zero a = ([], a)
allocate_times (suc n) a =
    let (block, a') = allocate a in let (rest, a'') = allocate_times n a' in (block ∷ rest, a'')

unfoldable pub allocate_many : ℕ → Allocator → Option (List (Option ℕ)) × Allocator
allocate_many n a =
    if ltb (length a.free) n
    then (none, a)
    else let (blocks, a') = allocate_times n a in (some blocks, a')

-- The rest of `incref` and of `decref`, once `self._refs[block]` is read.
unfoldable pub incref_at : ℕ → Option ℕ → Exec Allocator (Unit {0})
incref_at block none a = (err index_error, a)
incref_at block (some r) a =
    if leb r 0
    then (err incref_on_free, a)
    else (ok tt, record a { refs = set a.refs block (r + 1) })

unfoldable pub incref : ℕ → Exec Allocator (Unit {0})
unfolding incref_at
incref block a = incref_at block (get_elem? a.refs block) a

-- `True` if the block became free.
unfoldable pub decref_at : ℕ → Option ℕ → Exec Allocator Bool
decref_at block none a = (err index_error, a)
decref_at block (some r) a =
    if leb r 0
    then (err decref_on_free, a)
    else if (r - 1) == 0
    then (ok true, record a { refs = set a.refs block (r - 1); free = block ∷ a.free })
    else (ok false, record a { refs = set a.refs block (r - 1) })

unfoldable pub decref : ℕ → Exec Allocator Bool
unfolding decref_at
decref block a = decref_at block (get_elem? a.refs block) a

unfoldable pub num_free : Allocator → ℕ
num_free a = length a.free

unfoldable pub num_allocated : Allocator → ℕ
num_allocated a = a.num_blocks - length a.free

-- How many counts pass a test.
unfoldable pub count_above : ℕ → List ℕ → ℕ
count_above k [] = 0
count_above k (r ∷ rs) = (if ltb k r then 1 else 0) + count_above k rs

unfoldable pub num_shared : Allocator → ℕ
unfolding count_above
num_shared a = count_above 1 a.refs
