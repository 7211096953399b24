-- ===== src/Paged/Tests.antt =====
-- Tests of the paged cache (engine/block_manager.py), and its theorems at concrete sequences.
use nanoserve.Prelude.{
  List, [], arith, count, get_or, if◌then◌else◌, length, ltb, refl, suc, zero, ℕ, ◌&&◌, ◌++◌, ◌+◌,
  ◌/◌, ◌<◌, ◌==◌, ◌∷◌, ◌≡◌,
}
use nanoserve.Exec.{ok, err, out_of_blocks, for_each}
use nanoserve.Allocator.{Allocator, init, allocate, incref, decref, count_above}
use nanoserve.Allocator.Invariant.{Holds}
use nanoserve.Paged.{Side, keys, Cache, Paged, update, begin_pass, gather, fork, free, set_start}
use nanoserve.Paged.Invariant.{Owned, Tight, Preserves}
use nanoserve.Paged.Extend.{blocks_needed}
use nanoserve.Paged.Update.{Begun, begin_pass-Begun, begin_pass_short}
use nanoserve.Paged.Forward.{forward, ReadFrom, forward_appends}
use nanoserve.Paged.Share.{fork-Owned, free-Owned, with_alloc}

program : Unit {0}
unfolding init allocate incref decref for_each update forward gather fork free blocks_needed
program = tt

-- Four blocks of two tokens, one layer. The sequence has three tokens in blocks 0 and 1, and a
-- second sequence shares both.
abbrev blocks : Allocator
blocks = record { num_blocks = 4; free = 2 ∷ 3 ∷ []; refs = 2 ∷ 2 ∷ 0 ∷ 0 ∷ [] }

abbrev pub shared : Paged ℕ
shared = record {
  pool = record { block_size = 2; num_layers = 1; alloc = blocks; store = λ side l x. 10 + x };
  cache = record {
    block_table = 0 ∷ 1 ∷ [];
    num_tokens = 3;
    start = 0;
    slots = 0 ∷ 1 ∷ 2 ∷ 3 ∷ [];
  };
}

-- The same sequence when the pool has no block left.
abbrev starved : Paged ℕ
starved = record shared {
  pool = record shared.pool { alloc = record { num_blocks = 2; free = []; refs = 2 ∷ 2 ∷ [] } };
}

abbrev rows : ℕ → Side → List ℕ
rows l side = 77 ∷ 88 ∷ []

blocks-Holds : Holds blocks (0 ∷ 1 ∷ 0 ∷ 1 ∷ [])
unfolding count_above
blocks-Holds = record {
  valid = record { sized = refl; free_zero = free_zero; balance = refl };
  counted = counted;
}
  where
    free_zero :
        (b : ℕ) → count b blocks.free ≡ (if ltb b 4 && (get_or blocks.refs b 0 == 0) then 1 else 0)
    free_zero zero = refl
    free_zero (suc zero) = refl
    free_zero (suc (suc zero)) = refl
    free_zero (suc (suc (suc zero))) = refl
    free_zero (suc (suc (suc (suc b)))) = ground arith

    counted : (b : ℕ) → get_or blocks.refs b 0 ≡ count b (0 ∷ 1 ∷ 0 ∷ 1 ∷ [])
    counted zero = refl
    counted (suc zero) = refl
    counted (suc (suc b)) = ground arith

starved-Holds : Holds starved.alloc (0 ∷ 1 ∷ 0 ∷ 1 ∷ [])
unfolding count_above
starved-Holds = record {
  valid = record { sized = refl; free_zero = free_zero; balance = refl };
  counted = counted;
}
  where
    free_zero :
        (b : ℕ)
        → count b starved.alloc.free
          ≡ (if ltb b 2 && (get_or starved.alloc.refs b 0 == 0) then 1 else 0)
    free_zero zero = refl
    free_zero (suc zero) = refl
    free_zero (suc (suc b)) = ground arith

    counted : (b : ℕ) → get_or starved.alloc.refs b 0 ≡ count b (0 ∷ 1 ∷ 0 ∷ 1 ∷ [])
    counted zero = refl
    counted (suc zero) = refl
    counted (suc (suc b)) = ground arith

pub shared-Owned : Owned (0 ∷ 1 ∷ []) shared
shared-Owned = record {
  positive = omega arith;
  linked = refl;
  distinct = λ b. ground arith;
  holds = blocks-Holds;
}

pub shared-Tight : Tight shared
shared-Tight = record { enough = omega arith; snug = omega arith }

starved-Owned : Owned (0 ∷ 1 ∷ []) starved
starved-Owned = record {
  positive = omega arith;
  linked = refl;
  distinct = λ b. ground arith;
  holds = starved-Holds;
}

starved-Tight : Tight starved
starved-Tight = record { enough = omega arith; snug = omega arith }

-- The shared tail, block 1, is copied to block 2 before the write; block 3 is new.
forward_run : gather keys 0 5 (forward 1 0 2 rows shared).1 ≡ 10 ∷ 11 ∷ 12 ∷ 77 ∷ 88 ∷ []
unfolding program
forward_run = refl

forward_table : (forward 1 0 2 rows shared).1.block_table ≡ 0 ∷ 2 ∷ 3 ∷ []
unfolding program
forward_table = refl

forward_appends_example :
    (outs : List (Side → List ℕ)) × (t : Paged ℕ) × (forward 1 0 2 rows shared ≡ (ok outs, t))
    × (length outs ≡ 1)
    × ReadFrom 0 rows shared outs
    × Owned (0 ∷ 1 ∷ []) t
    × Tight t
    × (t.num_tokens ≡ 5)
    × ((side : Side) (l : ℕ)
        → l < 1
        → gather side l t.num_tokens t ≡ gather side l 3 shared ++ rows l side)
    × ((side : Side) (l x : ℕ)
        → 0 < count (x / 2) (0 ∷ 1 ∷ [])
        → t.store side l x ≡ shared.store side l x)
    × (2 ≡ length t.alloc.free + blocks_needed 2 shared)
unfolding blocks_needed
forward_appends_example =
    forward_appends (0 ∷ 1 ∷ []) 2 rows shared shared-Owned shared-Tight (omega arith)
      (λ l side. refl) (omega arith)

begin_pass-Begun_example :
    (t : Paged ℕ) × (begin_pass 2 shared ≡ (ok tt, t)) × Begun (0 ∷ 1 ∷ []) 2 shared t
unfolding blocks_needed
begin_pass-Begun_example =
    begin_pass-Begun (0 ∷ 1 ∷ []) 2 shared shared-Owned shared-Tight (omega arith)

begin_pass_short_example :
    (t : Paged ℕ) × (begin_pass 2 starved ≡ (err out_of_blocks, t))
    × Owned (0 ∷ 1 ∷ []) t
    × Preserves (0 ∷ 1 ∷ []) 3 (set_start starved) t
    × (length t.alloc.free ≡ 0)
unfolding blocks_needed
begin_pass_short_example =
    begin_pass_short (0 ∷ 1 ∷ []) 2 starved starved-Owned starved-Tight (omega arith)

fork-Owned_example :
    (child : Cache) × (a : Allocator) × (fork shared ≡ (ok child, with_alloc a shared))
    × (child.num_tokens ≡ 3)
    × (child.block_table ≡ 0 ∷ 1 ∷ [])
    × (child.slots ≡ 0 ∷ 1 ∷ 2 ∷ 3 ∷ [])
    × (a.free ≡ 2 ∷ 3 ∷ [])
    × Owned (0 ∷ 1 ∷ 0 ∷ 1 ∷ []) (with_alloc a shared)
    × Owned (0 ∷ 1 ∷ 0 ∷ 1 ∷ []) (record { pool = (with_alloc a shared).pool; cache = child })
fork-Owned_example = fork-Owned (0 ∷ 1 ∷ []) shared shared-Owned

free-Owned_example :
    (t : Paged ℕ) × (free shared ≡ (ok tt, t))
    × Holds t.alloc (0 ∷ 1 ∷ [])
    × Owned (0 ∷ 1 ∷ []) t
    × Tight t
    × (t.block_table ≡ [])
    × (t.num_tokens ≡ 0)
    × ((side : Side) → t.store side ≡ shared.store side)
    × (free t ≡ (ok tt, t))
free-Owned_example = free-Owned (0 ∷ 1 ∷ []) shared shared-Owned
