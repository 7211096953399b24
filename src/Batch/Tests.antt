-- ===== src/Batch/Tests.antt =====
-- Tests of a decode batch (engine/scheduler.py), and its theorems at a concrete batch.
use nanoserve.Prelude.{
  Bool, List, [], arith, count, false, get_or, if◌then◌else◌, length, ltb, refl, suc, zero, ℕ, ◌&&◌,
  ◌+◌, ◌<◌, ◌==◌, ◌∷◌, ◌≡◌, ◌≤◌,
}
use nanoserve.Exec.{Result, ok, err, out_of_blocks}
use nanoserve.Allocator.{Allocator, allocate, decref, count_above}
use nanoserve.Allocator.Invariant.{Holds}
use nanoserve.Paged.{Side, keys, Cache}
use nanoserve.Batch.{Batch, total_need, prepare, run_layers, run_pass}
use nanoserve.Batch.Layer.{visible_rows}
use nanoserve.Batch.Prepare.{Ready, Prepared, prepare-Prepared}
use nanoserve.Batch.Pass.{AllRead, Untouched, run_pass-AllRead}

program : Unit {0}
unfolding prepare run_layers run_pass allocate decref
program = tt

-- A sequence of three tokens and a longer one, which starts with the same block.
abbrev short_cache : Cache
short_cache = record {
  block_table = 0 ∷ 1 ∷ [];
  num_tokens = 3;
  start = 0;
  slots = 0 ∷ 1 ∷ 2 ∷ 3 ∷ [];
}

abbrev long_cache : Cache
long_cache = record {
  block_table = 0 ∷ 2 ∷ [];
  num_tokens = 4;
  start = 0;
  slots = 0 ∷ 1 ∷ 4 ∷ 5 ∷ [];
}

abbrev blocks : Allocator
blocks = record { num_blocks = 5; free = 3 ∷ 4 ∷ []; refs = 2 ∷ 2 ∷ 1 ∷ 0 ∷ 0 ∷ [] }

-- Block 1 is somebody else's too, so its write needs a copy.
abbrev pub pair : Batch ℕ
pair = record {
  pool = record { block_size = 2; num_layers = 1; alloc = blocks; store = λ side l x. 10 + x };
  caches = short_cache ∷ long_cache ∷ [];
  prepared = false;
  write_slots = [];
  read_index = [];
  mask = [];
}

abbrev rows : ℕ → Side → List ℕ
rows l side = 77 ∷ 88 ∷ []

blocks-Holds : Holds blocks (0 ∷ 1 ∷ 0 ∷ 2 ∷ 1 ∷ [])
unfolding count_above
blocks-Holds = record {
  valid = record { sized = refl; free_zero = free_zero; balance = refl };
  counted = counted;
}
  where
    free_zero :
        (b : ℕ) → count b blocks.free ≡ (if ltb b 5 && (get_or blocks.refs b 0 == 0) then 1 else 0)
    free_zero zero = refl
    free_zero (suc zero) = refl
    free_zero (suc (suc zero)) = refl
    free_zero (suc (suc (suc zero))) = refl
    free_zero (suc (suc (suc (suc zero)))) = refl
    free_zero (suc (suc (suc (suc (suc b))))) = ground arith

    counted : (b : ℕ) → get_or blocks.refs b 0 ≡ count b (0 ∷ 1 ∷ 0 ∷ 2 ∷ 1 ∷ [])
    counted zero = refl
    counted (suc zero) = refl
    counted (suc (suc zero)) = refl
    counted (suc (suc (suc b))) = ground arith

pub pair-Ready : Ready (1 ∷ []) pair
pair-Ready = record {
  positive = omega arith;
  fit = (
    record {
      linked = refl;
      distinct = λ b. ground arith;
      enough = omega arith;
      snug = omega arith;
    },
    (
      record {
        linked = refl;
        distinct = λ b. ground arith;
        enough = omega arith;
        snug = omega arith;
      },
      tt,
    ),
  );
  holds = blocks-Holds;
}

abbrev first_read : Result (List (List Bool) × List (Side → List (List ℕ))) → List (List ℕ)
first_read (ok (mask, out ∷ outs)) = visible_rows mask (out keys)
first_read _ = []

pass_reads :
    first_read (run_pass rows pair).0
    ≡ (10 ∷ 11 ∷ 12 ∷ 77 ∷ []) ∷ (10 ∷ 11 ∷ 14 ∷ 15 ∷ 88 ∷ []) ∷ []
unfolding program
pass_reads = refl

prepare-Prepared_example :
    (length blocks.free < total_need 2 blocks.refs pair.caches
      → prepare pair ≡ (err out_of_blocks, pair))
    × (total_need 2 blocks.refs pair.caches ≤ length blocks.free
        → (t : Batch ℕ) × (prepare pair ≡ (ok tt, t)) × Prepared (1 ∷ []) pair t)
prepare-Prepared_example = prepare-Prepared (1 ∷ []) pair pair-Ready

run_pass-AllRead_example :
    (length blocks.free < total_need 2 blocks.refs pair.caches
      → run_pass rows pair ≡ (err out_of_blocks, pair))
    × (total_need 2 blocks.refs pair.caches ≤ length blocks.free
        → (mask : List (List Bool)) × (outs : List (Side → List (List ℕ))) × (t : Batch ℕ)
          × (run_pass rows pair ≡ (ok (mask, outs), t))
          × (length outs ≡ 1)
          × AllRead pair rows mask 0 outs
          × Untouched (1 ∷ []) 2 t.store pair.store
          × Ready (1 ∷ []) t)
run_pass-AllRead_example = run_pass-AllRead (1 ∷ []) pair rows pair-Ready refl (λ l side. refl)
