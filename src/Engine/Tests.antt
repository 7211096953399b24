-- ===== src/Engine/Tests.antt =====
-- Tests of the engine's queues (engine/scheduler.py), and its theorems at a concrete engine.
use nanoserve.Prelude.{
  List, [], arith, count, false, get_or, if◌then◌else◌, length, ltb, none, refl, some, suc, true,
  zero, ℕ, ◌&&◌, ◌<◌, ◌==◌, ◌∷◌, ◌≡◌,
}
use nanoserve.Exec.{ok, err, out_of_blocks}
use nanoserve.Allocator.{decref, count_above}
use nanoserve.Prefix.{root_hash}
use nanoserve.Request.{Request}
use nanoserve.Engine.{Sequence, Engine, apply_cancellations, preempt_newest}
use nanoserve.Engine.Invariant.{Served}
use nanoserve.Engine.Cancel.{cancelled_by, Cancelled, apply_cancellations-Cancelled}
use nanoserve.Engine.Preempt.{Preempted, preempt_newest-Preempted}
use nanoserve.Engine.Accept.{accept_all, Accepted, accept_all-Accepted}

program : Unit {0}
unfolding apply_cancellations preempt_newest accept_all decref
program = tt

abbrev asked : ℕ → List ℕ → Request
asked id output = record {
  prompt_token_ids = 1 ∷ 2 ∷ 3 ∷ [];
  params = record { max_tokens = 3; ignore_eos = false };
  request_id = id;
  arrival_time = 5;
  deadline = none;
  scheduled_time = some 6;
  first_token_time = some 7;
  finish_time = none;
  token_times = 7 ∷ [];
  output_token_ids = output;
  finish_reason = none;
  rejection_reason = none;
}

abbrev first_seq : Sequence
first_seq = record {
  request = asked 0 (4 ∷ []);
  cache = record {
    block_table = 0 ∷ 1 ∷ [];
    num_tokens = 3;
    start = 0;
    slots = 0 ∷ 1 ∷ 2 ∷ 3 ∷ [];
  };
  next_token = 4;
  finished = false;
  finish_reason = none;
}

abbrev second_seq : Sequence
second_seq = record {
  request = asked 1 (9 ∷ []);
  cache = record { block_table = 2 ∷ []; num_tokens = 2; start = 0; slots = 4 ∷ 5 ∷ [] };
  next_token = 9;
  finished = false;
  finish_reason = none;
}

-- Block 0 is cached and the first sequence's; requests 0 and 2 are to be cancelled.
abbrev pub busy : Engine ℕ
busy = record {
  config = record { eos_token_id = 0; max_batch_size = 4; reserve_blocks = 1; history = 2 };
  prefix = record {
    pool = record {
      block_size = 2;
      num_layers = 1;
      alloc = record { num_blocks = 4; free = 3 ∷ []; refs = 2 ∷ 1 ∷ 1 ∷ 0 ∷ [] };
      store = λ side l x. x;
    };
    enabled = true;
    entries = (77, record { block_id = 0; parent_hash = root_hash; last_used = 1; depth = 0 }) ∷ [];
    by_block = (0, 77) ∷ [];
    clock = 1;
    stats = record {
      queries = 0;
      hit_blocks = 0;
      query_blocks = 0;
      evictions = 0;
      num_entries = 1;
    };
  };
  waiting = asked 2 [] ∷ asked 3 [] ∷ [];
  running = first_seq ∷ second_seq ∷ [];
  finished = [];
  num_finished = 0;
  newly_finished = [];
  cancel_requested = 2 ∷ 0 ∷ [];
  emitted = [];
  preemptions = 0;
}

pub busy-Served : Served busy
unfolding count_above
busy-Served = record {
  positive = omega arith;
  fit = (
    record {
      linked = refl;
      distinct = λ b. ground arith;
      enough = omega arith;
      snug = omega arith;
    },
    (
      record {
        linked = refl;
        distinct = λ b. ground arith;
        enough = omega arith;
        snug = omega arith;
      },
      tt,
    ),
  );
  valid = record {
    holds = record {
      valid = record { sized = refl; free_zero = free_zero; balance = refl };
      counted = counted;
    };
    keys = λ k. ground arith;
    distinct = λ b. ground arith;
    indexed = λ b. refl;
    stamps = λ t. ground arith;
    recent = λ t h. ground arith;
  };
}
  where
    free_zero :
        (b : ℕ)
        → count b (3 ∷ []) ≡ (if ltb b 4 && (get_or busy.prefix.alloc.refs b 0 == 0) then 1 else 0)
    free_zero zero = refl
    free_zero (suc zero) = refl
    free_zero (suc (suc zero)) = refl
    free_zero (suc (suc (suc zero))) = refl
    free_zero (suc (suc (suc (suc b)))) = ground arith

    counted : (b : ℕ) → get_or busy.prefix.alloc.refs b 0 ≡ count b (0 ∷ 0 ∷ 1 ∷ 2 ∷ [])
    counted zero = refl
    counted (suc zero) = refl
    counted (suc (suc zero)) = refl
    counted (suc (suc (suc b))) = ground arith

-- The blocks of the cancelled sequence come back, but for the cached one.
cancel_frees : (apply_cancellations 20 busy).1.prefix.alloc.free ≡ 1 ∷ 3 ∷ []
unfolding program
cancel_frees = refl

apply_cancellations-Cancelled_example :
    (t : Engine ℕ) × (apply_cancellations 20 busy ≡ (ok (cancelled_by (2 ∷ 0 ∷ []) 20 busy), t))
    × Cancelled 20 busy t
apply_cancellations-Cancelled_example = apply_cancellations-Cancelled 20 busy busy-Served

preempt_newest-Preempted_example :
    (busy.running ≡ [] → preempt_newest busy ≡ (err out_of_blocks, busy))
    × (0 < length busy.running
        → (t : Engine ℕ) × (preempt_newest busy ≡ (ok tt, t)) × Preempted busy t)
preempt_newest-Preempted_example = preempt_newest-Preempted busy busy-Served

abbrev sampled : List (ℕ × ℕ)
sampled = (5, 10) ∷ (0, 11) ∷ (6, 12) ∷ []

accept_all-Accepted_example : Accepted 0 2 sampled first_seq (accept_all 0 sampled first_seq)
accept_all-Accepted_example = accept_all-Accepted 0 1 sampled first_seq refl (omega arith)
