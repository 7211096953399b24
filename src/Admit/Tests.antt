-- ===== src/Admit/Tests.antt =====
-- Tests of `_admit` (engine/scheduler.py), and its theorem at a concrete engine.
use nanoserve.Prelude.{List, [], arith, length, map, refl, ℕ, ◌*◌, ◌+◌, ◌∷◌, ◌≡◌}
use nanoserve.Exec.{Result, ok}
use nanoserve.Allocator.{init, allocate, incref, decref}
use nanoserve.Dict.{get, put, has}
use nanoserve.Prefix.{hash_chain}
use nanoserve.Request.{Request}
use nanoserve.Engine.{Engine, id_of}
use nanoserve.Engine.Tests.{busy}
use nanoserve.Model.{Network}
use nanoserve.Admit.{Lists, admit_waiting}
use nanoserve.Admit.Bound.{Kept, admit_waiting-Kept}

program : Unit {0}
unfolding admit_waiting init allocate incref hash_chain get put has decref
program = tt

abbrev network : Network ℕ ℕ ℕ
network = record {
  embed = λ token. token + 1;
  project = λ side layer p h. p + h;
  attend = λ layer p h ks vs. h + length ks;
  head = λ h. h;
}

abbrev toy_hash : ℕ → List ℕ → ℕ
toy_hash p ts = 10 * p + length ts

-- Nothing runs or is cached, and `n` blocks are free.
abbrev idle : ℕ → Engine ℕ
unfolding init
idle n = record busy {
  running = [];
  prefix = record busy.prefix {
    pool = record busy.prefix.pool { alloc = init n };
    entries = [];
    by_block = [];
  };
}

abbrev ids : Result Lists → List ℕ × List ℕ
ids (ok (admitted, done)) = (map id_of admitted, map (λ (r : Request). r.request_id) done)
ids _ = ([], [])

both_run : ids (admit_waiting network toy_hash (λ r l. 7) 30 (idle 12)).0 ≡ (2 ∷ 3 ∷ [], [])
unfolding program idle
both_run = refl

one_run : ids (admit_waiting network toy_hash (λ r l. 7) 30 (idle 5)).0 ≡ (2 ∷ [], [])
unfolding program idle
one_run = refl

-- The end-of-sequence token at once: both are done.
ended_run : ids (admit_waiting network toy_hash (λ r l. 0) 30 (idle 12)).0 ≡ ([], 2 ∷ 3 ∷ [])
unfolding program idle
ended_run = refl

-- A pool that could never hold the first request: it waits, where a rejection is meant.
small_run : ids (admit_waiting network toy_hash (λ r l. 7) 30 (idle 2)).0 ≡ ([], [])
unfolding program idle
small_run = refl

admit_waiting-Kept_example :
    ((admit_waiting network toy_hash (λ r l. 7) 30 (idle 12)).1.running ≡ [])
    × Kept 4 2
        (admit_waiting network toy_hash (λ r l. 7) 30 (idle 12)).0
        (admit_waiting network toy_hash (λ r l. 7) 30 (idle 12)).1
unfolding idle
admit_waiting-Kept_example =
    admit_waiting-Kept network toy_hash (λ r l. 7) 30 (idle 12) (omega arith)
