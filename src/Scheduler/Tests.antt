-- ===== src/Scheduler/Tests.antt =====
-- Tests of the decode part of `step` (engine/scheduler.py), and its theorem at a concrete engine.
use nanoserve.Prelude.{List, [], arith, if◌then◌else◌, length, refl, ℕ, ◌+◌, ◌<◌, ◌==◌, ◌∷◌, ◌≡◌}
use nanoserve.Exec.{Result, ok}
use nanoserve.Allocator.{allocate, decref}
use nanoserve.Request.{Request}
use nanoserve.Engine.{Engine}
use nanoserve.Engine.Tests.{busy, busy-Served}
use nanoserve.Engine.Preempt.{Preempted}
use nanoserve.Model.{Network}
use nanoserve.Scheduler.{decode_step}
use nanoserve.Scheduler.Finish.{ids_of, request_ids}
use nanoserve.Scheduler.Decode.{Decoded, batch_need, decode_step-Decoded}

program : Unit {0}
unfolding decode_step allocate decref
program = tt

abbrev network : Network ℕ ℕ ℕ
network = record {
  embed = λ token. token + 1;
  project = λ side layer p h. p + h;
  attend = λ layer p h ks vs. h + length ks;
  head = λ h. h;
}

-- A request's own token, whatever the logits: the first one ends.
abbrev sample : Request → ℕ → ℕ
sample r l = if r.request_id == 0 then 0 else l

abbrev ended : Result (List Request) → List ℕ
ended (ok done) = request_ids done
ended _ = []

step_ends : ended (decode_step network sample 30 busy).0 ≡ 0 ∷ []
unfolding program
step_ends = refl

step_stays : ids_of (decode_step network sample 30 busy).1.running ≡ 1 ∷ []
unfolding program
step_stays = refl

-- Block 1 is free again; block 0 stays cached, and block 3 is the second sequence's.
step_frees : (decode_step network sample 30 busy).1.prefix.alloc.free ≡ 1 ∷ []
unfolding program
step_frees = refl

decode_step-Decoded_example :
    (done : List Request) × (t : Engine ℕ) × (decode_step network sample 30 busy ≡ (ok done, t))
    × Decoded busy done t
    × (length busy.prefix.alloc.free < batch_need busy → (done ≡ []) × Preempted busy t)
decode_step-Decoded_example = decode_step-Decoded network sample 30 busy busy-Served (omega arith)
