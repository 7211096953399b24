-- ===== src/Admission/Tests.antt =====
-- Tests of admission control (engine/admission.py), and its theorems at concrete controllers.
use nanoserve.Prelude.{[], arith, false, length, none, refl, some, true, ℕ, ◌<◌, ◌∷◌, ◌≡◌, ◌≤◌}
use nanoserve.Request.{Request, deadline_exceeded, new_request}
use nanoserve.Engine.Tests.{busy}
use nanoserve.Admission.{
  AdmissionConfig, Controller, Gated, new_controller, tokens_per_second, admit, add_request,
  queued_tokens, running_tokens,
}
use nanoserve.Admission.Counts.{
  Consistent, Tallied, answers, no_offers, offer, step_done, history, history-Consistent,
}
use nanoserve.Admission.Load.{admit_less_load}
use nanoserve.Admission.Queue.{Placed, deadline_gate, add_request-Placed}

program : Unit {0}
unfolding new_request new_controller history add_request admit
program = tt

abbrev config : AdmissionConfig
config = record {
  max_queue_depth = some 4;
  enforce_deadlines = true;
  slack = record { num = 5; den = 4 };
  window = 3;
  initial_step = 20;
  min_observations = 2;
  min_rate = record { num = 1; den = 1000000000 };
}

-- Eight tokens, to be done before 100.
abbrev urgent : Request
unfolding new_request
urgent = new_request (1 ∷ 2 ∷ []) (record { max_tokens = 8; ignore_eos = false }) 7 0 (some 100)

-- Two steps of ten ticks with two sequences: a token takes five ticks.
abbrev warm : Controller
warm = record {
  cfg = config;
  stats = record { offered = 0; admitted = 0; rejected_queue_full = 0; rejected_deadline = 0 };
  step_times = 10 ∷ 10 ∷ [];
  batch_sizes = 2 ∷ 2 ∷ [];
}

warm_run : history (step_done 10 2 ∷ step_done 10 2 ∷ []) (new_controller config) ≡ warm
unfolding program
warm_run = refl

-- 17 more tokens ahead take 125 ticks, the time left with the slack; one more is too much.
just_in_time :
    (admit
      (new_request (1 ∷ []) (record { max_tokens = 8; ignore_eos = false }) 7 0 (some 100))
      0
      10
      7
      0
      warm).0
    ≡ none
unfolding program
just_in_time = refl

too_much :
    (admit
      (new_request (1 ∷ []) (record { max_tokens = 8; ignore_eos = false }) 7 0 (some 100))
      0
      10
      8
      0
      warm).0
    ≡ some deadline_exceeded
unfolding program
too_much = refl

history-Consistent_example :
    Tallied
      (answers (step_done 10 2 ∷ offer urgent 9 0 0 0 ∷ []) (new_controller config))
      no_offers
      (history (step_done 10 2 ∷ offer urgent 9 0 0 0 ∷ []) (new_controller config)).stats
    × Consistent (history (step_done 10 2 ∷ offer urgent 9 0 0 0 ∷ []) (new_controller config))
    × (0
        < (tokens_per_second
            (history (step_done 10 2 ∷ offer urgent 9 0 0 0 ∷ []) (new_controller config))).num)
    × (0
        < (tokens_per_second
            (history (step_done 10 2 ∷ offer urgent 9 0 0 0 ∷ []) (new_controller config))).den)
history-Consistent_example =
    history-Consistent (step_done 10 2 ∷ offer urgent 9 0 0 0 ∷ []) config (omega arith)

admit_less_load_example : (admit urgent 1 4 7 0 warm).0 ≡ none
unfolding program
admit_less_load_example =
    admit_less_load urgent 3 10 7 0 1 4 7 warm (omega arith) (omega arith) (omega arith) refl

add_request-Placed_example :
    (g : Gated ℕ) × (add_request urgent 0 (record { engine = busy; admission = some warm }) ≡ g)
    × (length g.engine.waiting ≤ 4)
    × Placed 4
        (deadline_gate urgent (queued_tokens busy.waiting) (running_tokens busy.running) 0 warm)
        urgent
        0
        busy
        g.engine
    × (g.engine.running ≡ busy.running)
    × (g.engine.prefix ≡ busy.prefix)
add_request-Placed_example = add_request-Placed urgent 0 4 busy warm refl (omega arith)
