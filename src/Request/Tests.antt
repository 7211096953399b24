-- ===== src/Request/Tests.antt =====
-- Tests of requests (engine/types.py).
use nanoserve.Prelude.{List, [], arith, false, none, some, sum, ℕ, ◌+◌, ◌∷◌, ◌≡◌}
use nanoserve.Request.{SamplingParams, new_request, ttft, inter_token_latencies}
use nanoserve.Request.Latency.{record_all, latencies_add_up}

abbrev four_tokens : SamplingParams
four_tokens = record { max_tokens = 4; ignore_eos = false }

abbrev later : List (ℕ × ℕ)
later = (8, 15) ∷ (9, 21) ∷ []

latencies_add_up_example :
    let r = record_all ((7, 12) ∷ later) (new_request (1 ∷ 2 ∷ []) four_tokens 0 10 none) in
    (r.output_token_ids ≡ 7 ∷ 8 ∷ 9 ∷ [])
    × (ttft r ≡ some 2)
    × (2 + sum (inter_token_latencies r) ≡ 11)
latencies_add_up_example =
    latencies_add_up (1 ∷ 2 ∷ []) four_tokens 0 10 none 7 12 later (omega arith)
      (omega arith, (omega arith, tt))
