-- ===== src/Baseline/Tests.antt =====
-- Tests and examples of engine/baseline.py at a concrete network.
use nanoserve.Prelude.{List, [], arith, false, map, none, refl, true, ℕ, ◌%◌, ◌+◌, ◌∷◌, ◌≡◌}
use nanoserve.Request.{Request, SamplingParams, new_request}
use nanoserve.Model.{Network}
use nanoserve.Baseline.{Baseline, new_baseline, add_waiting, add_all, serve, run}
use nanoserve.Baseline.Cached.{serve_cached}
use nanoserve.Baseline.Drain.{Drained, run-Drained}

program : Unit {0}
unfolding serve add_all add_waiting new_request run
program = tt

abbrev total : List ℕ → ℕ
total [] = 0
total (x ∷ xs) = x + total xs

abbrev network : Network ℕ ℕ ℕ
network = record {
  embed = λ token. token + 1;
  project = λ side layer p h. p + h;
  attend = λ layer p h ks vs. (h + total ks + total vs) % 7;
  head = λ h. h;
}

abbrev three_tokens : SamplingParams
three_tokens = record { max_tokens = 3; ignore_eos = false }

abbrev asked : ℕ → List ℕ → Request
unfolding new_request
asked id prompt = new_request prompt three_tokens id 0 none

abbrev both : List Request
unfolding asked
both = asked 0 (4 ∷ []) ∷ asked 1 (2 ∷ []) ∷ []

abbrev drained : List Request × Baseline
unfolding run
drained = run network 1 (λ r l. l) 4 (λ k. k) true (5 ∷ 9 ∷ []) both new_baseline

tokens_run : map (λ (r : Request). r.output_token_ids) drained.0 ≡ (1 ∷ []) ∷ (2 ∷ 3 ∷ 2 ∷ []) ∷ []
unfolding program
tokens_run = refl

count_run : drained.1.tokens_generated ≡ 4
unfolding program
count_run = refl

serve_cached_example :
    serve network 2 (λ r l. l) 4 (λ k. k) true 5 (asked 0 (4 ∷ 2 ∷ [])) 7
    ≡ serve network 2 (λ r l. l) 4 (λ k. k) false 5 (asked 0 (4 ∷ 2 ∷ [])) 7
unfolding asked
serve_cached_example =
    serve_cached network 2 (λ r l. l) 4 (λ k. k) 5 (asked 0 (4 ∷ 2 ∷ [])) 7 (omega arith) refl

run-Drained_example : Drained both new_baseline drained
unfolding both asked drained run
run-Drained_example =
    run-Drained network 1 (λ r l. l) 4 (λ k. k) true (5 ∷ 9 ∷ []) both new_baseline (omega arith)
      ((omega arith, refl, refl), ((omega arith, refl, refl), tt)) (omega arith)
