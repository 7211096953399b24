-- ===== src/Request/Latency.antt =====
-- The latencies of a request (engine/types.py): what its recorded times add up to.
use nanoserve.Prelude.{
  List, Option, [], ap, append-nil, append_assoc, arith, refl, some, sum, sym, ℕ, ◌++◌, ◌+◌, ◌-◌,
  ◌∙◌, ◌∷◌, ◌≡◌, ◌≤◌,
}
use nanoserve.Request.{
  Request, SamplingParams, new_request, record_token, ttft, inter_token_latencies, gaps,
}

-- Tokens with the times at which they were produced.
unfoldable pub record_all : List (ℕ × ℕ) → Request → Request
unfolding record_token
record_all [] r = r
record_all ((token, now) ∷ ts) r = record_all ts (record_token token now r)

abbrev pub times_of : List (ℕ × ℕ) → List ℕ
times_of [] = []
times_of ((token, now) ∷ ts) = now ∷ times_of ts

abbrev pub tokens_of : List (ℕ × ℕ) → List ℕ
tokens_of [] = []
tokens_of ((token, now) ∷ ts) = token ∷ tokens_of ts

-- The clock does not run backwards.
abbrev pub Ascends : ℕ → List ℕ → Type 0
Ascends t [] = Unit {0}
Ascends t (u ∷ us) = (t ≤ u) × Ascends u us

abbrev pub last_of : ℕ → List ℕ → ℕ
last_of t [] = t
last_of t (u ∷ us) = last_of u us

last_le : (t : ℕ) (us : List ℕ) → Ascends t us → t ≤ last_of t us
last_le t [] a = omega arith
last_le t (u ∷ us) (h, a) = omega (arith, last_le u us a)

gaps-sum : (t : ℕ) (us : List ℕ) → Ascends t us → t + sum (gaps (t ∷ us)) ≡ last_of t us
gaps-sum t [] a = omega arith
gaps-sum t (u ∷ us) (h, a) = omega (arith, gaps-sum u us a)

record_more :
    (ts : List (ℕ × ℕ)) (r : Request) (token : ℕ) (before : List ℕ)
    → r.output_token_ids ≡ token ∷ before
    → ((record_all ts r).token_times ≡ r.token_times ++ times_of ts)
      × ((record_all ts r).output_token_ids ≡ r.output_token_ids ++ tokens_of ts)
      × ((record_all ts r).first_token_time ≡ r.first_token_time)
      × ((record_all ts r).arrival_time ≡ r.arrival_time)
unfolding record_all record_token
record_more [] r token before e =
    (sym (append-nil r.token_times), sym (append-nil r.output_token_ids), refl, refl)
record_more ((x, now) ∷ ts) r token before e =
    let (times, tokens, first, arrival) =
      record_more ts (record_token x now r) token (before ++ x ∷ []) (ap (λ o. o ++ x ∷ []) e) in
    (
      times ∙ append_assoc r.token_times (now ∷ []) (times_of ts),
      tokens ∙ append_assoc r.output_token_ids (x ∷ []) (tokens_of ts),
      first ∙ rw e refl,
      arrival,
    )

-- A fresh request whose tokens are recorded at ascending times, the first no earlier than the
-- arrival: the outputs are those tokens in order, the time to the first token is that of the first
-- one, and with the gaps between tokens it adds up to the time from the arrival to the last token.
pub latencies_add_up :
    (prompt : List ℕ) (params : SamplingParams) (id arrival : ℕ) (deadline : Option ℕ)
    (token now : ℕ) (ts : List (ℕ × ℕ))
    → arrival ≤ now
    → Ascends now (times_of ts)
    → let r = record_all ((token, now) ∷ ts) (new_request prompt params id arrival deadline) in
      (r.output_token_ids ≡ token ∷ tokens_of ts)
      × (ttft r ≡ some (now - arrival))
      × ((now - arrival) + sum (inter_token_latencies r) ≡ last_of now (times_of ts) - arrival)
unfolding record_all record_token new_request ttft inter_token_latencies
latencies_add_up prompt params id arrival deadline token now ts late up =
    let r = record_token token now (new_request prompt params id arrival deadline) in
    let (times, tokens, first, begin) = record_more ts r token [] refl in
    (
      tokens,
      rw (first, begin) refl,
      rw times (omega (arith, gaps-sum now (times_of ts) up, last_le now (times_of ts) up)),
    )
