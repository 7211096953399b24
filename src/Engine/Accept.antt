-- ===== src/Engine/Accept.antt =====
-- `_accept_token` of engine/scheduler.py: which of the sampled tokens become the output.
use nanoserve.Prelude.{
  Bool, Bool-cases, List, [], ap, append-nil, append_assoc, ap₂, arith, false, if_false, if_true,
  if◌then◌else◌, inl, inr, leb, length, length-append, not, refl, subst, suc, sym, take, true, zero,
  ℕ, ◌&&◌, ◌++◌, ◌+◌, ◌==◌, ◌∙◌, ◌∷◌, ◌≡◌, ◌≤◌,
}
use nanoserve.Request.{Request, record_token, output_len}
use nanoserve.Engine.{Sequence, accept_token}

-- The tokens that the steps sample for one sequence, with their times, until it is finished.
unfoldable pub accept_all : ℕ → List (ℕ × ℕ) → Sequence → Sequence
unfolding accept_token
accept_all eos_id [] q = q
accept_all eos_id ((token, now) ∷ ts) q =
    let q' = accept_token eos_id token now q in
    let rest = accept_all eos_id ts q' in if q'.finished then q' else rest

-- The tokens before the stop token, where that one counts.
unfoldable pub until_eos : ℕ → Bool → List (ℕ × ℕ) → List ℕ
until_eos eos_id ignore [] = []
until_eos eos_id ignore ((token, now) ∷ ts) =
    let rest = until_eos eos_id ignore ts in
    if (token == eos_id) && not ignore then [] else token ∷ rest

-- What has become of a sequence with `n` tokens to go after the tokens `ts`.
pub record Accepted (eos_id n : ℕ) (ts : List (ℕ × ℕ)) (q t : Sequence) : Type 0 where
  pub outputs :
      t.request.output_token_ids
      ≡ q.request.output_token_ids ++ take n (until_eos eos_id q.request.ignore_eos ts)
  pub ends : n ≤ length ts → t.finished ≡ true
  pub same_cache : t.cache ≡ q.cache

accept_eos :
    (eos_id token now : ℕ) (q : Sequence)
    → ((token == eos_id) && not q.request.ignore_eos) ≡ true
    → ((accept_token eos_id token now q).finished ≡ true)
      × ((accept_token eos_id token now q).request ≡ q.request)
      × ((accept_token eos_id token now q).cache ≡ q.cache)
unfolding accept_token
accept_eos eos_id token now q e = (rw e refl, rw e refl, rw e refl)

accept_other :
    (eos_id token now : ℕ) (q : Sequence)
    → ((token == eos_id) && not q.request.ignore_eos) ≡ false
    → q.finished ≡ false
    → ((accept_token eos_id token now q).finished
        ≡ leb q.request.max_tokens (output_len q.request + 1))
      × ((accept_token eos_id token now q).request ≡ record_token token now q.request)
      × ((accept_token eos_id token now q).cache ≡ q.cache)
unfolding accept_token record_token
accept_other eos_id token now q e f =
    elim (Bool-cases
      (leb q.request.max_tokens (length (q.request.output_token_ids ++ token ∷ [])))) [
        | inl t ↦
            rw (e, t)
              (ground (arith, length-append q.request.output_token_ids (token ∷ [])), refl, refl)
        | inr g ↦
            rw (e, g)
              (ground (arith, length-append q.request.output_token_ids (token ∷ [])), refl, refl)
      ]

Accepted-cons :
    (eos_id n token now : ℕ) (ts : List (ℕ × ℕ)) (q q' t : Sequence)
    → ((token == eos_id) && not q.request.ignore_eos) ≡ false
    → q'.request ≡ record_token token now q.request
    → q'.cache ≡ q.cache
    → Accepted eos_id n ts q' t
    → Accepted eos_id (suc n) ((token, now) ∷ ts) q t
unfolding until_eos record_token
Accepted-cons eos_id n token now ts q q' t e r c a = record {
  outputs =
      a.outputs
      ∙ ap₂ (λ o i. o ++ take n (until_eos eos_id i ts)) (ap (λ x. x.output_token_ids) r)
          (ap (λ x. x.params.ignore_eos) r)
      ∙ append_assoc q.request.output_token_ids (token ∷ [])
          (take n (until_eos eos_id q.request.ignore_eos ts))
      ∙ ap (λ x. q.request.output_token_ids ++ take (suc n) x)
          (sym (if_false ((token == eos_id) && not q.request.ignore_eos) _ _ e));
  ends = λ h. a.ends (omega arith);
  same_cache = a.same_cache ∙ c;
}

-- A running sequence with `n + 1` tokens to go: its output becomes the old one followed by the next
-- tokens, up to the first stop token that counts, and at most `n + 1` of them; and after as many
-- tokens it is finished. Its cache is untouched.
pub accept_all-Accepted :
    (eos_id n : ℕ) (ts : List (ℕ × ℕ)) (q : Sequence)
    → q.finished ≡ false
    → output_len q.request + suc n ≡ q.request.max_tokens
    → Accepted eos_id (suc n) ts q (accept_all eos_id ts q)
unfolding accept_all until_eos record_token
accept_all-Accepted eos_id n [] q f e = record {
  outputs = sym (append-nil q.request.output_token_ids);
  ends = λ h. absurd (omega arith);
  same_cache = refl;
}
accept_all-Accepted eos_id n ((token, now) ∷ ts) q f e =
    elim (Bool-cases ((token == eos_id) && not q.request.ignore_eos)) [
      | inl stop ↦
          let (done, request, cache) = accept_eos eos_id token now q stop in
          let ended : accept_all eos_id ((token, now) ∷ ts) q ≡ accept_token eos_id token now q =
            if_true _ _ _ done in
          subst (Accepted eos_id (suc n) ((token, now) ∷ ts) q) (sym ended) (record {
            outputs =
                ap (λ x. x.output_token_ids) request
                ∙ sym (append-nil q.request.output_token_ids)
                ∙ ap (λ x. q.request.output_token_ids ++ take (suc n) x)
                    (sym (if_true ((token == eos_id) && not q.request.ignore_eos) _ _ stop));
            ends = λ h. done;
            same_cache = cache;
          })
      | inr other ↦
          let (done, request, cache) = accept_other eos_id token now q other f in
          let q' = accept_token eos_id token now q in
          after n q' (λ m g h. accept_all-Accepted eos_id m ts q' g h) done request cache other e
    ]
  where
    after :
        (n : ℕ) (q' : Sequence)
        → ((m : ℕ)
            → q'.finished ≡ false
            → output_len q'.request + suc m ≡ q'.request.max_tokens
            → Accepted eos_id (suc m) ts q' (accept_all eos_id ts q'))
        → q'.finished ≡ leb q.request.max_tokens (output_len q.request + 1)
        → q'.request ≡ record_token token now q.request
        → q'.cache ≡ q.cache
        → ((token == eos_id) && not q.request.ignore_eos) ≡ false
        → output_len q.request + suc n ≡ q.request.max_tokens
        → Accepted eos_id
            (suc n)
            ((token, now) ∷ ts)
            q
            (if q'.finished then q' else accept_all eos_id ts q')
    after zero q' ih done request cache other e =
        let full : q'.finished ≡ true = done ∙ ground arith in
        subst (Accepted eos_id 1 ((token, now) ∷ ts) q) (sym (if_true q'.finished _ _ full)) (
          Accepted-cons eos_id 0 token now ts q q' q' other request cache (record {
            outputs = sym (append-nil q'.request.output_token_ids);
            ends = λ h. full;
            same_cache = refl;
          }))
    after (suc n) q' ih done request cache other e =
        let more : q'.finished ≡ false = done ∙ ground arith in
        subst (Accepted eos_id (suc (suc n)) ((token, now) ∷ ts) q)
          (sym (if_false q'.finished _ _ more))
          (Accepted-cons eos_id (suc n) token now ts q q' (accept_all eos_id ts q') other request
            cache
            (ih n more (
              omega (
                arith,
                ap output_len request,
                ap (λ (x : Request). x.params.max_tokens) request,
                length-append q.request.output_token_ids (token ∷ []),
              ))))
