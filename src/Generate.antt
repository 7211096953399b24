-- ===== src/Generate.antt =====
-- `generate_stream` of model/generate.py under greedy decoding. The argmax over logits, the encoded
-- prompt, the vocabulary of the tokenizer and Python's reading of bytes as UTF-8 are parameters.
pub mod Feed
pub mod Greedy
pub mod Tests
use nanoserve.Prelude.{
  Bool, List, Option, [], drop, false, get_last?, if◌then◌else◌, length, ltb, none, some, suc, true,
  zero, ℕ, ◌&&◌, ◌++◌, ◌==◌, ◌∷◌,
}
use nanoserve.Tokenizer.{decode_bytes}
use nanoserve.Model.{Network, Dynamic, no_rows, forward_plain, forward_cached}

-- The argmax of the last logits. A call of the model returns logits for each of its tokens, and is
-- given at least one; for none, where the source raises, the 0 stands for nothing.
unfoldable pub pick_last {ℓ} : {L : Type ℓ} → (L → ℕ) → List L → ℕ
pick_last pick [] = 0
pick_last pick (l ∷ []) = pick l
pick_last pick (l ∷ m ∷ ls) = pick_last pick (m ∷ ls)

-- `if not ids: ids = [tokenizer.eos_id]`
abbrev pub or_end : ℕ → List ℕ → List ℕ
or_end eos_id [] = eos_id ∷ []
or_end eos_id (t ∷ ts) = t ∷ ts

-- `BPETokenizer.decode` of model/tokenizer.py: the code points that Python reads from the bytes of the
-- tokens, or none where a token is not in the vocabulary, which raises.
unfoldable pub decode : (List ℕ → List ℕ) → List (ℕ × List ℕ) → List ℕ → Option (List ℕ)
unfolding decode_bytes
decode utf8 vocab ids = elim (decode_bytes vocab ids) [ none ↦ none | some buf ↦ some (utf8 buf) ]

-- `text.endswith` of the replacement character, U+FFFD.
unfoldable pub held : List ℕ → Bool
held text = elim (get_last? text) [ none ↦ false | some c ↦ c == 65533 ]

-- What is yielded, `produced` at the end, and whether it ends with an exception.
abbrev pub Streamed : Type 0
Streamed = List (List ℕ) × List ℕ × Bool

-- What follows on a token that is produced: with its text held back the loop goes on as `same`,
-- without the call of the model; else as `next`, which takes the length that has been emitted.
unfoldable pub deliver : List ℕ → ℕ → Streamed → (ℕ → Streamed) → Option (List ℕ) → Streamed
unfolding held
deliver produced emitted same next none = ([], produced, true)
deliver produced emitted same next (some text) =
    let (texts, tokens, raised) = next (length text) in
    if held text
    then same
    else if ltb emitted (length text)
    then (drop emitted text ∷ texts, tokens, raised)
    else next emitted

module _ {H V L : Type 0} (net : Network H V L) (n : ℕ) (pick : L → ℕ) (eos_id : ℕ)
    (stop_at_eos : Bool) (utf8 : List ℕ → List ℕ) (vocab : List (ℕ × List ℕ)) where
  -- The loop, for `k` more tokens. With a text held back the next token is picked from the same
  -- logits.
  unfoldable pub generate_loop : ℕ → List L → Dynamic V → List ℕ → ℕ → Streamed
  unfolding pick_last forward_cached decode deliver
  generate_loop zero logits cache produced emitted = ([], produced, false)
  generate_loop (suc k) logits cache produced emitted =
      let token = pick_last pick logits in
      let produced' = produced ++ token ∷ [] in
      let (logits', cache') = forward_cached net n (token ∷ []) cache in
      let rest =
        deliver produced' emitted (generate_loop k logits cache produced' emitted)
          (λ e. generate_loop k logits' cache' produced' e) (decode utf8 vocab produced') in
      if stop_at_eos && (token == eos_id) then ([], produced, false) else rest

  -- `generate_stream` for the tokens of a prompt.
  unfoldable pub generate_stream : ℕ → List ℕ → Streamed
  unfolding generate_loop forward_cached
  generate_stream max_new_tokens prompt =
      let (logits, cache) = forward_cached net n (or_end eos_id prompt) no_rows in
      generate_loop max_new_tokens logits cache [] 0

  -- The same without a cache: each token is picked after a pass over all the tokens `fed` before it,
  -- which are the prompt and the tokens whose text was not held back.
  unfoldable pub recompute : ℕ → List ℕ → List ℕ → ℕ → Streamed
  unfolding pick_last forward_plain decode deliver
  recompute zero fed produced emitted = ([], produced, false)
  recompute (suc k) fed produced emitted =
      let token = pick_last pick (forward_plain net n fed) in
      let produced' = produced ++ token ∷ [] in
      let rest =
        deliver produced' emitted (recompute k fed produced' emitted)
          (λ e. recompute k (fed ++ token ∷ []) produced' e) (decode utf8 vocab produced') in
      if stop_at_eos && (token == eos_id) then ([], produced, false) else rest
