-- ===== src/Tokenizer.antt =====
-- `BPETokenizer` of model/tokenizer.py: the encoding of one piece by merges in rank order, and the
-- decoding of tokens to bytes. The split of a text into pieces is a regular expression of a third
-- party, and special tokens are matched by one too: both are left out.
pub mod Merge
pub mod Vocab
pub mod Encode
mod Tests
use nanoserve.Prelude.{
  Bool, List, Option, [], if◌then◌else◌, length, ltb, none, range_from, some, suc, zero, ℕ, ◌&&◌,
  ◌++◌, ◌+◌, ◌==◌, ◌∷◌,
}
use nanoserve.Dict.{get, put}

-- An item of `merges`; its rank is its place.
pub record Rule : Type 0 where
  pub left : ℕ
  pub right : ℕ
  pub merged : ℕ

abbrev pub matches : Rule → ℕ → ℕ → Bool
matches m a b = (m.left == a) && (m.right == b)

-- `self.ranks.get(pair)`, for the rules from the rank `i` on.
unfoldable pub rank_of : List Rule → ℕ → ℕ → ℕ → Option ℕ
rank_of [] i a b = none
rank_of (m ∷ ms) i a b = if matches m a b then some i else rank_of ms (i + 1) a b

-- `self.merges[best]`
unfoldable pub merged_of : List Rule → ℕ → ℕ → Option ℕ
merged_of [] a b = none
merged_of (m ∷ ms) a b = if matches m a b then some m.merged else merged_of ms a b

-- `_apply_merge`
unfoldable pub apply_merge : ℕ → ℕ → ℕ → List ℕ → List ℕ
apply_merge a b new [] = []
apply_merge a b new (x ∷ []) = x ∷ []
apply_merge a b new (x ∷ y ∷ ids) =
    let after_pair = apply_merge a b new ids in
    let after_one = apply_merge a b new (y ∷ ids) in
    if (x == a) && (y == b) then new ∷ after_pair else x ∷ after_one

-- The body of the loop over the pairs: `best` and `best_rank`, for the rank that the pair has.
abbrev pub better : ℕ → ℕ → Option ℕ → Option ((ℕ × ℕ) × ℕ) → Option ((ℕ × ℕ) × ℕ)
better a b none best = best
better a b (some rank) none = some ((a, b), rank)
better a b (some rank) (some (pair, best_rank)) =
    if ltb rank best_rank then some ((a, b), rank) else some (pair, best_rank)

unfoldable pub best_pair : List Rule → List ℕ → Option ((ℕ × ℕ) × ℕ) → Option ((ℕ × ℕ) × ℕ)
unfolding rank_of
best_pair ms [] best = best
best_pair ms (x ∷ []) best = best
best_pair ms (x ∷ y ∷ ids) best = best_pair ms (y ∷ ids) (better x y (rank_of ms 0 x y) best)

-- One merge of the loop, once `merges` has been read; `rest` is the loop on the new tokens.
unfoldable pub merge_with : (List ℕ → Option (List ℕ)) → ℕ → ℕ → List ℕ → Option ℕ → Option (List ℕ)
unfolding apply_merge
merge_with rest a b ids none = none
merge_with rest a b ids (some new) = rest (apply_merge a b new ids)

unfoldable pub merge_best :
    (List ℕ → Option (List ℕ)) → List Rule → List ℕ → Option ((ℕ × ℕ) × ℕ) → Option (List ℕ)
unfolding merged_of merge_with
merge_best rest ms ids none = some ids
merge_best rest ms ids (some ((a, b), rank)) = merge_with rest a b ids (merged_of ms a b)

-- The loop of `_encode_piece` on fuel: `none` when the fuel runs out, or for a missing key.
unfoldable pub merge_loop : ℕ → List Rule → List ℕ → Option (List ℕ)
unfolding best_pair merge_best
merge_loop zero ms ids = none
merge_loop (suc fuel) ms ids =
    let rest = merge_loop fuel ms in
    if ltb 1 (length ids) then merge_best rest ms ids (best_pair ms ids none) else some ids

-- Each merge makes the list shorter, so its length is enough fuel. The memo is left out.
unfoldable pub encode_piece : List Rule → List ℕ → Option (List ℕ)
unfolding merge_loop
encode_piece ms piece = merge_loop (length piece + 1) ms piece

abbrev pub joined : Option (List ℕ) → Option (List ℕ) → Option (List ℕ)
joined (some x) (some y) = some (x ++ y)
joined _ _ = none

-- The buffer of `decode`: the bytes of each token; a token that is not in the vocabulary raises.
unfoldable pub decode_bytes : List (ℕ × List ℕ) → List ℕ → Option (List ℕ)
decode_bytes vocab [] = some []
decode_bytes vocab (i ∷ ids) = joined (get i vocab) (decode_bytes vocab ids)

-- The bytes as tokens, `{i: bytes([i]) for i in range(BYTE_VOCAB_SIZE)}`.
abbrev pub byte_items : List ℕ → List (ℕ × List ℕ)
byte_items [] = []
byte_items (i ∷ is) = (i, i ∷ []) ∷ byte_items is

-- `self.vocab[new_id] = self.vocab[a] + self.vocab[b]`: a missing token raises.
abbrev pub put_rule : Rule → Option (List ℕ) → List (ℕ × List ℕ) → Option (List (ℕ × List ℕ))
put_rule m none vocab = none
put_rule m (some bytes) vocab = some (put m.merged bytes vocab)

abbrev pub then_rules :
    (List (ℕ × List ℕ) → Option (List (ℕ × List ℕ)))
    → Option (List (ℕ × List ℕ))
    → Option (List (ℕ × List ℕ))
then_rules rest none = none
then_rules rest (some vocab) = rest vocab

unfoldable pub add_rules : List Rule → List (ℕ × List ℕ) → Option (List (ℕ × List ℕ))
unfolding put
add_rules [] vocab = some vocab
add_rules (m ∷ ms) vocab =
    let rest = add_rules ms in
    then_rules rest (put_rule m (joined (get m.left vocab) (get m.right vocab)) vocab)

-- The vocabulary of `_rebuild`, without special tokens.
unfoldable pub rebuild : List Rule → Option (List (ℕ × List ℕ))
unfolding add_rules
rebuild ms = add_rules ms (byte_items (range_from 0 256))
