-- ===== src/Tokenizer/Encode.antt =====
-- `_encode_piece` and `decode` of model/tokenizer.py: what is encoded decodes to the same bytes.
use nanoserve.Prelude.{
  Bool-cases, List, Option, [], ap, ap₂, arith, if_false, if_true, inl, inr, length, ltb, none,
  refl, some, subst, suc, sym, zero, ℕ, ◌+◌, ◌<◌, ◌∙◌, ◌∷◌, ◌≡◌,
}
use nanoserve.Dict.{get}
use nanoserve.Tokenizer.{
  Rule, matches, rank_of, merged_of, apply_merge, better, best_pair, merge_with, merge_best,
  merge_loop, encode_piece, joined, decode_bytes, rebuild,
}
use nanoserve.Tokenizer.Merge.{Adjacent, apply_merge-lt, decode_bytes-apply_merge}
use nanoserve.Tokenizer.Vocab.{Trained, rebuild-Built}

-- A pair with a rank has a merge.
ranked-merged :
    (ms : List Rule) (i a b r : ℕ)
    → rank_of ms i a b ≡ some r
    → (new : ℕ) × (merged_of ms a b ≡ some new)
unfolding rank_of merged_of
ranked-merged [] i a b r h = cc
ranked-merged (m ∷ ms) i a b r h = elim (Bool-cases (matches m a b)) [
  | inl here ↦ (m.merged, if_true (matches m a b) _ _ here)
  | inr other ↦
      let (new, e) =
        ranked-merged ms (i + 1) a b r (sym (if_false (matches m a b) _ _ other) ∙ h) in
      (new, if_false (matches m a b) _ _ other ∙ e)
]

-- The best pair so far stands in the list and has a merge.
abbrev Found : List Rule → List ℕ → Option ((ℕ × ℕ) × ℕ) → Type 0
Found ms ids none = Unit {0}
Found ms ids (some ((a, b), rank)) = Adjacent a b ids × ((new : ℕ) × (merged_of ms a b ≡ some new))

better-Found :
    (ms : List Rule) (ids : List ℕ) (a b : ℕ) (r : Option ℕ) (best : Option ((ℕ × ℕ) × ℕ))
    → rank_of ms 0 a b ≡ r
    → Adjacent a b ids
    → Found ms ids best
    → Found ms ids (better a b r best)
better-Found ms ids a b none best e h f = f
better-Found ms ids a b (some r) none e h f = (h, ranked-merged ms 0 a b r e)
better-Found ms ids a b (some r) (some (pair, rank)) e h f = elim (Bool-cases (ltb r rank)) [
  | inl lower ↦
      subst (Found ms ids) (sym (if_true (ltb r rank) _ _ lower)) (h, ranked-merged ms 0 a b r e)
  | inr other ↦ subst (Found ms ids) (sym (if_false (ltb r rank) _ _ other)) f
]

best_pair-Found :
    (ms : List Rule) (all ids : List ℕ) (best : Option ((ℕ × ℕ) × ℕ))
    → ((a b : ℕ) → Adjacent a b ids → Adjacent a b all)
    → Found ms all best
    → Found ms all (best_pair ms ids best)
unfolding best_pair
best_pair-Found ms all [] best inside f = f
best_pair-Found ms all (x ∷ []) best inside f = f
best_pair-Found ms all (x ∷ y ∷ ids) best inside f =
    best_pair-Found ms all (y ∷ ids) (better x y (rank_of ms 0 x y) best)
      (λ a b h. inside a b (inr h))
      (better-Found ms all x y (rank_of ms 0 x y) best refl (inside x y (inl (refl, refl))) f)

-- One round, when the loop on a shorter list ends and keeps the bytes.
merge_best-bytes :
    (ms : List Rule) (vocab : List (ℕ × List ℕ)) (ids : List ℕ) (best : Option ((ℕ × ℕ) × ℕ))
    (rest : List ℕ → Option (List ℕ))
    → ((a b new : ℕ)
        → merged_of ms a b ≡ some new
        → get new vocab ≡ joined (get a vocab) (get b vocab))
    → ((short : List ℕ)
        → length short < length ids
        → (out : List ℕ) × (rest short ≡ some out)
          × (decode_bytes vocab out ≡ decode_bytes vocab short))
    → Found ms ids best
    → (out : List ℕ) × (merge_best rest ms ids best ≡ some out)
      × (decode_bytes vocab out ≡ decode_bytes vocab ids)
unfolding merge_best merge_with
merge_best-bytes ms vocab ids none rest joins loop f = (ids, refl, refl)
merge_best-bytes ms vocab ids (some ((a, b), rank)) rest joins loop (h, (new, e)) =
    let (out, run, same) = loop (apply_merge a b new ids) (apply_merge-lt a b new ids h) in
    (
      out,
      ap (merge_with rest a b ids) e ∙ run,
      same ∙ decode_bytes-apply_merge vocab a b new ids (joins a b new e),
    )

merge_loop-bytes :
    (fuel : ℕ) (ms : List Rule) (vocab : List (ℕ × List ℕ)) (ids : List ℕ)
    → ((a b new : ℕ)
        → merged_of ms a b ≡ some new
        → get new vocab ≡ joined (get a vocab) (get b vocab))
    → length ids < fuel
    → (out : List ℕ) × (merge_loop fuel ms ids ≡ some out)
      × (decode_bytes vocab out ≡ decode_bytes vocab ids)
unfolding merge_loop
merge_loop-bytes zero ms vocab ids joins h = absurd (omega arith)
merge_loop-bytes (suc fuel) ms vocab ids joins h = elim (Bool-cases (ltb 1 (length ids))) [
  | inl many ↦
      let (out, run, same) =
        merge_best-bytes ms vocab ids (best_pair ms ids none) (merge_loop fuel ms) joins
          (λ short k. merge_loop-bytes fuel ms vocab short joins (omega arith))
          (best_pair-Found ms ids ids none (λ a b k. k) tt) in
      (out, if_true (ltb 1 (length ids)) _ _ many ∙ run, same)
  | inr few ↦ (ids, if_false (ltb 1 (length ids)) _ _ few, refl)
]

-- Every item is a byte.
abbrev pub AllBytes : List ℕ → Type 0
AllBytes [] = Unit {0}
AllBytes (x ∷ xs) = (x < 256) × AllBytes xs

decode_bytes-AllBytes :
    (vocab : List (ℕ × List ℕ)) (xs : List ℕ)
    → ((k : ℕ) → k < 256 → get k vocab ≡ some (k ∷ []))
    → AllBytes xs
    → decode_bytes vocab xs ≡ some xs
unfolding decode_bytes
decode_bytes-AllBytes vocab [] single h = refl
decode_bytes-AllBytes vocab (x ∷ xs) single (h, hs) =
    ap₂ joined (single x h) (decode_bytes-AllBytes vocab xs single hs)

-- With rules as `train` makes them the vocabulary is complete, the encoding of a piece of bytes
-- ends and raises nothing, and decoding what it gives returns the piece.
pub decode_bytes-encode_piece :
    (ms : List Rule) (piece : List ℕ)
    → Trained 256 ms
    → AllBytes piece
    → (vocab : List (ℕ × List ℕ)) × (ids : List ℕ) × (rebuild ms ≡ some vocab)
      × (encode_piece ms piece ≡ some ids)
      × (decode_bytes vocab ids ≡ some piece)
unfolding encode_piece
decode_bytes-encode_piece ms piece t h =
    let (vocab, built, single, joins) = rebuild-Built ms t in
    let (ids, run, same) = merge_loop-bytes (length piece + 1) ms vocab piece joins (omega arith) in
    (vocab, ids, built, run, same ∙ decode_bytes-AllBytes vocab piece single h)
