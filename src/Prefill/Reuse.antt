-- ===== src/Prefill/Reuse.antt =====
-- The blocks that `match` of engine/prefix_cache.py returns are distinct, and no more than the prompt
-- has.
use nanoserve.Prelude.{
  ==→eq, Bool-cases, Distinct, List, Option-cases, [], ap, arith, count, drop, if_false, if_true,
  inl, inr, length, ltb, ltb→ge, ltb→lt, none, refl, some, suc, take, zero, ℕ, ◌*◌, ◌/◌, ◌<◌, ◌==◌,
  ◌∙◌, ◌∷◌, ◌≡◌, ◌≢◌, ◌≤◌,
}
use native.Mathlib.Nat.{div-mul-le_self}
use nanoserve.Dict.{get}
use nanoserve.Prefix.{Entry, chain_from, hash_chain}
use nanoserve.Prefix.Invariant.{block_at, blocks_of}
use nanoserve.Prefix.Match.{longest, while_found}

block_at-count :
    (h b : ℕ) (d : List (ℕ × Entry)) → block_at h d ≡ some b → 0 < count b (blocks_of d)
unfolding block_at get
block_at-count h b [] e = cc
block_at-count h b ((j, x) ∷ d) e = ground (arith, block_at-count h b d)

-- A block is under one key.
block_at_twice :
    (h j b : ℕ) (d : List (ℕ × Entry))
    → h ≢ j
    → block_at h d ≡ some b
    → block_at j d ≡ some b
    → 2 ≤ count b (blocks_of d)
unfolding block_at get
block_at_twice h j b [] ne e f = cc
block_at_twice h j b ((k, x) ∷ d) ne e f =
    ground (arith, block_at-count h b d, block_at-count j b d, block_at_twice h j b d ne)

longest_hit :
    (j c : ℕ) (hs : List ℕ) (d : List (ℕ × Entry))
    → block_at j d ≡ some c
    → longest (j ∷ hs) d ≡ c ∷ longest hs d
unfolding longest while_found
longest_hit j c hs d e = ap (λ o. while_found o (longest hs d)) e

longest_miss :
    (j : ℕ) (hs : List ℕ) (d : List (ℕ × Entry)) → block_at j d ≡ none → longest (j ∷ hs) d ≡ []
unfolding longest while_found
longest_miss j hs d e = ap (λ o. while_found o (longest hs d)) e

count-longest :
    (h b : ℕ) (hs : List ℕ) (d : List (ℕ × Entry))
    → Distinct (blocks_of d)
    → block_at h d ≡ some b
    → count b (longest hs d) ≤ count h hs
unfolding longest
count-longest h b [] d one e = omega arith
count-longest h b (j ∷ hs) d one e = elim (Option-cases (block_at j d)) [
  | inl miss ↦ omega (arith, ap (count b) (longest_miss j hs d miss))
  | inr (c, hit) ↦
      let rest = count-longest h b hs d one e in
      let all = ap (count b) (longest_hit j c hs d hit) in
      elim (Bool-cases (c == b)) [
        | inl same ↦ elim (Bool-cases (j == h)) [
          | inl here ↦ omega (
            arith,
            all,
            rest,
            if_true {A = ℕ} (c == b) 1 0 same,
            if_true {A = ℕ} (j == h) 1 0 here,
          )
          | inr other ↦ absurd (
              omega (
                arith,
                one b,
                block_at_twice h j b d (ground (arith, other)) e
                    (hit ∙ ap (λ x. some x) (==→eq c b same)),
              ))
        ]
        | inr differs ↦ omega (arith, all, rest, if_false {A = ℕ} (c == b) 1 0 differs)
      ]
]

first_key :
    (b : ℕ) (hs : List ℕ) (d : List (ℕ × Entry))
    → 0 < count b (longest hs d)
    → (h : ℕ) × (block_at h d ≡ some b)
unfolding longest
first_key b [] d pos = absurd (omega arith)
first_key b (j ∷ hs) d pos = elim (Option-cases (block_at j d)) [
  | inl miss ↦ absurd (omega (arith, pos, ap (count b) (longest_miss j hs d miss)))
  | inr (c, hit) ↦
      let all = ap (count b) (longest_hit j c hs d hit) in
      elim (Bool-cases (c == b)) [
        | inl same ↦ (j, hit ∙ ap (λ x. some x) (==→eq c b same))
        | inr differs ↦
            first_key b hs d (omega (arith, pos, all, if_false {A = ℕ} (c == b) 1 0 differs))
      ]
]

-- Where the keys of a prompt are distinct, so are the blocks that it finds.
pub longest-Distinct :
    (hs : List ℕ) (d : List (ℕ × Entry))
    → Distinct (blocks_of d)
    → Distinct hs
    → Distinct (longest hs d)
longest-Distinct hs d one keys b = elim (Bool-cases (ltb 0 (count b (longest hs d)))) [
  | inl some_block ↦
      let (h, e) = first_key b hs d (ltb→lt _ _ some_block) in
      omega (arith, keys h, count-longest h b hs d one e)
  | inr none_found ↦ omega (arith, ltb→ge _ _ none_found)
]

pub length-longest : (hs : List ℕ) (d : List (ℕ × Entry)) → length (longest hs d) ≤ length hs
unfolding longest
length-longest [] d = omega arith
length-longest (h ∷ hs) d = elim (Option-cases (block_at h d)) [
  | inl miss ↦ omega (arith, ap length (longest_miss h hs d miss))
  | inr (c, hit) ↦ omega (arith, ap length (longest_hit h c hs d hit), length-longest hs d)
]

length-chain_from :
    (hash : ℕ → List ℕ → ℕ) (bs k parent : ℕ) (tokens : List ℕ)
    → length (chain_from hash bs k parent tokens) ≡ k
unfolding chain_from
length-chain_from hash bs zero parent tokens = refl
length-chain_from hash bs (suc k) parent tokens =
    ap suc (length-chain_from hash bs k (hash parent (take bs tokens)) (drop bs tokens))

pub length-hash_chain :
    (hash : ℕ → List ℕ → ℕ) (root bs : ℕ) (tokens : List ℕ)
    → length (hash_chain hash root bs tokens) * bs ≤ length tokens
unfolding hash_chain
length-hash_chain hash root bs tokens = omega (
  arith,
  ap (λ n. n * bs) (length-chain_from hash bs (length tokens / bs) root tokens),
  div-mul-le_self (length tokens) bs,
)
