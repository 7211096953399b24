-- ===== src/Prefix/Chain.antt =====
-- `hash_chain` of engine/prefix_cache.py: a key stands for everything up to the end of its block.
use nanoserve.Prelude.{
  ==→eq, ==→ne, Bool-cases, List, [], ap, append-nil, append_assoc, ap₂, arith, drop, get_elem?,
  inl, inr, length, refl, some, suc, sym, take, take_add, zero, ℕ, ◌*◌, ◌++◌, ◌+◌, ◌/◌, ◌==◌, ◌∙◌,
  ◌∷◌, ◌≡◌, ◌≢◌, ◌⊎◌,
}
use nanoserve.Prefix.{chain_from, hash_chain}

same_tokens : (xs ys : List ℕ) → (xs ≡ ys) ⊎ (xs ≢ ys)
same_tokens [] [] = inl refl
same_tokens [] (y ∷ ys) = inr (λ e. cc)
same_tokens (x ∷ xs) [] = inr (λ e. cc)
same_tokens (x ∷ xs) (y ∷ ys) = elim (Bool-cases (x == y)) [
  | inl same ↦ elim (same_tokens xs ys) [
    | inl rest ↦ inl (ap₂ ◌∷◌ (==→eq x y same) rest)
    | inr rest ↦ inr (λ e. rest (cc))
  ]
  | inr other ↦ inr (λ e. ==→ne x y other (cc))
]

-- The key of blocks, the last of which comes first.
module _ (hash : ℕ → List ℕ → ℕ) (root : ℕ) where
  abbrev pub digest : List (List ℕ) → ℕ
  digest [] = root
  digest (block ∷ before) = hash (digest before) block

  -- A collision among the calls of `hash` that make the keys of two lists of blocks: at the same
  -- distance from their ends, two calls with different arguments agree, or one list is at its start
  -- and the other one's call gives the seed.
  pub data Clash : List (List ℕ) → List (List ℕ) → Type 0 where
    at_end :
        (x y : List ℕ) (xs ys : List (List ℕ))
        → hash (digest xs) x ≡ hash (digest ys) y
        → (digest xs ≢ digest ys) ⊎ (x ≢ y)
        → Clash (x ∷ xs) (y ∷ ys)
    left_root : (x : List ℕ) (xs : List (List ℕ)) → hash (digest xs) x ≡ root → Clash (x ∷ xs) []
    right_root : (y : List ℕ) (ys : List (List ℕ)) → hash (digest ys) y ≡ root → Clash [] (y ∷ ys)
    earlier : (x y : List ℕ) (xs ys : List (List ℕ)) → Clash xs ys → Clash (x ∷ xs) (y ∷ ys)

  digest_agree : (xs ys : List (List ℕ)) → digest xs ≡ digest ys → (xs ≡ ys) ⊎ Clash xs ys
  digest_agree [] [] e = inl refl
  digest_agree [] (y ∷ ys) e = inr (right_root y ys (sym e))
  digest_agree (x ∷ xs) [] e = inr (left_root x xs e)
  digest_agree (x ∷ xs) (y ∷ ys) e = elim (Bool-cases (digest xs == digest ys)) [
    | inr other ↦ inr (at_end x y xs ys e (inl (==→ne _ _ other)))
    | inl same ↦ elim (same_tokens x y) [
      | inr other ↦ inr (at_end x y xs ys e (inr other))
      | inl block ↦ elim (digest_agree xs ys (==→eq _ _ same)) [
        | inl rest ↦ inl (ap₂ ◌∷◌ block rest)
        | inr clash ↦ inr (earlier x y xs ys clash)
      ]
    ]
  ]

-- The first `k` blocks of the tokens, the last first, before those of `acc`.
unfoldable pub blocks_back : ℕ → ℕ → List ℕ → List (List ℕ) → List (List ℕ)
blocks_back bs zero tokens acc = acc
blocks_back bs (suc k) tokens acc = blocks_back bs k (drop bs tokens) (take bs tokens ∷ acc)

joined : List (List ℕ) → List ℕ
joined [] = []
joined (block ∷ before) = joined before ++ block

length-blocks_back :
    (bs k : ℕ) (tokens : List ℕ) (acc : List (List ℕ))
    → length (blocks_back bs k tokens acc) ≡ k + length acc
unfolding blocks_back
length-blocks_back bs zero tokens acc = omega arith
length-blocks_back bs (suc k) tokens acc =
    omega (arith, length-blocks_back bs k (drop bs tokens) (take bs tokens ∷ acc))

joined-blocks_back :
    (bs k : ℕ) (tokens : List ℕ) (acc : List (List ℕ))
    → joined (blocks_back bs k tokens acc) ≡ joined acc ++ take (k * bs) tokens
unfolding blocks_back joined
joined-blocks_back bs zero tokens acc =
    let none_taken : 0 * bs ≡ 0 = omega arith in rw none_taken (sym (append-nil (joined acc)))
joined-blocks_back bs (suc k) tokens acc =
    let e : suc k * bs ≡ bs + k * bs = omega arith in
    joined-blocks_back bs k (drop bs tokens) (take bs tokens ∷ acc)
    ∙ append_assoc (joined acc) (take bs tokens) (take (k * bs) (drop bs tokens))
    ∙ ap (◌++◌ (joined acc)) (sym (take_add bs (k * bs) tokens) ∙ ap (λ n. take n tokens) (sym e))

module _ (hash : ℕ → List ℕ → ℕ) (root : ℕ) where
  nth_digest :
      (bs k i : ℕ) (tokens : List ℕ) (acc : List (List ℕ)) (h : ℕ)
      → get_elem? (chain_from hash bs k (digest hash root acc) tokens) i ≡ some h
      → h ≡ digest hash root (blocks_back bs (suc i) tokens acc)
  unfolding chain_from blocks_back
  nth_digest bs zero i tokens acc h e = cc
  nth_digest bs (suc k) zero tokens acc h e = ground arith
  nth_digest bs (suc k) (suc i) tokens acc h e =
      nth_digest bs k i (drop bs tokens) (take bs tokens ∷ acc) h e

  -- Two sequences meet in a key only at the same place, and only if all their tokens up to the end of
  -- that block agree; or else two of the calls of `hash` that made the two keys, with different
  -- arguments, have collided, or one of them has given the seed.
  pub same_key_same_context :
      (bs i j : ℕ) (ts us : List ℕ) (h : ℕ)
      → get_elem? (hash_chain hash root bs ts) i ≡ some h
      → get_elem? (hash_chain hash root bs us) j ≡ some h
      → ((i ≡ j) × (take (suc i * bs) ts ≡ take (suc j * bs) us))
        ⊎ Clash hash root (blocks_back bs (suc i) ts []) (blocks_back bs (suc j) us [])
  unfolding hash_chain joined
  same_key_same_context bs i j ts us h e f =
      let agree =
        digest_agree hash root (blocks_back bs (suc i) ts []) (blocks_back bs (suc j) us []) (
          sym (nth_digest bs (length ts / bs) i ts [] h e)
          ∙ nth_digest bs (length us / bs) j us [] h f) in
      elim agree [
        | inr clash ↦ inr clash
        | inl same ↦ inl (
          omega (
            arith,
            ap length same,
            length-blocks_back bs (suc i) ts [],
            length-blocks_back bs (suc j) us [],
          ),
          sym (joined-blocks_back bs (suc i) ts [])
              ∙ ap joined same
              ∙ joined-blocks_back bs (suc j) us [],
        )
      ]
