-- ===== src/Tokenizer/Vocab.antt =====
-- `_rebuild` of model/tokenizer.py: the bytes that each token stands for.
use nanoserve.Prelude.{
  ==→eq, Bool-cases, List, Option, [], ap, ap₂, arith, if_false, if_true, inl, inr, none,
  range_from, refl, some, suc, sym, zero, ℕ, ◌++◌, ◌+◌, ◌<◌, ◌==◌, ◌∙◌, ◌∷◌, ◌≡◌, ◌≤◌,
}
use nanoserve.Dict.{get, put, get-put}
use nanoserve.Tokenizer.{
  Rule, matches, merged_of, joined, byte_items, put_rule, then_rules, add_rules, rebuild,
}

-- Rules as `train` makes them: each gets the next number, and joins tokens made before it.
abbrev pub Trained : ℕ → List Rule → Type 0
Trained n [] = Unit {0}
Trained n (m ∷ ms) = (m.left < n) × (m.right < n) × (m.merged ≡ n) × Trained (n + 1) ms

-- Each token below `n` has its bytes.
abbrev Full : ℕ → List (ℕ × List ℕ) → Type 0
Full n vocab = (i : ℕ) → i < n → (x : List ℕ) × (get i vocab ≡ some x)

-- What `add_rules` makes of `vocab`.
pub record Built (n : ℕ) (ms : List Rule) (vocab out : List (ℕ × List ℕ)) : Type 0 where
  pub same_old : (i : ℕ) → i < n → get i out ≡ get i vocab
  pub joins :
      (a b new : ℕ) → merged_of ms a b ≡ some new → get new out ≡ joined (get a out) (get b out)

Full-put :
    (n : ℕ) (x : List ℕ) (vocab : List (ℕ × List ℕ)) → Full n vocab → Full (n + 1) (put n x vocab)
Full-put n x vocab f i h = elim (Bool-cases (n == i)) [
  | inl here ↦ (x, get-put n i x vocab ∙ if_true (n == i) _ _ here)
  | inr other ↦
      let (y, e) = f i (ground arith) in (y, get-put n i x vocab ∙ if_false (n == i) _ _ other ∙ e)
]

abbrev get_number : Option ℕ → ℕ
get_number none = 0
get_number (some n) = n

Built-cons :
    (n : ℕ) (m : Rule) (ms : List Rule) (bytes : List ℕ) (vocab out : List (ℕ × List ℕ))
    → m.left < n
    → m.right < n
    → m.merged ≡ n
    → joined (get m.left vocab) (get m.right vocab) ≡ some bytes
    → Built (n + 1) ms (put n bytes vocab) out
    → Built n (m ∷ ms) vocab out
unfolding merged_of
Built-cons n m ms bytes vocab out l r e j b = record { same_old = old; joins = joins }
  where
    old : (i : ℕ) → i < n → get i out ≡ get i vocab
    old i h =
        b.same_old i (omega arith) ∙ get-put n i bytes vocab ∙ if_false (n == i) _ _ (ground arith)

    new_bytes : get n out ≡ some bytes
    new_bytes =
        b.same_old n (omega arith) ∙ get-put n n bytes vocab ∙ if_true (n == n) _ _ (ground arith)

    joins :
        (x y new : ℕ)
        → merged_of (m ∷ ms) x y ≡ some new
        → get new out ≡ joined (get x out) (get y out)
    joins x y new h = elim (Bool-cases (matches m x y)) [
      | inl here ↦
          let left : m.left ≡ x = ground (arith, ==→eq m.left x) in
          let right : m.right ≡ y = ground (arith, ==→eq m.right y) in
          let same : some m.merged ≡ some new = sym (if_true (matches m x y) _ _ here) ∙ h in
          let number : new ≡ n = omega (arith, ap (λ o. get_number o) same, e) in
          ap (λ k. get k out) number
          ∙ new_bytes
          ∙ sym j
          ∙ ap₂ joined (sym (old m.left l) ∙ ap (λ k. get k out) left)
              (sym (old m.right r) ∙ ap (λ k. get k out) right)
      | inr other ↦ b.joins x y new (sym (if_false (matches m x y) _ _ other) ∙ h)
    ]

-- `_rebuild` of trained rules raises nothing: each rule's token stands for the bytes of its two
-- parts, and the tokens before keep theirs.
pub add_rules-Built :
    (n : ℕ) (ms : List Rule) (vocab : List (ℕ × List ℕ))
    → Trained n ms
    → Full n vocab
    → (out : List (ℕ × List ℕ)) × (add_rules ms vocab ≡ some out) × Built n ms vocab out
unfolding add_rules merged_of
add_rules-Built n [] vocab t f =
    (vocab, refl, record { same_old = λ i h. refl; joins = λ a b new h. cc })
add_rules-Built n (m ∷ ms) vocab (l, r, e, t) f =
    let (x, ex) = f m.left l in
    let (y, ey) = f m.right r in
    let j : joined (get m.left vocab) (get m.right vocab) ≡ some (x ++ y) = ap₂ joined ex ey in
    let (out, run, b) =
      add_rules-Built (n + 1) ms (put n (x ++ y) vocab) t (Full-put n (x ++ y) vocab f) in
    (
      out,
      ap (λ o. then_rules (add_rules ms) (put_rule m o vocab)) j
          ∙ ap (λ k. add_rules ms (put k (x ++ y) vocab)) e
          ∙ run,
      Built-cons n m ms (x ++ y) vocab out l r e j b,
    )

get-byte_items :
    (i n k : ℕ) → i ≤ k → k < i + n → get k (byte_items (range_from i n)) ≡ some (k ∷ [])
unfolding get
get-byte_items i zero k h l = absurd (omega arith)
get-byte_items i (suc n) k h l = elim (Bool-cases (i == k)) [
  | inl here ↦ if_true (i == k) _ _ here ∙ ap (λ j. some (j ∷ [])) (==→eq i k here)
  | inr other ↦
      if_false (i == k) _ _ other ∙ get-byte_items (i + 1) n k (ground arith) (omega arith)
]

-- The vocabulary of trained rules.
pub rebuild-Built :
    (ms : List Rule)
    → Trained 256 ms
    → (vocab : List (ℕ × List ℕ)) × (rebuild ms ≡ some vocab)
      × ((k : ℕ) → k < 256 → get k vocab ≡ some (k ∷ []))
      × ((a b new : ℕ)
          → merged_of ms a b ≡ some new
          → get new vocab ≡ joined (get a vocab) (get b vocab))
unfolding rebuild
rebuild-Built ms t =
    let bytes = byte_items (range_from 0 256) in
    let (out, run, b) =
      add_rules-Built 256 ms bytes t (λ i h. (i ∷ [], get-byte_items 0 256 i (omega arith) h)) in
    (out, run, λ k h. b.same_old k h ∙ get-byte_items 0 256 k (omega arith) h, b.joins)
