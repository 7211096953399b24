-- ===== src/Model/Cached.antt =====
-- Decoding with a `DynamicCache` against recomputing everything (model/transformer.py).
use nanoserve.Prelude.{
  ==→eq, ==→ne, Bool-cases, List, [], ap, append-nil, append_assoc, ap₂, arith, fun_ext, if_false,
  if_true, inl, inr, length, length-append, refl, subst, suc, sym, zero, ℕ, ◌++◌, ◌+◌, ◌<◌, ◌==◌,
  ◌∙◌, ◌∷◌, ◌≡◌, ◌≢◌,
}
use nanoserve.Paged.{Side, keys, values}
use nanoserve.Model.{
  Network, Dynamic, no_rows, dynamic_update, embed_rows, project_rows, attend_all, plain_layers,
  dynamic_layers, heads, forward_plain, forward_cached, run_chunks, attend_rows,
}
use nanoserve.Model.Split.{
  Even, Agree, layer_split, project_rows-append, length-project_rows, embed_rows-append,
  length-embed_rows, heads-append,
}

-- The tokens of all chunks.
abbrev pub joined : List (List ℕ) → List ℕ
joined [] = []
joined (tokens ∷ chunks) = tokens ++ joined chunks

module _ {H V L : Type 0} (net : Network H V L) where
  -- A layer leaves the rows of the others alone.
  abbrev pub after : ℕ → List (ℕ × H) → Dynamic V → Dynamic V
  after layer rows d = (dynamic_update layer (project_rows net layer rows) d).1

  abbrev pub reads : ℕ → List (ℕ × H) → Dynamic V → Side → List V
  reads layer rows d side = d side layer ++ project_rows net layer rows side

  after_here :
      (layer : ℕ) (rows : List (ℕ × H)) (d : Dynamic V) (side : Side)
      → after layer rows d side layer ≡ reads layer rows d side
  unfolding dynamic_update
  after_here layer rows d side = if_true (layer == layer) _ _ (ground arith)

  pub after_there :
      (layer l : ℕ) (rows : List (ℕ × H)) (d : Dynamic V) (side : Side)
      → l ≢ layer
      → after layer rows d side l ≡ d side l
  unfolding dynamic_update
  after_there layer l rows d side h = if_false (l == layer) _ _ (ground (arith, h))

  -- The layers from `layer` on leave the ones below alone.
  pub dynamic_layers-below :
      (k layer l : ℕ) (rows : List (ℕ × H)) (d : Dynamic V) (side : Side)
      → l < layer
      → (dynamic_layers net k layer rows d).1 side l ≡ d side l
  unfolding dynamic_layers dynamic_update
  dynamic_layers-below zero layer l rows d side h = refl
  dynamic_layers-below (suc k) layer l rows d side h =
      dynamic_layers-below k (layer + 1) l (attend_all net layer rows (reads layer rows d))
        (after layer rows d) side (omega arith)
      ∙ after_there layer l rows d side (ground (arith, h))

  -- What a layer holds at the end: what it held, and the rows of the tokens that went through it.
  pub dynamic_layers-here :
      (k layer : ℕ) (rows : List (ℕ × H)) (d : Dynamic V) (side : Side)
      → (dynamic_layers net (suc k) layer rows d).1 side layer ≡ reads layer rows d side
  unfolding dynamic_layers dynamic_update
  dynamic_layers-here k layer rows d side =
      dynamic_layers-below k (layer + 1) layer (attend_all net layer rows (reads layer rows d))
        (after layer rows d) side (omega arith)
      ∙ after_here layer rows d side

  after-Agree :
      (layer : ℕ) (rs ss : List (ℕ × H)) (d e : Dynamic V)
      → Agree layer d e
      → Agree (layer + 1) (after layer rs d) (after layer ss e)
  after-Agree layer rs ss d e a side l h =
      after_there layer l rs d side (ground (arith, h))
      ∙ a side l (omega arith)
      ∙ sym (after_there layer l ss e side (ground (arith, h)))

  -- A sequence through the layers in two parts: the second part over what the first part left.
  parts :
      (k layer : ℕ) (rs ss : List (ℕ × H)) (d e f : Dynamic V)
      → Even layer d
      → Agree layer d e
      → Agree layer f (dynamic_layers net k layer rs e).1
      → ((dynamic_layers net k layer (rs ++ ss) d).0
          ≡ (dynamic_layers net k layer rs e).0 ++ (dynamic_layers net k layer ss f).0)
        × Agree layer
            (dynamic_layers net k layer (rs ++ ss) d).1
            (dynamic_layers net k layer ss f).1
  unfolding dynamic_layers dynamic_update
  parts zero layer rs ss d e f even a b = (refl, λ side l h. a side l h ∙ sym (b side l h))
  parts (suc k) layer rs ss d e f even a b =
      let held : (side : Side) → f side layer ≡ reads layer rs d side = λ side.
        b side layer (omega arith)
        ∙ dynamic_layers-here k layer rs e side
        ∙ ap (λ xs. xs ++ project_rows net layer rs side) (sym (a side layer (omega arith))) in
      let one : attend_all net layer (rs ++ ss) (reads layer (rs ++ ss) d)
          ≡ attend_all net layer rs (reads layer rs e)
            ++ attend_all net layer ss (reads layer ss f) =
        layer_split net layer rs ss (λ side. d side layer) (even layer (omega arith))
        ∙ ap₂ ◌++◌
            (ap (attend_all net layer rs) (
              fun_ext (λ side.
                ap (λ xs. xs ++ project_rows net layer rs side) (a side layer (omega arith)))))
            (ap (attend_all net layer ss) (
              fun_ext
                (λ side. ap (λ xs. xs ++ project_rows net layer ss side) (sym (held side))))) in
      let (same, agree) =
        parts k (layer + 1) (attend_all net layer rs (reads layer rs e))
          (attend_all net layer ss (reads layer ss f)) (after layer (rs ++ ss) d) (after layer rs e)
          (after layer ss f)
          (λ l h.
            ap length (after_there layer l (rs ++ ss) d keys (ground (arith, h)))
            ∙ even l (omega arith)
            ∙ sym (ap length (after_there layer l (rs ++ ss) d values (ground (arith, h)))))
          (after-Agree layer (rs ++ ss) rs d e a)
          (λ side l h.
            after_there layer l ss f side (ground (arith, h)) ∙ b side l (omega arith)) in
      let start =
        λ (rows : List (ℕ × H)). dynamic_layers net k (layer + 1) rows (after layer (rs ++ ss) d) in
      (
        ap (λ rows. (start rows).0) one ∙ same,
        λ side l h. elim (Bool-cases (l == layer)) [
          | inl here ↦
              subst
                (λ j.
                  (dynamic_layers net (suc k) layer (rs ++ ss) d).1 side j
                  ≡ (dynamic_layers net (suc k) layer ss f).1 side j)
                (sym (==→eq l layer here))
                (dynamic_layers-here k layer (rs ++ ss) d side
                  ∙ ap (◌++◌ (d side layer)) (project_rows-append net layer rs ss side)
                  ∙ sym (
                      append_assoc (d side layer) (project_rows net layer rs side)
                        (project_rows net layer ss side))
                  ∙ ap (λ xs. xs ++ project_rows net layer ss side) (sym (held side))
                  ∙ sym (dynamic_layers-here k layer ss f side))
          | inr there ↦
              ap (λ rows. (start rows).1 side l) one
              ∙ agree side l (omega (arith, ==→ne l layer there))
        ],
      )

  dynamic_layers-Even :
      (k layer : ℕ) (rows : List (ℕ × H)) (d : Dynamic V)
      → Even 0 d
      → Even 0 (dynamic_layers net k layer rows d).1
  unfolding dynamic_layers dynamic_update
  dynamic_layers-Even zero layer rows d even = even
  dynamic_layers-Even (suc k) layer rows d even =
      dynamic_layers-Even k (layer + 1) (attend_all net layer rows (reads layer rows d))
        (after layer rows d)
        (λ l h. elim (Bool-cases (l == layer)) [
          | inl here ↦
              let size = λ (side : Side).
                length-append (d side layer) (project_rows net layer rows side)
                ∙ ap (λ n. length (d side layer) + n) (length-project_rows net layer rows side) in
              subst (λ j. length (after layer rows d keys j) ≡ length (after layer rows d values j))
                (sym (==→eq l layer here))
                (ap length (after_here layer rows d keys)
                  ∙ size keys
                  ∙ ap (λ n. n + length rows) (even layer (omega arith))
                  ∙ sym (size values)
                  ∙ sym (ap length (after_here layer rows d values)))
          | inr there ↦
              ap length (after_there layer l rows d keys (==→ne l layer there))
              ∙ even l h
              ∙ sym (ap length (after_there layer l rows d values (==→ne l layer there)))
        ])

  dynamic_layers-nil : (k layer : ℕ) (d : Dynamic V) → dynamic_layers net k layer [] d ≡ ([], d)
  unfolding dynamic_layers dynamic_update project_rows attend_all attend_rows
  dynamic_layers-nil zero layer d = refl
  dynamic_layers-nil (suc k) layer d =
      dynamic_layers-nil k (layer + 1) (after layer [] d)
      ∙ ap (λ e. ([], e))
          (fun_ext (λ side. fun_ext (λ l. elim (Bool-cases (l == layer)) [
            | inl here ↦ if_true (l == layer) _ _ here ∙ append-nil (d side l)
            | inr there ↦ if_false (l == layer) _ _ there
          ])))

  -- Without a cache, and from a cache that is empty.
  pub plain-dynamic :
      (k layer : ℕ) (rows : List (ℕ × H)) (d : Dynamic V)
      → Agree layer d no_rows
      → plain_layers net k layer rows ≡ (dynamic_layers net k layer rows d).0
  unfolding plain_layers dynamic_layers dynamic_update
  plain-dynamic zero layer rows d a = refl
  plain-dynamic (suc k) layer rows d a =
      ap (λ r. plain_layers net k (layer + 1) (attend_all net layer rows r))
        (fun_ext (λ side.
          ap (λ xs. xs ++ project_rows net layer rows side) (sym (a side layer (omega arith)))))
      ∙ plain-dynamic k (layer + 1) (attend_all net layer rows (reads layer rows d))
          (after layer rows d)
          (λ side l h. after_there layer l rows d side (ground (arith, h)) ∙ a side l (omega arith))

  abbrev pub behind : List L → List L × Dynamic V → List L × Dynamic V
  behind logits (more, d) = (logits ++ more, d)

  -- Two calls on a cache are one call with the tokens of both.
  pub forward_cached-append :
      (n : ℕ) (ts us : List ℕ) (d : Dynamic V)
      → 0 < n
      → Even 0 d
      → forward_cached net n (ts ++ us) d
        ≡ behind
            (forward_cached net n ts d).0
            (forward_cached net n us (forward_cached net n ts d).1)
  unfolding forward_cached
  forward_cached-append zero ts us d pos even = absurd (omega arith)
  forward_cached-append (suc n) ts us d pos even =
      let p = length (d keys 0) in
      let rs = embed_rows net ts p in
      let f = (dynamic_layers net (suc n) 0 rs d).1 in
      let at : length (f keys 0) ≡ p + length ts =
        ap length (dynamic_layers-here n 0 rs d keys)
        ∙ length-append (d keys 0) (project_rows net 0 rs keys)
        ∙ ap (λ m. p + m) (length-project_rows net 0 rs keys ∙ length-embed_rows net ts p) in
      let ss = embed_rows net us (length (f keys 0)) in
      let (rows, held) = parts (suc n) 0 rs ss d d f even (λ side l h. refl) (λ side l h. refl) in
      let split : embed_rows net (ts ++ us) p ≡ rs ++ ss =
        embed_rows-append net ts us p ∙ ap (λ q. rs ++ embed_rows net us q) (sym at) in
      let run = λ (r : List (ℕ × H)). dynamic_layers net (suc n) 0 r d in
      ap (λ r. (heads net (run r).0, (run r).1)) split
      ∙ ap₂ (λ x y. (x, y))
          (ap (heads net) rows ∙ heads-append net (run rs).0 (dynamic_layers net (suc n) 0 ss f).0)
          (fun_ext (λ side. fun_ext (λ l. held side l (omega arith))))

  forward_cached-nil : (n : ℕ) (d : Dynamic V) → forward_cached net n [] d ≡ ([], d)
  unfolding forward_cached embed_rows heads
  forward_cached-nil n d =
      ap (λ (r : List (ℕ × H) × Dynamic V). (heads net r.0, r.1)) (dynamic_layers-nil n 0 d)

  pub forward_cached-Even :
      (n : ℕ) (ts : List ℕ) (d : Dynamic V) → Even 0 d → Even 0 (forward_cached net n ts d).1
  unfolding forward_cached
  forward_cached-Even n ts d = dynamic_layers-Even n 0 (embed_rows net ts (length (d keys 0))) d

  run_chunks-joined :
      (n : ℕ) (chunks : List (List ℕ)) (d : Dynamic V)
      → 0 < n
      → Even 0 d
      → forward_cached net n (joined chunks) d ≡ run_chunks net n chunks d
  unfolding run_chunks
  run_chunks-joined n [] d pos even = forward_cached-nil n d
  run_chunks-joined n (ts ∷ chunks) d pos even =
      let (o, d') = forward_cached net n ts d in
      forward_cached-append n ts (joined chunks) d pos even
      ∙ ap (behind o) (run_chunks-joined n chunks d' pos (forward_cached-Even n ts d even))

  -- However a sequence is cut into chunks (a prompt and then a token at a time, say), running them
  -- one after the other over a `DynamicCache` gives the logits that one pass without a cache over
  -- the whole sequence gives. A network has at least one layer.
  pub run_chunks-forward_plain :
      (n : ℕ) (chunks : List (List ℕ))
      → 0 < n
      → (run_chunks net n chunks no_rows).0 ≡ forward_plain net n (joined chunks)
  unfolding forward_plain forward_cached
  run_chunks-forward_plain n chunks pos =
      ap (λ r. r.0) (sym (run_chunks-joined n chunks no_rows pos (λ l h. refl)))
      ∙ ap (heads net)
          (sym (plain-dynamic n 0 (embed_rows net (joined chunks) 0) no_rows (λ side l h. refl)))
