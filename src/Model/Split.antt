-- ===== src/Model/Split.antt =====
-- A sequence run in two parts over a `DynamicCache` of model/transformer.py, and in one go.
use nanoserve.Prelude.{
  List, [], ap, append_assoc, ap₂, arith, length, length-append, refl, suc, sym, take,
  take-append_le, ℕ, ◌++◌, ◌+◌, ◌∙◌, ◌∷◌, ◌≡◌, ◌≤◌,
}
use nanoserve.Paged.{Side, keys, values}
use nanoserve.Model.{Network, Dynamic, embed_rows, project_rows, attend_all, heads}
use nanoserve.Model.Mask.{attend_from, attend_all-from}

-- The cache has as many keys as values at each layer from `layer` on.
abbrev pub Even : {V : Type 0} → ℕ → Dynamic V → Type 0
Even layer d = (l : ℕ) → layer ≤ l → length (d keys l) ≡ length (d values l)

-- Two caches agree from `layer` on.
abbrev pub Agree : {V : Type 0} → ℕ → Dynamic V → Dynamic V → Type 0
Agree layer d e = (side : Side) (l : ℕ) → layer ≤ l → d side l ≡ e side l

module _ {H V L : Type 0} (net : Network H V L) where
  pub length-project_rows :
      (layer : ℕ) (rows : List (ℕ × H)) (side : Side)
      → length (project_rows net layer rows side) ≡ length rows
  unfolding project_rows
  length-project_rows layer [] side = refl
  length-project_rows layer ((p, h) ∷ rows) side = ap suc (length-project_rows layer rows side)

  pub project_rows-append :
      (layer : ℕ) (rs ss : List (ℕ × H)) (side : Side)
      → project_rows net layer (rs ++ ss) side
        ≡ project_rows net layer rs side ++ project_rows net layer ss side
  unfolding project_rows
  project_rows-append layer [] ss side = refl
  project_rows-append layer ((p, h) ∷ rs) ss side =
      ap (◌∷◌ (net.project side layer p h)) (project_rows-append layer rs ss side)

  pub embed_rows-append :
      (ts us : List ℕ) (p : ℕ)
      → embed_rows net (ts ++ us) p ≡ embed_rows net ts p ++ embed_rows net us (p + length ts)
  unfolding embed_rows
  embed_rows-append [] us p = ap (embed_rows net us) (omega arith)
  embed_rows-append (t ∷ ts) us p = ap (◌∷◌ (p, net.embed t)) (
      embed_rows-append ts us (p + 1)
      ∙ ap (λ q. embed_rows net ts (p + 1) ++ embed_rows net us q) {y = p + length (t ∷ ts)}
          (omega arith))

  pub length-embed_rows : (ts : List ℕ) (p : ℕ) → length (embed_rows net ts p) ≡ length ts
  unfolding embed_rows
  length-embed_rows [] p = refl
  length-embed_rows (t ∷ ts) p = ap suc (length-embed_rows ts (p + 1))

  pub heads-append : (rs ss : List (ℕ × H)) → heads net (rs ++ ss) ≡ heads net rs ++ heads net ss
  unfolding heads
  heads-append [] ss = refl
  heads-append ((p, h) ∷ rs) ss = ap (◌∷◌ (net.head h)) (heads-append rs ss)

  attend_from-append :
      (layer n : ℕ) (rs ss : List (ℕ × H)) (ks vs : List V)
      → attend_from net layer n (rs ++ ss) ks vs
        ≡ attend_from net layer n rs ks vs ++ attend_from net layer (n + length rs) ss ks vs
  unfolding attend_from
  attend_from-append layer n [] ss ks vs = ap (λ m. attend_from net layer m ss ks vs) (omega arith)
  attend_from-append layer n ((p, h) ∷ rs) ss ks vs =
      ap (◌∷◌ (p, net.attend layer p h (take (suc n) ks) (take (suc n) vs))) (
        attend_from-append layer (suc n) rs ss ks vs
        ∙ ap (λ m. attend_from net layer (suc n) rs ks vs ++ attend_from net layer m ss ks vs)
            {y = n + length ((p, h) ∷ rs)} (omega arith))

  -- The queries of the first part do not see what comes behind it.
  attend_from-front :
      (layer n : ℕ) (rs : List (ℕ × H)) (ks vs more also : List V)
      → n + length rs ≤ length ks
      → length ks ≡ length vs
      → attend_from net layer n rs (ks ++ more) (vs ++ also) ≡ attend_from net layer n rs ks vs
  unfolding attend_from
  attend_from-front layer n [] ks vs more also h e = refl
  attend_from-front layer n ((p, x) ∷ rs) ks vs more also h e =
      ap₂ ◌∷◌
        (ap₂ (λ a b. (p, net.attend layer p x a b)) (take-append_le (suc n) ks more (omega arith))
          (take-append_le (suc n) vs also (omega arith)))
        (attend_from-front layer (suc n) rs ks vs more also (omega arith) e)

  -- What a layer returns to the tokens of one part.
  layer_reads :
      (layer : ℕ) (rows : List (ℕ × H)) (d : Side → List V)
      → length (d keys) ≡ length (d values)
      → attend_all net layer rows (λ side. d side ++ project_rows net layer rows side)
        ≡ attend_from net layer
            (length (d keys))
            rows
            (d keys ++ project_rows net layer rows keys)
            (d values ++ project_rows net layer rows values)
  layer_reads layer rows d e =
      let lk = length-project_rows layer rows keys in
      let lv = length-project_rows layer rows values in
      let ak = length-append (d keys) (project_rows net layer rows keys) in
      let av = length-append (d values) (project_rows net layer rows values) in
      attend_all-from net layer rows (λ side. d side ++ project_rows net layer rows side)
        (omega (arith, lk, lv, ak, av)) (omega (arith, lk, ak))
      ∙ ap
          (λ n.
            attend_from net layer n rows (d keys ++ project_rows net layer rows keys)
              (d values ++ project_rows net layer rows values))
          (omega (arith, lk, ak))

  -- One layer over both parts is the layer over each, the second behind the first.
  pub layer_split :
      (layer : ℕ) (rs ss : List (ℕ × H)) (d : Side → List V)
      → length (d keys) ≡ length (d values)
      → attend_all net layer (rs ++ ss) (λ side. d side ++ project_rows net layer (rs ++ ss) side)
        ≡ attend_all net layer rs (λ side. d side ++ project_rows net layer rs side)
          ++ attend_all net layer ss
              (λ side. (d side ++ project_rows net layer rs side) ++ project_rows net layer ss side)
  layer_split layer rs ss d e =
      layer_reads layer (rs ++ ss) d e
      ∙ ap₂ (attend_from net layer (length (d keys)) (rs ++ ss)) (joined keys) (joined values)
      ∙ attend_from-append layer (length (d keys)) rs ss (both keys) (both values)
      ∙ ap₂ ◌++◌
          (attend_from-front layer (length (d keys)) rs (first keys) (first values)
              (project_rows net layer ss keys) (project_rows net layer ss values)
              (omega (arith, size keys)) (omega (arith, size keys, size values, e))
            ∙ sym (layer_reads layer rs d e))
          (ap (λ n. attend_from net layer n ss (both keys) (both values)) (sym (size keys))
            ∙ sym (layer_reads layer ss first (omega (arith, size keys, size values, e))))
    where
      first : Side → List V
      first side = d side ++ project_rows net layer rs side

      both : Side → List V
      both side = first side ++ project_rows net layer ss side

      joined : (side : Side) → d side ++ project_rows net layer (rs ++ ss) side ≡ both side
      joined side =
          ap (◌++◌ (d side)) (project_rows-append layer rs ss side)
          ∙ sym (
              append_assoc (d side) (project_rows net layer rs side)
                (project_rows net layer ss side))

      size : (side : Side) → length (first side) ≡ length (d side) + length rs
      size side =
          length-append (d side) (project_rows net layer rs side)
          ∙ ap (λ n. length (d side) + n) (length-project_rows layer rs side)
