-- ===== src/Model/Paging.antt =====
-- The pass of model/transformer.py over the paged cache of engine/block_manager.py, against the
-- same pass over a `DynamicCache`.
use nanoserve.Prelude.{
  List, ap, arith, count, fun_ext, length, length-map, refl, subst, suc, sym, take, zero, ℕ, ◌++◌,
  ◌+◌, ◌-◌, ◌/◌, ◌<◌, ◌∙◌, ◌≡◌, ◌≤◌,
}
use nanoserve.Exec.{ok, bind_run}
use nanoserve.Paged.{Side, keys, values, Paged, gather, update}
use nanoserve.Paged.Invariant.{Owned, Tight}
use nanoserve.Paged.Extend.{blocks_needed}
use nanoserve.Paged.Update.{begin_pass-Begun}
use nanoserve.Paged.Write.{write_pass-Written}
use nanoserve.Paged.Forward.{Upto, Upto-begin, Upto-write, update_first, update_later}
use nanoserve.Model.{Network, Dynamic, project_rows, attend_all, dynamic_layers, paged_layers}
use nanoserve.Model.Split.{Even, length-project_rows}
use nanoserve.Model.Trace.{
  entering, written, length-entering, dynamic_layers-entering, dynamic_layers-written,
}

-- A paged cache read as a `DynamicCache`: the tables and the blocks are forgotten.
unfoldable pub view : {V : Type 0} → Paged V → Dynamic V
unfolding gather
view s side layer = gather side layer s.num_tokens s

pub view-Even : {V : Type 0} (s : Paged V) → Even 0 (view s)
unfolding view gather
view-Even s l h =
    length-map (s.store keys l) (take s.num_tokens s.slots)
    ∙ sym (length-map (s.store values l) (take s.num_tokens s.slots))

module _ {H V L : Type 0} (net : Network H V L) where
  paged_layers-step :
      (k layer : ℕ) (rows : List (ℕ × H)) (out : Side → List V) (s t : Paged V)
      → update layer (length rows) (project_rows net layer rows) s ≡ (ok out, t)
      → paged_layers net (suc k) layer rows s
        ≡ paged_layers net k (layer + 1) (attend_all net layer rows out) t
  unfolding paged_layers
  paged_layers-step k layer rows out s t e =
      bind_run (update layer (length rows) (project_rows net layer rows))
        (λ reads. paged_layers net k (layer + 1) (attend_all net layer rows reads)) s t out e

  module _ (others : List ℕ) (rows : List (ℕ × H)) (s : Paged V) where
    abbrev new : ℕ → Side → List V
    new = written net rows (view s)

    length-new : (l : ℕ) (side : Side) → length (new l side) ≡ length rows
    length-new l side =
        length-project_rows net l (entering net l rows (view s)) side
        ∙ length-entering net l rows (view s) (view-Even s)

    -- One more layer: `out` is what attention reads.
    attended :
        (i : ℕ) (out : Side → List V)
        → ((side : Side) → out side ≡ view s side i ++ new i side)
        → attend_all net i (entering net i rows (view s)) out ≡ entering net (i + 1) rows (view s)
    unfolding entering
    attended i out e =
        ap (attend_all net i (entering net i rows (view s))) (fun_ext e)
        ∙ ap (λ n. entering net n rows (view s)) {x = suc i} (omega arith)

    later_layers :
        (k i j : ℕ) (t : Paged V)
        → i + k ≡ j
        → 0 < i
        → j ≤ s.num_layers
        → Upto others (length rows) new i s t
        → (u : Paged V) × (paged_layers net k i (entering net i rows (view s)) t
            ≡ (ok (entering net j rows (view s)), u))
          × Upto others (length rows) new j s u
    unfolding paged_layers view
    later_layers zero i j t e pos h p =
        let same : i ≡ j = omega arith in
        (
          t,
          ap (λ n. (ok (entering net n rows (view s)), t)) same,
          subst (λ m. Upto others (length rows) new m s t) same p,
        )
    later_layers (suc k) i j t e pos h p =
        let n = length rows in
        let r = entering net i rows (view s) in
        let (out, t', run, w) = write_pass-Written others i n (new i) t p.pass (length-new i) in
        let (u, rest, q) =
          later_layers k (i + 1) j t' (omega arith) (omega arith) h
            (Upto-write out (omega arith) p w) in
        (
          u,
          paged_layers-step k i r out t t' (
                ap (λ m. update i m (new i) t) (length-entering net i rows (view s) (view-Even s))
                ∙ update_later i n (new i) t pos
                ∙ run)
              ∙ ap (λ x. paged_layers net k (i + 1) x t')
                  (attended i out (λ side.
                    w.reads side
                    ∙ ap (λ xs. xs ++ new i side) (p.pending side i (omega arith) (omega arith))))
              ∙ rest,
          q,
        )

  -- A pass over a paged cache whose sequence owns its table, with the blocks that it needs: it
  -- returns the activations that the same pass over a `DynamicCache` with the same rows returns, and
  -- the cache then reads, at every layer, what that `DynamicCache` holds. The table is owned again,
  -- and the blocks that others hold are unchanged.
  pub paged_layers-dynamic_layers :
      (others : List ℕ) (rows : List (ℕ × H)) (s : Paged V)
      → Owned others s
      → Tight s
      → 0 < s.num_layers
      → blocks_needed (length rows) s ≤ length s.alloc.free
      → (t : Paged V) × (paged_layers net s.num_layers 0 rows s
          ≡ (ok (dynamic_layers net s.num_layers 0 rows (view s)).0, t))
        × ((side : Side) (l : ℕ)
            → l < s.num_layers
            → view t side l ≡ (dynamic_layers net s.num_layers 0 rows (view s)).1 side l)
        × Owned others t
        × Tight t
        × (t.num_tokens ≡ s.num_tokens + length rows)
        × (t.block_size ≡ s.block_size)
        × ((side : Side) (l x : ℕ)
            → 0 < count (x / s.block_size) others
            → t.store side l x ≡ s.store side l x)
  unfolding view gather entering
  paged_layers-dynamic_layers others rows s o tight pos h =
      let n = length rows in
      let m = s.num_layers - 1 in
      let layers : s.num_layers ≡ suc m = omega arith in
      let r = new others rows s in
      let (b, began, begun) = begin_pass-Begun others n s o tight h in
      let up = Upto-begin r begun in
      let (out, t, run, w) =
        write_pass-Written others 0 n (r 0) b begun.pass (length-new others rows s 0) in
      let (u, rest, q) =
        later_layers others rows s m 1 s.num_layers t (omega arith) (omega arith) (omega arith)
          (Upto-write out pos up w) in
      (
        u,
        ap (λ k. paged_layers net k 0 rows s) layers
            ∙ paged_layers-step m 0 rows out s t (update_first n (r 0) out s b t began run)
            ∙ ap (λ x. paged_layers net m 1 x t)
                (attended others rows s 0 out (λ side.
                  w.reads side ∙ ap (λ xs. xs ++ r 0 side) (up.pending side 0 (omega arith) pos)))
            ∙ rest
            ∙ ap (λ x. (ok x, u))
                (sym (
                  dynamic_layers-entering net s.num_layers 0 s.num_layers rows (view s) (view s)
                    (omega arith) (λ side l g. refl))),
        λ side l g.
            q.finished side l g
            ∙ sym (
                dynamic_layers-written net s.num_layers 0 rows (view s) (view s) side l
                  (λ sd j k. refl) (omega arith) (omega arith)),
        q.pass.owned,
        q.pass.tight,
        omega (arith, q.pass.tokens, q.start),
        q.same_size,
        q.foreign,
      )
