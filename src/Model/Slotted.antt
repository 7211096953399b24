-- ===== src/Model/Slotted.antt =====
-- The pass of model/transformer.py over the contiguous cache of engine/kv_cache.py, against the same
-- pass over a `DynamicCache`.
use nanoserve.Prelude.{
  ==→eq, ==→ne, Bool-cases, List, ap, ap₂, arith, fun_ext, get_or-set, if_false, if_true,
  if◌then◌else◌, inl, inr, length, length-map, range_from, refl, subst, suc, sym, zero, ℕ, ◌&&◌,
  ◌++◌, ◌+◌, ◌<◌, ◌==◌, ◌∙◌, ◌≡◌, ◌≢◌, ◌≤◌,
}
use nanoserve.Exec.{ok, bind_run}
use nanoserve.Paged.{Side, keys, values}
use nanoserve.Static.{
  Slot, Slots, object, no_slot, advanced, write_rows, write_slice, read_slice, update,
}
use nanoserve.Static.Invariant.{SameSlots}
use nanoserve.Static.Update.{update_first, update_later, read-write_slice}
use nanoserve.Model.{Network, Dynamic, project_rows, attend_all, dynamic_layers, static_layers}
use nanoserve.Model.Split.{Even, length-project_rows}
use nanoserve.Model.Trace.{
  entering, written, length-entering, dynamic_layers-entering, dynamic_layers-written,
}

-- One slot read as a `DynamicCache`.
unfoldable pub slot_view : {V : Type 0} → ℕ → Slots V → Dynamic V
unfolding read_slice
slot_view handle s side layer =
    let o = object handle s in read_slice o.pos (s.store side layer o.slot)

slot_view-Even : {V : Type 0} (handle : ℕ) (s : Slots V) → Even 0 (slot_view handle s)
unfolding slot_view read_slice
slot_view-Even handle s l h =
    let o = object handle s in
    length-map (s.store keys l o.slot) (range_from 0 o.pos)
    ∙ sym (length-map (s.store values l o.slot) (range_from 0 o.pos))

module _ {H V L : Type 0} (net : Network H V L) (handle : ℕ) where
  static_layers-step :
      (k layer : ℕ) (rows : List (ℕ × H)) (out : Side → List V) (s t : Slots V)
      → update handle layer (length rows) (project_rows net layer rows) s ≡ (ok out, t)
      → static_layers net handle (suc k) layer rows s
        ≡ static_layers net handle k (layer + 1) (attend_all net layer rows out) t
  unfolding static_layers
  static_layers-step k layer rows out s t e =
      bind_run (update handle layer (length rows) (project_rows net layer rows))
        (λ reads. static_layers net handle k (layer + 1) (attend_all net layer rows reads)) s t out
        e

  module _ (rows : List (ℕ × H)) (s : Slots V) where
    abbrev new : ℕ → Side → List V
    new = written net rows (slot_view handle s)

    abbrev at : ℕ → List (ℕ × H)
    at l = entering net l rows (slot_view handle s)

    length-new : (l : ℕ) (side : Side) → length (new l side) ≡ length rows
    length-new l side =
        length-project_rows net l (at l) side
        ∙ length-entering net l rows (slot_view handle s) (slot_view-Even handle s)

    -- After the layers below `i`.
    pub record Filled (i : ℕ) (t : Slots V) : Type 0 where
      pub same : SameSlots s t
      pub slot : (object handle t).slot ≡ (object handle s).slot
      pub start : (object handle t).start ≡ (object handle s).pos
      pub pos : (object handle t).pos ≡ (object handle s).pos + length rows
      pub others :
          (x : ℕ)
          → x ≢ (object handle s).slot
          → (side : Side) (l : ℕ) → t.store side l x ≡ s.store side l x
      pub pending :
          (side : Side) (l : ℕ)
          → i ≤ l
          → t.store side l (object handle s).slot ≡ s.store side l (object handle s).slot
      pub finished :
          (side : Side) (l : ℕ)
          → l < i
          → read_slice ((object handle s).pos + length rows) (t.store side l (object handle s).slot)
            ≡ slot_view handle s side l ++ new l side

    Filled-write :
        (i : ℕ) (t : Slots V)
        → Filled i t
        → (out : Side → List V) × (u : Slots V) × (write_rows handle i (length rows) (new i) t
            ≡ (ok out, u))
          × ((side : Side) → out side ≡ slot_view handle s side i ++ new i side)
          × Filled (i + 1) u
    unfolding write_rows slot_view
    Filled-write i t f = (
      out,
      u,
      refl,
      key,
      record {
        same = record {
          num_slots = f.same.num_slots;
          max_seq_len = f.same.max_seq_len;
          free = f.same.free;
          live = f.same.live;
          expected = f.same.expected;
        };
        slot = f.slot;
        start = f.start;
        pos = f.pos;
        others = λ x ne side l.
            if_false ((l == i) && (x == o.slot)) _ _ (ground (arith, ne, f.slot))
            ∙ f.others x ne side l;
        pending = λ side l h.
            if_false ((l == i) && (a.slot == o.slot)) _ _ (ground (arith, h))
            ∙ f.pending side l (omega arith);
        finished = λ side l h. elim (Bool-cases (l == i)) [
          | inl here ↦
              subst
                (λ j.
                  read_slice (a.pos + n) (g side j a.slot)
                  ≡ slot_view handle s side j ++ new j side)
                (sym (==→eq l i here))
                (ap₂ (λ p x. read_slice (p + n) (g side i x)) (sym f.start) (sym f.slot) ∙ key side)
          | inr there ↦
              ap (read_slice (a.pos + n))
                (if_false ((l == i) && (a.slot == o.slot)) _ _ (ground (arith, there)))
              ∙ f.finished side l (omega (arith, ==→ne l i there))
        ];
      },
    )
      where
        n : ℕ
        n = length rows

        o : Slot
        o = object handle t

        a : Slot
        a = object handle s

        g : Side → ℕ → ℕ → ℕ → V
        g side l slot =
            if (l == i) && (slot == o.slot)
            then write_slice o.start (new i side) (t.store side l slot)
            else t.store side l slot

        u : Slots V
        u = record t { store = g }

        out : Side → List V
        out side = read_slice (o.start + n) (g side i o.slot)

        key : (side : Side) → out side ≡ slot_view handle s side i ++ new i side
        key side =
            ap (read_slice (o.start + n))
              (if_true ((i == i) && (o.slot == o.slot)) _ _ (ground arith))
            ∙ ap
                (λ m.
                  read_slice (o.start + m)
                    (write_slice o.start (new i side) (t.store side i o.slot)))
                (sym (length-new i side))
            ∙ read-write_slice o.start (new i side) (t.store side i o.slot)
            ∙ ap (λ xs. xs ++ new i side)
                (ap₂ (λ p x. read_slice p (t.store side i x)) f.start f.slot
                  ∙ ap (read_slice a.pos) (f.pending side i (omega arith)))

    -- One more layer: `out` is what attention reads.
    attended :
        (i : ℕ) (out : Side → List V)
        → ((side : Side) → out side ≡ slot_view handle s side i ++ new i side)
        → attend_all net i (at i) out ≡ at (i + 1)
    unfolding entering
    attended i out e = ap (attend_all net i (at i)) (fun_ext e) ∙ ap at {x = suc i} (omega arith)

    later_layers :
        (k i j : ℕ) (t : Slots V)
        → i + k ≡ j
        → 0 < i
        → Filled i t
        → (u : Slots V) × (static_layers net handle k i (at i) t ≡ (ok (at j), u)) × Filled j u
    unfolding static_layers
    later_layers zero i j t e pos f =
        let same : i ≡ j = omega arith in
        (t, ap (λ l. (ok (at l), t)) same, subst (λ l. Filled l t) same f)
    later_layers (suc k) i j t e pos f =
        let (out, t', run, reads, f') = Filled-write i t f in
        let (u, rest, q) = later_layers k (i + 1) j t' (omega arith) (omega arith) f' in
        (
          u,
          static_layers-step k i (at i) out t t' (
                ap (λ m. update handle i m (new i) t)
                  (length-entering net i rows (slot_view handle s) (slot_view-Even handle s))
                ∙ update_later handle i (length rows) (new i) t pos
                ∙ run)
              ∙ ap (λ x. static_layers net handle k (i + 1) x t') (attended i out reads)
              ∙ rest,
          q,
        )

    Filled-advanced : handle < length s.objects → Filled 0 (advanced handle (length rows) s)
    Filled-advanced h =
        let moved : object handle (advanced handle (length rows) s) ≡ record (object handle s) {
          start = (object handle s).pos;
          pos = (object handle s).pos + length rows;
        } =
          get_or-set s.objects handle handle
            (record (object handle s) {
              start = (object handle s).pos;
              pos = (object handle s).pos + length rows;
            })
            no_slot h
          ∙ if_true (handle == handle) _ _ (ground arith) in
        record {
          same = record {
            num_slots = refl;
            max_seq_len = refl;
            free = refl;
            live = refl;
            expected = refl;
          };
          slot = ap (λ (o : Slot). o.slot) moved;
          start = ap (λ (o : Slot). o.start) moved;
          pos = ap (λ (o : Slot). o.pos) moved;
          others = λ x ne side l. refl;
          pending = λ side l k. refl;
          finished = λ side l k. absurd (omega arith);
        }

  -- A pass of `n` layers, at least one, over a slot with room for the new tokens: it returns the
  -- activations that the same pass over a `DynamicCache` with the same rows returns, and the slot
  -- then reads, at every layer, what that `DynamicCache` holds. The other slots are unchanged.
  pub static_layers-dynamic_layers :
      (n : ℕ) (rows : List (ℕ × H)) (s : Slots V)
      → handle < length s.objects
      → 0 < n
      → (object handle s).pos + length rows ≤ s.max_seq_len
      → (t : Slots V) × (static_layers net handle n 0 rows s
          ≡ (ok (dynamic_layers net n 0 rows (slot_view handle s)).0, t))
        × ((side : Side) (l : ℕ)
            → l < n
            → slot_view handle t side l
              ≡ (dynamic_layers net n 0 rows (slot_view handle s)).1 side l)
        × ((x : ℕ)
            → x ≢ (object handle s).slot
            → (side : Side) (l : ℕ) → t.store side l x ≡ s.store side l x)
        × SameSlots s t
  unfolding slot_view entering
  static_layers-dynamic_layers zero rows s live pos room = absurd (omega arith)
  static_layers-dynamic_layers (suc k) rows s live pos room =
      let d = slot_view handle s in
      let (out, t, run, reads, f) =
        Filled-write rows s 0 (advanced handle (length rows) s) (Filled-advanced rows s live) in
      let (u, rest, q) = later_layers rows s k 1 (suc k) t (omega arith) (omega arith) f in
      (
        u,
        static_layers-step k 0 rows out s t
              (update_first handle (length rows) (new rows s 0) s room ∙ run)
            ∙ ap (λ x. static_layers net handle k 1 x t) (attended rows s 0 out reads)
            ∙ rest
            ∙ ap (λ x. (ok x, u))
                (sym (
                  dynamic_layers-entering net (suc k) 0 (suc k) rows d d (omega arith)
                    (λ side l g. refl))),
        λ side l g.
            ap₂ (λ p x. read_slice p (u.store side l x)) q.pos q.slot
            ∙ q.finished side l g
            ∙ sym (
                dynamic_layers-written net (suc k) 0 rows d d side l (λ sd j h. refl) (omega arith)
                  (omega arith)),
        q.others,
        q.same,
      )
