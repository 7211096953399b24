-- ===== src/Static/Update.antt =====
-- `update` of engine/kv_cache.py: within the slot attention reads the tokens so far and the new rows;
-- past it, layer 0 raises.
use nanoserve.Prelude.{
  Bool-cases, List, [], ap, ap₂, arith, drop, drop-suc, false, get_or-drop, if_false, if_true, inl,
  inr, leb, length, ltb, ltb→ge, ltb→lt, map, map-append, range_from, range_from_add, refl, subst,
  suc, sym, true, zero, ℕ, ◌&&◌, ◌++◌, ◌+◌, ◌-◌, ◌<◌, ◌==◌, ◌∙◌, ◌∷◌, ◌≡◌, ◌≤◌,
}
use nanoserve.Exec.{err, slot_capacity}
use nanoserve.Paged.{Side}
use nanoserve.Static.{Slots, object, advanced, advance, write_rows, write_slice, read_slice, update}
use nanoserve.Static.Invariant.{SameSlots}

module _ {V : Type 0} where
  pub update_full :
      (handle n : ℕ) (rows : Side → List V) (s : Slots V)
      → s.max_seq_len < (object handle s).pos + n
      → update handle 0 n rows s ≡ (err slot_capacity, advanced handle n s)
  unfolding update advance
  update_full handle n rows s h =
      let full : ltb s.max_seq_len ((object handle s).pos + n) ≡ true = ground arith in rw full refl

  pub update_first :
      (handle n : ℕ) (rows : Side → List V) (s : Slots V)
      → (object handle s).pos + n ≤ s.max_seq_len
      → update handle 0 n rows s ≡ write_rows handle 0 n rows (advanced handle n s)
  unfolding update advance
  update_first handle n rows s h =
      let fits : ltb s.max_seq_len ((object handle s).pos + n) ≡ false = ground arith in
      rw fits refl

  pub update_later :
      (handle layer n : ℕ) (rows : Side → List V) (s : Slots V)
      → 0 < layer
      → update handle layer n rows s ≡ write_rows handle layer n rows s
  unfolding update
  update_later handle layer n rows s h =
      let later : (layer == 0) ≡ false = ground arith in rw later refl

  advanced-SameSlots : (handle n : ℕ) (s : Slots V) → SameSlots s (advanced handle n s)
  advanced-SameSlots handle n s = record {
    num_slots = refl;
    max_seq_len = refl;
    free = refl;
    live = refl;
    expected = refl;
  }

  write_rows-SameSlots :
      (handle layer n : ℕ) (rows : Side → List V) (s t : Slots V)
      → SameSlots t s
      → SameSlots t (write_rows handle layer n rows s).1
  unfolding write_rows
  write_rows-SameSlots handle layer n rows s t e = record {
    num_slots = e.num_slots;
    max_seq_len = e.max_seq_len;
    free = e.free;
    live = e.live;
    expected = e.expected;
  }

  pub update-SameSlots :
      (handle layer n : ℕ) (rows : Side → List V) (s : Slots V)
      → SameSlots s (update handle layer n rows s).1
  update-SameSlots handle zero n rows s =
      elim (Bool-cases (ltb s.max_seq_len ((object handle s).pos + n))) [
        | inl full ↦
            subst (λ r. SameSlots s r.1) (sym (update_full handle n rows s (ltb→lt _ _ full)))
              (advanced-SameSlots handle n s)
        | inr fits ↦
            subst (λ r. SameSlots s r.1) (sym (update_first handle n rows s (ltb→ge _ _ fits)))
              (write_rows-SameSlots handle 0 n rows (advanced handle n s) s
                (advanced-SameSlots handle n s))
      ]
  update-SameSlots handle (suc layer) n rows s =
      subst (λ r. SameSlots s r.1) (sym (update_later handle (suc layer) n rows s (omega arith)))
        (write_rows-SameSlots handle (suc layer) n rows s s (record {
          num_slots = refl;
          max_seq_len = refl;
          free = refl;
          live = refl;
          expected = refl;
        }))

  -- A slice that is written is read back behind what stood before it.
  slice_before :
      (end start i : ℕ) (rows : List V) (f : ℕ → V)
      → i + end ≤ start
      → map (write_slice start rows f) (range_from i end) ≡ map f (range_from i end)
  unfolding write_slice
  slice_before zero start i rows f h = refl
  slice_before (suc end) start i rows f h =
      ap₂ ◌∷◌ (if_false (leb start i && ltb i (start + length rows)) _ _ (ground arith))
        (slice_before end start (i + 1) rows f (omega arith))

  slice_within :
      (start i : ℕ) (rows more : List V) (f : ℕ → V)
      → start ≤ i
      → drop (i - start) rows ≡ more
      → i + length more ≡ start + length rows
      → map (write_slice start rows f) (range_from i (length more)) ≡ more
  unfolding write_slice
  slice_within start i rows [] f h e l = refl
  slice_within start i rows (v ∷ more) f h e l =
      ap₂ ◌∷◌
        (if_true (leb start i && ltb i (start + length rows)) _ _ (ground arith)
          ∙ get_or-drop (i - start) rows v more (f i) e)
        (slice_within start (i + 1) rows more f (omega arith)
          (ap (λ n. drop n rows) {y = suc (i - start)} (omega arith)
            ∙ drop-suc (i - start) rows v more e)
          (omega arith))

  pub read-write_slice :
      (start : ℕ) (rows : List V) (f : ℕ → V)
      → read_slice (start + length rows) (write_slice start rows f) ≡ read_slice start f ++ rows
  unfolding read_slice
  read-write_slice start rows f =
      ap (map (write_slice start rows f)) (range_from_add 0 start (length rows) start (omega arith))
      ∙ map-append (write_slice start rows f) (range_from 0 start) (range_from start (length rows))
      ∙ ap₂ ◌++◌ (slice_before start start 0 rows f (omega arith)) (
          slice_within start start rows rows f (omega arith)
            (ap (λ n. drop n rows) {y = 0} (omega arith)) refl)
