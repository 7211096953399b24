-- ===== src/Prefill/Attach.antt =====
-- `attach` of engine/prefix_cache.py on a new cache.
use nanoserve.Prelude.{
  List, [], ap, append-nil, append_assoc, ap₂, arith, length, range_from, sym, ℕ, ◌*◌, ◌++◌, ◌∙◌,
  ◌∷◌, ◌≡◌,
}
use nanoserve.Exec.{ok}
use nanoserve.Paged.{Pool, Cache, Paged, append_block, empty_cache}
use nanoserve.Paged.Slots.{slots_of}
use nanoserve.Prefix.{append_all, attach}
use nanoserve.Prefill.{attached}

-- A new sequence that starts with `found`.
abbrev pub seeded_with : ℕ → List ℕ → Cache
seeded_with bs found = record {
  block_table = found;
  num_tokens = length found * bs;
  start = 0;
  slots = slots_of bs found;
}

module _ {V : Type 0} where
  append_all_run :
      (blocks : List ℕ) (p : Pool V) (c : Cache)
      → append_all blocks (record { pool = p; cache = c }) ≡ record {
        pool = p;
        cache = record c {
          block_table = c.block_table ++ blocks;
          slots = c.slots ++ slots_of p.block_size blocks;
        };
      }
  unfolding append_all append_block
  append_all_run [] p c =
      ap₂ (λ t s. record { pool = p; cache = record c { block_table = t; slots = s } })
        (sym (append-nil c.block_table)) (sym (append-nil c.slots))
  append_all_run (b ∷ bs) p c =
      append_all_run bs p (record c {
        slots = c.slots ++ range_from (b * p.block_size) p.block_size;
        block_table = c.block_table ++ b ∷ [];
      })
      ∙ ap₂ (λ t s. record { pool = p; cache = record c { block_table = t; slots = s } })
          (append_assoc c.block_table (b ∷ []) bs)
          (append_assoc c.slots (range_from (b * p.block_size) p.block_size)
            (slots_of p.block_size bs))

  pub attached_run :
      (found : List ℕ) (p : Pool V)
      → attached found (record { pool = p; cache = empty_cache }) ≡ (
        ok (length found * p.block_size),
        record { pool = p; cache = seeded_with p.block_size found },
      )
  unfolding attached attach
  attached_run [] p =
      ap
        (λ n. (
          ok n,
          record {
            pool = p;
            cache = record { block_table = []; num_tokens = n; start = 0; slots = [] };
          },
        ))
        {x = 0} {y = 0 * p.block_size} (omega arith)
  attached_run (b ∷ bs) p =
      ap
        (λ (s : Paged V). (
          ok (length (b ∷ bs) * s.block_size),
          record s { cache = record s.cache { num_tokens = length (b ∷ bs) * s.block_size } },
        ))
        (append_all_run (b ∷ bs) p empty_cache)
