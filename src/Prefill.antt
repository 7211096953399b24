-- ===== src/Prefill.antt =====
-- `_prefill` of engine/scheduler.py: the prompt of a request through the model, behind the blocks
-- that the prefix cache already has.
pub mod Attach
pub mod Reuse
pub mod Run
mod Tests
use nanoserve.Prelude.{List, drop, length, take, ℕ, ◌-◌}
use nanoserve.Exec.{Result, ok, Exec, ◌>>=◌, proceed}
use nanoserve.Paged.{Cache, Paged}
use nanoserve.Prefix.{Prefix, match, attach, insert}
use nanoserve.Model.{Network, embed_rows, paged_layers, heads}

-- The prefix cache with its pool, and the cache of the new sequence.
pub record Filling (V : Type 0) : Type 0 where
  pub prefix : Prefix V
  pub cache : Cache

module _ {V : Type 0} where
  abbrev pub on_prefix : {A : Type 0} → Exec (Prefix V) A → Exec (Filling V) A
  on_prefix m s = let (r, p) = m s.prefix in (r, record s { prefix = p })

  abbrev pub on_paged : {A : Type 0} → Exec (Paged V) A → Exec (Filling V) A
  on_paged m s =
      let (r, p) = m (record { pool = s.prefix.pool; cache = s.cache }) in
      (r, record { prefix = record s.prefix { pool = p.pool }; cache = p.cache })

  -- `self.prefix_cache.attach(cache, blocks)`
  unfoldable pub attached : List ℕ → Exec (Paged V) ℕ
  unfolding attach
  attached blocks s = let (n, t) = attach blocks s in (ok n, t)

module _ {H V L : Type 0} (net : Network H V L) where
  -- The suffix through the model, at the positions behind the reused tokens.
  unfoldable pub run_suffix : List ℕ → ℕ → Exec (Paged V) (List L)
  unfolding paged_layers embed_rows heads
  run_suffix ids n_cached s =
      (paged_layers net s.num_layers 0 (embed_rows net (drop n_cached ids) n_cached) >>= λ rows s'.
      (ok (heads net rows), s'))
        s

  module _ (hash : ℕ → List ℕ → ℕ) where
    abbrev pub register : List ℕ → List L → Exec (Filling V) (List L)
    register ids logits s =
        (on_prefix (insert hash ids s.cache.block_table) >>= λ _ s'. (ok logits, s')) s

    -- `reusable` leaves the last token out.
    unfoldable pub prefill : List ℕ → Exec (Filling V) (List L)
    unfolding match insert attached run_suffix
    prefill ids = on_prefix (match hash (take (length ids - 1) ids)) >>= λ blocks.
        on_paged (attached blocks) >>= λ n_cached.
        on_paged (run_suffix ids n_cached) >>= λ logits. register ids logits
