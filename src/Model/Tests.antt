-- ===== src/Model/Tests.antt =====
-- Tests of the forward pass (model/transformer.py), and its theorems at a concrete network.
use nanoserve.Prelude.{
  List, [], arith, count, false, length, refl, true, ℕ, ◌*◌, ◌+◌, ◌/◌, ◌<◌, ◌∷◌, ◌≡◌, ◌≢◌,
}
use nanoserve.Exec.{ok}
use nanoserve.Paged.{Side, Paged}
use nanoserve.Paged.Invariant.{Owned, Tight}
use nanoserve.Paged.Extend.{blocks_needed}
use nanoserve.Paged.Tests.{shared, shared-Owned, shared-Tight}
use nanoserve.Static.{Slots}
use nanoserve.Static.Invariant.{SameSlots}
use nanoserve.Static.Tests.{pool}
use nanoserve.Batch.{Batch, total_need}
use nanoserve.Batch.Prepare.{Ready}
use nanoserve.Batch.Pass.{Untouched}
use nanoserve.Batch.Tests.{pair, pair-Ready}
use nanoserve.Model.{
  Network, no_rows, dynamic_layers, paged_layers, static_layers, forward_plain, run_chunks,
  decode_pass, attention_mask,
}
use nanoserve.Model.Cached.{joined, run_chunks-forward_plain}
use nanoserve.Model.Paging.{view, paged_layers-dynamic_layers}
use nanoserve.Model.Slotted.{slot_view, static_layers-dynamic_layers}
use nanoserve.Model.Together.{alone, AllSeen, decode_pass-alone}

program : Unit {0}
unfolding forward_plain run_chunks attention_mask total_need blocks_needed
program = tt

abbrev total : List ℕ → ℕ
total [] = 0
total (x ∷ xs) = x + total xs

-- Attention sums what it sees; a key depends on the position too.
abbrev network : Network ℕ ℕ ℕ
network = record {
  embed = λ token. token + 1;
  project = λ side layer p h. p + 2 * h;
  attend = λ layer p h ks vs. h + total ks + 3 * total vs;
  head = λ h. h;
}

-- Two tokens of a chunk behind one that is cached see one and two tokens more.
offset_mask : attention_mask 2 3 ≡ (true ∷ true ∷ false ∷ []) ∷ (true ∷ true ∷ true ∷ []) ∷ []
unfolding program
offset_mask = refl

one_token_mask : attention_mask 1 3 ≡ (true ∷ true ∷ true ∷ []) ∷ []
unfolding program
one_token_mask = refl

plain_run : forward_plain network 1 (4 ∷ 7 ∷ []) ≡ 45 ∷ 116 ∷ []
unfolding program
plain_run = refl

run_chunks-forward_plain_example :
    (run_chunks network 2 ((4 ∷ 7 ∷ []) ∷ (1 ∷ []) ∷ (3 ∷ []) ∷ []) no_rows).0
    ≡ forward_plain network 2 (joined ((4 ∷ 7 ∷ []) ∷ (1 ∷ []) ∷ (3 ∷ []) ∷ []))
run_chunks-forward_plain_example =
    run_chunks-forward_plain network 2 ((4 ∷ 7 ∷ []) ∷ (1 ∷ []) ∷ (3 ∷ []) ∷ []) (omega arith)

paged_layers-dynamic_layers_example :
    (t : Paged ℕ) × (paged_layers network 1 0 ((3, 5) ∷ (4, 6) ∷ []) shared
      ≡ (ok (dynamic_layers network 1 0 ((3, 5) ∷ (4, 6) ∷ []) (view shared)).0, t))
    × ((side : Side) (l : ℕ)
        → l < 1
        → view t side l
          ≡ (dynamic_layers network 1 0 ((3, 5) ∷ (4, 6) ∷ []) (view shared)).1 side l)
    × Owned (0 ∷ 1 ∷ []) t
    × Tight t
    × (t.num_tokens ≡ 5)
    × (t.block_size ≡ 2)
    × ((side : Side) (l x : ℕ)
        → 0 < count (x / 2) (0 ∷ 1 ∷ [])
        → t.store side l x ≡ shared.store side l x)
unfolding program blocks_needed
paged_layers-dynamic_layers_example =
    paged_layers-dynamic_layers network (0 ∷ 1 ∷ []) ((3, 5) ∷ (4, 6) ∷ []) shared shared-Owned
      shared-Tight (omega arith) (omega arith)

decode_pass-alone_example :
    (t : Batch ℕ) × (decode_pass network ((3, 5) ∷ (4, 6) ∷ []) pair
      ≡ (ok (alone network 1 pair.pool ((3, 5) ∷ (4, 6) ∷ []) pair.caches), t))
    × AllSeen network pair.pool t.pool ((3, 5) ∷ (4, 6) ∷ []) pair.caches t.caches
    × Untouched (1 ∷ []) 2 t.store pair.store
    × Ready (1 ∷ []) t
    × (length t.caches ≡ 2)
unfolding total_need
decode_pass-alone_example =
    decode_pass-alone network (1 ∷ []) pair ((3, 5) ∷ (4, 6) ∷ []) pair-Ready refl refl
      (omega arith)

static_layers-dynamic_layers_example :
    (t : Slots ℕ) × (static_layers network 0 2 0 ((2, 5) ∷ (3, 6) ∷ []) pool
      ≡ (ok (dynamic_layers network 2 0 ((2, 5) ∷ (3, 6) ∷ []) (slot_view 0 pool)).0, t))
    × ((side : Side) (l : ℕ)
        → l < 2
        → slot_view 0 t side l
          ≡ (dynamic_layers network 2 0 ((2, 5) ∷ (3, 6) ∷ []) (slot_view 0 pool)).1 side l)
    × ((x : ℕ) → x ≢ 1 → (side : Side) (l : ℕ) → t.store side l x ≡ pool.store side l x)
    × SameSlots pool t
static_layers-dynamic_layers_example =
    static_layers-dynamic_layers network 0 2 ((2, 5) ∷ (3, 6) ∷ []) pool (omega arith) (omega arith)
      (omega arith)
