-- ===== src/Prefill/Tests.antt =====
-- Tests of `_prefill` (engine/scheduler.py), and its theorem at a concrete prompt.
use nanoserve.Prelude.{
  List, [], arith, count, drop, get_or, if◌then◌else◌, length, ltb, refl, suc, sum, true, zero, ℕ,
  ◌&&◌, ◌*◌, ◌+◌, ◌==◌, ◌∷◌, ◌≡◌,
}
use nanoserve.Exec.{ok}
use nanoserve.Allocator.{allocate, incref, count_above}
use nanoserve.Dict.{get, put}
use nanoserve.Paged.{Cache, empty_cache}
use nanoserve.Prefix.{Prefix, root_hash, hash_chain}
use nanoserve.Prefix.Invariant.{Valid}
use nanoserve.Model.{Network, embed_rows, dynamic_layers, heads}
use nanoserve.Model.Paging.{view}
use nanoserve.Prefill.{prefill}
use nanoserve.Prefill.Attach.{seeded_with}
use nanoserve.Prefill.Run.{Reused, Prefilled, prefill-Prefilled}

program : Unit {0}
unfolding prefill allocate incref hash_chain get put
program = tt

abbrev toy_hash : ℕ → List ℕ → ℕ
toy_hash p ts = 10 * p + sum ts

abbrev network : Network ℕ ℕ ℕ
network = record {
  embed = λ token. token + 1;
  project = λ side layer p h. p + h;
  attend = λ layer p h ks vs. h + sum ks;
  head = λ h. h;
}

-- The tokens 1 and 2 are cached in block 0; a second sequence holds block 1.
abbrev start : Prefix ℕ
start = record {
  pool = record {
    block_size = 2;
    num_layers = 1;
    alloc = record { num_blocks = 4; free = 2 ∷ 3 ∷ []; refs = 1 ∷ 1 ∷ 0 ∷ 0 ∷ [] };
    store = λ side l x. 20 + x;
  };
  enabled = true;
  entries =
      (
        10 * root_hash + 3,
        record { block_id = 0; parent_hash = root_hash; last_used = 1; depth = 0 },
      )
      ∷ [];
  by_block = (0, 10 * root_hash + 3) ∷ [];
  clock = 1;
  stats = record { queries = 0; hit_blocks = 0; query_blocks = 0; evictions = 0; num_entries = 1 };
}

start-Valid : Valid (1 ∷ []) start
unfolding count_above
start-Valid = record {
  holds = record {
    valid = record { sized = refl; free_zero = free_zero; balance = refl };
    counted = counted;
  };
  keys = λ k. ground arith;
  distinct = λ b. ground arith;
  indexed = λ b. refl;
  stamps = λ t. ground arith;
  recent = λ t h. ground arith;
}
  where
    free_zero :
        (b : ℕ)
        → count b start.alloc.free
          ≡ (if ltb b 4 && (get_or start.alloc.refs b 0 == 0) then 1 else 0)
    free_zero zero = refl
    free_zero (suc zero) = refl
    free_zero (suc (suc zero)) = refl
    free_zero (suc (suc (suc zero))) = refl
    free_zero (suc (suc (suc (suc b)))) = ground arith

    counted : (b : ℕ) → get_or start.alloc.refs b 0 ≡ count b (0 ∷ 1 ∷ [])
    counted zero = refl
    counted (suc zero) = refl
    counted (suc (suc zero)) = refl
    counted (suc (suc (suc b))) = ground arith

-- The cached block comes first, and the last token gets a block of its own.
prefill_table :
    (prefill network toy_hash
      (1 ∷ 2 ∷ 5 ∷ [])
      (record { prefix = start; cache = empty_cache })).1.cache.block_table
    ≡ 0 ∷ 2 ∷ []
unfolding program
prefill_table = refl

-- The token 5 sees the two cached keys and its own.
prefill_logits :
    (prefill network toy_hash (1 ∷ 2 ∷ 5 ∷ []) (record { prefix = start; cache = empty_cache })).0
    ≡ ok (55 ∷ [])
unfolding program
prefill_logits = refl

prefill-Prefilled_example :
    (found : List ℕ) × (t : Prefix ℕ) × (p : Prefix ℕ) × (c : Cache) × Reused toy_hash
      (1 ∷ 2 ∷ [])
      (1 ∷ [])
      start
      found
      t
    × (prefill network toy_hash (1 ∷ 2 ∷ 5 ∷ []) (record { prefix = start; cache = empty_cache })
        ≡ (
          ok (
              heads network
                (dynamic_layers network t.num_layers 0
                  (embed_rows network
                    (drop (length found * t.block_size) (1 ∷ 2 ∷ 5 ∷ []))
                    (length found * t.block_size))
                  (view (record { pool = t.pool; cache = seeded_with t.block_size found }))).0),
          record { prefix = p; cache = c },
        ))
    × Prefilled network (1 ∷ 2 ∷ 5 ∷ []) (1 ∷ []) start c p
unfolding program
prefill-Prefilled_example =
    prefill-Prefilled network toy_hash (1 ∷ 2 ∷ 5 ∷ []) (1 ∷ []) start start-Valid (omega arith)
      (omega arith) (omega arith) (λ k. ground arith) (omega arith)
