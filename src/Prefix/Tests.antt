-- ===== src/Prefix/Tests.antt =====
-- Tests of the prefix cache (engine/prefix_cache.py), and its theorems at concrete caches.
use nanoserve.Prelude.{
  Bool, List, [], arith, count, false, get_elem?, get_or, if◌then◌else◌, ltb, refl, some, suc, sum,
  take, true, zero, ℕ, ◌%◌, ◌&&◌, ◌*◌, ◌+◌, ◌<◌, ◌==◌, ◌^◌, ◌∷◌, ◌≡◌, ◌⊎◌,
}
use nanoserve.Exec.{ok}
use nanoserve.Dict.{get, put, has, pop, keys_of}
use nanoserve.Allocator.{incref, decref, count_above}
use nanoserve.Prefix.{
  Prefix, Entry, match, insert, evict, ensure_free, evictable, hash_chain, root_hash,
}
use nanoserve.Prefix.Chain.{Clash, blocks_back, same_key_same_context}
use nanoserve.Prefix.Invariant.{Valid}
use nanoserve.Prefix.Match.{longest, Matched, match-Matched}
use nanoserve.Prefix.Insert.{Inserted, insert-Inserted}
use nanoserve.Prefix.Evict.{Evicted, evict-Evicted}
use nanoserve.Prefix.Ensure.{Ensured, ensure_free-Ensured}

program : Unit {0}
unfolding get put has pop incref decref match insert evict ensure_free
program = tt

-- A hash that is easy to follow.
abbrev toy_hash : ℕ → List ℕ → ℕ
toy_hash p ts = 10 * p + sum ts

-- Blocks 0 and 1 are held by a sequence, and nothing is cached.
abbrev cold : Prefix ℕ
cold = record {
  pool = record {
    block_size = 2;
    num_layers = 1;
    alloc = record { num_blocks = 3; free = 2 ∷ []; refs = 1 ∷ 1 ∷ 0 ∷ [] };
    store = λ side l x. x;
  };
  enabled = true;
  entries = [];
  by_block = [];
  clock = 0;
  stats = record { queries = 0; hit_blocks = 0; query_blocks = 0; evictions = 0; num_entries = 0 };
}

abbrev at_zero : Entry
at_zero = record { block_id = 0; parent_hash = root_hash; last_used = 1; depth = 0 }

abbrev at_one : Entry
at_one = record { block_id = 1; parent_hash = 77; last_used = 2; depth = 1 }

-- Both blocks are cached, and a sequence still reads block 0.
abbrev warm : Prefix ℕ
warm = record cold {
  pool = record cold.pool {
    alloc = record { num_blocks = 3; free = 2 ∷ []; refs = 2 ∷ 1 ∷ 0 ∷ [] };
  };
  entries = (77, at_zero) ∷ (88, at_one) ∷ [];
  by_block = (0, 77) ∷ (1, 88) ∷ [];
  clock = 2;
}

cold-Valid : Valid (0 ∷ 1 ∷ []) cold
unfolding count_above
cold-Valid = record {
  holds = record {
    valid = record { sized = refl; free_zero = free_zero; balance = refl };
    counted = counted;
  };
  keys = λ k. omega arith;
  distinct = λ b. omega arith;
  indexed = λ b. refl;
  stamps = λ t. omega arith;
  recent = λ t h. refl;
}
  where
    free_zero :
        (b : ℕ)
        → count b cold.alloc.free ≡ (if ltb b 3 && (get_or cold.alloc.refs b 0 == 0) then 1 else 0)
    free_zero zero = refl
    free_zero (suc zero) = refl
    free_zero (suc (suc zero)) = refl
    free_zero (suc (suc (suc b))) = ground arith

    counted : (b : ℕ) → get_or cold.alloc.refs b 0 ≡ count b (0 ∷ 1 ∷ [])
    counted zero = refl
    counted (suc zero) = refl
    counted (suc (suc zero)) = refl
    counted (suc (suc (suc b))) = ground arith

warm-Valid : Valid (0 ∷ []) warm
unfolding count_above
warm-Valid = record {
  holds = record {
    valid = record { sized = refl; free_zero = free_zero; balance = refl };
    counted = counted;
  };
  keys = λ k. ground arith;
  distinct = λ b. ground arith;
  indexed = λ b. refl;
  stamps = λ t. ground arith;
  recent = λ t h. ground arith;
}
  where
    free_zero :
        (b : ℕ)
        → count b warm.alloc.free ≡ (if ltb b 3 && (get_or warm.alloc.refs b 0 == 0) then 1 else 0)
    free_zero zero = refl
    free_zero (suc zero) = refl
    free_zero (suc (suc zero)) = refl
    free_zero (suc (suc (suc b))) = ground arith

    counted : (b : ℕ) → get_or warm.alloc.refs b 0 ≡ count b (0 ∷ 1 ∷ 0 ∷ [])
    counted zero = refl
    counted (suc zero) = refl
    counted (suc (suc zero)) = refl
    counted (suc (suc (suc b))) = ground arith

-- The five tokens fill two blocks; the last token is in neither.
insert_run :
    keys_of (insert toy_hash (1 ∷ 2 ∷ 3 ∷ 4 ∷ 5 ∷ []) (0 ∷ 1 ∷ []) cold).1.entries
    ≡ (10 * root_hash + 3) ∷ (10 * (10 * root_hash + 3) + 7) ∷ []
unfolding program
insert_run = refl

-- Only block 1 can go: block 0 is in use.
evict_run : (evict 2 warm).0 ≡ ok 1
unfolding program
evict_run = refl

match-Matched_example :
    (true ≡ false → match (λ p ts. sum ts) (33 ∷ 44 ∷ 40 ∷ 48 ∷ []) warm ≡ (ok [], warm))
    × (true ≡ true
        → (t : Prefix ℕ) × (match (λ p ts. sum ts) (33 ∷ 44 ∷ 40 ∷ 48 ∷ []) warm ≡ (
          ok (
              longest
                (hash_chain (λ p ts. sum ts) root_hash 2 (33 ∷ 44 ∷ 40 ∷ 48 ∷ []))
                warm.entries),
          t,
        ))
          × Matched
              (0 ∷ [])
              warm
              (longest
                (hash_chain (λ p ts. sum ts) root_hash 2 (33 ∷ 44 ∷ 40 ∷ 48 ∷ []))
                warm.entries)
              t)
match-Matched_example =
    match-Matched (λ p ts. sum ts) (0 ∷ []) (33 ∷ 44 ∷ 40 ∷ 48 ∷ []) warm warm-Valid

insert-Inserted_example :
    (t : Prefix ℕ) × (insert toy_hash (1 ∷ 2 ∷ 3 ∷ 4 ∷ 5 ∷ []) (0 ∷ 1 ∷ []) cold ≡ (ok tt, t))
    × Inserted (0 ∷ 1 ∷ []) cold t
insert-Inserted_example =
    insert-Inserted toy_hash (1 ∷ 2 ∷ 3 ∷ 4 ∷ 5 ∷ []) (0 ∷ 1 ∷ []) (0 ∷ 1 ∷ []) cold (λ b h. h)
      cold-Valid

evict-Evicted_example :
    (t : Prefix ℕ) × (evict 2 warm ≡ (ok 1, t))
    × Evicted (0 ∷ []) 1 warm t
    × (◌≡◌ {A = ℕ} 1 0 → 0 < 2 → t ≡ warm)
unfolding evictable
evict-Evicted_example = evict-Evicted 2 (0 ∷ []) warm warm-Valid

ensure_free-Ensured_example :
    (t : Prefix ℕ) × (answer : Bool) × (ensure_free 3 warm ≡ (ok (some answer), t))
    × Ensured (0 ∷ []) 3 warm answer t
ensure_free-Ensured_example = ensure_free-Ensured 3 (0 ∷ []) warm warm-Valid

abbrev greeting : List ℕ
greeting = 1 ∷ 2 ∷ 3 ∷ 4 ∷ 5 ∷ []

abbrev other_end : List ℕ
other_end = 1 ∷ 2 ∷ 3 ∷ 4 ∷ 9 ∷ 9 ∷ []

-- A hash of 32 bits, as wide as a machine's word would make it.
abbrev word_hash : ℕ → List ℕ → ℕ
word_hash p [] = (31 * p + 7) % 2 ^ 32
word_hash p (t ∷ ts) = word_hash ((31 * p + t + 1) % 2 ^ 32) ts

same_key_same_context_example :
    ((◌≡◌ {A = ℕ} 1 1) × (take 4 greeting ≡ take 4 other_end))
    ⊎ Clash word_hash 5 (blocks_back 2 2 greeting []) (blocks_back 2 2 other_end [])
unfolding hash_chain
same_key_same_context_example =
    same_key_same_context word_hash 5 2 1 1 greeting other_end
      (word_hash (word_hash 5 (1 ∷ 2 ∷ [])) (3 ∷ 4 ∷ [])) refl refl

-- Where the hash is poor, another context has the same key.
collision_run :
    get_elem? (hash_chain toy_hash 0 2 (1 ∷ 2 ∷ 3 ∷ 4 ∷ [])) 1
    ≡ get_elem? (hash_chain toy_hash 0 2 (2 ∷ 1 ∷ 3 ∷ 4 ∷ [])) 1
unfolding hash_chain
collision_run = refl
