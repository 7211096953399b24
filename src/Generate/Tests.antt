-- ===== src/Generate/Tests.antt =====
-- Tests of greedy decoding (model/generate.py), and its theorem at a concrete network.
use nanoserve.Prelude.{
  List, [], arith, false, if◌then◌else◌, refl, true, ℕ, ◌%◌, ◌+◌, ◌==◌, ◌∷◌, ◌≡◌,
}
use nanoserve.Model.{Network}
use nanoserve.Dict.{get}
use nanoserve.Generate.{generate_stream, recompute}
use nanoserve.Generate.Greedy.{generate_stream-recompute}

program : Unit {0}
unfolding generate_stream recompute get
program = tt

abbrev total : List ℕ → ℕ
total [] = 0
total (x ∷ xs) = x + total xs

abbrev network : Network ℕ ℕ ℕ
network = record {
  embed = λ token. token + 1;
  project = λ side layer p h. p + h;
  attend = λ layer p h ks vs. (h + total ks + total vs) % 7;
  head = λ h. h;
}

-- The tokens are bytes, and the text of byte 5 is half a character.
abbrev read_utf8 : List ℕ → List ℕ
read_utf8 [] = []
read_utf8 (b ∷ bs) = (if b == 5 then 65533 else b) ∷ read_utf8 bs

abbrev bytes : List (ℕ × List ℕ)
bytes =
    (0, 0 ∷ [])
    ∷ (1, 1 ∷ [])
    ∷ (2, 2 ∷ [])
    ∷ (3, 3 ∷ [])
    ∷ (4, 4 ∷ [])
    ∷ (5, 5 ∷ [])
    ∷ (6, 6 ∷ [])
    ∷ []

stream_run :
    generate_stream network 1 (λ l. l) 100 true read_utf8 bytes 3 (4 ∷ [])
    ≡ ((1 ∷ []) ∷ (4 ∷ []) ∷ (0 ∷ []) ∷ [], 1 ∷ 4 ∷ 0 ∷ [], false)
unfolding program
stream_run = refl

-- Held back once, the token is not fed to the model and comes again, without end.
held_run :
    generate_stream network 1 (λ l. 5) 100 true read_utf8 bytes 3 (4 ∷ [])
    ≡ ([], 5 ∷ 5 ∷ 5 ∷ [], false)
unfolding program
held_run = refl

-- A token that is not in the vocabulary.
unknown_run :
    generate_stream network 1 (λ l. 9) 100 true read_utf8 bytes 3 (4 ∷ []) ≡ ([], 9 ∷ [], true)
unfolding program
unknown_run = refl

generate_stream-recompute_example :
    generate_stream network 2 (λ l. l) 100 true read_utf8 bytes 3 (4 ∷ 2 ∷ [])
    ≡ recompute network 2 (λ l. l) 100 true read_utf8 bytes 3 (4 ∷ 2 ∷ []) [] 0
generate_stream-recompute_example =
    generate_stream-recompute network 2 (λ l. l) 100 true read_utf8 bytes 3 (4 ∷ 2 ∷ [])
      (omega arith)
