-- ===== src/Tokenizer/Tests.antt =====
-- Tests of the tokenizer (model/tokenizer.py), and its round trip at a concrete piece.
use nanoserve.Prelude.{List, [], arith, refl, some, ℕ, ◌∷◌, ◌≡◌}
use nanoserve.Tokenizer.{Rule, rebuild, encode_piece, decode_bytes}
use nanoserve.Tokenizer.Encode.{decode_bytes-encode_piece}

-- "th", and then "the".
abbrev rules : List Rule
rules =
    (record { left = 116; right = 104; merged = 256 })
    ∷ (record { left = 256; right = 101; merged = 257 })
    ∷ []

-- "tthe" is one letter and one token for the rest.
encode_run : encode_piece rules (116 ∷ 116 ∷ 104 ∷ 101 ∷ []) ≡ some (116 ∷ 257 ∷ [])
unfolding encode_piece
encode_run = refl

decode_bytes-encode_piece_example :
    (vocab : List (ℕ × List ℕ)) × (ids : List ℕ) × (rebuild rules ≡ some vocab)
    × (encode_piece rules (116 ∷ 116 ∷ 104 ∷ 101 ∷ []) ≡ some ids)
    × (decode_bytes vocab ids ≡ some (116 ∷ 116 ∷ 104 ∷ 101 ∷ []))
decode_bytes-encode_piece_example =
    decode_bytes-encode_piece rules (116 ∷ 116 ∷ 104 ∷ 101 ∷ [])
      (omega arith, omega arith, refl, (omega arith, omega arith, refl, tt))
      (omega arith, (omega arith, (omega arith, (omega arith, tt))))
