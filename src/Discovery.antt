-- ===== src/Discovery.antt =====
-- `_range_end` of engine/discovery.py, on the bytes of a key; the base64 of the wire is left out.
pub mod Range
mod Tests
use nanoserve.Prelude.{List, Option, [], if◌then◌else◌, ltb, none, some, ℕ, ◌+◌, ◌∷◌}

abbrev pub or_bump : ℕ → Option (List ℕ) → Option (List ℕ)
or_bump b (some bytes) = some (b ∷ bytes)
or_bump b none = if ltb b 255 then some ((b + 1) ∷ []) else none

-- The loop from the last byte to the first: the last one below 0xFF is incremented, and what stands
-- behind it is cut off. None where every byte is 0xFF.
unfoldable pub bump : List ℕ → Option (List ℕ)
bump [] = none
bump (b ∷ bytes) = or_bump b (bump bytes)

abbrev pub or_zero_byte : Option (List ℕ) → List ℕ
or_zero_byte (some bytes) = bytes
or_zero_byte none = 0 ∷ []

-- `_range_end`
unfoldable pub range_end : List ℕ → List ℕ
unfolding bump
range_end prefix = or_zero_byte (bump prefix)
