-- ===== src/Entities/Float.antt =====
-- The comparison of floats that an entity makes, on their 32-bit patterns.
use esphome_dspi.Prelude.{ℕ, bit_and, ltb, ◌==◌, Bool, not, ◌&&◌, ◌||◌}

-- All exponent bits set, and a fraction that is not zero.
abbrev is_nan : ℕ → Bool
is_nan x = ltb 0x7F800000 (bit_and x 0x7FFFFFFF)

-- Zero, of either sign.
abbrev is_zero : ℕ → Bool
is_zero x = bit_and x 0x7FFFFFFF == 0

-- `a == b`: no NaN equals anything, and the two zeros are equal.
unfoldable pub float_eq : ℕ → ℕ → Bool
float_eq a b = not (is_nan a) && (not (is_nan b) && (a == b || is_zero a && is_zero b))
