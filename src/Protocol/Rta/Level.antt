-- ===== src/Protocol/Rta/Level.antt =====
-- components/dspi/protocol.h: a level byte as decibels and as a fraction of a scale, over the
-- processor's arithmetic on floats.
use esphome_dspi.Prelude.{ℕ, ◌==◌, Bool, if◌then◌else◌}

abbrev pub rta_level_floor : ℕ
rta_level_floor = 0

abbrev pub rta_level_is_floor : ℕ → Bool
rta_level_is_floor v = v == rta_level_floor

-- `static_cast<float>` of a byte, the constants 0, 1 and 0.5, and the operators of C.
pub record FloatOps (F : Type 0) : Type 0 where
  pub of_byte : ℕ → F
  pub zero_f : F
  pub one_f : F
  pub half_f : F
  pub minus : F → F → F
  pub times : F → F → F
  pub over : F → F → F
  pub le : F → F → Bool

module _ {F : Type 0} (f : FloatOps F) where
  unfoldable pub rta_level_to_dbfs : ℕ → ℕ → F
  rta_level_to_dbfs v level_zero = f.times (f.minus (f.of_byte v) (f.of_byte level_zero)) f.half_f

  abbrev clamped : F → F
  clamped x = if f.le x f.zero_f then f.zero_f else if f.le f.one_f x then f.one_f else x

  unfoldable pub rta_level_to_fraction : ℕ → ℕ → F → F → F
  unfolding rta_level_to_dbfs
  rta_level_to_fraction v level_zero floor_db top_db =
      let span = f.minus top_db floor_db in
      if rta_level_is_floor v
      then f.zero_f
      else if f.le span f.zero_f
      then f.zero_f
      else clamped (f.over (f.minus (rta_level_to_dbfs v level_zero) floor_db) span)
