-- ===== src/Entities/Number.antt =====
-- components/dspi/number/dspi_number.h: a volume.
use esphome_dspi.Prelude.{ℕ, Bool, true, false, not, ◌||◌, if◌then◌else◌, List, [], ◌∷◌, ◌++◌}
use esphome_dspi.Hub.State.{DspiState, DspiHub}
use esphome_dspi.Hub.Control.{set_user_volume_db, set_master_volume_db}
use esphome_dspi.Entities.Float.{float_eq}

pub data VolumeTarget : Type 0 where
  user master : VolumeTarget

-- `published` is what went to `publish_state`, oldest first.
pub record DspiVolumeNumber : Type 0 where
  pub target : VolumeTarget
  pub last_published : ℕ
  pub has_published : Bool
  pub published : List ℕ

abbrev pub new_number : VolumeTarget → DspiVolumeNumber
new_number target = record {
  target = target;
  last_published = 0;
  has_published = false;
  published = [];
}

abbrev pub volume_valid : VolumeTarget → DspiState → Bool
volume_valid VolumeTarget.user s = s.user_volume_valid
volume_valid VolumeTarget.master s = s.master_volume_valid

abbrev pub volume_db : VolumeTarget → DspiState → ℕ
volume_db VolumeTarget.user s = s.user_volume_db
volume_db VolumeTarget.master s = s.master_volume_db

unfoldable pub on_dspi_state : DspiVolumeNumber → DspiState → DspiVolumeNumber
on_dspi_state e s =
    let db = volume_db e.target s in
    if not (volume_valid e.target s)
    then e
    else if not e.has_published || not (float_eq db e.last_published)
    then record e { last_published = db; has_published = true; published = e.published ++ db ∷ [] }
    else e

module _ (clamp : ℕ → ℕ → ℕ → ℕ) where
  unfoldable pub control_for : VolumeTarget → DspiHub → ℕ → DspiHub
  control_for VolumeTarget.user parent value = set_user_volume_db clamp parent value
  control_for VolumeTarget.master parent value = set_master_volume_db clamp parent value

  unfoldable pub control : DspiVolumeNumber → DspiHub → ℕ → DspiHub
  unfolding control_for
  control e parent value = control_for e.target parent value
