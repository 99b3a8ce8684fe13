-- ===== src/Entities/Switch.antt =====
-- components/dspi/switch/dspi_switch.h: mute, or one of the DSP toggles.
use esphome_dspi.Prelude.{Bool, true, false, not, ◌||◌, if◌then◌else◌, List, [], ◌∷◌, ◌++◌}
use esphome_dspi.Protocol.Toggle.{ToggleTarget}
use esphome_dspi.Hub.State.{DspiState, DspiHub, toggle, toggle_valid}
use esphome_dspi.Hub.Control.{set_toggle}

pub record DspiSwitch : Type 0 where
  pub target : ToggleTarget
  pub last_published : Bool
  pub has_published : Bool
  pub published : List Bool

abbrev pub new_switch : ToggleTarget → DspiSwitch
new_switch target = record {
  target = target;
  last_published = false;
  has_published = false;
  published = [];
}

abbrev pub bool_eq : Bool → Bool → Bool
bool_eq true b = b
bool_eq false b = not b

unfoldable pub on_dspi_state : DspiSwitch → DspiState → DspiSwitch
on_dspi_state e s =
    let value = toggle s e.target in
    if not (toggle_valid s e.target)
    then e
    else if not e.has_published || not (bool_eq value e.last_published)
    then record e {
      last_published = value;
      has_published = true;
      published = e.published ++ value ∷ [];
    }
    else e

unfoldable pub write_state : DspiSwitch → DspiHub → Bool → DspiHub
write_state e parent value = set_toggle parent e.target value
