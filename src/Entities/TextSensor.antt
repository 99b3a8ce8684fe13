-- ===== src/Entities/TextSensor.antt =====
-- components/dspi/text_sensor/dspi_text_sensor.h: the name of the active preset.
use esphome_dspi.Prelude.{
  ℕ, zero, suc, ◌+◌, ◌/◌, ◌%◌, ltb, ◌==◌, Bool, true, false, not, ◌&&◌, ◌||◌,
}
use esphome_dspi.Prelude.{if◌then◌else◌, List, [], ◌∷◌, ◌++◌}
use esphome_dspi.Hub.State.{DspiState}

pub data TextTarget : Type 0 where
  preset_name : TextTarget

pub record DspiTextSensor : Type 0 where
  pub target : TextTarget
  pub last_published : List ℕ
  pub has_published : Bool
  pub published : List (List ℕ)

abbrev pub new_text_sensor : TextTarget → DspiTextSensor
new_text_sensor target = record {
  target = target;
  last_published = [];
  has_published = false;
  published = [];
}

-- `std::to_string` of a number below 10 to the power of the fuel.
decimal : ℕ → ℕ → List ℕ
decimal zero n = []
decimal (suc fuel) n =
    let rest = decimal fuel (n / 10) in
    if ltb n 10 then (b'0' + n) ∷ [] else rest ++ (b'0' + n % 10) ∷ []

-- A uint8_t has three digits at most.
unfoldable pub to_string : ℕ → List ℕ
unfolding decimal
to_string n = decimal 3 n

abbrev slot_prefix : List ℕ
slot_prefix = b'S' ∷ b'l' ∷ b'o' ∷ b't' ∷ b' ' ∷ []

abbrev is_empty : List ℕ → Bool
is_empty [] = true
is_empty (_ ∷ _) = false

-- A slot without a name goes by its number.
unfoldable pub shown_name : DspiState → List ℕ
unfolding to_string
shown_name s =
    if is_empty s.active_preset_name
    then slot_prefix ++ to_string s.active_preset
    else s.active_preset_name

unfoldable pub text_eq : List ℕ → List ℕ → Bool
text_eq [] [] = true
text_eq [] (_ ∷ _) = false
text_eq (_ ∷ _) [] = false
text_eq (x ∷ xs) (y ∷ ys) = x == y && text_eq xs ys

unfoldable pub on_dspi_state : DspiTextSensor → DspiState → DspiTextSensor
on_dspi_state e s =
    let value = shown_name s in
    if not s.active_preset_valid || not s.active_preset_name_valid
    then e
    else if not e.has_published || not (text_eq value e.last_published)
    then record e {
      last_published = value;
      has_published = true;
      published = e.published ++ value ∷ [];
    }
    else e
