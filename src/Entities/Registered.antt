-- ===== src/Entities/Registered.antt =====
-- components/dspi/dspi.h: `register_listener` and the entities that are registered.
use esphome_dspi.Prelude.{
  ℕ, ◌==◌, Bool, true, false, ◌&&◌, if◌then◌else◌, Option, none, some, List, ◌++◌, ◌≡◌, arith,
}
use mathlib.Core.List.{append-nil}
use esphome_dspi.Hub.State.{DspiState, toggle, toggle_valid}
use esphome_dspi.Entities.Float.{float_eq}
use esphome_dspi.Entities.Listener.{Listener, changes, hear, readings, hear-changes}
use esphome_dspi.Entities.Number.{DspiVolumeNumber, volume_valid, volume_db}
use esphome_dspi.Entities.Number
use esphome_dspi.Entities.Switch.{DspiSwitch, bool_eq}
use esphome_dspi.Entities.Switch
use esphome_dspi.Entities.Select.{DspiSelect, index_for, on_source_state, on_preset_state}
use esphome_dspi.Entities.Sensor.{DspiSensor}
use esphome_dspi.Entities.Sensor
use esphome_dspi.Entities.TextSensor.{DspiTextSensor, shown_name, text_eq}
use esphome_dspi.Entities.TextSensor

abbrev when {ℓ} : {A : Type ℓ} → Bool → A → Option A
when true a = some a
when false a = none

number_listener : Listener DspiVolumeNumber ℕ ℕ
unfolding Number.on_dspi_state
number_listener = record {
  on_state = Number.on_dspi_state;
  reading = λ e s. when (volume_valid e.target s) (volume_db e.target s);
  same = float_eq;
  show = λ e v. v;
  last = λ e. when e.has_published e.last_published;
  published = λ e. e.published;
  reading_law = λ e s t. ground arith;
  show_law = λ e s. ground arith;
  last_law = λ e s. ground arith;
  published_law = λ e s. ground (arith, append-nil e.published);
}

switch_listener : Listener DspiSwitch Bool Bool
unfolding Switch.on_dspi_state
switch_listener = record {
  on_state = Switch.on_dspi_state;
  reading = λ e s. when (toggle_valid s e.target) (toggle s e.target);
  same = bool_eq;
  show = λ e v. v;
  last = λ e. when e.has_published e.last_published;
  published = λ e. e.published;
  reading_law = λ e s t. ground arith;
  show_law = λ e s. ground arith;
  last_law = λ e s. ground arith;
  published_law = λ e s. ground (arith, append-nil e.published);
}

text_listener : Listener DspiTextSensor (List ℕ) (List ℕ)
unfolding TextSensor.on_dspi_state
text_listener = record {
  on_state = TextSensor.on_dspi_state;
  reading = λ e s. when (s.active_preset_valid && s.active_preset_name_valid) (shown_name s);
  same = text_eq;
  show = λ e v. v;
  last = λ e. when e.has_published e.last_published;
  published = λ e. e.published;
  reading_law = λ e s t. ground arith;
  show_law = λ e s. ground arith;
  last_law = λ e s. ground arith;
  published_law = λ e s. ground (arith, append-nil e.published);
}

-- A value that the select lists.
abbrev pub listed : List ℕ → ℕ → Option ℕ
listed values v = elim (index_for values v) [ none ↦ none | some _ ↦ some v ]

abbrev option_of : List ℕ → ℕ → ℕ
option_of values v = elim (index_for values v) [ none ↦ 0 | some idx ↦ idx ]

source_listener : Listener DspiSelect ℕ ℕ
unfolding on_source_state
source_listener = record {
  on_state = on_source_state;
  reading = λ e s. if s.input_source_valid then listed e.values s.input_source else none;
  same = λ a b. a == b;
  show = λ e v. option_of e.values v;
  last = λ e. when e.has_published e.last_published;
  published = λ e. e.published;
  reading_law = λ e s t. ground arith;
  show_law = λ e s. ground arith;
  last_law = λ e s. ground arith;
  published_law = λ e s. ground (arith, append-nil e.published);
}

preset_listener : Listener DspiSelect ℕ ℕ
unfolding on_preset_state
preset_listener = record {
  on_state = on_preset_state;
  reading = λ e s. if s.active_preset_valid then listed e.values s.active_preset else none;
  same = λ a b. a == b;
  show = λ e v. option_of e.values v;
  last = λ e. when e.has_published e.last_published;
  published = λ e. e.published;
  reading_law = λ e s t. ground arith;
  show_law = λ e s. ground arith;
  last_law = λ e s. ground arith;
  published_law = λ e s. ground (arith, append-nil e.published);
}

-- The kinds of entities, what each reads out of a state, and what it shows.
pub data Kind : Type 0 where
  number switch source_select preset_select sensor text_sensor : Kind

abbrev pub Entity : Kind → Type 0
Entity Kind.number = DspiVolumeNumber
Entity Kind.switch = DspiSwitch
Entity Kind.source_select = DspiSelect
Entity Kind.preset_select = DspiSelect
Entity Kind.sensor = DspiSensor
Entity Kind.text_sensor = DspiTextSensor

abbrev pub Shown : Kind → Type 0
Shown Kind.switch = Bool
Shown Kind.text_sensor = List ℕ
Shown _ = ℕ

module _ (to_float : ℕ → ℕ) where
  sensor_listener : Listener DspiSensor ℕ ℕ
  unfolding Sensor.on_dspi_state
  sensor_listener = record {
    on_state = Sensor.on_dspi_state to_float;
    reading = λ e s. when s.pipeline_rate_valid s.pipeline_rate_hz;
    same = λ a b. a == b;
    show = λ e v. to_float v;
    last = λ e. when e.has_published e.last_published;
    published = λ e. e.published;
    reading_law = λ e s t. ground arith;
    show_law = λ e s. ground arith;
    last_law = λ e s. ground arith;
    published_law = λ e s. ground (arith, append-nil e.published);
  }

  unfoldable pub listener : (k : Kind) → Listener (Entity k) (Shown k) (Shown k)
  unfolding number_listener switch_listener source_listener preset_listener sensor_listener
      text_listener
  listener Kind.number = number_listener
  listener Kind.switch = switch_listener
  listener Kind.source_select = source_listener
  listener Kind.preset_select = preset_listener
  listener Kind.sensor = sensor_listener
  listener Kind.text_sensor = text_listener

  -- Whatever the kind of an entity and whatever states the hub publishes, what the entity has
  -- published afterwards is what it had, and then each valid reading that differs from the one shown
  -- before it, in order, and nothing else.
  pub hear-listener :
      (k : Kind) (e : Entity k) (states : List DspiState)
      → let l = listener k in
        l.published (hear l e states)
        ≡ l.published e ++ changes l.same (l.show e) (l.last e) (readings l e states)
  hear-listener k e states = hear-changes (listener k) e states
