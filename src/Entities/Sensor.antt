-- ===== src/Entities/Sensor.antt =====
-- components/dspi/sensor/dspi_sensor.h: the rate of the pipeline.
use esphome_dspi.Prelude.{ℕ, ◌==◌, Bool, true, false, not, ◌&&◌, if◌then◌else◌, List, [], ◌∷◌, ◌++◌}
use esphome_dspi.Hub.State.{DspiState, DspiHub}
use esphome_dspi.Hub.Requests.{request_input_rate}

pub data SensorTarget : Type 0 where
  pipeline_rate : SensorTarget

pub record DspiSensor : Type 0 where
  pub target : SensorTarget
  pub last_published : ℕ
  pub has_published : Bool
  pub published : List ℕ

abbrev pub new_sensor : SensorTarget → DspiSensor
new_sensor target = record {
  target = target;
  last_published = 0;
  has_published = false;
  published = [];
}

-- With a parent, which the generated code always sets.
unfoldable pub update : DspiSensor → DspiHub → DspiHub
update e parent = elim e.target [ SensorTarget.pipeline_rate ↦ request_input_rate parent ]

-- `to_float` is the conversion of a uint32_t.
module _ (to_float : ℕ → ℕ) where
  unfoldable pub on_dspi_state : DspiSensor → DspiState → DspiSensor
  on_dspi_state e s =
      let value = s.pipeline_rate_hz in
      if not s.pipeline_rate_valid
      then e
      else if e.has_published && value == e.last_published
      then e
      else record e {
        last_published = value;
        has_published = true;
        published = e.published ++ to_float value ∷ [];
      }
