-- ===== src/Entities/Dump.antt =====
-- components/dspi/select/dspi_select.cpp and its siblings: what the entities' `dump_config` logs. A
-- constructor of `EntityLine` stands for one call of the log.
use Prim.Native.String.{String}
use esphome_dspi.Prelude.{
  ℕ, zero, suc, ◌+◌, ◌/◌, ◌^◌, ◌≡◌, refl, arith, bit_and, truthy, ltb, leb, ◌==◌, Bool, true, false,
  not, ◌&&◌, ◌||◌, if◌then◌else◌, List, [], ◌∷◌, ◌∙◌, ap, Bool-cases, inl, inr,
}
use esphome_dspi.Protocol.Opcode.{input_source_count}
use esphome_dspi.Protocol.Preset.{preset_slots}
use esphome_dspi.Protocol.Toggle.{toggle_name}
use esphome_dspi.Hub.State.{DspiState}
use esphome_dspi.Entities.Number.{VolumeTarget, DspiVolumeNumber}
use esphome_dspi.Entities.Switch.{DspiSwitch}
use esphome_dspi.Entities.Select.{
  DspiSelect, index_for, index_from, is_none, unlisted_from, unlisted_selectable,
}
use esphome_dspi.Entities.Sensor.{SensorTarget, DspiSensor}
use esphome_dspi.Entities.TextSensor.{TextTarget, DspiTextSensor}

-- The entity under the name of its kind, or a value that a select does not list.
pub data EntityLine : Type 0 where
  entity : String → EntityLine
  unlisted_source unlisted_slot : ℕ → EntityLine

unfoldable pub dump_number : DspiVolumeNumber → List EntityLine
dump_number e =
    EntityLine.entity (elim e.target [
      | VolumeTarget.user ↦ "DSPi User Volume"
      | VolumeTarget.master ↦ "DSPi Master Volume"
    ])
    ∷ []

unfoldable pub dump_switch : DspiSwitch → List EntityLine
dump_switch e = EntityLine.entity (toggle_name e.target) ∷ []

unfoldable pub dump_sensor : DspiSensor → List EntityLine
dump_sensor e =
    EntityLine.entity (elim e.target [ SensorTarget.pipeline_rate ↦ "DSPi Pipeline Sample Rate" ])
    ∷ []

unfoldable pub dump_text_sensor : DspiTextSensor → List EntityLine
dump_text_sensor e =
    EntityLine.entity (elim e.target [ TextTarget.preset_name ↦ "DSPi Preset Name" ]) ∷ []

source_lines : List ℕ → List EntityLine
source_lines [] = []
source_lines (src ∷ rest) = EntityLine.unlisted_source src ∷ source_lines rest

unfoldable pub dump_source_select : DspiSelect → DspiState → List EntityLine
unfolding source_lines unlisted_selectable
dump_source_select e s =
    EntityLine.entity "DSPi Input Source" ∷ source_lines (unlisted_selectable e s)

-- The loop at `slot`, with `left` slots to look at.
slot_lines : ℕ → ℕ → List ℕ → ℕ → List EntityLine
slot_lines zero slot values occupied = []
slot_lines (suc left) slot values occupied =
    let rest = slot_lines left (slot + 1) values occupied in
    if truthy (bit_and (occupied / 2 ^ slot) 1) && is_none (index_for values slot)
    then EntityLine.unlisted_slot slot ∷ rest
    else rest

unfoldable pub dump_preset_select : DspiSelect → DspiState → List EntityLine
unfolding slot_lines
dump_preset_select e s =
    EntityLine.entity "DSPi Preset"
    ∷ (if s.preset_dir_valid then slot_lines preset_slots 0 e.values s.slot_occupied else [])

-- The lines name the source, or the slot, `v`.
abbrev pub names_source : ℕ → List EntityLine → Bool
names_source v [] = false
names_source v (EntityLine.unlisted_source src ∷ lines) = src == v || names_source v lines
names_source v (_ ∷ lines) = names_source v lines

abbrev pub names_slot : ℕ → List EntityLine → Bool
names_slot v [] = false
names_slot v (EntityLine.unlisted_slot slot ∷ lines) = slot == v || names_slot v lines
names_slot v (_ ∷ lines) = names_slot v lines

-- The select lists `v`.
abbrev pub lists : List ℕ → ℕ → Bool
lists [] v = false
lists (w ∷ values) v = w == v || lists values v

index_from-lists :
    (i : ℕ) (values : List ℕ) (v : ℕ) → is_none (index_from i values v) ≡ not (lists values v)
unfolding index_from
index_from-lists i [] v = refl
index_from-lists i (w ∷ values) v = ground (arith, index_from-lists (i + 1) values v)

index_for-lists : (values : List ℕ) (v : ℕ) → is_none (index_for values v) ≡ not (lists values v)
unfolding index_for
index_for-lists values v = index_from-lists 0 values v

-- One round of either loop, where `a` and `b` say whether its value, and `v`, are to be named.
round :
    (at v left : ℕ) (a b rest : Bool)
    → (at ≡ v → a ≡ b)
    → rest ≡ (leb (at + 1) v && (ltb v (at + 1 + left) && b))
    → (if a then at == v || rest else rest) ≡ (leb at v && (ltb v (at + suc left) && b))
round at v left a b rest same e = ground arith

source-if :
    (c : Bool) (src v : ℕ) (rest : List ℕ)
    → let r = names_source v (source_lines rest) in
      names_source v (source_lines (if c then src ∷ rest else rest))
      ≡ (if c then src == v || r else r)
unfolding source_lines
source-if true src v rest = refl
source-if false src v rest = refl

slot-if :
    (c : Bool) (slot v : ℕ) (rest : List EntityLine)
    → let r = names_slot v rest in
      names_slot v (if c then EntityLine.unlisted_slot slot ∷ rest else rest)
      ≡ (if c then slot == v || r else r)
slot-if true slot v rest = refl
slot-if false slot v rest = refl

sources-named :
    (left src : ℕ) (values : List ℕ) (mask v : ℕ)
    → names_source v (source_lines (unlisted_from left src values mask)) ≡ (
        leb src v
        && (ltb v (src + left) && (truthy (bit_and mask (2 ^ v)) && not (lists values v))))
unfolding source_lines unlisted_from
sources-named zero src values mask v = ground arith
sources-named (suc left) src values mask v =
    let P : ℕ → Bool = λ x. truthy (bit_and mask (2 ^ x)) && not (lists values x) in
    let c = truthy (bit_and mask (2 ^ src)) && is_none (index_for values src) in
    let same : c ≡ P src =
      ap (λ b. truthy (bit_and mask (2 ^ src)) && b) (index_for-lists values src) in
    source-if c src v (unlisted_from left (src + 1) values mask)
    ∙ round src v left c (P v) _ (λ e. same ∙ ap P e) (sources-named left (src + 1) values mask v)

slots-named :
    (left slot : ℕ) (values : List ℕ) (occupied v : ℕ)
    → names_slot v (slot_lines left slot values occupied) ≡ (
        leb slot v
        && (ltb v (slot + left) && (truthy (bit_and (occupied / 2 ^ v) 1) && not (lists values v))))
unfolding slot_lines
slots-named zero slot values occupied v = ground arith
slots-named (suc left) slot values occupied v =
    let P : ℕ → Bool = λ x. truthy (bit_and (occupied / 2 ^ x) 1) && not (lists values x) in
    let c = truthy (bit_and (occupied / 2 ^ slot) 1) && is_none (index_for values slot) in
    let same : c ≡ P slot =
      ap (λ b. truthy (bit_and (occupied / 2 ^ slot) 1) && b) (index_for-lists values slot) in
    slot-if c slot v (slot_lines left (slot + 1) values occupied)
    ∙ round slot v left c (P v) _ (λ e. same ∙ ap P e)
        (slots-named left (slot + 1) values occupied v)

from_zero : (v : ℕ) (b : Bool) → (leb 0 v && b) ≡ b
from_zero v b = ground arith

-- The log of a source select names a source exactly if the device is known to be able to select it
-- and the select does not list it; the log of a preset select names a slot exactly if the device is
-- known to hold a preset in it and the select does not list it.
pub dump-names :
    (e : DspiSelect) (s : DspiState) (v : ℕ)
    → (names_source v (dump_source_select e s) ≡ (
        s.selectable_valid
        && (ltb v input_source_count
            && (truthy (bit_and s.selectable_mask (2 ^ v)) && not (lists e.values v)))))
      × (names_slot v (dump_preset_select e s) ≡ (
          s.preset_dir_valid
          && (ltb v preset_slots
              && (truthy (bit_and (s.slot_occupied / 2 ^ v) 1) && not (lists e.values v)))))
unfolding dump_source_select unlisted_selectable dump_preset_select source_lines
dump-names e s v =
    let a = sources-named input_source_count 0 e.values s.selectable_mask v in
    let b = slots-named preset_slots 0 e.values s.slot_occupied v in
    (
      elim (Bool-cases s.selectable_valid) [
        | inl valid ↦ simp valid (a ∙ from_zero v _)
        | inr valid ↦ simp valid refl
      ],
      elim (Bool-cases s.preset_dir_valid) [
        | inl valid ↦ simp valid (b ∙ from_zero v _)
        | inr valid ↦ simp valid refl
      ],
    )
