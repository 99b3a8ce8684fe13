-- ===== src/Entities/Select.antt =====
-- components/dspi/select/dspi_select.h: the input source, and the preset slot.
use esphome_dspi.Prelude.{ℕ, zero, suc, ◌+◌, ◌^◌, bit_and, truthy, ◌==◌, Bool, true, false, not}
use esphome_dspi.Prelude.{
  ◌||◌, ◌&&◌, if◌then◌else◌, Option, none, some, List, [], ◌∷◌, ◌++◌, get_elem?,
}
use esphome_dspi.Protocol.Opcode.{input_source_count}
use esphome_dspi.Hub.State.{DspiState, DspiHub}
use esphome_dspi.Hub.Control.{set_input_source, set_preset_slot}

-- The loop of `index_for_source_` and `index_for_slot_` from index `i` on; `none` is their -1.
unfoldable pub index_from : ℕ → List ℕ → ℕ → Option ℕ
index_from i [] wanted = none
index_from i (value ∷ values) wanted =
    if value == wanted then some i else index_from (i + 1) values wanted

unfoldable pub index_for : List ℕ → ℕ → Option ℕ
unfolding index_from
index_for values wanted = index_from 0 values wanted

-- Both classes have the same fields: the wire values in the order of the options, and what was
-- last published. `published` holds option indices, oldest first.
pub record DspiSelect : Type 0 where
  pub values : List ℕ
  pub last_published : ℕ
  pub has_published : Bool
  pub published : List ℕ

abbrev pub new_select : List ℕ → DspiSelect
new_select values = record {
  values = values;
  last_published = 0;
  has_published = false;
  published = [];
}

-- What both make of a valid value.
abbrev pub show_value : DspiSelect → ℕ → DspiSelect
show_value e value = elim (index_for e.values value) [
  | none ↦ e
  | some idx ↦
      if not e.has_published || not (value == e.last_published)
      then record e {
        last_published = value;
        has_published = true;
        published = e.published ++ idx ∷ [];
      }
      else e
]

unfoldable pub on_source_state : DspiSelect → DspiState → DspiSelect
on_source_state e s = if not s.input_source_valid then e else show_value e s.input_source

unfoldable pub on_preset_state : DspiSelect → DspiState → DspiSelect
on_preset_state e s = if not s.active_preset_valid then e else show_value e s.active_preset

-- An index out of range does nothing.
unfoldable pub control_source : DspiSelect → DspiHub → ℕ → DspiHub
control_source e parent index = elim (get_elem? e.values index) [
  | none ↦ parent
  | some source ↦ set_input_source parent source
]

unfoldable pub control_preset : DspiSelect → DspiHub → ℕ → DspiHub
control_preset e parent index = elim (get_elem? e.values index) [
  | none ↦ parent
  | some slot ↦ set_preset_slot parent slot
]

abbrev pub is_none : Option ℕ → Bool
is_none none = true
is_none (some _) = false

-- The loop over the sources from `src` on, with `left` to look at.
unfoldable pub unlisted_from : ℕ → ℕ → List ℕ → ℕ → List ℕ
unlisted_from zero src values mask = []
unlisted_from (suc left) src values mask =
    let rest = unlisted_from left (src + 1) values mask in
    if truthy (bit_and mask (2 ^ src)) && is_none (index_for values src) then src ∷ rest else rest

unfoldable pub unlisted_selectable : DspiSelect → DspiState → List ℕ
unfolding unlisted_from
unlisted_selectable e s =
    if not s.selectable_valid
    then []
    else unlisted_from input_source_count 0 e.values s.selectable_mask
