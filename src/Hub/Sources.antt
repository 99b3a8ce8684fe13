-- ===== src/Hub/Sources.antt =====
-- dspi.cpp: the log line that lists the sources the device can select.
use Prim.Native.String.{String}
use Prim.Native.String
use esphome_dspi.Prelude.{
  ℕ, zero, suc, ◌+◌, ◌^◌, bit_and, ◌==◌, truthy, Bool, true, false, ◌&&◌, if◌then◌else◌, List, [],
  ◌∷◌, get_or,
}
use esphome_dspi.Protocol.Opcode.{input_source_count}
use esphome_dspi.Hub.State.{DspiHub, Output}

abbrev is_blank : String → Bool
is_blank String.[] = true
is_blank (String.◌∷◌ c s) = false

abbrev names : List String
names = "USB" ∷ "S/PDIF" ∷ "I2S" ∷ "ADAT" ∷ "S/PDIF2" ∷ "S/PDIF3" ∷ "S/PDIF4" ∷ []

abbrev source_name : ℕ → String
source_name i = get_or names i ""

-- The loop at source `i`, with `left` sources to look at.
sources_loop : ℕ → ℕ → ℕ → String → String
sources_loop zero i mask line = line
sources_loop (suc left) i mask line = sources_loop left (i + 1) mask (
    if truthy (bit_and mask (2 ^ i))
    then if is_blank line
      then source_name i
      else String.◌++◌ line (String.◌++◌ ", " (source_name i))
    else line)

unfoldable pub selectable_sources_string : ℕ → String
unfolding sources_loop
selectable_sources_string mask = sources_loop input_source_count 0 mask ""

-- Only on change.
unfoldable pub log_selectable_sources : DspiHub → DspiHub
log_selectable_sources h =
    let mask = h.state.selectable_mask in
    if h.device.logged_selectable && h.device.logged_selectable_mask == mask then h else record h {
      device = record (h.device) { logged_selectable = true; logged_selectable_mask = mask };
      out = Output.logged_sources (selectable_sources_string mask) ∷ h.out;
    }
