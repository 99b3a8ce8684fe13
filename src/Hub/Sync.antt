-- ===== src/Hub/Sync.antt =====
-- The hub against a device that answers every request: the reads whose answers the hub's state
-- shows, what a device answers to them, and one exchange of a request and its answer.
pub mod Queue
pub mod Handlers
pub mod Exchange
pub mod Buffer
pub mod Noted
pub mod Step
pub mod Settles
pub mod Burst
pub mod Passes
pub mod Refreshed
pub mod Written
use esphome_dspi.Prelude.{
  ℕ, ◌+◌, [], ◌∷◌, ◌≤◌, ◌<◌, ◌≡◌, truthy, bit_and, bit_or, u32, Bool, true, false, not, ◌&&◌, ◌||◌,
  if◌then◌else◌, List, length,
}
use esphome_dspi.Crc16.{crc16}
use esphome_dspi.Crc16.Detect.{IsBytes}
use esphome_dspi.Protocol.Wire.{max_rx_payload, byte_at, CtrlStatus, status_byte}
use esphome_dspi.Protocol.Opcode.{Opcode, opcode}
use esphome_dspi.Protocol.Preset.{preset_slots, rd_u32, input_rate_len}
use esphome_dspi.Protocol.Toggle.{ToggleTarget, toggle_bit, toggle_get_opcode}
use esphome_dspi.Framing.Receive.Frame.{response_body, device_frame}
use esphome_dspi.Framing.Parser.{State}
use esphome_dspi.Framing.Parser.Bounds.{IsValid}
use esphome_dspi.Hub.Transaction.{Transaction, OnOk}
use esphome_dspi.Hub.State.{DspiHub, DspiState, HubState, toggle, toggle_valid}
use esphome_dspi.Hub.Transport.{expected_type}
use esphome_dspi.Hub.Readback.{complement16}
use esphome_dspi.Hub.Receive.{pump_loop}
use esphome_dspi.Hub.Loop.{send_if_idle, loop}

-- What a refresh reads.
pub data Reading : Type 0 where
  master_volume user_volume input_source input_rate active_preset : Reading
  toggle_state : ToggleTarget → Reading

abbrev pub read_opcode : Reading → ℕ
read_opcode Reading.master_volume = opcode Opcode.get_master_volume
read_opcode Reading.user_volume = opcode Opcode.get_user_volume
read_opcode Reading.input_source = opcode Opcode.get_input_source
read_opcode Reading.input_rate = opcode Opcode.get_input_rate
read_opcode Reading.active_preset = opcode Opcode.preset_get_active
read_opcode (Reading.toggle_state target) = toggle_get_opcode target

abbrev pub read_handler : Reading → OnOk
read_handler Reading.master_volume = OnOk.on_master_volume
read_handler Reading.user_volume = OnOk.on_user_volume
read_handler Reading.input_source = OnOk.on_input_source
read_handler Reading.input_rate = OnOk.on_input_rate
read_handler Reading.active_preset = OnOk.on_preset_active
read_handler (Reading.toggle_state target) = OnOk.on_toggle target

-- The state holds for the reading what the bytes of its answer say, and marks it as valid.
abbrev pub Shows : DspiState → Reading → List ℕ → Type 0
Shows s Reading.master_volume b = (s.master_volume_valid ≡ true) × (s.master_volume_db ≡ rd_u32 b 0)
Shows s Reading.user_volume b = (s.user_volume_valid ≡ true) × (s.user_volume_db ≡ rd_u32 b 0)
Shows s Reading.input_source b = (s.input_source_valid ≡ true) × (s.input_source ≡ byte_at b 0)
Shows s Reading.input_rate b = (s.pipeline_rate_valid ≡ true) × (s.pipeline_rate_hz ≡ rd_u32 b 0)
Shows s Reading.active_preset b = (s.active_preset_valid ≡ true) × (s.active_preset ≡ byte_at b 0)
Shows s (Reading.toggle_state t) b = (toggle_valid s t ≡ true) × (toggle s t ≡ truthy (byte_at b 0))

abbrev pub stored_bit : ℕ → ℕ → Bool → ℕ
stored_bit values bit on = if on then bit_or values bit else bit_and values (complement16 bit)

-- An answer to the reading that the hub accepts.
abbrev pub Answer : Reading → List ℕ → ℕ → Type 0
Answer Reading.master_volume b n = 4 ≤ n
Answer Reading.user_volume b n = 4 ≤ n
Answer Reading.input_source b n = 1 ≤ n
Answer Reading.input_rate b n = input_rate_len ≤ n
Answer Reading.active_preset b n = (1 ≤ n) × (byte_at b 0 < preset_slots)
Answer (Reading.toggle_state t) b n = 1 ≤ n

-- The state once an answer to the reading is noted in it.
unfoldable pub noted : DspiState → Reading → List ℕ → DspiState
noted s Reading.master_volume b = record s {
  master_volume_db = rd_u32 b 0;
  master_volume_valid = true;
}
noted s Reading.user_volume b = record s { user_volume_db = rd_u32 b 0; user_volume_valid = true }
noted s Reading.input_source b = record s { input_source = byte_at b 0; input_source_valid = true }
noted s Reading.input_rate b = record s {
  pipeline_rate_hz = rd_u32 b 0;
  pipeline_rate_valid = true;
}
noted s Reading.active_preset b = record s {
  active_preset = byte_at b 0;
  active_preset_valid = true;
}
noted s (Reading.toggle_state t) b = record s {
  toggle_values = stored_bit s.toggle_values (toggle_bit t) (truthy (byte_at b 0));
  toggle_valid_mask = bit_or s.toggle_valid_mask (toggle_bit t);
}

-- The boot source was claimed, or there is none to claim.
abbrev pub no_claim : DspiHub → Bool
no_claim h = not (h.config.has_boot_input_source && not h.device.boot_source_checked)

-- A device that answers to each opcode with the same bytes, whenever it is asked.
abbrev pub Answers : Type 0
Answers = ℕ → List ℕ

-- Its answers to the readings are accepted, and all its answers fit a frame.
pub record Responsive (dev : Answers) : Type 0 where
  pub accepted : (r : Reading) → Answer r (dev (read_opcode r)) (length (dev (read_opcode r)))
  pub bytes : (op : ℕ) → IsBytes (dev op)
  pub fits : (op : ℕ) → length (dev op) ≤ max_rx_payload

-- The frame with which it answers.
abbrev pub answer_frame : Answers → Transaction → List ℕ
answer_frame dev t =
    let body = dev t.req in
    let ok = status_byte CtrlStatus.ok in
    device_frame (expected_type t) ok body (crc16 (response_body (expected_type t) ok body))

-- What waits first is sent, and the device's answer to it arrives at the time `now`.
unfoldable pub exchange : Answers → ℕ → DspiHub → DspiHub
exchange dev now h =
    let asked = send_if_idle h in
    let bytes = answer_frame dev asked.link.current in
    let later = record asked { clock = now } in
    if asked.link.has_current then (pump_loop (length bytes) later bytes).0 else later

-- One exchange at each of the times.
unfoldable pub exchanges : Answers → List ℕ → DspiHub → DspiHub
exchanges dev [] h = h
exchanges dev (now ∷ times) h = exchanges dev times (exchange dev now h)

-- The link is idle, the parser is at rest, no boot source is to be claimed.
pub record Ready (h : DspiHub) : Type 0 where
  pub idle : h.link.hub_state ≡ HubState.idle
  pub none_asked : h.link.has_current ≡ false
  pub at_rest : h.parser.state ≡ State.sync
  pub parser_valid : IsValid h.parser
  pub claimed : no_claim h ≡ true

-- Nothing but what waits in the queue makes the hub ask: the device is identified, no refresh is
-- pending and none is to be made by polling, no preset is being confirmed, and no analyser is
-- configured.
abbrev pub is_quiet : DspiHub → Bool
is_quiet h =
    h.link.identified
    && (not h.refresh.refresh_pending
        && (not (truthy h.config.poll_interval_ms && not h.notify.notifications_active)
            && (not h.preset.confirm_pending && not h.config.rta_configured)))

-- What waits in the UART when the device has answered the request in flight, if there is one.
abbrev pub answer_bytes : Answers → DspiHub → List ℕ
answer_bytes dev h = if h.link.has_current then answer_frame dev h.link.current else []

-- A pass of `loop` over the answer to what the pass before sent, at each of the times.
unfoldable pub passes : Answers → List ℕ → DspiHub → DspiHub
passes dev [] h = h
passes dev (now ∷ times) h = passes dev times (loop h now (answer_bytes dev h)).0
