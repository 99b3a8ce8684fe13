-- ===== src/Protocol/Wire.antt =====
-- components/dspi/protocol.h: framing and status codes, and reads of a byte buffer.
use Prim.Native.String.{String}
use esphome_dspi.Prelude.{ℕ, ◌+◌, Bool, ◌||◌, ◌==◌, if◌then◌else◌, List, get_or}

abbrev pub sync_byte : ℕ
sync_byte = 0xA5

pub data FrameType : Type 0 where
  set_req get_req notify set_resp get_resp : FrameType

abbrev pub frame_byte : FrameType → ℕ
frame_byte FrameType.set_req = 0x01
frame_byte FrameType.get_req = 0x02
frame_byte FrameType.notify = 0x40
frame_byte FrameType.set_resp = 0x81
frame_byte FrameType.get_resp = 0x82

abbrev pub req_header_len : ℕ
req_header_len = 7

abbrev pub resp_header_len : ℕ
resp_header_len = 3

abbrev pub max_tx_payload : ℕ
max_tx_payload = 16

abbrev pub max_tx_frame : ℕ
max_tx_frame = 1 + 1 + req_header_len + max_tx_payload + 2

abbrev pub max_rx_payload : ℕ
max_rx_payload = 132

pub data CtrlStatus : Type 0 where
  ok busy error blocked bulk_locked crc_error oversize frame_error link_failed : CtrlStatus

abbrev pub status_byte : CtrlStatus → ℕ
status_byte CtrlStatus.ok = 0x00
status_byte CtrlStatus.busy = 0x01
status_byte CtrlStatus.error = 0x02
status_byte CtrlStatus.blocked = 0x03
status_byte CtrlStatus.bulk_locked = 0x04
status_byte CtrlStatus.crc_error = 0x05
status_byte CtrlStatus.oversize = 0x06
status_byte CtrlStatus.frame_error = 0x07
status_byte CtrlStatus.link_failed = 0xFF

-- Resending the identical request may succeed.
unfoldable pub ctrl_status_is_retryable : ℕ → Bool
ctrl_status_is_retryable status =
    status == status_byte CtrlStatus.busy
    || (status == status_byte CtrlStatus.bulk_locked || status == status_byte CtrlStatus.crc_error)

unfoldable pub ctrl_status_to_string : ℕ → String
ctrl_status_to_string status =
    if status == status_byte CtrlStatus.ok
    then "OK"
    else if status == status_byte CtrlStatus.busy
    then "BUSY"
    else if status == status_byte CtrlStatus.error
    then "ERROR"
    else if status == status_byte CtrlStatus.blocked
    then "BLOCKED"
    else if status == status_byte CtrlStatus.bulk_locked
    then "BULK_LOCKED"
    else if status == status_byte CtrlStatus.crc_error
    then "CRC_ERROR"
    else if status == status_byte CtrlStatus.oversize
    then "OVERSIZE"
    else if status == status_byte CtrlStatus.frame_error
    then "FRAME_ERROR"
    else if status == status_byte CtrlStatus.link_failed
    then "LINK_FAILED"
    else "UNKNOWN"

-- `data[i]`.
abbrev pub byte_at : List ℕ → ℕ → ℕ
byte_at bytes i = get_or bytes i 0
