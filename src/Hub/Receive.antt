-- ===== src/Hub/Receive.antt =====
-- dspi.cpp: bytes that arrive, and the frames and notifications that they make.
pub mod Notified
pub mod Pump
use esphome_dspi.Prelude.{ℕ, zero, suc, ◌+◌, u8, u32, ltb, ◌==◌, not, Bool, true, false, ◌||◌}
use esphome_dspi.Prelude.{if◌then◌else◌, List, [], ◌∷◌}
use esphome_dspi.Protocol.Wire.{FrameType, frame_byte, byte_at}
use esphome_dspi.Protocol.Notify.{notify_header_len, notify_version_v2, notify_event_affects_params}
use esphome_dspi.Framing.Parser.{FrameParser, ParseResult, feed}
use esphome_dspi.Hub.State.{DspiHub}
use esphome_dspi.Hub.Requests.{request_refresh}
use esphome_dspi.Hub.Transport.{handle_response}

-- The device dropped events: count the gap, and read everything again.
abbrev note_gap : DspiHub → ℕ → DspiHub
note_gap h seq =
    if not h.notify.have_seq || seq == u8 (h.notify.last_seq + 1)
    then h
    else request_refresh
        (record h { diag = record (h.diag) { notify_gaps = u32 (h.diag.notify_gaps + 1) } })

unfoldable pub handle_notification : DspiHub → List ℕ → ℕ → DspiHub
unfolding request_refresh
handle_notification h packet len =
    if ltb len notify_header_len || not (byte_at packet 0 == notify_version_v2)
    then h
    else let counted = record h {
      diag = record (h.diag) { notify_count = u32 (h.diag.notify_count + 1) };
      notify = record (h.notify) { notifications_active = true };
    } in
      let noted = note_gap counted (byte_at packet 3) in
      let stored = record noted {
        notify = record (noted.notify) { last_seq = byte_at packet 3; have_seq = true };
      } in
      if notify_event_affects_params (byte_at packet 1) then request_refresh stored else stored

unfoldable pub handle_frame : DspiHub → DspiHub
handle_frame h =
    let p = h.parser in
    if p.type == frame_byte FrameType.notify
    then handle_notification h p.payload p.len
    else handle_response h p.type p.status p.payload p.len

-- What `pump_rx_` does with what the parser reports.
unfoldable pub on_result : ParseResult → DspiHub → DspiHub
on_result ParseResult.frame h = handle_frame h
on_result ParseResult.crc_failed h = record h {
  diag = record (h.diag) { frames_bad_crc = u32 (h.diag.frames_bad_crc + 1) };
}
on_result ParseResult.oversize h = record h {
  diag = record (h.diag) { frames_malformed = u32 (h.diag.frames_malformed + 1) };
}
on_result ParseResult.need_more h = h

unfoldable pub on_byte : DspiHub → ℕ → DspiHub
on_byte h byte =
    let (p, r) = feed h.parser byte in
    on_result r
      (record h { parser = p; diag = record (h.diag) { rx_bytes = u32 (h.diag.rx_bytes + 1) } })

-- `bytes` are those that wait in the UART; the result holds those that still do.
unfoldable pub pump_loop : ℕ → DspiHub → List ℕ → DspiHub × List ℕ
pump_loop zero h bytes = (h, bytes)
pump_loop (suc budget) h [] = (h, [])
pump_loop (suc budget) h (byte ∷ bytes) = pump_loop budget (on_byte h byte) bytes

unfoldable pub pump_rx : DspiHub → List ℕ → DspiHub × List ℕ
pump_rx h bytes = pump_loop h.config.max_bytes_per_loop h bytes
