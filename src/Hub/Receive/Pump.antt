-- ===== src/Hub/Receive/Pump.antt =====
-- dspi.cpp: the bytes of a pass, and the frames that they make up.
use esphome_dspi.Prelude.{
  ℕ, zero, suc, ◌+◌, ◌≤◌, ◌<◌, u32, List, [], ◌∷◌, ◌++◌, replicate, length, take, ◌==◌, true, ◌∙◌,
  ◌≡◌, ap, arith,
}
use esphome_dspi.Crc16.{crc16}
use esphome_dspi.Protocol.Wire.{max_rx_payload}
use esphome_dspi.Framing.Receive.Frame.{response_body, device_frame, feed_all-device_frame}
use esphome_dspi.Framing.Parser.{State, is_device_frame, FrameParser, ParseResult, feed, feed_all}
use esphome_dspi.Hub.State.{DspiHub}
use esphome_dspi.Hub.Receive.{on_byte, on_result, pump_loop, handle_frame}

-- `rx_bytes_` after `n` more bytes.
abbrev pub counted : ℕ → ℕ → ℕ
counted zero x = x
counted (suc n) x = counted n (u32 (x + 1))

-- The hub with its parser and its count of bytes moved on, and nothing else.
abbrev pub fed : DspiHub → FrameParser → ℕ → DspiHub
fed h p n = record h { parser = p; diag = record (h.diag) { rx_bytes = n } }

on_byte-result :
    (h : DspiHub) (b : ℕ) (r : ParseResult)
    → (feed h.parser b).1 ≡ r
    → on_byte h b ≡ on_result r (fed h (feed h.parser b).0 (u32 (h.diag.rx_bytes + 1)))
unfolding on_byte
on_byte-result h b r e =
    ap (λ (x : ParseResult). on_result x (fed h (feed h.parser b).0 (u32 (h.diag.rx_bytes + 1)))) e

-- Bytes of which the last alone completes something are dispatched once, on that last byte.
pump_loop-completed :
    (n : ℕ) (h : DspiHub) (bytes : List ℕ) (r : ParseResult)
    → (feed_all h.parser bytes).1 ≡ replicate n ParseResult.need_more ++ r ∷ []
    → pump_loop (length bytes) h bytes ≡ (
      on_result r (fed h (feed_all h.parser bytes).0 (counted (length bytes) h.diag.rx_bytes)),
      [],
    )
unfolding pump_loop feed_all on_result
pump_loop-completed zero h [] r e = cc
pump_loop-completed (suc n) h [] r e = cc
pump_loop-completed zero h (b ∷ []) r e =
    let last : (feed h.parser b).1 ≡ r = ground arith in
    ap (λ (x : DspiHub). (x, [])) (on_byte-result h b r last)
pump_loop-completed zero h (b ∷ c ∷ bytes) r e = cc
pump_loop-completed (suc n) h (b ∷ bytes) r e =
    let q : (feed h.parser b).1 ≡ ParseResult.need_more = ground arith in
    let t : (feed_all (feed h.parser b).0 bytes).1 ≡ replicate n ParseResult.need_more ++ r ∷ [] =
      ground arith in
    ap (λ (x : DspiHub). pump_loop (length bytes) x bytes)
      (on_byte-result h b ParseResult.need_more q)
    ∙ (pump_loop-completed n (fed h (feed h.parser b).0 (u32 (h.diag.rx_bytes + 1))) bytes r t)

-- A response or notification with the right checksum, fed to a hub whose parser is at rest, reaches
-- `handle_frame_` exactly once, after its last byte, with the type, the status, the length and the
-- payload that were sent; until then nothing but the parser and the count of bytes has changed.
pub pump_loop-device_frame :
    (h : DspiHub) (type status : ℕ) (payload : List ℕ)
    → h.parser.state ≡ State.sync
    → length h.parser.payload ≡ max_rx_payload
    → is_device_frame type ≡ true
    → length payload ≤ max_rx_payload
    → crc16 (response_body type status payload) < 65536
    → let bytes = device_frame type status payload (crc16 (response_body type status payload)) in
      let q = (feed_all h.parser bytes).0 in
      (pump_loop (length bytes) h bytes
        ≡ (handle_frame (fed h q (counted (length bytes) h.diag.rx_bytes)), []))
      × (q.type ≡ type)
      × (q.status ≡ status)
      × (q.len ≡ length payload)
      × (take q.len q.payload ≡ payload)
unfolding on_result
pump_loop-device_frame h type status payload e room dev small low =
    let c = crc16 (response_body type status payload) in
    let w = feed_all-device_frame h.parser type status payload c e room dev small low in
    let same : (c == c) ≡ true = ground arith in
    let k = rw same at w.0 in
    (
      pump_loop-completed (6 + length payload) h (device_frame type status payload c)
          ParseResult.frame k,
      w.2,
      w.3,
      w.4,
      w.5,
    )
