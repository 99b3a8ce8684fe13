-- ===== src/Framing/Parser/Bounds.antt =====
-- What the parser keeps true of itself, whatever arrives: no write leaves the payload buffer.
use esphome_dspi.Prelude.{ℕ, ◌+◌, ◌<◌, ◌≤◌, ◌≡◌, refl, arith, List}
use esphome_dspi.Prelude.{length, length-set, u8, ap, ◌∙◌}
use esphome_dspi.Crc16.{crc16_update}
use esphome_dspi.Protocol.Wire.{max_rx_payload}
use esphome_dspi.Framing.Parser.{
  State, FrameParser, ParseResult, new_parser, feed, feed_in, feed_sync, feed_type, feed_header,
  feed_payload, feed_crc_hi, store_header, end_header,
}

-- The state bounds the two indices and the length.
abbrev pub StateFits : State → FrameParser → Type 0
StateFits State.header p = p.header_pos < 3
StateFits State.payload p = (p.payload_pos < p.len) × (p.len ≤ max_rx_payload)
StateFits State.crc_lo p = p.len ≤ max_rx_payload
StateFits State.crc_hi p = p.len ≤ max_rx_payload
StateFits _ p = Unit {0}

pub record IsValid (p : FrameParser) : Type 0 where
  pub room : length p.payload ≡ max_rx_payload
  pub fits : StateFits p.state p

new_parser-IsValid :
    (buffer : List ℕ) → length buffer ≡ max_rx_payload → IsValid (new_parser buffer)
new_parser-IsValid buffer h = record { room = h; fits = tt }

end_header-IsValid :
    (p : FrameParser) → length p.payload ≡ max_rx_payload → IsValid (end_header p).0
unfolding end_header
end_header-IsValid p r = ground arith

store_header-keeps :
    (p : FrameParser) (byte : ℕ)
    → let q = store_header p byte in
      (q.payload ≡ p.payload) × (q.header_pos ≡ p.header_pos) × (q.state ≡ p.state)
unfolding store_header
store_header-keeps p byte = ground arith

feed_header-IsValid :
    (p : FrameParser) (byte : ℕ)
    → p.state ≡ State.header
    → length p.payload ≡ max_rx_payload
    → p.header_pos < 3
    → IsValid (feed_header p byte).0
unfolding feed_header
feed_header-IsValid p byte e r f =
    let q = store_header (record p { crc = crc16_update p.crc byte }) byte in
    let k = store_header-keeps (record p { crc = crc16_update p.crc byte }) byte in
    let q' = record q { header_pos = u8 (q.header_pos + 1) } in
    let room : length q.payload ≡ max_rx_payload = ap length k.0 ∙ r in
    let state : q.state ≡ State.header = k.2 ∙ e in
    let pos : q.header_pos ≡ p.header_pos = k.1 in ground (arith, end_header-IsValid q' room)

feed_in-IsValid :
    (s : State) (p : FrameParser) (byte : ℕ)
    → p.state ≡ s
    → length p.payload ≡ max_rx_payload
    → StateFits s p
    → IsValid (feed_in s p byte).0
unfolding feed_in feed_sync feed_type feed_payload feed_crc_hi
feed_in-IsValid State.sync p byte e r f = ground arith
feed_in-IsValid State.type p byte e r f = ground arith
feed_in-IsValid State.header p byte e r f = feed_header-IsValid p byte e r f
feed_in-IsValid State.payload p byte e r f = ground (arith, length-set p.payload p.payload_pos byte)
feed_in-IsValid State.crc_lo p byte e r f = record { room = r; fits = f }
feed_in-IsValid State.crc_hi p byte e r f = record { room = r; fits = tt }

pub feed-IsValid : {p : FrameParser} (byte : ℕ) → IsValid p → IsValid (feed p byte).0
unfolding feed
feed-IsValid {p} byte v = feed_in-IsValid p.state p byte refl v.room v.fits

feed_in-reports :
    (s : State) (p : FrameParser) (byte : ℕ)
    → StateFits s p
    → (feed_in s p byte).1 ≡ ParseResult.frame
    → (feed_in s p byte).0.len ≤ max_rx_payload
unfolding feed_in feed_sync feed_type feed_payload feed_crc_hi feed_header end_header
feed_in-reports State.sync p byte f e = ground arith
feed_in-reports State.type p byte f e = ground arith
feed_in-reports State.header p byte f e = ground arith
feed_in-reports State.payload p byte f e = ground arith
feed_in-reports State.crc_lo p byte f e = ground arith
feed_in-reports State.crc_hi p byte f e = f

-- In a parser that is valid, after any byte: the payload buffer keeps its 132 bytes; the index into
-- the header is below 3 while the header is read, the index into the payload is below the length
-- and the length at most 132 while the payload is read, and the length is at most 132 while the
-- checksum is read; and the length is at most 132 whenever the byte completes a frame that is
-- reported.
pub feed-bounded :
    (p : FrameParser) (byte : ℕ)
    → IsValid p
    → let (q, r) = feed p byte in
      (length q.payload ≡ max_rx_payload)
      × StateFits q.state q
      × (r ≡ ParseResult.frame → q.len ≤ max_rx_payload)
unfolding feed
feed-bounded p byte v =
    let w = feed-IsValid byte v in (w.room, w.fits, feed_in-reports p.state p byte v.fits)
