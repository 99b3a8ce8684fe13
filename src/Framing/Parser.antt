-- ===== src/Framing/Parser.antt =====
-- framing.h: `FrameParser`, fed a byte at a time.
pub mod Bounds
use esphome_dspi.Prelude.{ℕ, zero, suc, ◌+◌, ◌*◌, ◌^◌, bit_or, u8, u16, ltb, leb, ◌==◌, truthy, not}
use esphome_dspi.Prelude.{Bool, ◌&&◌, if◌then◌else◌, List, [], ◌∷◌, set, replicate}
use esphome_dspi.Crc16.{crc16_init, crc16_update}
use esphome_dspi.Protocol.Wire.{sync_byte, FrameType, frame_byte, resp_header_len, max_rx_payload}

pub data ParseResult : Type 0 where
  need_more frame crc_failed oversize : ParseResult

pub data State : Type 0 where
  sync type header payload crc_lo crc_hi : State

-- The fields of the class. The payload buffer is not initialised there: any bytes may stand in it.
pub record FrameParser : Type 0 where
  pub state : State
  pub type : ℕ
  pub status : ℕ
  pub len : ℕ
  pub crc : ℕ
  pub rx_crc : ℕ
  pub header_pos : ℕ
  pub payload_pos : ℕ
  pub payload : List ℕ

abbrev pub new_parser : List ℕ → FrameParser
new_parser buffer = record {
  state = State.sync;
  type = 0;
  status = 0;
  len = 0;
  crc = crc16_init;
  rx_crc = 0;
  header_pos = 0;
  payload_pos = 0;
  payload = buffer;
}

feed_sync : FrameParser → ℕ → FrameParser × ParseResult
feed_sync p byte =
    (if byte == sync_byte then record p { state = State.type } else p, ParseResult.need_more)

-- The bytes that may follow a sync byte.
abbrev pub is_device_frame : ℕ → Bool
is_device_frame byte = not (
    not (byte == frame_byte FrameType.set_resp)
    && (not (byte == frame_byte FrameType.get_resp) && not (byte == frame_byte FrameType.notify)))

feed_type : FrameParser → ℕ → FrameParser × ParseResult
feed_type p byte =
    if byte == sync_byte
    then (p, ParseResult.need_more)
    else if not (is_device_frame byte)
    then (record p { state = State.sync }, ParseResult.need_more)
    else (
      record p {
        state = State.header;
        type = byte;
        crc = crc16_update crc16_init byte;
        header_pos = 0;
      },
      ParseResult.need_more,
    )

-- The field that the header byte at `header_pos` belongs to.
store_header : FrameParser → ℕ → FrameParser
store_header p byte =
    if p.header_pos == 0
    then record p { status = byte }
    else if p.header_pos == 1
    then record p { len = byte }
    else record p { len = bit_or p.len (u16 (byte * 2 ^ 8)) }

-- The checks once all three header bytes are there.
end_header : FrameParser → FrameParser × ParseResult
end_header p =
    if ltb max_rx_payload p.len then (record p { state = State.sync }, ParseResult.oversize) else (
      record p { payload_pos = 0; state = if truthy p.len then State.payload else State.crc_lo },
      ParseResult.need_more,
    )

feed_header : FrameParser → ℕ → FrameParser × ParseResult
feed_header p byte =
    let stored = store_header (record p { crc = crc16_update p.crc byte }) byte in
    let p' = record stored { header_pos = u8 (stored.header_pos + 1) } in
    if ltb p'.header_pos resp_header_len then (p', ParseResult.need_more) else end_header p'

feed_payload : FrameParser → ℕ → FrameParser × ParseResult
feed_payload p byte =
    let pos = u16 (p.payload_pos + 1) in
    (
      record p {
        crc = crc16_update p.crc byte;
        payload = set p.payload p.payload_pos byte;
        payload_pos = pos;
        state = if leb p.len pos then State.crc_lo else p.state;
      },
      ParseResult.need_more,
    )

feed_crc_hi : FrameParser → ℕ → FrameParser × ParseResult
feed_crc_hi p byte =
    let p' = record p { rx_crc = bit_or p.rx_crc (u16 (byte * 2 ^ 8)); state = State.sync } in
    (p', if p'.rx_crc == p'.crc then ParseResult.frame else ParseResult.crc_failed)

feed_in : State → FrameParser → ℕ → FrameParser × ParseResult
feed_in State.sync p byte = feed_sync p byte
feed_in State.type p byte = feed_type p byte
feed_in State.header p byte = feed_header p byte
feed_in State.payload p byte = feed_payload p byte
feed_in State.crc_lo p byte =
    (record p { rx_crc = byte; state = State.crc_hi }, ParseResult.need_more)
feed_in State.crc_hi p byte = feed_crc_hi p byte

unfoldable pub feed : FrameParser → ℕ → FrameParser × ParseResult
unfolding feed_in feed_sync feed_type feed_header store_header end_header feed_payload feed_crc_hi
feed p byte = feed_in p.state p byte

unfoldable pub reset : FrameParser → FrameParser
reset p = record p { state = State.sync }

-- Bytes in their order of arrival, with what each reports.
unfoldable pub feed_all : FrameParser → List ℕ → FrameParser × List ParseResult
feed_all p [] = (p, [])
feed_all p (b ∷ bs) = let (p', r) = feed p b in let (p'', rs) = feed_all p' bs in (p'', r ∷ rs)
