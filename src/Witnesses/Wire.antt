-- ===== src/Witnesses/Wire.antt =====
-- The theorems of the wire protocol at concrete inputs.
use esphome_dspi.Prelude.{length, ◌≤◌, [], ◌∷◌, ◌++◌, replicate, take, ◌≡◌, ◌≢◌, refl, arith, some}
use esphome_dspi.Crc16.{crc16, crc16_from}
use esphome_dspi.Crc16.Detect.{crc16_one_byte}
use esphome_dspi.Protocol.Wire.{sync_byte, max_rx_payload}
use esphome_dspi.Protocol.Toggle.{toggle_mask_count}
use esphome_dspi.Protocol.Toggle.Count.{popcount, toggle_mask_count-popcount}
use esphome_dspi.Protocol.Rta.{default_config, rta_parse_config, rta_write_config}
use esphome_dspi.Protocol.Rta.RoundTrip.{Fits, rta_parse_config-write}
use esphome_dspi.Framing.Build.{build_request_frame}
use esphome_dspi.Framing.Build.Layout.{word_le, request_body, build_request_frame-layout}
use esphome_dspi.Framing.Parser.{FrameParser, State, ParseResult, new_parser, feed, feed_all}
use esphome_dspi.Framing.Parser.Bounds.{StateFits, feed-bounded}
use esphome_dspi.Framing.Receive.Frame.{response_body, device_frame, feed_all-corrupt}
use esphome_dspi.Framing.Resync.{feed_all-resync}

abbrev rest : FrameParser
rest = new_parser (replicate 132 0)

crc16_one_byte_example : crc16_from 0xFFFF (1 ∷ 2 ∷ 3 ∷ []) ≢ crc16_from 0xFFFF (1 ∷ 9 ∷ 3 ∷ [])
crc16_one_byte_example =
    crc16_one_byte 0xFFFF (1 ∷ []) (3 ∷ []) 2 9 (omega arith) (omega arith, tt) (omega arith, tt)
      (omega arith) (omega arith) (λ e. absurd (omega arith))

toggle_mask_count-popcount_example : toggle_mask_count 21 ≡ popcount 16 21
toggle_mask_count-popcount_example = toggle_mask_count-popcount 21 (omega arith)

default_config-Fits : Fits default_config
default_config-Fits = record {
  version = omega arith;
  tap = omega arith;
  channel_mask = omega arith;
  fft_order = omega arith;
  avg_ms = omega arith;
  peak_decay_db_s = omega arith;
  flags = omega arith;
}

rta_parse_config-write_example :
    rta_parse_config (rta_write_config (replicate 16 0xFF) default_config) 12 ≡ some default_config
rta_parse_config-write_example =
    rta_parse_config-write (replicate 16 0xFF) default_config default_config-Fits (omega arith)

-- The input source set to USB.
build_request_frame-layout_example :
    let body = request_body 1 0xE0 0 0 1 (take 1 (0 ∷ 0 ∷ [])) in
    build_request_frame 1 0xE0 0 0 1 (0 ∷ 0 ∷ []) 1 ≡ sync_byte ∷ (body ++ word_le (crc16 body))
build_request_frame-layout_example =
    build_request_frame-layout 1 0xE0 0 0 1 (0 ∷ 0 ∷ []) 1 (omega arith) (omega arith) (omega arith)
      (omega arith) (omega arith) (omega arith, (omega arith, tt)) (omega arith)

-- The last byte of a frame without a payload, whose checksum is right.
abbrev ending : FrameParser
ending = record rest { state = State.crc_hi; crc = 0x0102; rx_crc = 2 }

feed-bounded_example :
    let (q, r) = feed ending 1 in
    (length q.payload ≡ max_rx_payload)
    × StateFits q.state q
    × (r ≡ ParseResult.frame → q.len ≤ max_rx_payload)
feed-bounded_example = feed-bounded ending 1 (record { room = refl; fits = omega arith })

feed_all-corrupt_example :
    let c = crc16 (response_body 0x82 0 (7 ∷ [])) in
    let (q, reports) = feed_all rest (device_frame 0x82 0 (8 ∷ []) c) in
    (reports ≡ replicate 7 ParseResult.need_more ++ ParseResult.crc_failed ∷ [])
    × (q.state ≡ State.sync)
feed_all-corrupt_example =
    feed_all-corrupt rest 0x82 0 7 8 [] [] refl refl refl (omega arith) (omega arith) tt tt
      (omega arith) (omega arith) (λ e. absurd (omega arith))

feed_all-resync_example :
    let c = crc16 (response_body 0x82 0 (7 ∷ [])) in
    let (q, reports) =
      feed_all rest ((0 ∷ 1 ∷ []) ++ (replicate 3 sync_byte ++ device_frame 0x82 0 (7 ∷ []) c)) in
    (reports
      ≡ replicate 2 ParseResult.need_more
        ++ (replicate 3 ParseResult.need_more
            ++ (replicate 7 ParseResult.need_more ++ ParseResult.frame ∷ [])))
    × (q.state ≡ State.sync)
    × (q.type ≡ 0x82)
    × (q.status ≡ 0)
    × (take q.len q.payload ≡ 7 ∷ [])
feed_all-resync_example =
    feed_all-resync rest (0 ∷ 1 ∷ []) 3 0x82 0 (7 ∷ []) refl refl
      (λ e. absurd (omega arith), (λ e. absurd (omega arith), tt)) refl (omega arith)
      (omega arith, tt) (omega arith)
