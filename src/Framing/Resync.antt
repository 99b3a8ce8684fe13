-- ===== src/Framing/Resync.antt =====
-- Resynchronisation: noise and stray sync bytes before a frame.
use esphome_dspi.Prelude.{
  ℕ, zero, suc, ◌+◌, ◌<◌, ◌≤◌, ◌≡◌, ◌≢◌, refl, arith, ap, sym, ◌∙◌, ◌/◌, ◌%◌,
}
use esphome_dspi.Prelude.{List, [], ◌∷◌, ◌++◌, length, take, replicate, All, true, false, ◌==◌}
use esphome_dspi.Crc16.{crc16}
use esphome_dspi.Protocol.Wire.{sync_byte, max_rx_payload}
use esphome_dspi.Framing.Parser.{State, FrameParser, ParseResult, feed, feed_all, is_device_frame}
use esphome_dspi.Framing.Receive.{feed_all-cons, feed_all-join}
use esphome_dspi.Framing.Receive.Frame.{
  device_frame, response_body, feed_all-device_frame, body-crc-lt, device_byte,
}
use esphome_dspi.Crc16.Detect.{IsBytes}

-- Bytes that are not the sync byte leave a parser at rest as it was.
feed_all-noise :
    (p : FrameParser) (noise : List ℕ)
    → p.state ≡ State.sync
    → All (λ b. b ≢ sync_byte) noise
    → feed_all p noise ≡ (p, replicate (length noise) ParseResult.need_more)
feed_all-noise p [] e h = unfold feed_all in refl
feed_all-noise p (b ∷ bs) e h = feed_all-cons p b bs (one p b e h.0) (feed_all-noise p bs e h.1)
  where
    one :
        (p : FrameParser) (b : ℕ)
        → p.state ≡ State.sync
        → b ≢ sync_byte
        → feed p b ≡ (p, ParseResult.need_more)
    one p b e ne =
        let miss : (b == sync_byte) ≡ false = ground arith in unfold feed in rw (e, miss) refl

again : (q : FrameParser) → q.state ≡ State.type → feed q sync_byte ≡ (q, ParseResult.need_more)
unfolding feed
again q e = rw e refl

-- A second sync byte is taken for the first: the parser keeps waiting for the type.
syncs_in_type :
    (k : ℕ) (q : FrameParser) (ys : List ℕ)
    → q.state ≡ State.type
    → feed_all q (replicate k sync_byte ++ ys)
      ≡ ((feed_all q ys).0, replicate k ParseResult.need_more ++ (feed_all q ys).1)
syncs_in_type zero q ys e = refl
syncs_in_type (suc k) q ys e =
    feed_all-cons q sync_byte (replicate k sync_byte ++ ys) (again q e) (syncs_in_type k q ys e)

first :
    (p : FrameParser)
    → p.state ≡ State.sync
    → feed p sync_byte ≡ (record p { state = State.type }, ParseResult.need_more)
unfolding feed
first p e = rw e refl

-- Stray sync bytes before the frame's own change nothing but the number of reports.
feed_all-syncs :
    (k : ℕ) (p : FrameParser) (ys : List ℕ)
    → p.state ≡ State.sync
    → feed_all p (replicate k sync_byte ++ sync_byte ∷ ys) ≡ (
      (feed_all p (sync_byte ∷ ys)).0,
      replicate k ParseResult.need_more ++ (feed_all p (sync_byte ∷ ys)).1,
    )
feed_all-syncs zero p ys e = refl
feed_all-syncs (suc k) p ys e =
    let q = record p { state = State.type } in
    feed_all-cons p sync_byte (replicate k sync_byte ++ sync_byte ∷ ys) (first p e)
      (syncs_in_type k q (sync_byte ∷ ys) refl)
    ∙ ap (λ t. (t.0, ParseResult.need_more ∷ (replicate k ParseResult.need_more ++ t.1)))
        (feed_all-cons q sync_byte ys (again q refl) refl
          ∙ sym (feed_all-cons p sync_byte ys (first p e) refl))

-- Noise with no sync byte in it and any number of stray sync bytes cost nothing but themselves:
-- from rest the frame behind them is reported by its last byte, with what was sent, and by no
-- byte before.
pub feed_all-resync :
    (p : FrameParser) (noise : List ℕ) (k type status : ℕ) (payload : List ℕ)
    → p.state ≡ State.sync
    → length p.payload ≡ max_rx_payload
    → All (λ b. b ≢ sync_byte) noise
    → is_device_frame type ≡ true
    → status < 256
    → IsBytes payload
    → length payload ≤ max_rx_payload
    → let c = crc16 (response_body type status payload) in
      let (q, reports) =
        feed_all p (noise ++ (replicate k sync_byte ++ device_frame type status payload c)) in
      (reports
        ≡ replicate (length noise) ParseResult.need_more
          ++ (replicate k ParseResult.need_more
              ++ (replicate (6 + length payload) ParseResult.need_more ++ ParseResult.frame ∷ [])))
      × (q.state ≡ State.sync)
      × (q.type ≡ type)
      × (q.status ≡ status)
      × (take q.len q.payload ≡ payload)
feed_all-resync p noise k type status payload e room quiet dev hs hb small =
    let body = response_body type status payload in
    let c = crc16 body in
    let rest = body ++ c % 256 ∷ c / 256 ∷ [] in
    let ok =
      feed_all-device_frame p type status payload c e room dev small
        (body-crc-lt type status payload (device_byte type dev) hs small hb) in
    let same : (c == c) ≡ true = ground arith in
    let path =
      feed_all-join p noise (replicate k sync_byte ++ sync_byte ∷ rest)
        (feed_all-noise p noise e quiet) (feed_all-syncs k p rest e) in
    let lead = λ (t : List ParseResult).
      replicate (length noise) ParseResult.need_more ++ (replicate k ParseResult.need_more ++ t) in
    rw path (ap lead (rw same at ok.0), ok.1, ok.2, ok.3, ok.5)
