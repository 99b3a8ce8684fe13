-- ===== src/Framing/Receive.antt =====
-- A whole device frame fed to the parser: header, payload and checksum, in turn.
pub mod Frame
use esphome_dspi.Prelude.{
  ℕ, zero, suc, ◌+◌, ◌*◌, ◌/◌, ◌%◌, ◌^◌, ◌<◌, ◌≤◌, ◌≡◌, ◌≢◌, refl, arith, ap, sym, ◌∙◌,
}
use esphome_dspi.Prelude.{
  bit_or, u16, truthy, List, [], ◌∷◌, ◌++◌, length, length-set, take, set, replicate, ge→ltb,
}
use esphome_dspi.Prelude.{
  take-suc-set, Bool, true, false, ◌==◌, ltb, leb, if◌then◌else◌, length-append,
}
use esphome_dspi.Prelude.Bits.{bit_or-byte}
use mathlib.Core.List.{append_assoc, append-nil}
use esphome_dspi.Crc16.{crc16_init, crc16_update, crc16_from, crc16}
use esphome_dspi.Crc16.Detect.{IsBytes}
use esphome_dspi.Protocol.Wire.{sync_byte, max_rx_payload}
use esphome_dspi.Framing.Parser.{State, FrameParser, ParseResult, feed, feed_all, is_device_frame}

-- One after another, with the reports appended.
pub feed_all-append :
    (p : FrameParser) (xs ys : List ℕ)
    → feed_all p (xs ++ ys)
      ≡ ((feed_all (feed_all p xs).0 ys).0, (feed_all p xs).1 ++ (feed_all (feed_all p xs).0 ys).1)
unfolding feed_all
feed_all-append p [] ys = refl
feed_all-append p (x ∷ xs) ys = rw (feed_all-append (feed p x).0 xs ys) refl

pub feed_all-cons :
    (p : FrameParser) (x : ℕ) (xs : List ℕ) {q t : FrameParser} {r : ParseResult}
    {rs : List ParseResult}
    → feed p x ≡ (q, r)
    → feed_all q xs ≡ (t, rs)
    → feed_all p (x ∷ xs) ≡ (t, r ∷ rs)
unfolding feed_all
feed_all-cons p x xs h k = rw (h, k) refl

pub feed_all-join :
    (p : FrameParser) (xs ys : List ℕ) {q t : FrameParser} {rs ss : List ParseResult}
    → feed_all p xs ≡ (q, rs)
    → feed_all q ys ≡ (t, ss)
    → feed_all p (xs ++ ys) ≡ (t, rs ++ ss)
feed_all-join p xs ys h k = rw (feed_all-append p xs ys, h, k) refl

-- The parser once the type and the three header bytes are in.
abbrev pub headed : FrameParser → ℕ → ℕ → ℕ → FrameParser
headed p type status len = record p {
  state = if truthy len then State.payload else State.crc_lo;
  type = type;
  status = status;
  len = len;
  crc = crc16_from crc16_init (type ∷ status ∷ len % 256 ∷ len / 256 ∷ []);
  header_pos = 3;
  payload_pos = 0;
}

type-ne-sync : (type : ℕ) → is_device_frame type ≡ true → (type == sync_byte) ≡ false
type-ne-sync type h = ground arith

feed_all-header :
    (p : FrameParser) (type status len : ℕ)
    → p.state ≡ State.sync
    → is_device_frame type ≡ true
    → len ≤ max_rx_payload
    → feed_all p (sync_byte ∷ type ∷ status ∷ len % 256 ∷ len / 256 ∷ [])
      ≡ (headed p type status len, replicate 5 ParseResult.need_more)
unfolding feed_all feed crc16_from
feed_all-header p type status len e dev small =
    let w : bit_or (len % 256) (u16 (len / 256 * 256)) ≡ len =
      let high : len / 256 * 256 % 65536 ≡ len / 256 * 256 = omega arith in
      rw high (omega (arith, bit_or-byte (len % 256) (len / 256) (omega arith))) in
    let fits : ltb max_rx_payload len ≡ false = ge→ltb max_rx_payload len small in
    rw (e, type-ne-sync type dev, dev, w, fits) refl

-- The buffer with the bytes stored from index `i` on.
abbrev pub stored : List ℕ → ℕ → List ℕ → List ℕ
stored buffer i [] = buffer
stored buffer i (x ∷ xs) = stored (set buffer i x) (i + 1) xs

take-stored :
    (buffer : List ℕ) (i : ℕ) (xs : List ℕ)
    → i + length xs ≤ length buffer
    → take (i + length xs) (stored buffer i xs) ≡ take i buffer ++ xs
take-stored buffer i [] h = let e : i + 0 ≡ i = omega arith in rw (e, append-nil) refl
take-stored buffer i (x ∷ xs) h =
    let e : i + suc (length xs) ≡ i + 1 + length xs = omega arith in
    let one : i + 1 ≡ suc i = omega arith in
    rw e (
      take-stored (set buffer i x) (i + 1) xs (omega (arith, length-set buffer i x))
      ∙ ap (λ t. t ++ xs)
          (ap (λ n. take n (set buffer i x)) one ∙ take-suc-set buffer i x (omega arith))
      ∙ append_assoc (take i buffer) (x ∷ []) xs)

-- The parser once `xs` has completed its payload.
abbrev pub paid : FrameParser → List ℕ → FrameParser
paid p xs = record p {
  state = State.crc_lo;
  crc = crc16_from p.crc xs;
  payload = stored p.payload p.payload_pos xs;
  payload_pos = p.len;
}

feed-last :
    (p : FrameParser) (x : ℕ)
    → p.state ≡ State.payload
    → p.payload_pos + 1 ≡ p.len
    → p.len ≤ max_rx_payload
    → feed p x ≡ (paid p (x ∷ []), ParseResult.need_more)
unfolding feed crc16_from
feed-last p x e n small =
    let one : u16 (p.payload_pos + 1) ≡ p.len = omega arith in
    let last : leb p.len p.len ≡ true = ground arith in rw (e, one, last) refl

-- The parser with one more byte of an unfinished payload.
abbrev stepped : FrameParser → ℕ → FrameParser
stepped p x = record p {
  state = State.payload;
  crc = crc16_update p.crc x;
  payload = set p.payload p.payload_pos x;
  payload_pos = p.payload_pos + 1;
}

feed_more :
    (p : FrameParser) (x : ℕ)
    → p.state ≡ State.payload
    → p.payload_pos + 1 < p.len
    → p.len ≤ max_rx_payload
    → feed p x ≡ (stepped p x, ParseResult.need_more)
unfolding feed
feed_more p x e n small =
    let one : u16 (p.payload_pos + 1) ≡ p.payload_pos + 1 = omega arith in
    let more : leb p.len (p.payload_pos + 1) ≡ false = ground arith in rw (e, one, more) refl

feed_all-payload :
    (p : FrameParser) (x : ℕ) (xs : List ℕ)
    → p.state ≡ State.payload
    → p.payload_pos + suc (length xs) ≡ p.len
    → p.len ≤ max_rx_payload
    → feed_all p (x ∷ xs) ≡ (paid p (x ∷ xs), replicate (suc (length xs)) ParseResult.need_more)
unfolding crc16_from
feed_all-payload p x [] e n small =
    feed_all-cons p x [] (feed-last p x e (omega arith) small) (unfold feed_all in refl)
feed_all-payload p x (y ∷ ys) e n small =
    feed_all-cons p x (y ∷ ys) (feed_more p x e (omega arith) small)
      (feed_all-payload (stepped p x) y ys refl (omega arith) small)

-- The two checksum bytes decide between a frame and a failure, and the parser is back in `sync`.
feed_all-crc :
    (p : FrameParser) (c : ℕ)
    → p.state ≡ State.crc_lo
    → c < 65536
    → feed_all p (c % 256 ∷ c / 256 ∷ []) ≡ (
      record p { state = State.sync; rx_crc = c },
      ParseResult.need_more
          ∷ (if c == p.crc then ParseResult.frame else ParseResult.crc_failed)
          ∷ [],
    )
unfolding feed_all feed
feed_all-crc p c e h =
    let high : c / 256 * 256 % 65536 ≡ c / 256 * 256 = omega arith in
    let w : bit_or (c % 256) (u16 (c / 256 * 256)) ≡ c =
      rw high (omega (arith, bit_or-byte (c % 256) (c / 256) (omega arith))) in
    rw (e, w) refl
