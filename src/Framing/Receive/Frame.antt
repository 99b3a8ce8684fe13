-- ===== src/Framing/Receive/Frame.antt =====
-- What the parser makes of a device frame, with a right or a wrong checksum.
use esphome_dspi.Prelude.{ℕ, zero, suc, ◌+◌, ◌/◌, ◌%◌, ◌<◌, ◌≤◌, ◌≡◌, ◌≢◌, refl, arith, ap, ◌∙◌}
use esphome_dspi.Prelude.{
  List, [], ◌∷◌, ◌++◌, length, take, replicate, true, false, length-append, ◌==◌, if◌then◌else◌,
}
use esphome_dspi.Crc16.{crc16_init, crc16_from, crc16}
use esphome_dspi.Crc16.Detect.{IsBytes, crc16_from-lt, crc16_one_byte}
use esphome_dspi.Protocol.Wire.{sync_byte, max_rx_payload}
use esphome_dspi.Framing.Parser.{State, FrameParser, ParseResult, feed_all, is_device_frame}
use esphome_dspi.Framing.Receive.{
  feed_all-join, headed, feed_all-header, stored, take-stored, feed_all-payload, feed_all-crc,
}

-- What the checksum of a device frame covers.
abbrev pub response_body : ℕ → ℕ → List ℕ → List ℕ
response_body type status payload =
    type ∷ status ∷ length payload % 256 ∷ length payload / 256 ∷ payload

-- A device frame that carries the checksum `c`.
abbrev pub device_frame : ℕ → ℕ → List ℕ → ℕ → List ℕ
device_frame type status payload c =
    sync_byte ∷ (response_body type status payload ++ c % 256 ∷ c / 256 ∷ [])

-- The parser when the payload, empty or not, is in.
abbrev received : FrameParser → ℕ → ℕ → List ℕ → FrameParser
received p type status payload = record p {
  state = State.crc_lo;
  type = type;
  status = status;
  len = length payload;
  crc = crc16 (response_body type status payload);
  header_pos = 3;
  payload_pos = length payload;
  payload = stored p.payload 0 payload;
}

replicate-append :
    (m n : ℕ) (r : ParseResult) → replicate m r ++ replicate n r ≡ replicate (m + n) r
replicate-append zero n r = ap (λ k. replicate k r) (omega arith)
replicate-append (suc m) n r =
    let e : suc m + n ≡ suc (m + n) = omega arith in rw e (ap (◌∷◌ r) (replicate-append m n r))

replicate-snoc :
    (n : ℕ) (r : ParseResult) (rs : List ParseResult)
    → replicate n r ++ r ∷ rs ≡ replicate (suc n) r ++ rs
replicate-snoc zero r rs = refl
replicate-snoc (suc n) r rs = ap (◌∷◌ r) (replicate-snoc n r rs)

early :
    (n : ℕ) (last : ParseResult)
    → replicate (5 + n) ParseResult.need_more ++ ParseResult.need_more ∷ last ∷ []
      ≡ replicate (6 + n) ParseResult.need_more ++ last ∷ []
early n last =
    replicate-snoc (5 + n) ParseResult.need_more (last ∷ [])
    ∙ ap (λ k. replicate k ParseResult.need_more ++ last ∷ []) {x = suc (5 + n)} (omega arith)

take-stored_all :
    (buffer xs : List ℕ) → length xs ≤ length buffer → take (length xs) (stored buffer 0 xs) ≡ xs
take-stored_all buffer xs h =
    let e : 0 + length xs ≡ length xs = omega arith in
    rw e at (take-stored buffer 0 xs (omega arith))

feed_all-body :
    (p : FrameParser) (type status : ℕ) (payload : List ℕ)
    → p.state ≡ State.sync
    → is_device_frame type ≡ true
    → length payload ≤ max_rx_payload
    → feed_all p (sync_byte ∷ response_body type status payload)
      ≡ (received p type status payload, replicate (5 + length payload) ParseResult.need_more)
unfolding crc16 crc16_from
feed_all-body p type status [] e dev small = feed_all-header p type status 0 e dev small
feed_all-body p type status (x ∷ xs) e dev small =
    let n = suc (length xs) in
    let header = sync_byte ∷ type ∷ status ∷ n % 256 ∷ n / 256 ∷ [] in
    let body =
      feed_all-payload (headed p type status n) x xs (some_payload n (omega arith)) (omega arith)
        small in
    feed_all-join p header (x ∷ xs) (feed_all-header p type status n e dev small) body
    ∙ ap (λ t. (received p type status (x ∷ xs), t)) (replicate-append 5 n ParseResult.need_more)
  where
    some_payload : (n : ℕ) → 0 < n → (headed p type status n).state ≡ State.payload
    some_payload n h = ground arith

-- From rest the parser takes the frame in without an early report, reports it on the last byte,
-- as a frame exactly when the checksum matches, and is at rest again. The type, the status, the
-- length and the payload are then those that were sent.
pub feed_all-device_frame :
    (p : FrameParser) (type status : ℕ) (payload : List ℕ) (c : ℕ)
    → p.state ≡ State.sync
    → length p.payload ≡ max_rx_payload
    → is_device_frame type ≡ true
    → length payload ≤ max_rx_payload
    → c < 65536
    → let (q, reports) = feed_all p (device_frame type status payload c) in
      let last =
        if c == crc16 (response_body type status payload)
        then ParseResult.frame
        else ParseResult.crc_failed in
      (reports ≡ replicate (6 + length payload) ParseResult.need_more ++ last ∷ [])
      × (q.state ≡ State.sync)
      × (q.type ≡ type)
      × (q.status ≡ status)
      × (q.len ≡ length payload)
      × (take q.len q.payload ≡ payload)
feed_all-device_frame p type status payload c e room dev small h =
    let body = feed_all-body p type status payload e dev small in
    let q = received p type status payload in
    let whole =
      feed_all-join p (sync_byte ∷ response_body type status payload) (c % 256 ∷ c / 256 ∷ []) body
        (feed_all-crc q c refl h) in
    rw whole (
      early (length payload) _,
      refl,
      refl,
      refl,
      refl,
      take-stored_all p.payload payload (omega arith),
    )

length-swap :
    (before after : List ℕ) (x y : ℕ) → length (before ++ y ∷ after) ≡ length (before ++ x ∷ after)
length-swap before after x y =
    omega (arith, length-append before (x ∷ after), length-append before (y ∷ after))

pub device_byte : (type : ℕ) → is_device_frame type ≡ true → type < 256
device_byte type dev = ground arith

-- The checksum tells the two bodies apart.
corrupt_crc :
    (type status x y : ℕ) (before after : List ℕ)
    → type < 256
    → status < 256
    → length (before ++ x ∷ after) ≤ max_rx_payload
    → IsBytes before
    → IsBytes after
    → x < 256
    → y < 256
    → x ≢ y
    → crc16 (response_body type status (before ++ x ∷ after))
      ≢ crc16 (response_body type status (before ++ y ∷ after))
unfolding crc16
corrupt_crc type status x y before after ht hs small hb ha hx hy ne q =
    let n = length (before ++ x ∷ after) in
    let header = type ∷ status ∷ n % 256 ∷ n / 256 ∷ before in
    let bytes : IsBytes header = (ht, (hs, (omega arith, (omega arith, hb)))) in
    let same = length-swap before after x y in
    crc16_one_byte crc16_init header after x y (omega arith) bytes ha hx hy ne (
      q
      ∙ ap (λ n. crc16_from crc16_init (type ∷ status ∷ n % 256 ∷ n / 256 ∷ (before ++ y ∷ after)))
          same)

pub body-crc-lt :
    (type status : ℕ) (payload : List ℕ)
    → type < 256
    → status < 256
    → length payload ≤ max_rx_payload
    → IsBytes payload
    → crc16 (response_body type status payload) < 65536
unfolding crc16
body-crc-lt type status payload ht hs small hb =
    crc16_from-lt crc16_init (response_body type status payload) (omega arith)
      (ht, (hs, (omega arith, (omega arith, hb))))

IsBytes-append : (xs ys : List ℕ) → IsBytes xs → IsBytes ys → IsBytes (xs ++ ys)
IsBytes-append [] ys h k = k
IsBytes-append (x ∷ xs) ys h k = (h.0, IsBytes-append xs ys h.1 k)

-- Where one byte of the payload was corrupted on the way, the frame is discarded: the parser
-- reports a checksum failure and is at rest.
pub feed_all-corrupt :
    (p : FrameParser) (type status x y : ℕ) (before after : List ℕ)
    → p.state ≡ State.sync
    → length p.payload ≡ max_rx_payload
    → is_device_frame type ≡ true
    → length (before ++ x ∷ after) ≤ max_rx_payload
    → status < 256
    → IsBytes before
    → IsBytes after
    → x < 256
    → y < 256
    → x ≢ y
    → let sent = before ++ x ∷ after in
      let arrived = before ++ y ∷ after in
      let c = crc16 (response_body type status sent) in
      let (q, reports) = feed_all p (device_frame type status arrived c) in
      (reports
        ≡ replicate (6 + length arrived) ParseResult.need_more ++ ParseResult.crc_failed ∷ [])
      × (q.state ≡ State.sync)
feed_all-corrupt p type status x y before after e room dev small hs hb ha hx hy ne =
    let sent = before ++ x ∷ after in
    let arrived = before ++ y ∷ after in
    let c = crc16 (response_body type status sent) in
    let ht = device_byte type dev in
    let fits : length arrived ≤ max_rx_payload = omega (arith, length-swap before after x y) in
    let bytes = IsBytes-append before (x ∷ after) hb (hx, ha) in
    let whole =
      feed_all-device_frame p type status arrived c e room dev fits
        (body-crc-lt type status sent ht hs small bytes) in
    let wrong : (c == crc16 (response_body type status arrived)) ≡ false =
      ne→false c (crc16 (response_body type status arrived))
        (corrupt_crc type status x y before after ht hs small hb ha hx hy ne) in
    (rw wrong at whole.0, whole.1)
  where
    ne→false : (a b : ℕ) → a ≢ b → (a == b) ≡ false
    ne→false a b h = ground arith
