-- ===== src/Framing/Build/Layout.antt =====
-- The frame that `build_request_frame` writes, described without its loops.
use esphome_dspi.Prelude.{
  ℕ, zero, suc, ◌+◌, ◌/◌, ◌%◌, ◌^◌, ◌<◌, ◌≤◌, ◌≡◌, refl, arith, ap, ap₂, ◌∙◌,
}
use esphome_dspi.Prelude.{
  bit_and, u8, List, [], ◌∷◌, ◌++◌, length, length-append, length-take, take,
}
use esphome_dspi.Prelude.Bits.{bit_and-byte}
use native.Mathlib.Numerals.{add-one}
use mathlib.Core.List.{append_assoc, append-nil}
use esphome_dspi.Crc16.{crc16_init, crc16_from, crc16, crc16_update}
use esphome_dspi.Crc16.Detect.{IsBytes, crc16_from-lt, crc16_from-append}
use esphome_dspi.Protocol.Wire.{sync_byte, byte_at, max_tx_frame, max_tx_payload}
use esphome_dspi.Framing.Build.{
  Writer, put_byte, put_header, put_payload, request_header, build_request_frame,
}

-- The bytes of a 16-bit word, low byte first.
abbrev pub word_le : ℕ → List ℕ
word_le v = v % 256 ∷ v / 256 ∷ []

-- What the checksum covers: type, request, three words and the payload.
abbrev pub request_body : ℕ → ℕ → ℕ → ℕ → ℕ → List ℕ → List ℕ
request_body type req wvalue windex wlen payload =
    type ∷ req ∷ (word_le wvalue ++ (word_le windex ++ (word_le wlen ++ payload)))

put_header_lem :
    (w : Writer) (bs : List ℕ)
    → put_header w bs ≡ record { out = w.out ++ bs; crc = crc16_from w.crc bs }
unfolding put_header crc16_from
put_header_lem w [] = rw append-nil refl
put_header_lem w (b ∷ bs) =
    put_header_lem (put_byte w b) bs
    ∙ ap (λ o. record { out = o; crc = crc16_from (crc16_update w.crc b) bs })
        (append_assoc w.out (b ∷ []) bs)

-- `n` bytes of a buffer from index `i` on.
abbrev slice : List ℕ → ℕ → ℕ → List ℕ
slice payload i zero = []
slice payload i (suc n) = byte_at payload i ∷ slice payload (i + 1) n

put_payload_lem :
    (left i : ℕ) (payload : List ℕ) (w : Writer)
    → put_payload left i payload w ≡ record {
      out = w.out ++ slice payload i left;
      crc = crc16_from w.crc (slice payload i left);
    }
unfolding put_payload crc16_from
put_payload_lem zero i payload w = rw append-nil refl
put_payload_lem (suc left) i payload w =
    let b = byte_at payload i in
    let rest = slice payload (i + 1) left in
    put_payload_lem left (i + 1) payload (put_byte w b)
    ∙ ap (λ o. record { out = o; crc = crc16_from (crc16_update w.crc b) rest })
        (append_assoc w.out (b ∷ []) rest)

slice-cons : (x : ℕ) (xs : List ℕ) (i n : ℕ) → slice (x ∷ xs) (suc i) n ≡ slice xs i n
slice-cons x xs i zero = refl
slice-cons x xs i (suc n) =
    rw (add-one, add-one) (ap (◌∷◌ (byte_at xs i)) (slice-cons x xs (suc i) n))

slice-take : (n : ℕ) (xs : List ℕ) → n ≤ length xs → slice xs 0 n ≡ take n xs
slice-take zero xs h = refl
slice-take (suc n) [] h = absurd (omega arith)
slice-take (suc n) (x ∷ xs) h = ap (◌∷◌ x) (slice-cons x xs 0 n ∙ slice-take n xs (omega arith))

-- The two bytes that the code takes from a word, by mask and shift.
word_bytes : (v : ℕ) → v < 65536 → u8 (bit_and v 0xFF) ∷ u8 (v / 2 ^ 8) ∷ [] ≡ word_le v
word_bytes v h = rw (bit_and-byte v) (ap₂ (λ lo hi. lo ∷ hi ∷ []) (omega arith) (omega arith))

request_header_lem :
    (type req wvalue windex wlen : ℕ)
    → wvalue < 65536
    → windex < 65536
    → wlen < 65536
    → request_header type req wvalue windex wlen ≡ request_body type req wvalue windex wlen []
request_header_lem type req wvalue windex wlen hv hi hl =
    ap₂ (λ a b. type ∷ req ∷ (a ++ b)) (word_bytes wvalue hv)
      (ap₂ ◌++◌ (word_bytes windex hi) (word_bytes wlen hl))

-- What stands in the buffer once the checksum is appended.
abbrev closed : Writer → List ℕ
closed w = w.out ++ u8 (bit_and w.crc 0xFF) ∷ u8 (w.crc / 2 ^ 8) ∷ []

abbrev over : List ℕ → Writer
over body = record { out = sync_byte ∷ body; crc = crc16_from crc16_init body }

-- Both loops together, for any header.
written_lem :
    (header payload : List ℕ) (n : ℕ)
    → n ≤ length payload
    → put_payload n 0 payload
        (put_header (record { out = sync_byte ∷ []; crc = crc16_init }) header)
      ≡ record {
        out = sync_byte ∷ (header ++ take n payload);
        crc = crc16_from crc16_init (header ++ take n payload);
      }
written_lem header payload n h =
    let start : Writer = record { out = sync_byte ∷ []; crc = crc16_init } in
    rw
      (
        put_header_lem start header,
        put_payload_lem n 0 payload
            (record { out = sync_byte ∷ header; crc = crc16_from crc16_init header }),
        slice-take n payload h,
        crc16_from-append crc16_init header (take n payload),
      )
      refl

request_body-append :
    (type req wvalue windex wlen : ℕ) (pl : List ℕ)
    → request_body type req wvalue windex wlen [] ++ pl
      ≡ request_body type req wvalue windex wlen pl
request_body-append type req wvalue windex wlen pl = refl

take-IsBytes : (n : ℕ) (xs : List ℕ) → IsBytes xs → IsBytes (take n xs)
take-IsBytes zero xs h = tt
take-IsBytes (suc n) [] h = tt
take-IsBytes (suc n) (x ∷ xs) h = (h.0, take-IsBytes n xs h.1)

request_body-IsBytes :
    (type req wvalue windex wlen : ℕ) (pl : List ℕ)
    → type < 256
    → req < 256
    → wvalue < 65536
    → windex < 65536
    → wlen < 65536
    → IsBytes pl
    → IsBytes (request_body type req wvalue windex wlen pl)
request_body-IsBytes type req wvalue windex wlen pl ht hr hv hi hl hb = (
  ht,
  (
    hr,
    (omega arith, (omega arith, (omega arith, (omega arith, (omega arith, (omega arith, hb)))))),
  ),
)

-- The code's frame, with its loops run.
frame_lem :
    (type req wvalue windex wlen : ℕ) (payload : List ℕ) (payload_len : ℕ)
    → wvalue < 65536
    → windex < 65536
    → wlen < 65536
    → payload_len ≤ length payload
    → let body = request_body type req wvalue windex wlen (take payload_len payload) in
      build_request_frame type req wvalue windex wlen payload payload_len
      ≡ sync_byte ∷ (body ++ u8 (bit_and (crc16 body) 0xFF) ∷ u8 (crc16 body / 2 ^ 8) ∷ [])
unfolding build_request_frame crc16
frame_lem type req wvalue windex wlen payload payload_len hv hi hl hp =
    let pl = take payload_len payload in
    ap closed (written_lem (request_header type req wvalue windex wlen) payload payload_len hp)
    ∙ ap (λ h. closed (over (h ++ pl))) (request_header_lem type req wvalue windex wlen hv hi hl)

-- The frame is the sync byte, the type, the request, the three words low byte first, the first
-- `payload_len` bytes of the payload, and the checksum of all but the sync byte, low byte first.
pub build_request_frame-layout :
    (type req wvalue windex wlen : ℕ) (payload : List ℕ) (payload_len : ℕ)
    → type < 256
    → req < 256
    → wvalue < 65536
    → windex < 65536
    → wlen < 65536
    → IsBytes payload
    → payload_len ≤ length payload
    → let body = request_body type req wvalue windex wlen (take payload_len payload) in
      build_request_frame type req wvalue windex wlen payload payload_len
      ≡ sync_byte ∷ (body ++ word_le (crc16 body))
unfolding build_request_frame crc16
build_request_frame-layout type req wvalue windex wlen payload payload_len ht hr hv hi hl hb hp =
    let pl = take payload_len payload in
    let body = request_body type req wvalue windex wlen pl in
    let bytes =
      request_body-IsBytes type req wvalue windex wlen pl ht hr hv hi hl
        (take-IsBytes payload_len payload hb) in
    frame_lem type req wvalue windex wlen payload payload_len hv hi hl hp
    ∙ ap (λ t. sync_byte ∷ (body ++ t))
        (word_bytes (crc16 body) (crc16_from-lt crc16_init body (omega arith) bytes))

two_more : (xs : List ℕ) (a b : ℕ) → length (xs ++ a ∷ b ∷ []) ≡ length xs + 2
two_more xs a b = length-append xs (a ∷ b ∷ [])

-- The frame fits the buffer: its length is 11 and the payload's.
pub length-build_request_frame :
    (type req wvalue windex wlen : ℕ) (payload : List ℕ) (payload_len : ℕ)
    → payload_len ≤ length payload
    → payload_len ≤ max_tx_payload
    → let frame = build_request_frame type req wvalue windex wlen payload payload_len in
      (length frame ≡ 11 + payload_len) × (length frame ≤ max_tx_frame)
unfolding build_request_frame
length-build_request_frame type req wvalue windex wlen payload payload_len hp small =
    let pl = take payload_len payload in
    let header = request_header type req wvalue windex wlen in
    let c = crc16_from crc16_init (header ++ pl) in
    let e = ap (λ w. length (closed w)) (written_lem header payload payload_len hp) in
    let m = length-take payload_len payload hp in
    let l : length (closed (over (header ++ pl))) ≡ 11 + payload_len =
      omega (arith, m, two_more pl (u8 (bit_and c 0xFF)) (u8 (c / 2 ^ 8))) in
    let whole = e ∙ l in (whole, rw whole (omega arith))
