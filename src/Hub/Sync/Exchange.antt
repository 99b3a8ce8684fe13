-- ===== src/Hub/Sync/Exchange.antt =====
-- One exchange with a device that answers.
use esphome_dspi.Prelude.{
  ℕ, ◌≡◌, refl, ap, arith, ◌∙◌, ◌==◌, true, false, some, List, [], ◌∷◌, set, take, length,
}
use esphome_dspi.Protocol.Wire.{frame_byte, FrameType, status_byte, CtrlStatus}
use esphome_dspi.Crc16.{crc16}
use esphome_dspi.Framing.Parser.{State, FrameParser, feed, feed_all, is_device_frame}
use esphome_dspi.Framing.Parser.Bounds.{IsValid, feed-IsValid}
use esphome_dspi.Framing.Receive.Frame.{
  body-crc-lt, feed_all-device_frame, device_byte, response_body,
}
use esphome_dspi.Hub.Transaction.{Transaction}
use esphome_dspi.Hub.Queue.{find_next}
use esphome_dspi.Hub.State.{DspiHub, HubState, Output}
use esphome_dspi.Hub.Transport.{run_ok, settle, expected_type, handle_response}
use esphome_dspi.Hub.Receive.{handle_frame}
use esphome_dspi.Hub.Receive.Pump.{fed, counted, pump_loop-device_frame}
use esphome_dspi.Hub.Loop.{send_next, send_if_idle, frame_of, released}
use esphome_dspi.Hub.Sync.{Answers, Responsive, answer_frame, exchange, Ready}

-- The hub that has sent `t`, found at `i`.
abbrev pub sent : DspiHub → ℕ → Transaction → DspiHub
sent h i t = record h {
  queue = set h.queue i (released t);
  link = record (h.link) {
    current = t;
    has_current = true;
    sent_at = h.clock;
    hub_state = HubState.await_resp;
  };
  out = Output.tx (frame_of t) ∷ h.out;
}

abbrev later : DspiHub → ℕ → DspiHub
later h now = record h { clock = now }

-- The hub that has taken in the answer to `t` and is about to run its handler.
abbrev pub settled : DspiHub → ℕ → ℕ → Transaction → FrameParser → ℕ → DspiHub
settled h now i t p n =
    let g = fed (later (sent h i t) now) p n in
    settle (record g { link = record (g.link) { consecutive_failures = 0 } }) HubState.idle

response_type : (t : Transaction) → is_device_frame (expected_type t) ≡ true
response_type t = ground arith

not_notify : (t : Transaction) → (expected_type t == frame_byte FrameType.notify) ≡ false
not_notify t = ground arith

feed_all-IsValid : (p : FrameParser) (bytes : List ℕ) → IsValid p → IsValid (feed_all p bytes).0
unfolding feed_all
feed_all-IsValid p [] v = v
feed_all-IsValid p (b ∷ bytes) v = feed_all-IsValid (feed p b).0 bytes (feed-IsValid b v)

handled :
    (h : DspiHub) (now i : ℕ) (t : Transaction) (p : FrameParser) (n : ℕ)
    → p.type ≡ expected_type t
    → p.status ≡ status_byte CtrlStatus.ok
    → handle_frame (fed (later (sent h i t) now) p n)
      ≡ run_ok t.on_ok (settled h now i t p n) p.payload p.len
unfolding handle_frame handle_response
handled h now i t p n e s =
    let other : (p.type == frame_byte FrameType.notify) ≡ false = rw e (not_notify t) in
    let same : (p.type == expected_type t) ≡ true = ground arith in
    let ok : (p.status == status_byte CtrlStatus.ok) ≡ true = ground arith in
    simp (other, same, ok) refl

-- What an exchange does with the request `t` that was found at `i`: the device's answer, and
-- nothing else, reaches the handler of `t`.
pub record Answered (dev : Answers) (now : ℕ) (h : DspiHub) (i : ℕ) (t : Transaction) (h' : DspiHub)
    : Type 0 where
  pub parser : FrameParser
  pub count : ℕ
  pub at_rest : parser.state ≡ State.sync
  pub valid : IsValid parser
  pub len : parser.len ≡ length (dev t.req)
  pub payload : take parser.len parser.payload ≡ dev t.req
  pub ran : h' ≡ run_ok t.on_ok (settled h now i t parser count) parser.payload parser.len

send_if_idle-sent :
    (h : DspiHub) (i : ℕ) (t : Transaction)
    → h.link.hub_state ≡ HubState.idle
    → find_next h.queue ≡ some (i, t)
    → send_if_idle h ≡ sent h i t
unfolding send_if_idle send_next
send_if_idle-sent h i t e f = simp e (rw (send_next, f) refl)

pub exchange-Answered :
    (dev : Answers) (now : ℕ) (h : DspiHub) (i : ℕ) (t : Transaction)
    → Responsive dev
    → Ready h
    → find_next h.queue ≡ some (i, t)
    → Answered dev now h i t (exchange dev now h)
unfolding exchange
exchange-Answered dev now h i t d r f =
    let s = send_if_idle-sent h i t r.idle f in
    let type = expected_type t in
    let ok = status_byte CtrlStatus.ok in
    let body = dev t.req in
    let g = later (sent h i t) now in
    let small =
      body-crc-lt type ok body (device_byte type (response_type t)) (omega arith) (d.fits t.req)
        (d.bytes t.req) in
    let w =
      pump_loop-device_frame g type ok body r.at_rest r.parser_valid.room (response_type t)
        (d.fits t.req) small in
    let q = (feed_all h.parser (answer_frame dev t)).0 in
    let n = counted (length (answer_frame dev t)) h.diag.rx_bytes in
    let rests =
      (feed_all-device_frame h.parser type ok body (crc16 (response_body type ok body)) r.at_rest
        r.parser_valid.room (response_type t) (d.fits t.req) small).1 in
    record {
      parser = q;
      count = n;
      at_rest = rests;
      valid = feed_all-IsValid h.parser (answer_frame dev t) r.parser_valid;
      len = w.3;
      payload = w.4;
      ran = rw s (ap (λ (x : DspiHub × List ℕ). x.0) w.0 ∙ handled h now i t q n w.1 w.2);
    }
