-- ===== src/Hub/Wrap.antt =====
-- dspi.cpp: deadlines and intervals on `millis()`, which wraps around after 49 days. A time is
-- counted without wrapping here; the hub holds it modulo 2 ^ 32.
use esphome_dspi.Prelude.{
  ℕ, ◌+◌, ◌-◌, ◌≤◌, ◌<◌, ◌^◌, ◌≡◌, refl, arith, u32, sub32, leb, true, if◌then◌else◌, ap, ◌∙◌,
}
use esphome_dspi.Hub.State.{DspiHub, HubState}
use esphome_dspi.Hub.Requests.{is_due, request_refresh}
use esphome_dspi.Hub.Transport.{retry_or_drop}
use esphome_dspi.Hub.Loop.{step_link, step_in}

-- The wrap-safe test agrees with the order of the times while they are less than 2 ^ 31 apart.
pub is_due-u32 : (t d : ℕ) → t < d + 2 ^ 31 → d ≤ t + 2 ^ 31 → is_due (u32 t) (u32 d) ≡ leb d t
is_due-u32 t d late early = ground arith

-- A difference of wrapped times is that of the times.
pub sub32-u32 : (t s : ℕ) → s ≤ t → t < s + 2 ^ 32 → sub32 (u32 t) (u32 s) ≡ t - s
sub32-u32 t s after near = ground arith

u32-add : (s d : ℕ) → u32 (u32 s + d) ≡ u32 (s + d)
u32-add s d = omega arith

-- A refresh requested at the time `s` is pending, and due at a time `t` exactly if the debounce time
-- has passed by then, though both clocks wrap around, while `t` is less than 2 ^ 31 ms from the
-- deadline.
pub request_refresh-is_due :
    (h : DspiHub) (s t : ℕ)
    → h.clock ≡ u32 s
    → s ≤ t
    → h.config.refresh_debounce_ms ≤ 2 ^ 31
    → t < s + h.config.refresh_debounce_ms + 2 ^ 31
    → let h' = request_refresh h in
      (h'.refresh.refresh_pending ≡ true)
      × (is_due (u32 t) h'.refresh.refresh_due_at ≡ leb (s + h.config.refresh_debounce_ms) t)
unfolding request_refresh
request_refresh-is_due h s t e after small near =
    let d = h.config.refresh_debounce_ms in
    let deadline : u32 (h.clock + d) ≡ u32 (s + d) = ap (λ x. u32 (x + d)) e ∙ u32-add s d in
    (refl, rw deadline (is_due-u32 t (s + d) near (omega arith)))

-- A request sent at the time `s` is given up at a time `t` less than 2 ^ 32 ms later exactly if its
-- timeout has passed, though both clocks wrap around; the timeout is then counted.
pub step_link-timeout :
    (h : DspiHub) (s t : ℕ)
    → h.link.hub_state ≡ HubState.await_resp
    → h.link.sent_at ≡ u32 s
    → s ≤ t
    → t < s + 2 ^ 32
    → step_link h (u32 t) ≡ (
        if leb (s + h.link.current.timeout_ms) t
        then retry_or_drop
            (record h { diag = record (h.diag) { txn_timeouts = u32 (h.diag.txn_timeouts + 1) } })
        else h)
unfolding step_link step_in
step_link-timeout h s t e sent after near =
    let p = sub32-u32 t s after near in
    let q : sub32 (u32 t) h.link.sent_at ≡ t - s = ap (λ x. sub32 (u32 t) x) sent ∙ p in
    let same : leb h.link.current.timeout_ms (t - s) ≡ leb (s + h.link.current.timeout_ms) t =
      ground arith in
    simp (e, q, same) refl
