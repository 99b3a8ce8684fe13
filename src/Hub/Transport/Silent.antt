-- ===== src/Hub/Transport/Silent.antt =====
-- dspi.cpp: a request that no one answers.
use esphome_dspi.Prelude.{
  ℕ, ◌+◌, ◌≤◌, ◌<◌, ◌≡◌, ◌⊎◌, refl, sym, subst, arith, ap, ◌∙◌, u8, ◌%◌, [], ◌∷◌, set, length, Bool,
  true, false, ltb, leb, ◌==◌, Option, none, some, if◌then◌else◌, inl,
}
use esphome_dspi.Hub.Transaction.{Transaction, OnFail, retries_default}
use esphome_dspi.Hub.Queue.{Queue, enqueue, coalesce, place, find_next, find_next_from}
use esphome_dspi.Hub.Queue.Next.{IsIdle}
use esphome_dspi.Hub.State.{Config, DspiHub, HubState, Output}
use esphome_dspi.Hub.Requests.{enqueue_txn, publish_state}
use esphome_dspi.Hub.Transport.{
  retry_or_drop, retry_limit, fail_current, go_offline, failures_before_offline, run_fail,
  clear_queue,
}
use esphome_dspi.Hub.Transport.Budget.{run_fail-queue}
use esphome_dspi.Hub.Link.Kept.{run_fail-SameLink}
use esphome_dspi.Hub.Rta.{reset_rta}
use esphome_dspi.Hub.Sync.{is_quiet}
use esphome_dspi.Protocol.Wire.{CtrlStatus, status_byte}
use esphome_dspi.Hub.Loop.{send_next, released, frame_of}

idle-coalesce : (t : Transaction) (q : Queue) → IsIdle q → coalesce t q ≡ none
unfolding coalesce
idle-coalesce t [] i = refl
idle-coalesce t (s ∷ q) i = ground (arith, idle-coalesce t q)

idle-find_next_from :
    (i : ℕ) (b : Option (ℕ × Transaction)) (q : Queue) → IsIdle q → find_next_from i b q ≡ b
unfolding find_next_from
idle-find_next_from i b [] d = refl
idle-find_next_from i none (s ∷ q) d = rw d.0 (idle-find_next_from (i + 1) none q d.1)
idle-find_next_from i (some (j, c)) (s ∷ q) d =
    rw d.0 (idle-find_next_from (i + 1) (some (j, c)) q d.1)

-- Into a queue where nothing waits, and out of it again.
pub enqueue-idle :
    (t s : Transaction) (q : Queue)
    → IsIdle (s ∷ q)
    → (enqueue t (s ∷ q)).queue ≡ record t { in_use = true } ∷ q
unfolding enqueue place
enqueue-idle t s q i = simp (i.0, idle-coalesce t q i.1) refl

-- A request in flight that has been tried `n` times before, with nothing else waiting.
pub record Trying (n limit : ℕ) (h : DspiHub) : Type 0 where
  pub waits : h.link.hub_state ≡ HubState.await_resp
  pub in_flight : h.link.has_current ≡ true
  pub tried : h.link.current.attempts ≡ n
  pub budget : retry_limit h h.link.current ≡ limit
  pub alone : IsIdle h.queue
  pub room : 0 < length h.queue

pub find_next-alone :
    (t : Transaction) (q : Queue) → t.in_use ≡ true → IsIdle q → find_next (t ∷ q) ≡ some (0, t)
unfolding find_next find_next_from
find_next-alone t q u i = simp (u) (idle-find_next_from 1 (some (0, t)) q i)

abbrev pub sent : DspiHub → Transaction → DspiHub
sent h t = record h {
  queue = set h.queue 0 (released t);
  link = record (h.link) {
    current = t;
    has_current = true;
    sent_at = h.clock;
    hub_state = HubState.await_resp;
  };
  out = Output.tx (frame_of t) ∷ h.out;
}

pub send_found :
    (h : DspiHub) (t : Transaction) → find_next h.queue ≡ some (0, t) → send_next h ≡ sent h t
unfolding send_next
send_found h t f = rw (send_next, f) refl

enqueue_txn-queue :
    (h : DspiHub) (t : Transaction) → (enqueue_txn h t).0.queue ≡ (enqueue t h.queue).queue
unfolding enqueue_txn
enqueue_txn-queue h t = refl

pub retry_or_drop-same :
    (h : DspiHub)
    → h.link.has_current ≡ true
    → h.link.current.attempts < retry_limit h h.link.current
    → h.link.current.attempts < 255
    → let h' = retry_or_drop h in
      (h'.config ≡ h.config) × (h'.out ≡ h.out) × (is_quiet h' ≡ is_quiet h)
unfolding retry_or_drop enqueue_txn
retry_or_drop-same h busy more small =
    let e : (h.link.current.attempts + 1) % 256 ≡ h.link.current.attempts + 1 = omega arith in
    let f : ltb (retry_limit h h.link.current) (h.link.current.attempts + 1) ≡ false =
      ground arith in
    simp (busy, e, f) (refl, refl, refl)

-- Sending the one request that waits, at the front.
pub sent-Trying :
    (n limit : ℕ) (h : DspiHub) (t : Transaction) (q : Queue)
    → h.queue ≡ record t { in_use = true } ∷ q
    → IsIdle q
    → t.attempts ≡ n
    → retry_limit h t ≡ limit
    → Trying n limit (send_next h)
sent-Trying n limit h t q e i tried budget =
    let u = record t { in_use = true } in
    let s = send_found h u (ap find_next e ∙ find_next-alone u q refl i) in
    rw s record {
      waits = refl;
      in_flight = refl;
      tried = tried;
      budget = budget;
      alone = rw e (refl, i);
      room = rw e (ground arith);
    }

abbrev pub budget_of : Transaction → Config → ℕ
budget_of t config = if t.max_retries == retries_default then config.max_retries else t.max_retries

pub nonempty : (q : Queue) → 0 < length q → (s : Transaction) × (r : Queue) × (q ≡ s ∷ r)
nonempty [] room = absurd (omega arith)
nonempty (s ∷ r) room = (s, r, refl)

clear_queue-IsIdle : (q : Queue) → IsIdle (clear_queue q)
unfolding clear_queue
clear_queue-IsIdle [] = tt
clear_queue-IsIdle (s ∷ q) = (refl, clear_queue-IsIdle q)

go_offline-IsIdle : (h : DspiHub) → IsIdle (go_offline h).queue
unfolding go_offline reset_rta publish_state
go_offline-IsIdle h = ground (arith, clear_queue-IsIdle h.queue)

-- Nothing is left of a request that is given up.
abbrev pub GivenUp : DspiHub → Type 0
GivenUp h =
    ((h.link.hub_state ≡ HubState.idle) ⊎ (h.link.hub_state ≡ HubState.offline))
    × (h.link.has_current ≡ false)
    × IsIdle h.queue

run_fail-GivenUp : (cb : OnFail) (h : DspiHub) (s : ℕ) → GivenUp h → GivenUp (run_fail cb h s)
run_fail-GivenUp cb h s g =
    let same = run_fail-SameLink cb h s in
    (
      subst (λ x. (x ≡ HubState.idle) ⊎ (x ≡ HubState.offline)) (sym same.0) g.0,
      same.1 ∙ g.1,
      subst IsIdle (sym (run_fail-queue cb h s)) g.2,
    )

go_offline-GivenUp : (h : DspiHub) → h.link.has_current ≡ false → GivenUp (go_offline h)
unfolding go_offline reset_rta publish_state
go_offline-GivenUp h free = (ground arith, ground arith, go_offline-IsIdle h)

after_failures :
    (b : Bool) (h : DspiHub)
    → h.link.hub_state ≡ HubState.idle
    → h.link.has_current ≡ false
    → IsIdle h.queue
    → GivenUp (if b then go_offline h else h)
after_failures true h s free i = go_offline-GivenUp h free
after_failures false h s free i = (inl s, free, i)

fail_current-GivenUp : (h : DspiHub) → IsIdle h.queue → GivenUp (fail_current h)
unfolding fail_current
fail_current-GivenUp h i =
    run_fail-GivenUp h.link.current.on_fail _ (status_byte CtrlStatus.link_failed) (
      after_failures (leb failures_before_offline (u8 (h.link.consecutive_failures + 1))) _ refl
        refl i)

pub last_try :
    (n limit : ℕ) (h : DspiHub) → limit ≤ n → n < 255 → Trying n limit h → GivenUp (retry_or_drop h)
unfolding retry_or_drop
last_try n limit h over small t =
    let e : (h.link.current.attempts + 1) % 256 ≡ h.link.current.attempts + 1 = ground arith in
    let f : ltb (retry_limit h h.link.current) (h.link.current.attempts + 1) ≡ true =
      ground arith in
    simp (t.in_flight, e, f) (fail_current-GivenUp _ t.alone)
