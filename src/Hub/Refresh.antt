-- ===== src/Hub/Refresh.antt =====
-- dspi.cpp: the refresh burst goes out whole.
use esphome_dspi.Prelude.{
  ℕ, ◌+◌, ◌≤◌, ◌<◌, bit_and, truthy, leb, true, false, ◌&&◌, ◌≡◌, refl, arith, if◌then◌else◌,
}
use esphome_dspi.Prelude.{some, List, [], ◌∷◌, All, inl, inr, Bool-cases, leb→le}
use esphome_dspi.Protocol.Toggle.Wanted.{wants, wanted, wanted-le}
use esphome_dspi.Protocol.Toggle.{ToggleTarget, toggle_bit, toggle_get_opcode, toggle_mask_count}
use esphome_dspi.Protocol.Opcode.{Opcode, opcode}
use esphome_dspi.Protocol.Preset.{input_rate_len}
use esphome_dspi.Hub.Transaction.{Transaction, OnOk, OnFail}
use esphome_dspi.Hub.Queue.{Queue, enqueue, queue_free, same_request}
use esphome_dspi.Hub.Queue.Refine.{pending, folded, pending-enqueue}
use esphome_dspi.Hub.State.{DspiHub}
use esphome_dspi.Hub.Requests.{enqueue_get, enqueue_toggle_read, get_request, is_due}
use esphome_dspi.Hub.Loop.{read_if, read_toggles, read_fixed, service_refresh, toggles_to_read}

-- Something waits under the identity of `key`.
abbrev pub IsPending : Transaction → Queue → Type 0
IsPending key q = (t : Transaction) × (pending key q ≡ some t)

-- `h'` is `h` after at most `n` requests, among them `asked`, that all found room: nothing was
-- dropped, what waited still waits, and what was asked waits as well.
pub record Sent (n : ℕ) (asked : List Transaction) (h h' : DspiHub) : Type 0 where
  pub room : queue_free h.queue ≤ queue_free h'.queue + n
  pub not_dropped : h'.diag.txn_dropped ≡ h.diag.txn_dropped
  pub kept : (key : Transaction) → IsPending key h.queue → IsPending key h'.queue
  pub waits : All (λ t. IsPending t h'.queue) asked

pub IsPending-kept :
    (key t : Transaction) (q : Queue)
    → 0 < queue_free q
    → IsPending key q
    → IsPending key (enqueue t q).queue
IsPending-kept key t q r (s, e) = elim (Bool-cases (same_request t key)) [
  | inl same ↦ (folded (pending t q) t, ground (arith, pending-enqueue key t q r))
  | inr other ↦ (s, ground (arith, pending-enqueue key t q r))
]

pub enqueue-IsPending :
    (key t : Transaction) (q : Queue)
    → same_request t key ≡ true
    → 0 < queue_free q
    → IsPending key (enqueue t q).queue
enqueue-IsPending key t q same r =
    (folded (pending t q) t, ground (arith, pending-enqueue key t q r))

All-IsPending-kept :
    (ts : List Transaction) (t : Transaction) (q : Queue)
    → 0 < queue_free q
    → All (λ key. IsPending key q) ts
    → All (λ key. IsPending key (enqueue t q).queue) ts
All-IsPending-kept [] t q r a = tt
All-IsPending-kept (key ∷ ts) t q r (p, a) =
    (IsPending-kept key t q r p, All-IsPending-kept ts t q r a)

start-Sent : (h : DspiHub) → Sent 0 [] h h
start-Sent h = record { room = omega arith; not_dropped = refl; kept = λ key p. p; waits = tt }

-- One more read, while there is room for one more.
enqueue_get-Sent :
    (h₀ h : DspiHub) (n : ℕ) (ts : List Transaction) (req wlen : ℕ) (cb : OnOk)
    (priority wvalue : ℕ) (on_fail : OnFail)
    → n < queue_free h₀.queue
    → Sent n ts h₀ h
    → Sent
        (n + 1)
        (get_request h₀ req wlen cb priority wvalue on_fail ∷ ts)
        h₀
        (enqueue_get h req wlen cb priority wvalue on_fail)
unfolding enqueue_get
enqueue_get-Sent h₀ h n ts req wlen cb priority wvalue on_fail r f =
    let t = get_request h req wlen cb priority wvalue on_fail in
    let asked = get_request h₀ req wlen cb priority wvalue on_fail in
    let here : 0 < queue_free h.queue = omega (arith, f.room) in
    let e = pending-enqueue t t h.queue here in
    record {
      room = omega (arith, f.room, e);
      not_dropped = ground (arith, f.not_dropped, e);
      kept = λ key p. IsPending-kept key t h.queue here (f.kept key p);
      waits = (
        enqueue-IsPending asked t h.queue (ground arith) here,
        All-IsPending-kept ts t h.queue here f.waits,
      );
    }

abbrev pub fixed_read : DspiHub → Opcode → ℕ → OnOk → Transaction
fixed_read h op len cb = get_request h (opcode op) len cb 1 0 OnFail.no_handler

-- The reads of a burst that every refresh makes.
abbrev pub fixed_reads : DspiHub → List Transaction
fixed_reads h =
    fixed_read h Opcode.preset_get_active 1 OnOk.on_preset_active
    ∷ fixed_read h Opcode.get_input_rate input_rate_len OnOk.on_input_rate
    ∷ fixed_read h Opcode.get_input_source 1 OnOk.on_input_source
    ∷ fixed_read h Opcode.get_user_volume 4 OnOk.on_user_volume
    ∷ fixed_read h Opcode.get_master_volume 4 OnOk.on_master_volume
    ∷ []

read_fixed-Sent : (h : DspiHub) → 5 ≤ queue_free h.queue → Sent 5 (fixed_reads h) h (read_fixed h)
unfolding read_fixed enqueue_get
read_fixed-Sent h r = enqueue_get-Sent h _ 4 _ _ _ _ _ _ _ (omega arith) (
    enqueue_get-Sent h _ 3 _ _ _ _ _ _ _ (omega arith) (
      enqueue_get-Sent h _ 2 _ _ _ _ _ _ _ (omega arith) (
        enqueue_get-Sent h _ 1 _ _ _ _ _ _ _ (omega arith)
          (enqueue_get-Sent h h 0 [] _ _ _ _ _ _ (omega arith) (start-Sent h)))))

abbrev pub toggle_reads : DspiHub → ℕ → ToggleTarget → List Transaction → List Transaction
toggle_reads h mask target ts =
    if truthy (bit_and mask (toggle_bit target))
    then get_request h (toggle_get_opcode target) 1 (OnOk.on_toggle target) 1 0
        (OnFail.on_toggle_failed target)
      ∷ ts
    else ts

read_if-Sent :
    (h₀ h : DspiHub) (n mask : ℕ) (ts : List Transaction) (target : ToggleTarget)
    → n + wants mask target ≤ queue_free h₀.queue
    → Sent n ts h₀ h
    → Sent (n + wants mask target) (toggle_reads h₀ mask target ts) h₀ (read_if mask target h)
unfolding enqueue_toggle_read
read_if-Sent h₀ h n mask ts target r f =
    elim (Bool-cases (truthy (bit_and mask (toggle_bit target)))) [
      | inl e ↦ rw e (enqueue_get-Sent h₀ h n ts _ _ _ _ _ _ (ground arith) f)
      | inr e ↦ rw e (ap-room h₀ h n ts f)
    ]
  where
    ap-room :
        (h₀ h : DspiHub) (n : ℕ) (ts : List Transaction) → Sent n ts h₀ h → Sent (n + 0) ts h₀ h
    ap-room h₀ h n ts f = record {
      room = omega (arith, f.room);
      not_dropped = f.not_dropped;
      kept = f.kept;
      waits = f.waits;
    }

-- All the reads of a burst.
abbrev pub refresh_reads : DspiHub → ℕ → List Transaction
refresh_reads h mask = toggle_reads h mask ToggleTarget.leveller (
    toggle_reads h mask ToggleTarget.crossfeed (
      toggle_reads h mask ToggleTarget.eq_bypass (
        toggle_reads h mask ToggleTarget.loudness
          (toggle_reads h mask ToggleTarget.user_mute (fixed_reads h)))))

burst-Sent :
    (h : DspiHub) (mask : ℕ)
    → 5 + wanted mask ≤ queue_free h.queue
    → Sent (5 + wanted mask) (refresh_reads h mask) h (read_toggles (read_fixed h) mask)
unfolding read_toggles
burst-Sent h mask r =
    let u = wants mask ToggleTarget.user_mute in
    let l = wants mask ToggleTarget.loudness in
    let b = wants mask ToggleTarget.eq_bypass in
    let c = wants mask ToggleTarget.crossfeed in
    let v = wants mask ToggleTarget.leveller in
    let e : 5 + u + l + b + c + v ≡ 5 + wanted mask = omega arith in
    let all = read_if-Sent h _ (5 + u + l + b + c) mask _ ToggleTarget.leveller (omega arith) (
      read_if-Sent h _ (5 + u + l + b) mask _ ToggleTarget.crossfeed (omega arith) (
        read_if-Sent h _ (5 + u + l) mask _ ToggleTarget.eq_bypass (omega arith) (
          read_if-Sent h _ (5 + u) mask _ ToggleTarget.loudness (omega arith) (
            read_if-Sent h _ 5 mask _ ToggleTarget.user_mute (omega arith)
              (read_fixed-Sent h (omega arith)))))) in
    rw e at all

abbrev started : DspiHub → DspiHub
started h = record h { refresh = record (h.refresh) { refresh_pending = false } }

burst-pending :
    (h : DspiHub) (mask : ℕ)
    → (read_toggles (read_fixed (started h)) mask).refresh.refresh_pending ≡ false
unfolding read_toggles read_fixed enqueue_toggle_read
burst-pending h mask = ground arith

due-Sent :
    (h : DspiHub)
    → leb (5 + toggle_mask_count (toggles_to_read h.toggles)) (queue_free h.queue) ≡ true
    → toggles_to_read h.toggles < 65536
    → let mask = toggles_to_read h.toggles in
      Sent
        (5 + wanted mask)
        (refresh_reads h mask)
        (started h)
        (read_toggles (read_fixed (started h)) mask)
due-Sent h fits r =
    burst-Sent (started h) (toggles_to_read h.toggles)
      (omega (arith, leb→le _ _ fits, wanted-le (toggles_to_read h.toggles) r))

-- Whether or not a refresh is due and finds room, nothing is ever dropped for it, and every request
-- that waited before still waits.
pub service_refresh-keeps :
    (h : DspiHub) (now : ℕ)
    → toggles_to_read h.toggles < 65536
    → let h' = service_refresh h now in
      (h'.diag.txn_dropped ≡ h.diag.txn_dropped)
      × ((key : Transaction) → IsPending key h.queue → IsPending key h'.queue)
unfolding service_refresh
service_refresh-keeps h now r =
    elim (Bool-cases (h.refresh.refresh_pending && is_due now h.refresh.refresh_due_at)) [
      | inr idle ↦ rw idle (refl, λ key p. p)
      | inl due ↦
          elim (Bool-cases
            (leb (5 + toggle_mask_count (toggles_to_read h.toggles)) (queue_free h.queue))) [
              | inr full ↦ rw (due, full) (refl, λ key p. p)
              | inl fits ↦ let s = due-Sent h fits r in rw (due, fits) (s.not_dropped, s.kept)
            ]
    ]

-- A refresh that is due, and for whose burst the queue has room, ends with every read of the burst
-- waiting: the five fixed ones, and one for each toggle that is to be read. It is no longer pending.
pub service_refresh-asks :
    (h : DspiHub) (now : ℕ)
    → toggles_to_read h.toggles < 65536
    → h.refresh.refresh_pending ≡ true
    → is_due now h.refresh.refresh_due_at ≡ true
    → 5 + toggle_mask_count (toggles_to_read h.toggles) ≤ queue_free h.queue
    → let h' = service_refresh h now in
      All (λ t. IsPending t h'.queue) (refresh_reads h (toggles_to_read h.toggles))
      × (h'.refresh.refresh_pending ≡ false)
unfolding service_refresh
service_refresh-asks h now r pending_now due fits =
    let f : leb (5 + toggle_mask_count (toggles_to_read h.toggles)) (queue_free h.queue) ≡ true =
      ground arith in
    simp (pending_now, due, f) ((due-Sent h f r).waits, burst-pending h _)
