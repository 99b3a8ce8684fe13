-- ===== src/Hub/Sync/Burst.antt =====
-- What a refresh puts into the queue: the reads of its burst, all of them known requests.
use esphome_dspi.Prelude.{
  ℕ, ◌+◌, ◌≤◌, ◌≡◌, refl, arith, Bool, true, false, List, [], ◌∷◌, All, length, inl, inr,
  Bool-cases, truthy, bit_and, leb, ◌*◌, ◌&&◌,
}
use esphome_dspi.Protocol.Opcode.{Opcode}
use esphome_dspi.Protocol.Toggle.{ToggleTarget, toggle_bit, toggle_get_opcode, toggle_mask_count}
use esphome_dspi.Protocol.Preset.{input_rate_len}
use esphome_dspi.Hub.Transaction.{Transaction, OnOk, OnFail}
use esphome_dspi.Hub.Queue.{Queue, queue_free}
use esphome_dspi.Hub.State.{DspiHub}
use esphome_dspi.Hub.Requests.{enqueue_get, enqueue_toggle_read, get_request, is_due}
use esphome_dspi.Hub.Loop.{service_refresh, read_toggles, read_fixed, read_if, toggles_to_read}
use esphome_dspi.Hub.Refresh.{IsPending, refresh_reads, toggle_reads, fixed_read, fixed_reads}
use esphome_dspi.Hub.Sync.{Reading, read_opcode, read_handler, no_claim}
use esphome_dspi.Hub.Sync.Queue.{
  Known, IsKnown, Waits, IsPending-Waits, work, cost, handler_cost, enqueue-IsKnown,
}

-- The burst reads the five values, and the toggles that are to be read.
abbrev pub is_asked : DspiHub → Reading → Bool
is_asked h (Reading.toggle_state t) = truthy (bit_and (toggles_to_read h.toggles) (toggle_bit t))
is_asked h Reading.master_volume = true
is_asked h Reading.user_volume = true
is_asked h Reading.input_source = true
is_asked h Reading.input_rate = true
is_asked h Reading.active_preset = true

abbrev toggle_read : DspiHub → ToggleTarget → Transaction
toggle_read h t =
    get_request h (toggle_get_opcode t) 1 (OnOk.on_toggle t) 1 0 (OnFail.on_toggle_failed t)

toggle_reads-All :
    (P : Transaction → Type 0) (h : DspiHub) (mask : ℕ) (t : ToggleTarget) (ts : List Transaction)
    → All P (toggle_reads h mask t ts)
    → All P ts × (truthy (bit_and mask (toggle_bit t)) ≡ true → P (toggle_read h t))
toggle_reads-All P h mask t ts a = elim (Bool-cases (truthy (bit_and mask (toggle_bit t)))) [
  | inl e ↦ ((simp e at a).1, λ f. (simp e at a).0)
  | inr e ↦ (simp e at a, λ f. absurd (ground arith))
]

pending-Waits : (key : Transaction) (q : Queue) → IsPending key q → Waits key.req q
pending-Waits key q (t, e) = IsPending-Waits key t q e

asked_read :
    (h : DspiHub) (q : Queue) (r : Reading)
    → is_asked h r ≡ true
    → ((t : ToggleTarget)
        → truthy (bit_and (toggles_to_read h.toggles) (toggle_bit t)) ≡ true
        → Waits (toggle_get_opcode t) q)
    → All (λ t. IsPending t q) (fixed_reads h)
    → Waits (read_opcode r) q
asked_read h q (Reading.toggle_state t) e toggles a = toggles t e
asked_read h q Reading.active_preset e toggles a =
    pending-Waits (fixed_read h Opcode.preset_get_active 1 OnOk.on_preset_active) q a.0
asked_read h q Reading.input_rate e toggles a =
    pending-Waits (fixed_read h Opcode.get_input_rate input_rate_len OnOk.on_input_rate) q a.1.0
asked_read h q Reading.input_source e toggles a =
    pending-Waits (fixed_read h Opcode.get_input_source 1 OnOk.on_input_source) q a.1.1.0
asked_read h q Reading.user_volume e toggles a =
    pending-Waits (fixed_read h Opcode.get_user_volume 4 OnOk.on_user_volume) q a.1.1.1.0
asked_read h q Reading.master_volume e toggles a =
    pending-Waits (fixed_read h Opcode.get_master_volume 4 OnOk.on_master_volume) q a.1.1.1.1.0

-- Every reading of the burst has its read in the list.
pub asked_reads :
    (h : DspiHub) (q : Queue)
    → All (λ t. IsPending t q) (refresh_reads h (toggles_to_read h.toggles))
    → (r : Reading) → is_asked h r ≡ true
    → Waits (read_opcode r) q
asked_reads h q a r e =
    let mask = toggles_to_read h.toggles in
    let P : Transaction → Type 0 = λ t. IsPending t q in
    let (a5, leveller) = toggle_reads-All P h mask ToggleTarget.leveller _ a in
    let (a4, crossfeed) = toggle_reads-All P h mask ToggleTarget.crossfeed _ a5 in
    let (a3, eq_bypass) = toggle_reads-All P h mask ToggleTarget.eq_bypass _ a4 in
    let (a2, loudness) = toggle_reads-All P h mask ToggleTarget.loudness _ a3 in
    let (a1, user_mute) = toggle_reads-All P h mask ToggleTarget.user_mute _ a2 in
    asked_read h q r e
      (λ t.
        elim t
          as (λ u. truthy (bit_and mask (toggle_bit u)) ≡ true → Waits (toggle_get_opcode u) q) [
            | ToggleTarget.user_mute ↦
                λ f. pending-Waits (toggle_read h ToggleTarget.user_mute) q (user_mute f)
            | ToggleTarget.loudness ↦
                λ f. pending-Waits (toggle_read h ToggleTarget.loudness) q (loudness f)
            | ToggleTarget.eq_bypass ↦
                λ f. pending-Waits (toggle_read h ToggleTarget.eq_bypass) q (eq_bypass f)
            | ToggleTarget.crossfeed ↦
                λ f. pending-Waits (toggle_read h ToggleTarget.crossfeed) q (crossfeed f)
            | ToggleTarget.leveller ↦
                λ f. pending-Waits (toggle_read h ToggleTarget.leveller) q (leveller f)
          ])
      a1

enqueue_get-IsKnown :
    (h : DspiHub) (req wlen : ℕ) (cb : OnOk) (priority wvalue : ℕ) (on_fail : OnFail)
    → Known req cb
    → IsKnown h.queue
    → IsKnown (enqueue_get h req wlen cb priority wvalue on_fail).queue
unfolding enqueue_get
enqueue_get-IsKnown h req wlen cb priority wvalue on_fail k a = enqueue-IsKnown _ h.queue k a

read_fixed-IsKnown : (h : DspiHub) → IsKnown h.queue → IsKnown (read_fixed h).queue
unfolding read_fixed
read_fixed-IsKnown h a =
    let known : (r : Reading) → Known (read_opcode r) (read_handler r) =
      λ r. Known.reads r refl refl in
    enqueue_get-IsKnown _ _ _ _ _ _ _ (known Reading.active_preset) (
      enqueue_get-IsKnown _ _ _ _ _ _ _ (known Reading.input_rate) (
        enqueue_get-IsKnown _ _ _ _ _ _ _ (known Reading.input_source) (
          enqueue_get-IsKnown _ _ _ _ _ _ _ (known Reading.user_volume)
            (enqueue_get-IsKnown h _ _ _ _ _ _ (known Reading.master_volume) a))))

read_if-IsKnown :
    (mask : ℕ) (t : ToggleTarget) (h : DspiHub) → IsKnown h.queue → IsKnown (read_if mask t h).queue
unfolding enqueue_toggle_read
read_if-IsKnown mask t h a = elim (Bool-cases (truthy (bit_and mask (toggle_bit t)))) [
  | inl e ↦
      rw e (enqueue_get-IsKnown h _ _ _ _ _ _ (Known.reads (Reading.toggle_state t) refl refl) a)
  | inr e ↦ rw e a
]

read_toggles-IsKnown :
    (h : DspiHub) (mask : ℕ) → IsKnown h.queue → IsKnown (read_toggles h mask).queue
unfolding read_toggles
read_toggles-IsKnown h mask a = read_if-IsKnown mask ToggleTarget.leveller _ (
    read_if-IsKnown mask ToggleTarget.crossfeed _ (
      read_if-IsKnown mask ToggleTarget.eq_bypass _ (
        read_if-IsKnown mask ToggleTarget.loudness _
          (read_if-IsKnown mask ToggleTarget.user_mute h a))))

pub service_refresh-IsKnown :
    (h : DspiHub) (now : ℕ) → IsKnown h.queue → IsKnown (service_refresh h now).queue
unfolding service_refresh
service_refresh-IsKnown h now a =
    let started = record h { refresh = record (h.refresh) { refresh_pending = false } } in
    let mask = toggles_to_read h.toggles in
    let b = read_toggles-IsKnown (read_fixed started) mask (read_fixed-IsKnown started a) in
    elim (Bool-cases (h.refresh.refresh_pending && is_due now h.refresh.refresh_due_at)) [
      | inr idle ↦ rw idle a
      | inl due ↦ elim (Bool-cases (leb (5 + toggle_mask_count mask) (queue_free h.queue))) [
        | inr full ↦ rw (due, full) a
        | inl fits ↦ rw (due, fits) b
      ]
    ]

pub service_refresh-left :
    (h : DspiHub) (now : ℕ)
    → let h' = service_refresh h now in
      (h'.parser ≡ h.parser) × (no_claim h' ≡ no_claim h) × (h'.state ≡ h.state)
unfolding service_refresh read_toggles read_fixed enqueue_toggle_read enqueue_get
service_refresh-left h now = ground arith

two_at_most : (t : Transaction) → cost t ≤ 2
unfolding handler_cost
two_at_most t = ground arith

pub work-le : (q : Queue) → work q ≤ 2 * length q
work-le [] = omega arith
work-le (s ∷ q) = omega (arith, two_at_most s, work-le q)
