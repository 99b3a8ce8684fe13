-- ===== src/Entities/Echo.antt =====
-- A volume on its way to the device and back: components/dspi/number and dspi.cpp.
use esphome_dspi.Prelude.{
  ℕ, ◌+◌, ◌*◌, ◌/◌, ◌%◌, ◌^◌, ◌<◌, ◌≡◌, refl, ap, ◌∙◌, arith, u32, List, true, ◌==◌, some, inl, inr,
  Bool-cases, if◌then◌else◌,
}
use esphome_dspi.Prelude.Bits.{bit_or-shifted}
use esphome_dspi.Protocol.Opcode.{Opcode, opcode}
use esphome_dspi.Protocol.Preset.{rd_u32}
use esphome_dspi.Hub.Transaction.{Transaction, new_transaction}
use esphome_dspi.Hub.Queue.{queue_free, enqueue}
use esphome_dspi.Hub.Queue.Refine.{pending, waiting_with}
use esphome_dspi.Hub.State.{DspiHub}
use esphome_dspi.Hub.Control.{
  set_request, float_payload, master_volume_mute_db, master_volume_min_db, user_volume_min_db,
  volume_max_db, set_user_volume_db, set_master_volume_db,
}
use esphome_dspi.Hub.Readback.{on_user_volume, on_master_volume}
use esphome_dspi.Hub.Requests.{enqueue_txn, request_refresh}
use esphome_dspi.Entities.Number.{
  VolumeTarget, DspiVolumeNumber, volume_valid, volume_db, control, control_for,
}

-- Four bytes written and read back.
pub rd_u32-float_payload :
    (db : ℕ) → db < 2 ^ 32 → rd_u32 (float_payload new_transaction.payload db) 0 ≡ db
unfolding rd_u32
rd_u32-float_payload db fits =
    let b0 = db % 256 in
    let b1 = db / 2 ^ 8 % 256 in
    let b2 = db / 2 ^ 16 % 256 in
    let b3 = db / 2 ^ 24 % 256 in
    let e1 : u32 (b1 * 2 ^ 8) ≡ b1 * 2 ^ 8 = omega arith in
    let e2 : u32 (b2 * 2 ^ 16) ≡ b2 * 2 ^ 16 = omega arith in
    let e3 : u32 (b3 * 2 ^ 24) ≡ b3 * 2 ^ 24 = omega arith in
    let o1 = bit_or-shifted 8 b0 b1 (omega arith) in
    let o2 = bit_or-shifted 16 (b0 + b1 * 2 ^ 8) b2 (omega arith) in
    let o3 = bit_or-shifted 24 (b0 + b1 * 2 ^ 8 + b2 * 2 ^ 16) b3 (omega arith) in
    rw (e1, e2, e3, o1, o2, o3) (omega arith)

-- The setters' requests, by their opcodes, and the handlers of what the device reports.
abbrev pub volume_opcode : VolumeTarget → Opcode
volume_opcode VolumeTarget.user = Opcode.set_user_volume
volume_opcode VolumeTarget.master = Opcode.set_master_volume

abbrev pub reported : VolumeTarget → DspiHub → List ℕ → ℕ → DspiHub
reported VolumeTarget.user h bytes len = on_user_volume h bytes len
reported VolumeTarget.master h bytes len = on_master_volume h bytes len

reported-volume :
    (target : VolumeTarget) (h : DspiHub) (bytes : List ℕ)
    → let s = (reported target h bytes 4).state in
      (volume_valid target s ≡ true) × (volume_db target s ≡ rd_u32 bytes 0)
unfolding on_user_volume on_master_volume
reported-volume VolumeTarget.user h bytes = (refl, refl)
reported-volume VolumeTarget.master h bytes = (refl, refl)

module _ (clamp : ℕ → ℕ → ℕ → ℕ) where
  -- The value that a target is set to for a wish: within its range, or the mute of the master.
  abbrev pub settable : VolumeTarget → ℕ → ℕ
  settable VolumeTarget.user db = clamp db user_volume_min_db volume_max_db
  settable VolumeTarget.master db =
      if db == master_volume_mute_db then db else clamp db master_volume_min_db volume_max_db

  abbrev pub write_of : VolumeTarget → DspiHub → ℕ → Transaction
  write_of target h db =
      set_request (opcode (volume_opcode target)) 4
        (float_payload new_transaction.payload (settable target db)) h.config.request_timeout_ms

  pub control_for-queue :
      (target : VolumeTarget) (h : DspiHub) (db : ℕ)
      → (control_for clamp target h db).queue ≡ (enqueue (write_of target h db) h.queue).queue
  unfolding control_for set_user_volume_db set_master_volume_db request_refresh enqueue_txn
  control_for-queue VolumeTarget.user h db = refl
  control_for-queue VolumeTarget.master h db = elim (Bool-cases (db == master_volume_mute_db)) [
    | inl mute ↦ simp mute refl
    | inr other ↦ simp other refl
  ]

  -- A wish for a volume, made through its entity while a slot of the queue is free: a request with
  -- the target's opcode waits, and its payload, when the device reports it back, makes the hub hold
  -- as valid the volume wished for, within its range or the mute of the master.
  pub control-echoed :
      (e : DspiVolumeNumber) (h : DspiHub) (db : ℕ)
      → settable e.target db < 2 ^ 32
      → 0 < queue_free h.queue
      → (t : Transaction) × (pending (write_of e.target h db) (control clamp e h db).queue ≡ some t)
        × (t.payload_len ≡ 4)
        × (let s = (reported e.target h t.payload 4).state in
            (volume_valid e.target s ≡ true) × (volume_db e.target s ≡ settable e.target db))
  unfolding control
  control-echoed e h db fits room =
      let w = write_of e.target h db in
      let q = control_for-queue e.target h db in
      let (t, waits, payload, len) = waiting_with w w h.queue (ground arith) room in
      let (valid, value) = reported-volume e.target h t.payload in
      (
        t,
        ap (pending w) q ∙ waits,
        len,
        (
          valid,
          value ∙ ap (λ b. rd_u32 b 0) payload ∙ rd_u32-float_payload (settable e.target db) fits,
        ),
      )
