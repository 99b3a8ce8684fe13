-- ===== src/Hub/Readback/Boot.antt =====
-- dspi.cpp: the claim of the boot source.
use esphome_dspi.Prelude.{
  ℕ, ◌≤◌, ◌<◌, ◌≡◌, ◌≢◌, ◌==◌, refl, arith, ap, ◌∙◌, set, List, true, false, some, ltb,
}
use esphome_dspi.Protocol.Wire.{byte_at}
use esphome_dspi.Protocol.Opcode.{Opcode, opcode}
use esphome_dspi.Hub.Transaction.{Transaction, new_transaction}
use esphome_dspi.Hub.Queue.{queue_free, enqueue}
use esphome_dspi.Hub.Queue.Refine.{pending, waiting_with}
use esphome_dspi.Hub.State.{DspiHub}
use esphome_dspi.Hub.Control.{set_request}
use esphome_dspi.Hub.Readback.{on_input_source}

-- The write that claims a source.
abbrev pub source_claim : DspiHub → ℕ → Transaction
source_claim h source =
    set_request (opcode Opcode.set_input_source) 1 (set new_transaction.payload 0 source)
      h.config.flash_timeout_ms

claimed_queue :
    (h : DspiHub) (b : List ℕ) (n : ℕ)
    → 1 ≤ n
    → h.config.has_boot_input_source ≡ true
    → h.device.boot_source_checked ≡ false
    → byte_at b 0 ≢ h.config.boot_input_source
    → let h' = on_input_source h b n in
      (h'.queue ≡ (enqueue (source_claim h h.config.boot_input_source) h.queue).queue)
      × (h'.refresh.refresh_pending ≡ true)
      × (h'.device.boot_source_checked ≡ true)
unfolding on_input_source
claimed_queue h b n l has unchecked other =
    let differs : (byte_at b 0 == h.config.boot_input_source) ≡ false = ground arith in
    let long : ltb n 1 ≡ false = ground arith in
    simp (long, has, unchecked, differs) (refl, refl, refl)

checked_quiet :
    (h : DspiHub) (b : List ℕ) (n : ℕ)
    → h.device.boot_source_checked ≡ true
    → let h' = on_input_source h b n in (h'.queue ≡ h.queue) × (h'.refresh ≡ h.refresh)
unfolding on_input_source
checked_quiet h b n e = (ground arith, ground arith)

-- The first source that the device reports after the configuration asked for another at boot makes
-- the hub ask for that one, with a refresh to follow, while a slot is free; the second report,
-- whatever it says, asks for nothing, so that a source chosen later by hand stays.
pub on_input_source-claims :
    (h : DspiHub) (b c : List ℕ) (n m : ℕ)
    → 1 ≤ n
    → h.config.has_boot_input_source ≡ true
    → h.device.boot_source_checked ≡ false
    → byte_at b 0 ≢ h.config.boot_input_source
    → 0 < queue_free h.queue
    → let key = source_claim h h.config.boot_input_source in
      let h' = on_input_source h b n in
      let h'' = on_input_source h' c m in
      ((t : Transaction) × (pending key h'.queue ≡ some t)
        × (t.payload ≡ key.payload)
        × (t.payload_len ≡ 1))
      × (h'.refresh.refresh_pending ≡ true)
      × (h''.queue ≡ h'.queue)
      × (h''.refresh ≡ h'.refresh)
on_input_source-claims h b c n m l has unchecked other room =
    let (queue, refresh, checked) = claimed_queue h b n l has unchecked other in
    let key = source_claim h h.config.boot_input_source in
    let (t, waits, payload, len) = waiting_with key key h.queue (ground arith) room in
    let (same, rest) = checked_quiet (on_input_source h b n) c m checked in
    ((t, ap (pending key) queue ∙ waits, payload, len), refresh, same, rest)
