-- ===== src/Witnesses/Wished.antt =====
-- A volume wished for in the hub of Witnesses/Synced.
use esphome_dspi.Prelude.{ℕ, ◌+◌, ◌≤◌, ◌<◌, ◌≡◌, refl, arith, u32, replicate, true, []}
use esphome_dspi.Protocol.Toggle.{toggle_mask_count}
use esphome_dspi.Hub.Queue.{queue_free}
use esphome_dspi.Hub.State.{Toggles}
use esphome_dspi.Hub.Requests.{is_due}
use esphome_dspi.Hub.Loop.{loop, toggles_to_read}
use esphome_dspi.Hub.Sync.{passes}
use esphome_dspi.Entities.Number.{VolumeTarget, new_number, control}
use esphome_dspi.Entities.Listener.{hear}
use esphome_dspi.Entities.Registered.{Kind, listener}
use esphome_dspi.Entities.Current.{states}
use esphome_dspi.Entities.Current
use esphome_dspi.Entities.Wish.{TakesOver, written, write_frame, bytes_le}
use esphome_dspi.Entities.Wish.Settles.{control-settles}
use esphome_dspi.Prelude.{◌^◌, ◌∷◌, ◌==◌, List, length, false, if◌then◌else◌, Bool-cases, inl, inr}
use esphome_dspi.Protocol.Wire.{byte_at}
use esphome_dspi.Crc16.Detect.{IsBytes}
use esphome_dspi.Hub.Sync.{Answers, Responsive, Reading, read_opcode, Answer, answer_bytes}
use esphome_dspi.Witnesses.{clamp}
use esphome_dspi.Witnesses.Synced.{settled_hub, settled_hub-Reachable, ready, reached}

room :
    (t : Toggles) (free : ℕ)
    → t ≡ record { toggle_read_mask = 1; toggle_unsupported = 0 }
    → free ≡ 12
    → (toggles_to_read t < 65536) × (5 + toggle_mask_count (toggles_to_read t) ≤ free)
unfolding toggle_mask_count
room t free e f = simp (e, f) (omega arith, omega arith)

deadlines :
    (clock d : ℕ)
    → clock ≡ 30
    → d ≡ 250
    → (is_due 40 (u32 (clock + d)) ≡ false)
      × (is_due 50 (u32 (clock + d)) ≡ false)
      × (is_due 1000 (u32 (clock + d)) ≡ true)
deadlines clock d e f = simp (e, f) (refl, refl, refl)

-- A device whose master volume is the value of the write received, after nine bytes of header; it
-- answers ones to all else.
abbrev obeys : List ℕ → Answers
obeys frame op =
    if op == 0xD3
    then byte_at frame 9 ∷ byte_at frame 10 ∷ byte_at frame 11 ∷ byte_at frame 12 ∷ []
    else replicate 8 1

bytes_le-IsBytes : (v : ℕ) → v < 2 ^ 32 → IsBytes (bytes_le v)
bytes_le-IsBytes v range = (omega arith, (omega arith, (omega arith, (omega arith, tt))))

obeys-Responsive : (v : ℕ) → v < 2 ^ 32 → Responsive (obeys (write_frame VolumeTarget.master v))
obeys-Responsive v range = record {
  accepted = λ r. accepted r;
  bytes = λ op. elim (Bool-cases (op == 0xD3)) [
    | inl e ↦ rw e (bytes_le-IsBytes v range)
    | inr e ↦ rw e (ground arith)
  ];
  fits = λ op. ground arith;
}
  where
    accepted :
        (r : Reading)
        → let dev = obeys (write_frame VolumeTarget.master v) in
          Answer r (dev (read_opcode r)) (length (dev (read_opcode r)))
    accepted r = ground arith

obeys_fit : (v op : ℕ) → length (obeys (write_frame VolumeTarget.master v) op) + 7 ≤ 128
obeys_fit v op = ground arith

obeys-TakesOver : TakesOver obeys VolumeTarget.master settled_hub
obeys-TakesOver = record {
  responsive = obeys-Responsive;
  fits = λ v range op. omega (arith, obeys_fit v op, reached.11);
  holds = λ v range. refl;
}

control-settles_example :
    let e = new_number VolumeTarget.master in
    let h₁ = (loop (control clamp e settled_hub 0xC1A00000) 40 []).0 in
    let dev = obeys (written h₁.out) in
    let h₂ = (loop h₁ 50 (answer_bytes dev h₁)).0 in
    let h₃ = passes dev (replicate 24 1010) (loop h₂ 1000 []).0 in
    let l = listener (λ n. n) Kind.number in Current.Shows l (hear l e (states h₃.out)) 0xC1A00000
control-settles_example =
    let free = room settled_hub.toggles (queue_free settled_hub.queue) reached.6 reached.8 in
    let times =
      deadlines settled_hub.clock settled_hub.config.refresh_debounce_ms reached.12 reached.13 in
    control-settles clamp (λ n. n) obeys (new_number VolumeTarget.master) settled_hub 0xC1A00000 40
      50 1000 (replicate 24 1010) settled_hub-Reachable ready reached.14 reached.7 reached.9 free.0
      (omega (arith, free.1, reached.8)) (omega arith) obeys-TakesOver times.0 times.1 times.2
      (omega arith)
