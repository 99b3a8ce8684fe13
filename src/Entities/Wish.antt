-- ===== src/Entities/Wish.antt =====
-- A volume wished for through its entity: the write that is sent, and a device that takes it over.
pub mod Settles
use esphome_dspi.Prelude.{
  ℕ, ◌+◌, ◌<◌, ◌≡◌, refl, subst, arith, ap, ◌∙◌, u32, true, List, [], length, ◌/◌, ◌%◌, ◌^◌, ◌∷◌,
  ◌++◌,
}
use esphome_dspi.Protocol.Opcode.{opcode}
use esphome_dspi.Protocol.Preset.{rd_u32}
use esphome_dspi.Hub.Transaction.{Transaction, new_transaction}
use esphome_dspi.Hub.Queue.{Queue, enqueue, find_next}
use esphome_dspi.Hub.Queue.Distinct.{length-enqueue}
use esphome_dspi.Hub.State.{DspiHub, Output}
use esphome_dspi.Hub.Requests.{enqueue_txn, request_refresh}
use esphome_dspi.Hub.Control.{set_user_volume_db, set_master_volume_db, float_payload}
use esphome_dspi.Hub.Loop.{frame_of, send_if_idle}
use esphome_dspi.Hub.Reach.{Reachable, Call, run_call}
use esphome_dspi.Hub.Sync.{read_opcode, Answers, Responsive, Ready, is_quiet, no_claim}
use esphome_dspi.Hub.Sync.Noted.{Ready-kept}
use esphome_dspi.Hub.Sync.Passes.{FitsPass}
use esphome_dspi.Hub.Sync.Refreshed.{started}
use esphome_dspi.Hub.Link.Kept.{SameLink}
use esphome_dspi.Entities.Number.{VolumeTarget, control_for}
use esphome_dspi.Entities.Echo.{
  settable, write_of, volume_opcode, control_for-queue, rd_u32-float_payload,
}
use esphome_dspi.Entities.Synced.{volume_reading}
use esphome_dspi.Crc16.{crc16}
use esphome_dspi.Crc16.Detect.{IsBytes}
use esphome_dspi.Protocol.Wire.{sync_byte, frame_byte, FrameType}
use esphome_dspi.Framing.Build.Layout.{word_le, request_body, build_request_frame-layout}
use esphome_dspi.Hub.Queue.Next.{IsIdle}
use esphome_dspi.Hub.Transport.Silent.{nonempty, enqueue-idle, find_next-alone, send_found}
use esphome_dspi.Entities.Current

-- The four bytes of a value, low byte first.
abbrev pub bytes_le : ℕ → List ℕ
bytes_le v = v % 256 ∷ v / 2 ^ 8 % 256 ∷ v / 2 ^ 16 % 256 ∷ v / 2 ^ 24 % 256 ∷ []

-- The frame of a write of the volume, as the protocol lays it out: sync byte, type, opcode, two
-- words of zero, the length of four, the value, and the checksum.
abbrev pub write_frame : VolumeTarget → ℕ → List ℕ
write_frame target v =
    let body =
      request_body (frame_byte FrameType.set_req) (opcode (volume_opcode target)) 0 0 4
        (bytes_le v) in
    sync_byte ∷ (body ++ word_le (crc16 body))

-- A device that takes writes of the volume over. `react frame` is what it answers once it has
-- received the frame: after a write of the volume it answers every request, within the budget of a
-- pass of the hub, and answers the read of the volume with the value written.
pub record TakesOver (react : List ℕ → Answers) (target : VolumeTarget) (h : DspiHub) : Type 0 where
  pub responsive : (v : ℕ) → v < 2 ^ 32 → Responsive (react (write_frame target v))
  pub fits : (v : ℕ) → v < 2 ^ 32 → FitsPass (react (write_frame target v)) h
  pub holds :
      (v : ℕ)
      → v < 2 ^ 32
      → react (write_frame target v) (read_opcode (volume_reading target)) ≡ bytes_le v

-- The frame that was written last.
abbrev pub written : List Output → List ℕ
written (Output.tx frame ∷ out) = frame
written (Output.published s ∷ out) = written out
written (Output.band_update u ∷ out) = written out
written (Output.logged_sources l ∷ out) = written out
written [] = []

pub rd_u32-bytes_le : (v : ℕ) → v < 2 ^ 32 → rd_u32 (bytes_le v) 0 ≡ v
unfolding rd_u32
rd_u32-bytes_le v fits = rd_u32-float_payload v fits

float_payload-IsBytes : (v : ℕ) → IsBytes (float_payload new_transaction.payload v)
float_payload-IsBytes v = ground arith

volume_opcode-lt : (target : VolumeTarget) → opcode (volume_opcode target) < 256
volume_opcode-lt VolumeTarget.user = omega arith
volume_opcode-lt VolumeTarget.master = omega arith

module _ (clamp : ℕ → ℕ → ℕ → ℕ) where
  -- What a wish leaves alone, and the refresh that it asks for.
  pub record Wished (h h' : DspiHub) : Type 0 where
    pub parser : h'.parser ≡ h.parser
    pub link : SameLink h h'
    pub claim : no_claim h' ≡ no_claim h
    pub config : h'.config ≡ h.config
    pub toggles : h'.toggles ≡ h.toggles
    pub quiet : is_quiet (started h') ≡ is_quiet (started h)
    pub pending_now : h'.refresh.refresh_pending ≡ true
    pub due_at : h'.refresh.refresh_due_at ≡ u32 (h.clock + h.config.refresh_debounce_ms)

  pub control_for-Wished :
      (target : VolumeTarget) (h : DspiHub) (db : ℕ) → Wished h (control_for clamp target h db)
  unfolding control_for set_user_volume_db set_master_volume_db request_refresh enqueue_txn
  control_for-Wished VolumeTarget.user h db = record {
    parser = refl;
    link = (refl, refl);
    claim = refl;
    config = refl;
    toggles = refl;
    quiet = refl;
    pending_now = refl;
    due_at = refl;
  }
  control_for-Wished VolumeTarget.master h db = record {
    parser = refl;
    link = (refl, refl);
    claim = refl;
    config = refl;
    toggles = refl;
    quiet = refl;
    pending_now = refl;
    due_at = refl;
  }

  pub control_for-Reachable :
      (target : VolumeTarget) (h : DspiHub) (db : ℕ)
      → Reachable clamp h
      → Reachable clamp (control_for clamp target h db)
  unfolding control_for run_call
  control_for-Reachable VolumeTarget.user h db r = Reachable.called h (Call.user_volume db) r
  control_for-Reachable VolumeTarget.master h db r = Reachable.called h (Call.master_volume db) r

  frame_of-write :
      (target : VolumeTarget) (h : DspiHub) (db : ℕ)
      → frame_of (write_of clamp target h db) ≡ write_frame target (settable clamp target db)
  frame_of-write target h db =
      let v = settable clamp target db in
      build_request_frame-layout (frame_byte FrameType.set_req) (opcode (volume_opcode target)) 0 0
        4 (float_payload new_transaction.payload v) 4 (omega arith) (volume_opcode-lt target)
        (omega arith) (omega arith) (omega arith) (float_payload-IsBytes v) (omega arith)

  -- The wish in a hub in which nothing waits, just before a pass sends its write.
  pub record Wishing (target : VolumeTarget) (h g : DspiHub) (w : Transaction) : Type 0 where
    pub ready : Ready g
    pub rest : Queue
    pub queued : g.queue ≡ record w { in_use = true } ∷ rest
    pub alone : IsIdle rest
    pub size : length g.queue ≡ length h.queue

  pub control_for-Wishing :
      (target : VolumeTarget) (h : DspiHub) (db : ℕ)
      → Ready h
      → IsIdle h.queue
      → 0 < length h.queue
      → Wishing target h (control_for clamp target h db) (write_of clamp target h db)
  control_for-Wishing target h db r i room =
      let w = control_for-Wished target h db in
      let t = write_of clamp target h db in
      let (s, q, e) = nonempty h.queue room in
      let idle = subst IsIdle e i in
      let put = control_for-queue clamp target h db in
      record {
        ready = Ready-kept h (control_for clamp target h db) w.link w.parser w.claim r;
        rest = q;
        queued = put ∙ ap (λ x. (enqueue t x).queue) e ∙ enqueue-idle t s q idle;
        alone = idle.1;
        size = ap length put ∙ length-enqueue t h.queue;
      }

  pub written-write :
      (target : VolumeTarget) (h g : DspiHub) (db : ℕ)
      → Wishing target h g (write_of clamp target h db)
      → written (send_if_idle g).out ≡ write_frame target (settable clamp target db)
  unfolding send_if_idle
  written-write target h g db w =
      let u = record (write_of clamp target h db) { in_use = true } in
      let s = send_found g u (ap find_next w.queued ∙ find_next-alone u w.rest refl w.alone) in
      simp w.ready.idle (rw s (frame_of-write target h db))
