-- ===== src/Entities/Wish/Settles.antt =====
-- A volume wished for through its entity, from the wish until the entity shows it.
use esphome_dspi.Prelude.{
  ℕ, ◌+◌, ◌≤◌, ◌<◌, ◌≡◌, refl, sym, subst, arith, ap, ◌∙◌, u32, true, some, List, [], length,
}
use esphome_dspi.Protocol.Preset.{rd_u32}
use esphome_dspi.Protocol.Toggle.{toggle_mask_count}
use esphome_dspi.Hub.Queue.{queue_depth}
use esphome_dspi.Hub.State.{DspiHub, Config}
use esphome_dspi.Hub.Sync.Burst.{is_asked}
use esphome_dspi.Hub.Requests.{is_due}
use esphome_dspi.Hub.Loop.{loop, toggles_to_read}
use esphome_dspi.Hub.Reach.{Reachable}
use esphome_dspi.Hub.Sync.{read_opcode, Answers, Responsive, Ready, passes, is_quiet}
use esphome_dspi.Hub.Sync.Noted.{Ready-kept}
use esphome_dspi.Hub.Sync.Passes.{FitsPass}
use esphome_dspi.Hub.Sync.Refreshed.{IsDue, started, enough_passes}
use esphome_dspi.Entities.Number.{VolumeTarget, DspiVolumeNumber, control, control_for}
use esphome_dspi.Entities.Echo.{settable, write_of}
use esphome_dspi.Entities.Listener.{hear}
use esphome_dspi.Entities.Registered.{Kind, listener}
use esphome_dspi.Entities.Current
use esphome_dspi.Entities.Current.{states}
use esphome_dspi.Entities.Synced.{volume_reading, passes-entity}
use esphome_dspi.Prelude.{◌^◌, false}
use esphome_dspi.Hub.Queue.Next.{IsIdle}
use esphome_dspi.Hub.State.{Refresh}
use esphome_dspi.Hub.Loop.{send_if_idle}
use esphome_dspi.Hub.Sync.{answer_bytes}
use esphome_dspi.Hub.Sync.Settles.{later-Ready}
use esphome_dspi.Hub.Sync.Written.{
  Acknowledged, IsIdle-IsKnown, idle-queue_free, sending_pass, acknowledging_pass,
}
use esphome_dspi.Entities.Wish.{
  TakesOver, written, write_frame, rd_u32-bytes_le, Wishing, control_for-Wished,
  control_for-Reachable, control_for-Wishing, written-write,
}

module _ (clamp : ℕ → ℕ → ℕ → ℕ) where
  -- The wish just before its write is sent, at the time `t₁`.
  abbrev wishing : VolumeTarget → DspiHub → ℕ → ℕ → DspiHub
  wishing target h db t₁ = record (control_for clamp target h db) { clock = t₁ }

  -- What the acknowledgement leaves is ready for the refresh.
  acknowledged-IsDue :
      (target : VolumeTarget) (h h' : DspiHub) (db t₁ now : ℕ)
      → Acknowledged (wishing target h db t₁) h'
      → length (wishing target h db t₁).queue ≡ queue_depth
      → toggles_to_read h.toggles < 65536
      → 5 + toggle_mask_count (toggles_to_read h.toggles) ≤ queue_depth
      → is_due now (u32 (h.clock + h.config.refresh_debounce_ms)) ≡ true
      → IsDue h' now
  acknowledged-IsDue target h h' db t₁ now a size low room d =
      let w = control_for-Wished clamp target h db in
      let toggles = a.toggles ∙ w.toggles in
      let free = idle-queue_free h'.queue a.nothing_waits ∙ a.size ∙ size in
      record {
        pending_now = ap (λ (r : Refresh). r.refresh_pending) a.refresh ∙ w.pending_now;
        due =
            ap (λ (r : Refresh). is_due now r.refresh_due_at) a.refresh
            ∙ ap (is_due now) w.due_at
            ∙ d;
        low = rw toggles low;
        room = rw (toggles, free) room;
        size = a.size ∙ size;
      }

  -- The run of a wish: the pass that sends its write, and the one over the device's
  -- acknowledgement.
  abbrev asked_for : DspiVolumeNumber → DspiHub → ℕ → ℕ → DspiHub
  asked_for e h db t₁ = (loop (control clamp e h db) t₁ []).0

  abbrev acknowledged : Answers → DspiVolumeNumber → DspiHub → ℕ → ℕ → ℕ → DspiHub
  acknowledged dev e h db t₁ t₂ =
      let h₁ = asked_for e h db t₁ in (loop h₁ t₂ (answer_bytes dev h₁)).0

  asked_for-sent :
      (e : DspiVolumeNumber) (h : DspiHub) (db t₁ : ℕ)
      → Ready h
      → is_quiet (started h) ≡ true
      → is_due t₁ (u32 (h.clock + h.config.refresh_debounce_ms)) ≡ false
      → asked_for e h db t₁ ≡ send_if_idle (wishing e.target h db t₁)
  unfolding control
  asked_for-sent e h db t₁ r q early =
      let c = control_for clamp e.target h db in
      let w = control_for-Wished clamp e.target h db in
      sending_pass c t₁ (Ready-kept h c w.link w.parser w.claim r) (w.quiet ∙ q)
        (ap (is_due t₁) w.due_at ∙ early)

  wishing-Wishing :
      (target : VolumeTarget) (h : DspiHub) (db t₁ : ℕ)
      → Ready h
      → IsIdle h.queue
      → 0 < length h.queue
      → Wishing clamp target h (wishing target h db t₁) (write_of clamp target h db)
  wishing-Wishing target h db t₁ r i room =
      let w = control_for-Wishing clamp target h db r i room in
      record {
        ready = later-Ready (control_for clamp target h db) t₁ w.ready;
        rest = w.rest;
        queued = w.queued;
        alone = w.alone;
        size = w.size;
      }

  acknowledged-Acknowledged :
      (dev : Answers) (e : DspiVolumeNumber) (h : DspiHub) (db t₁ t₂ : ℕ)
      → Responsive dev
      → FitsPass dev h
      → Ready h
      → IsIdle h.queue
      → 0 < length h.queue
      → is_quiet (started h) ≡ true
      → is_due t₁ (u32 (h.clock + h.config.refresh_debounce_ms)) ≡ false
      → is_due t₂ (u32 (h.clock + h.config.refresh_debounce_ms)) ≡ false
      → Acknowledged (wishing e.target h db t₁) (acknowledged dev e h db t₁ t₂)
  acknowledged-Acknowledged dev e h db t₁ t₂ d fits r i room q early still =
      let g = wishing e.target h db t₁ in
      let w = control_for-Wished clamp e.target h db in
      let s = wishing-Wishing e.target h db t₁ r i room in
      let budget = ap (λ (x : Config). x.max_bytes_per_loop) w.config in
      let a =
        acknowledging_pass dev t₂ g (write_of clamp e.target h db) s.rest d
          (λ op. omega (arith, fits op, budget)) s.ready s.queued s.alone refl (w.quiet ∙ q)
          (ap (is_due t₂) w.due_at ∙ still) in
      subst (λ x. Acknowledged g (loop x t₂ (answer_bytes dev x)).0)
        (sym (asked_for-sent e h db t₁ r q early)) a

  acknowledged-Reachable :
      (dev : Answers) (e : DspiVolumeNumber) (h : DspiHub) (db t₁ t₂ : ℕ)
      → Reachable clamp h
      → Reachable clamp (acknowledged dev e h db t₁ t₂)
  unfolding control
  acknowledged-Reachable dev e h db t₁ t₂ r =
      Reachable.passed _ t₂ _
        (Reachable.passed _ t₁ [] (control_for-Reachable clamp e.target h db r))

  -- Once the device has acknowledged, the refresh makes the entity show its answer.
  acknowledged-shows :
      (to_float : ℕ → ℕ) (dev : Answers) (e : DspiVolumeNumber) (h : DspiHub) (db v t₁ t₂ now : ℕ)
      (times : List ℕ)
      → Reachable clamp h
      → Ready h
      → IsIdle h.queue
      → length h.queue ≡ queue_depth
      → is_quiet (started h) ≡ true
      → toggles_to_read h.toggles < 65536
      → 5 + toggle_mask_count (toggles_to_read h.toggles) ≤ queue_depth
      → Responsive dev
      → FitsPass dev h
      → rd_u32 (dev (read_opcode (volume_reading e.target))) 0 ≡ v
      → is_due t₁ (u32 (h.clock + h.config.refresh_debounce_ms)) ≡ false
      → is_due t₂ (u32 (h.clock + h.config.refresh_debounce_ms)) ≡ false
      → is_due now (u32 (h.clock + h.config.refresh_debounce_ms)) ≡ true
      → enough_passes ≤ length times
      → let h' = passes dev times (loop (acknowledged dev e h db t₁ t₂) now []).0 in
        let l = listener to_float Kind.number in Current.Shows l (hear l e (states h'.out)) v
  acknowledged-shows to_float dev e h db v t₁ t₂ now times r ready idle size quiet low room d fits
        holds early still due l =
      let h₂ = acknowledged dev e h db t₁ t₂ in
      let w = control_for-Wished clamp e.target h db in
      let a =
        acknowledged-Acknowledged dev e h db t₁ t₂ d fits ready idle (omega arith) quiet early
          still in
      let full = (wishing-Wishing e.target h db t₁ ready idle (omega arith)).size ∙ size in
      let budget = ap (λ (x : Config). x.max_bytes_per_loop) (a.config ∙ w.config) in
      passes-entity to_float clamp dev h₂ now times Kind.number e (volume_reading e.target) v
        (acknowledged-Reachable dev e h db t₁ t₂ r) d a.ready
        (IsIdle-IsKnown h₂.queue a.nothing_waits)
        (acknowledged-IsDue e.target h h₂ db t₁ now a full low room due) (a.quiet ∙ w.quiet ∙ quiet)
        (λ op. omega (arith, fits op, budget)) l refl (asked_volume h₂ e.target) (ap some holds)
    where
      asked_volume : (h : DspiHub) (t : VolumeTarget) → is_asked h (volume_reading t) ≡ true
      asked_volume h t = ground arith

  -- A volume wished for through its entity is what the entity shows in the end. In a hub that can be
  -- reached, on an idle link, in which nothing waits in the twelve slots and nothing but a refresh
  -- makes the hub ask, with a refresh of which the burst fits the queue and a value of 32 bits, the
  -- wish is made; a pass of `loop` before the refresh is due writes a frame, and a second one, not
  -- yet due either, is over the device's acknowledgement. The device answers from what it has
  -- received: it takes over the value of a write of this volume in the frame last written, as the
  -- protocol lays it out, and answers every request within the byte budget of a pass. Then the pass
  -- in which the debounced refresh is due and at least 24 more, at any times and each over the
  -- device's answer, leave the entity showing the wish within the range of the volume, or the mute
  -- of the master.
  pub control-settles :
      (to_float : ℕ → ℕ) (react : List ℕ → Answers) (e : DspiVolumeNumber) (h : DspiHub)
      (db t₁ t₂ now : ℕ) (times : List ℕ)
      → Reachable clamp h
      → Ready h
      → IsIdle h.queue
      → length h.queue ≡ queue_depth
      → is_quiet (started h) ≡ true
      → toggles_to_read h.toggles < 65536
      → 5 + toggle_mask_count (toggles_to_read h.toggles) ≤ queue_depth
      → settable clamp e.target db < 2 ^ 32
      → TakesOver react e.target h
      → is_due t₁ (u32 (h.clock + h.config.refresh_debounce_ms)) ≡ false
      → is_due t₂ (u32 (h.clock + h.config.refresh_debounce_ms)) ≡ false
      → is_due now (u32 (h.clock + h.config.refresh_debounce_ms)) ≡ true
      → enough_passes ≤ length times
      → let h₁ = (loop (control clamp e h db) t₁ []).0 in
        let dev = react (written h₁.out) in
        let h₂ = (loop h₁ t₂ (answer_bytes dev h₁)).0 in
        let h₃ = passes dev times (loop h₂ now []).0 in
        let l = listener to_float Kind.number in
        Current.Shows l (hear l e (states h₃.out)) (settable clamp e.target db)
  control-settles to_float react e h db t₁ t₂ now times r ready idle size quiet low room range takes
        early still due l =
      let v = settable clamp e.target db in
      let s = wishing-Wishing e.target h db t₁ ready idle (omega arith) in
      let sent =
        ap (λ (x : DspiHub). written x.out) (asked_for-sent e h db t₁ ready quiet early)
        ∙ written-write clamp e.target h (wishing e.target h db t₁) db s in
      let held = ap (λ b. rd_u32 b 0) (takes.holds v range) ∙ rd_u32-bytes_le v range in
      let shows =
        acknowledged-shows to_float (react (write_frame e.target v)) e h db v t₁ t₂ now times r
          ready idle size quiet low room (takes.responsive v range) (takes.fits v range) held early
          still due l in
      subst
        (λ f.
          let dev = react f in
          let number = listener to_float Kind.number in
          let h₃ = passes dev times (loop (acknowledged dev e h db t₁ t₂) now []).0 in
          Current.Shows number (hear number e (states h₃.out)) v)
        (sym sent) shows
