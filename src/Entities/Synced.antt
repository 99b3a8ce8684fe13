-- ===== src/Entities/Synced.antt =====
-- The entities at the end of a refresh: device, bytes, queue, handlers and publications together.
use esphome_dspi.Prelude.{
  ℕ, ◌≤◌, ◌≡◌, refl, truthy, true, Option, none, some, List, [], ◌∷◌, length, ◌∙◌, sym, subst,
}
use esphome_dspi.Protocol.Wire.{byte_at}
use esphome_dspi.Protocol.Preset.{rd_u32}
use esphome_dspi.Hub.State.{DspiHub, DspiState}
use esphome_dspi.Hub.Loop.{loop}
use esphome_dspi.Hub.Reach.{Reachable}
use esphome_dspi.Hub.Sync.{
  Reading, read_opcode, Shows, Answers, Responsive, Ready, passes, answer_bytes, is_quiet,
}
use esphome_dspi.Hub.Sync.Queue.{IsKnown}
use esphome_dspi.Hub.Sync.Burst.{is_asked}
use esphome_dspi.Hub.Sync.Passes.{FitsPass}
use esphome_dspi.Hub.Sync.Refreshed.{IsDue, started, enough_passes, passes-Shows}
use esphome_dspi.Entities.Number.{VolumeTarget, DspiVolumeNumber}
use esphome_dspi.Entities.Listener.{hear}
use esphome_dspi.Entities.Registered.{Kind, Entity, Shown, listener, listed}
use esphome_dspi.Entities.Current
use esphome_dspi.Entities.Current.{states, Reachable-Shows}

abbrev pub volume_reading : VolumeTarget → Reading
volume_reading VolumeTarget.master = Reading.master_volume
volume_reading VolumeTarget.user = Reading.user_volume

-- The reading that an entity follows; a text sensor follows a name, which a refresh reads only when
-- the preset has changed.
abbrev pub followed : (k : Kind) → Entity k → Option Reading
followed Kind.number e = some (volume_reading e.target)
followed Kind.switch e = some (Reading.toggle_state e.target)
followed Kind.source_select e = some Reading.input_source
followed Kind.preset_select e = some Reading.active_preset
followed Kind.sensor e = some Reading.input_rate
followed Kind.text_sensor e = none

-- What the entity is to show for an answer of the device, if it can show it.
abbrev pub answered : (k : Kind) → Entity k → List ℕ → Option (Shown k)
answered Kind.number e b = some (rd_u32 b 0)
answered Kind.switch e b = some (truthy (byte_at b 0))
answered Kind.source_select e b = listed e.values (byte_at b 0)
answered Kind.preset_select e b = listed e.values (byte_at b 0)
answered Kind.sensor e b = some (rd_u32 b 0)
answered Kind.text_sensor e b = none

module _ (to_float : ℕ → ℕ) where
  number_reading :
      (e : DspiVolumeNumber) (t : VolumeTarget) (s : DspiState) (b : List ℕ)
      → e.target ≡ t
      → Shows s (volume_reading t) b
      → (listener to_float Kind.number).reading e s ≡ some (rd_u32 b 0)
  unfolding listener
  number_reading e VolumeTarget.master s b f (valid, value) = simp (f, valid, value) refl
  number_reading e VolumeTarget.user s b f (valid, value) = simp (f, valid, value) refl

  followed-answered :
      (k : Kind) (e : Entity k) (r : Reading) (s : DspiState) (b : List ℕ)
      → followed k e ≡ some r
      → Shows s r b
      → (listener to_float k).reading e s ≡ answered k e b
  unfolding listener
  followed-answered Kind.number e r s b f w =
      let g : volume_reading e.target ≡ r = cc in
      number_reading e e.target s b refl (subst (λ x. Shows s x b) (sym g) w)
  followed-answered Kind.switch e r s b f w =
      let g : Reading.toggle_state e.target ≡ r = cc in
      let (valid, value) = subst (λ x. Shows s x b) (sym g) w in simp (valid, value) refl
  followed-answered Kind.source_select e r s b f w =
      let g : Reading.input_source ≡ r = cc in
      let (valid, value) = subst (λ x. Shows s x b) (sym g) w in simp (valid, value) refl
  followed-answered Kind.preset_select e r s b f w =
      let g : Reading.active_preset ≡ r = cc in
      let (valid, value) = subst (λ x. Shows s x b) (sym g) w in simp (valid, value) refl
  followed-answered Kind.sensor e r s b f w =
      let g : Reading.input_rate ≡ r = cc in
      let (valid, value) = subst (λ x. Shows s x b) (sym g) w in simp (valid, value) refl
  followed-answered Kind.text_sensor e r s b f w = cc

  passes-Reachable :
      (clamp : ℕ → ℕ → ℕ → ℕ) (dev : Answers) (times : List ℕ) (h : DspiHub)
      → Reachable clamp h
      → Reachable clamp (passes dev times h)
  unfolding passes
  passes-Reachable clamp dev [] h r = r
  passes-Reachable clamp dev (now ∷ times) h r =
      passes-Reachable clamp dev times _ (Reachable.passed h now (answer_bytes dev h) r)

  -- A hub that can be reached, on an idle link to a device that answers every request, keeps its
  -- values and answers with frames that fit the byte budget of a pass, with a refresh due that finds
  -- room, when nothing but known requests waits and nothing
  -- else makes the hub ask: after the pass of `loop` in which the refresh is due and at least 24
  -- more, at any times, each over the device's answer to what the pass before sent, every entity
  -- that was registered from the start and follows a reading of the refresh has last published what
  -- the device answers, as its kind shows it, or a value that compares equal to it.
  pub passes-entity :
      (clamp : ℕ → ℕ → ℕ → ℕ) (dev : Answers) (h : DspiHub) (now : ℕ) (times : List ℕ) (k : Kind)
      (e : Entity k) (r : Reading) (v : Shown k)
      → Reachable clamp h
      → Responsive dev
      → Ready h
      → IsKnown h.queue
      → IsDue h now
      → is_quiet (started h) ≡ true
      → FitsPass dev h
      → enough_passes ≤ length times
      → followed k e ≡ some r
      → is_asked h r ≡ true
      → answered k e (dev (read_opcode r)) ≡ some v
      → let h' = passes dev times (loop h now []).0 in
        Current.Shows (listener to_float k) (hear (listener to_float k) e (states h'.out)) v
  passes-entity clamp dev h now times k e r v reach d ready known due quiet fits l follows asked a =
      let s = passes-Shows dev h now times d ready known due quiet fits l in
      Reachable-Shows to_float clamp (passes dev times (loop h now []).0) k e v
        (passes-Reachable clamp dev times _ (Reachable.passed h now [] reach))
        (followed-answered k e r _ _ follows (s.2 r asked) ∙ a)
