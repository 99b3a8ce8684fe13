-- ===== src/Witnesses/Synced.antt =====
-- A refresh against a device that answers, at a concrete hub and device.
use esphome_dspi.Prelude.{
  ℕ, ◌+◌, ◌≤◌, ◌≡◌, refl, arith, List, [], ◌∷◌, true, false, replicate, length, ◌==◌, if◌then◌else◌,
  sym, subst, Bool-cases, inl, inr,
}
use esphome_dspi.Protocol.Wire.{max_rx_payload}
use esphome_dspi.Protocol.Toggle.{toggle_mask_count}
use esphome_dspi.Framing.Parser.{State, FrameParser}
use esphome_dspi.Framing.Parser.Bounds.{IsValid, StateFits}
use esphome_dspi.Protocol.Preset.{parse_preset_directory, rd_u32}
use esphome_dspi.Hub.Queue.{queue_free}
use esphome_dspi.Hub.Queue.Next.{IsIdle}
use esphome_dspi.Hub.State.{DspiHub, HubState, Config, new_hub}
use esphome_dspi.Hub.Loop.{loop}
use esphome_dspi.Hub.Sync.{
  Reading, read_opcode, Shows, Answer, Answers, Responsive, Ready, passes, is_quiet, no_claim,
}
use esphome_dspi.Hub.Sync.Written.{IsIdle-IsKnown}
use esphome_dspi.Hub.Sync.Burst.{is_asked}
use esphome_dspi.Hub.Sync.Refreshed.{IsDue, started, passes-Shows}
use esphome_dspi.Witnesses.{clamp, config, buffer}
use esphome_dspi.Crc16.{crc16, crc16_update}
use esphome_dspi.Protocol.Rta.{default_config}
use esphome_dspi.Framing.Receive.Frame.{response_body, device_frame}
use esphome_dspi.Framing.Parser.{feed}
use esphome_dspi.Hub.Queue.{enqueue, coalesce, place, find_next, find_next_from}
use esphome_dspi.Hub.Requests.{
  enqueue_txn, enqueue_get, enqueue_toggle_read, request_refresh, publish_state,
}
use esphome_dspi.Hub.Presets.{service_preset_confirm, on_preset_dir}
use esphome_dspi.Hub.Rta.{service_rta, service_phase, reset_rta}
use esphome_dspi.Hub.Probe.{
  start_probe, on_platform, on_uart_config, on_spdif_input_config, on_adat_enable, on_adat_pin,
}
use esphome_dspi.Hub.Transport.{retry_or_drop, fail_current, run_ok, run_fail, handle_response}
use esphome_dspi.Hub.Receive.{pump_rx, pump_loop, on_byte, on_result, handle_frame}
use esphome_dspi.Hub.Loop.{
  setup, step_link, step_in, reprobe, read_fixed, read_toggles, service_refresh, service_poll,
  send_if_idle, send_next,
}
use esphome_dspi.Hub.Reach.{Reachable}
use esphome_dspi.Entities.Listener.{hear}
use esphome_dspi.Entities.Number.{VolumeTarget, new_number}
use esphome_dspi.Entities.Registered.{Kind, listener}
use esphome_dspi.Entities.Current.{states}
use esphome_dspi.Entities.Current
use esphome_dspi.Entities.Synced.{passes-entity}

-- A master volume of -20 dB, and ones for all else.
abbrev pub answers : Answers
answers op = if op == 0xD3 then 0 ∷ 0 ∷ 0xA0 ∷ 0xC1 ∷ [] else replicate 8 1

pub answers-Responsive : Responsive answers
answers-Responsive = record {
  accepted = λ r. accepted r;
  bytes = λ op. elim (Bool-cases (op == 0xD3)) [
    | inl e ↦ rw e (omega arith, (omega arith, (omega arith, (omega arith, tt))))
    | inr e ↦ rw e (ground arith)
  ];
  fits = λ op. ground arith;
}
  where
    accepted : (r : Reading) → Answer r (answers (read_opcode r)) (length (answers (read_opcode r)))
    accepted r = ground arith

-- No analyser, and no polling.
abbrev quiet_config : Config
quiet_config = record config { rta_configured = false }

abbrev reply : List ℕ → List ℕ
reply payload = device_frame 0x82 0 payload (crc16 (response_body 0x82 0 payload))

abbrev asked : DspiHub
asked = (loop (setup (new_hub quiet_config default_config buffer)) 10 []).0

-- The device identifies itself, and answers the six reads that follow with nothing.
abbrev identified : DspiHub
identified = (loop asked 20 (reply (1 ∷ 1 ∷ 0 ∷ 0 ∷ 2 ∷ 3 ∷ 0 ∷ []))).0

abbrev empty_answer : DspiHub → DspiHub
empty_answer h = (loop h 30 (reply [])).0

abbrev pub settled_hub : DspiHub
settled_hub =
    empty_answer
      (empty_answer (empty_answer (empty_answer (empty_answer (empty_answer identified)))))

empty_answer-Reachable : (h : DspiHub) → Reachable clamp h → Reachable clamp (empty_answer h)
empty_answer-Reachable h r = Reachable.passed h 30 (reply []) r

pub settled_hub-Reachable : Reachable clamp settled_hub
settled_hub-Reachable = empty_answer-Reachable _ (
    empty_answer-Reachable _ (
      empty_answer-Reachable _ (
        empty_answer-Reachable _ (
          empty_answer-Reachable _ (
            empty_answer-Reachable identified (
              Reachable.passed asked 20 (reply (1 ∷ 1 ∷ 0 ∷ 0 ∷ 2 ∷ 3 ∷ 0 ∷ [])) (
                Reachable.passed (setup (new_hub quiet_config default_config buffer)) 10 []
                  (Reachable.started quiet_config default_config buffer))))))))

-- What the run has led to.
pub reached :
    (settled_hub.link.hub_state ≡ HubState.idle)
    × (settled_hub.link.has_current ≡ false)
    × (settled_hub.parser.state ≡ State.sync)
    × (length settled_hub.parser.payload ≡ 132)
    × (settled_hub.refresh.refresh_pending ≡ true)
    × (settled_hub.refresh.refresh_due_at ≡ 270)
    × (settled_hub.toggles ≡ record { toggle_read_mask = 1; toggle_unsupported = 0 })
    × (length settled_hub.queue ≡ 12)
    × (queue_free settled_hub.queue ≡ 12)
    × (is_quiet (started settled_hub) ≡ true)
    × (no_claim settled_hub ≡ true)
    × (settled_hub.config.max_bytes_per_loop ≡ 128)
    × (settled_hub.clock ≡ 30)
    × (settled_hub.config.refresh_debounce_ms ≡ 250)
    × IsIdle settled_hub.queue
unfolding loop send_if_idle send_next find_next find_next_from service_rta service_phase
    service_preset_confirm service_poll service_refresh read_fixed read_toggles reprobe step_link
    step_in pump_rx pump_loop on_byte on_result feed handle_frame handle_response run_ok
    retry_or_drop fail_current run_fail enqueue coalesce place enqueue_get enqueue_toggle_read
    enqueue_txn queue_free toggle_mask_count request_refresh setup start_probe publish_state crc16
    crc16_update on_platform on_uart_config on_spdif_input_config on_adat_enable on_adat_pin
    on_preset_dir reset_rta parse_preset_directory
reached = (
  refl,
  refl,
  refl,
  refl,
  refl,
  refl,
  refl,
  refl,
  refl,
  refl,
  refl,
  refl,
  refl,
  refl,
  (
    refl,
    (refl, (refl, (refl, (refl, (refl, (refl, (refl, (refl, (refl, (refl, (refl, tt))))))))))),
  ),
)

rest-IsValid :
    (p : FrameParser) → p.state ≡ State.sync → length p.payload ≡ max_rx_payload → IsValid p
rest-IsValid p e l = record { room = l; fits = subst (λ s. StateFits s p) (sym e) tt }

pub ready : Ready settled_hub
ready = record {
  idle = reached.0;
  none_asked = reached.1;
  at_rest = reached.2;
  parser_valid = rest-IsValid settled_hub.parser reached.2 reached.3;
  claimed = reached.10;
}

one_toggle :
    (h : DspiHub) (now : ℕ)
    → h.refresh.refresh_pending ≡ true
    → h.refresh.refresh_due_at ≡ 270
    → now ≡ 1000
    → h.toggles ≡ record { toggle_read_mask = 1; toggle_unsupported = 0 }
    → length h.queue ≡ 12
    → queue_free h.queue ≡ 12
    → IsDue h now
unfolding toggle_mask_count
one_toggle h now p d n t l f = record {
  pending_now = p;
  due = simp (d, n) refl;
  low = simp t (omega arith);
  room = simp (t, f) (omega arith);
  size = l;
}

due : IsDue settled_hub 1000
due = one_toggle settled_hub 1000 reached.4 reached.5 refl reached.6 reached.7 reached.8

pub answers_fit : (op : ℕ) → length (answers op) + 7 ≤ 128
answers_fit op = ground arith

passes-entity_example :
    let l = listener (λ n. n) Kind.number in
    let h' = passes answers (replicate 24 1010) (loop settled_hub 1000 []).0 in
    Current.Shows l (hear l (new_number VolumeTarget.master) (states h'.out)) 0xC1A00000
unfolding rd_u32
passes-entity_example =
    passes-entity (λ n. n) clamp answers settled_hub 1000 (replicate 24 1010) Kind.number
      (new_number VolumeTarget.master) Reading.master_volume 0xC1A00000 settled_hub-Reachable
      answers-Responsive ready (IsIdle-IsKnown settled_hub.queue reached.14) due reached.9
      (λ op. omega (arith, answers_fit op, reached.11)) (omega arith) refl refl refl

passes-Shows_example :
    let h' = passes answers (replicate 24 1010) (loop settled_hub 1000 []).0 in
    (h'.link.hub_state ≡ HubState.idle)
    × IsIdle h'.queue
    × ((r : Reading) → is_asked settled_hub r ≡ true → Shows h'.state r (answers (read_opcode r)))
passes-Shows_example =
    passes-Shows answers settled_hub 1000 (replicate 24 1010) answers-Responsive ready
      (IsIdle-IsKnown settled_hub.queue reached.14) due reached.9
      (λ op. omega (arith, answers_fit op, reached.11)) (omega arith)
