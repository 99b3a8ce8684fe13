-- ===== src/Witnesses/Behaviour.antt =====
-- The theorems on whole runs, and on the entities, at concrete inputs.
use esphome_dspi.Prelude.{
  ◌/◌, ◌^◌, bit_and, truthy, ltb, not, ◌&&◌, ◌<◌, [], ◌∷◌, ◌++◌, true, false, ◌≡◌, ◌⊎◌, refl, arith,
  some, replicate,
}
use esphome_dspi.Protocol.Rta.{default_config, rta_parse_band_frame, rta_rd_u16}
use esphome_dspi.Hub.Transaction.{Transaction}
use esphome_dspi.Hub.Queue.{empty_queue, queue_free, find_next, find_next_from}
use esphome_dspi.Hub.Queue.Distinct.{waiting}
use esphome_dspi.Hub.Queue.Next.{IsIdle}
use esphome_dspi.Hub.Queue.Refine.{pending}
use esphome_dspi.Hub.State.{DspiHub, HubState, RtaPhase, DspiState, new_state}
use esphome_dspi.Hub.Rta.{service_rta, service_phase, set_rta_tap}
use esphome_dspi.Hub.RtaReplies.{on_rta_config, on_rta_bands}
use esphome_dspi.Hub.RtaReplies.Late.{
  disabled-revived, set_rta_tap-second, config_read, AwaitsAnalyser,
}
use esphome_dspi.Hub.Transport.{retry_or_drop}
use esphome_dspi.Hub.Transport.Silent.{Trying, GivenUp}
use esphome_dspi.Hub.Transport.Unanswered.{Unanswered, Phase, is_timed_out}
use esphome_dspi.Hub.Transport.Unanswered.GivesUp.{Unanswered-gives_up}
use esphome_dspi.Hub.Requests.{enqueue_txn}
use esphome_dspi.Hub.State.{Output}
use esphome_dspi.Hub.Queue.{enqueue, coalesce, place}
use esphome_dspi.Hub.Loop.{frame_of}
use esphome_dspi.Hub.Transport.Overwrite.{retry_or_drop-overwrites}
use esphome_dspi.Hub.Loop.{
  setup, loop, step_link, step_in, reprobe, service_refresh, service_poll, send_if_idle, send_next,
}
use esphome_dspi.Hub.Receive.{pump_rx, pump_loop}
use esphome_dspi.Hub.Presets.{service_preset_confirm}
use esphome_dspi.Hub.Progress.{Asked, loop-leaves_none, loop-probes}
use esphome_dspi.Hub.Reach.{Reachable}
use esphome_dspi.Hub.Update.{fired, SaysLive, DimsOnce, Reachable-fired}
use esphome_dspi.Entities.Dump.{
  names_source, names_slot, lists, dump_source_select, dump_preset_select, dump-names,
}
use esphome_dspi.Protocol.Opcode.{input_source_count}
use esphome_dspi.Protocol.Preset.{preset_slots}
use esphome_dspi.Entities.Listener.{changes, hear, readings}
use esphome_dspi.Entities.Number.{VolumeTarget, new_number, control}
use esphome_dspi.Entities.Sensor.{SensorTarget, new_sensor}
use esphome_dspi.Entities.Registered.{Kind, listener, hear-listener}
use esphome_dspi.Entities.Echo.{write_of, reported, control-echoed}
use esphome_dspi.Witnesses.{
  fresh, busy, volume_read, band_poll, clamp, polled, streaming, band_frame, config_bytes,
  config_bytes-parse, buffer, config,
}
use esphome_dspi.Protocol.Toggle.{ToggleTarget}
use esphome_dspi.Hub.Probe.{on_spdif_input_config}
use esphome_dspi.Hub.Probe.Selectable.{Selects, on_spdif_input_config-Selects}
use esphome_dspi.Hub.Readback.{mark_toggle_unsupported, on_input_source}
use esphome_dspi.Hub.Readback.Rejected.{is_read, mark_toggle_unsupported-is_read}
use esphome_dspi.Entities.Select.{
  DspiSelect, new_select, on_source_state, control_source, index_for, index_from,
}
use esphome_dspi.Entities.Chosen.{source_write, control_source-shown}

Reachable-fired_example : SaysLive polled.rta.live (fired polled.out) × DimsOnce (fired polled.out)
Reachable-fired_example = Reachable-fired clamp polled (
    Reachable.passed (setup fresh) 100 (0x00 ∷ 0xA5 ∷ [])
      (Reachable.started config default_config buffer))

-- The sensor of the pipeline's rate, told of a rate twice.
abbrev rate_known : DspiState
rate_known = record new_state { pipeline_rate_hz = 48000; pipeline_rate_valid = true }

hear-listener_example :
    let l = listener (λ n. n) Kind.sensor in
    let e = new_sensor SensorTarget.pipeline_rate in
    let states = rate_known ∷ rate_known ∷ [] in
    l.published (hear l e states)
    ≡ l.published e ++ changes l.same (l.show e) (l.last e) (readings l e states)
hear-listener_example =
    hear-listener (λ n. n) Kind.sensor (new_sensor SensorTarget.pipeline_rate)
      (rate_known ∷ rate_known ∷ [])

disabled-revived_example :
    let configured = (on_rta_config fresh config_bytes 12).rta in
    let polled = (on_rta_bands fresh band_frame 82).rta in
    (configured.enabled ≡ false)
    × ((configured.phase ≡ RtaPhase.streaming) ⊎ (configured.phase ≡ RtaPhase.set_config))
    × (polled.enabled ≡ false)
    × (polled.live ≡ true)
unfolding rta_parse_band_frame rta_rd_u16
disabled-revived_example =
    disabled-revived fresh config_bytes 12 default_config
      (record {
        version = 3;
        channel = 0;
        seq = 0;
        n_bands = 1;
        age_ms = 10;
        avg = replicate 37 0;
        peak = replicate 37 0;
      })
      band_frame 82 refl refl refl config_bytes-parse refl refl refl

-- The analyser streams and its poll of the bands waits, while a volume read is in flight.
abbrev analysing : DspiHub
analysing = record streaming {
  link = record (busy.link) { identified = true };
  queue = waiting band_poll ∷ empty_queue;
  rta = record (streaming.rta) { enabled = true; busy = true };
}

set_rta_tap-second_example :
    let h' = service_rta (set_rta_tap analysing 1) 0 in
    AwaitsAnalyser (config_read analysing) h'.queue × AwaitsAnalyser band_poll h'.queue
unfolding queue_free
set_rta_tap-second_example =
    set_rta_tap-second analysing 1 band_poll refl refl refl refl refl refl refl (omega arith)
      (omega arith) refl (waiting band_poll, refl, refl)

-- The volume read in flight with two retries to go, and nothing else to ask for.
abbrev unheard : DspiHub
unheard = record busy {
  config = record config { rta_configured = false };
  link = record (busy.link) { identified = true; current = record volume_read { max_retries = 2 } };
}

-- The first try times out and is sent again, and so is the second.
abbrev sent_again : DspiHub
sent_again = (loop (loop unheard 5000 []).0 10000 []).0

abbrev sent_twice : DspiHub
sent_twice = (loop (loop sent_again 15000 []).0 20000 []).0

sent_twice-Unanswered : Unanswered Phase.in_flight 2 unheard sent_twice
unfolding loop send_if_idle send_next find_next find_next_from service_rta service_preset_confirm
    service_poll service_refresh reprobe step_link step_in pump_rx pump_loop retry_or_drop enqueue
    coalesce place enqueue_txn
sent_twice-Unanswered = Unanswered.times_out 1 unheard sent_twice 5000 refl (
    Unanswered.resends 1 (loop unheard 5000 []).0 sent_twice 10000 refl (
      Unanswered.times_out 0 sent_again sent_twice 15000 refl (
        Unanswered.resends 0 (loop sent_again 15000 []).0 sent_twice 20000 refl
          (Unanswered.here sent_twice))))

late : is_timed_out sent_twice 25000 ≡ true
unfolding loop send_if_idle send_next find_next find_next_from service_rta service_preset_confirm
    service_poll service_refresh reprobe step_link step_in pump_rx pump_loop retry_or_drop enqueue
    coalesce place enqueue_txn
late = refl

Unanswered-gives_up_example :
    (sent_twice.out ≡ replicate 2 (Output.tx (frame_of unheard.link.current)) ++ unheard.out)
    × Trying 2 2 sent_twice
    × GivenUp (step_link (record sent_twice { clock = 25000 }) 25000)
Unanswered-gives_up_example =
    Unanswered-gives_up 2 25000 unheard sent_twice (omega arith) refl
      (record {
        waits = refl;
        in_flight = refl;
        tried = refl;
        budget = refl;
        alone = ground arith;
        room = omega arith;
      })
      sent_twice-Unanswered late

-- A volume of 1 is in flight while one of 2 waits.
abbrev written : Transaction
written = record volume_read { req = 0xD2; payload = 1 ∷ [] }

abbrev crossing : DspiHub
crossing = record busy {
  link = record (busy.link) { current = written };
  queue = waiting (record written { payload = 2 ∷ [] }) ∷ empty_queue;
}

retry_or_drop-overwrites_example :
    (kept : Transaction) × (pending written (retry_or_drop crossing).queue ≡ some kept)
    × (kept.payload ≡ 1 ∷ [])
    × (kept.payload_len ≡ 0)
    × (0 < kept.attempts)
retry_or_drop-overwrites_example =
    retry_or_drop-overwrites crossing (waiting (record written { payload = 2 ∷ [] })) refl
      (omega arith) (omega arith) refl

abbrev fresh_offline : DspiHub
fresh_offline = record fresh { link = record (fresh.link) { hub_state = HubState.offline } }

loop-probes_example : Asked (loop fresh_offline 6000 []).0
loop-probes_example = loop-probes fresh_offline 6000 refl refl (omega arith) (omega arith)

control-echoed_example :
    (t : Transaction) × (pending
        (write_of clamp VolumeTarget.user fresh 0xC1200000)
        (control clamp (new_number VolumeTarget.user) fresh 0xC1200000).queue
      ≡ some t)
    × (t.payload_len ≡ 4)
    × (let s = (reported VolumeTarget.user fresh t.payload 4).state in
        (s.user_volume_valid ≡ true) × (s.user_volume_db ≡ 0xC1200000))
unfolding queue_free
control-echoed_example =
    control-echoed clamp (new_number VolumeTarget.user) fresh 0xC1200000 (omega arith) (omega arith)

-- A hub at rest, with nothing to do.
abbrev resting : DspiHub
resting = record fresh {
  link = record (fresh.link) { hub_state = HubState.idle; identified = true };
}

loop-leaves_none_example : IsIdle (loop resting 10 []).0.queue
unfolding loop pump_rx pump_loop step_link step_in reprobe service_refresh service_poll
    service_preset_confirm service_rta service_phase send_if_idle send_next find_next find_next_from
loop-leaves_none_example = loop-leaves_none resting 10 [] refl

-- The user's mute, which every hub reads, is rejected with status 2.
mark_toggle_unsupported-is_read_example :
    is_read (mark_toggle_unsupported fresh ToggleTarget.user_mute 2) ToggleTarget.user_mute ≡ false
mark_toggle_unsupported-is_read_example =
    mark_toggle_unsupported-is_read fresh ToggleTarget.user_mute ToggleTarget.user_mute 2
      (λ e. absurd (omega arith)) (omega arith)

-- The options are I2S and USB, and I2S is chosen.
abbrev two_sources : DspiSelect
two_sources = new_select (2 ∷ 0 ∷ [])

control_source-shown_example :
    (t : Transaction) × (pending (source_write fresh 2) (control_source two_sources fresh 0).queue
      ≡ some t)
    × (t.payload_len ≡ 1)
    × (let e' = on_source_state two_sources (on_input_source fresh t.payload 1).state in
        ((e'.published ≡ 0 ∷ []) × (e'.last_published ≡ 2))
        ⊎ ((e'.published ≡ []) × (two_sources.last_published ≡ 2)))
unfolding queue_free index_for index_from
control_source-shown_example = control_source-shown two_sources fresh 0 2 refl refl (omega arith)

-- Three inputs, of which the first and the third are enabled.
on_spdif_input_config-Selects_example :
    let s = (on_spdif_input_config fresh (3 ∷ 5 ∷ []) 2).state in
    (s.selectable_valid ≡ true) × Selects s.selectable_mask 3 5 0
on_spdif_input_config-Selects_example =
    on_spdif_input_config-Selects fresh (3 ∷ 5 ∷ []) 2 (omega arith)

-- A device with USB, S/PDIF and I2S, and presets in the slots 0 and 4, beside a select of USB and I2S
-- or of the slots 0 and 2.
abbrev offering : DspiState
offering = record new_state {
  selectable_mask = 7;
  selectable_valid = true;
  slot_occupied = 17;
  preset_dir_valid = true;
}

dump-names_example :
    let e = new_select (0 ∷ 2 ∷ []) in
    (names_source 1 (dump_source_select e offering) ≡ (
      offering.selectable_valid
      && (ltb 1 input_source_count
          && (truthy (bit_and offering.selectable_mask (2 ^ 1)) && not (lists e.values 1)))))
    × (names_slot 1 (dump_preset_select e offering) ≡ (
        offering.preset_dir_valid
        && (ltb 1 preset_slots
            && (truthy (bit_and (offering.slot_occupied / 2 ^ 1) 1) && not (lists e.values 1)))))
dump-names_example = dump-names (new_select (0 ∷ 2 ∷ [])) offering 1
