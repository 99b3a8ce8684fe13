-- ===== src/Protocol/Notify.antt =====
-- components/dspi/protocol.h: notification packets.
use esphome_dspi.Prelude.{ℕ, Bool, ◌||◌, ◌==◌}

abbrev pub notify_version_v2 : ℕ
notify_version_v2 = 0x02

abbrev pub notify_header_len : ℕ
notify_header_len = 4

pub data NotifyEvent : Type 0 where
  idle master_volume param_changed bulk_invalidated preset_loaded input_format : NotifyEvent

abbrev pub event_byte : NotifyEvent → ℕ
event_byte NotifyEvent.idle = 0x00
event_byte NotifyEvent.master_volume = 0x01
event_byte NotifyEvent.param_changed = 0x02
event_byte NotifyEvent.bulk_invalidated = 0x03
event_byte NotifyEvent.preset_loaded = 0x04
event_byte NotifyEvent.input_format = 0x05

unfoldable pub notify_event_affects_params : ℕ → Bool
notify_event_affects_params event_id =
    event_id == event_byte NotifyEvent.param_changed
    || (event_id == event_byte NotifyEvent.bulk_invalidated
        || (event_id == event_byte NotifyEvent.preset_loaded
            || event_id == event_byte NotifyEvent.input_format))
