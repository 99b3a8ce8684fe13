-- ===== src/Hub/Receive/Notified.antt =====
-- dspi.cpp: a notification is a hint, and disturbs nothing.
use esphome_dspi.Prelude.{ℕ, ◌+◌, ◌≤◌, u8, List, true, not, ◌≡◌, arith, ◌||◌, ◌&&◌, ◌==◌}
use esphome_dspi.Protocol.Notify.{notify_event_affects_params, notify_header_len, notify_version_v2}
use esphome_dspi.Protocol.Wire.{byte_at}
use esphome_dspi.Hub.State.{DspiHub}
use esphome_dspi.Hub.Receive.{handle_notification}

-- Whatever a notification holds, the transaction in flight, the queue, the values and all that was
-- sent or published stay as they were.
pub handle_notification-apart :
    (h : DspiHub) (packet : List ℕ) (len : ℕ)
    → let h' = handle_notification h packet len in
      (h'.link ≡ h.link)
      × (h'.queue ≡ h.queue)
      × (h'.state ≡ h.state)
      × (h'.out ≡ h.out)
      × (h'.rta ≡ h.rta)
unfolding handle_notification
handle_notification-apart h packet len = ground arith

-- A notification of the right version makes a refresh pending if it says that parameters changed,
-- and also if its sequence number does not follow the last one.
pub handle_notification-refreshes :
    (h : DspiHub) (packet : List ℕ) (len : ℕ)
    → notify_header_len ≤ len
    → byte_at packet 0 ≡ notify_version_v2
    → ((notify_event_affects_params (byte_at packet 1)
          || (h.notify.have_seq && not (byte_at packet 3 == u8 (h.notify.last_seq + 1))))
        ≡ true)
    → (handle_notification h packet len).refresh.refresh_pending ≡ true
unfolding handle_notification
handle_notification-refreshes h packet len l v c = ground arith
