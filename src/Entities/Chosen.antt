-- ===== src/Entities/Chosen.antt =====
-- An option of the source select on its way to the device and back:
-- components/dspi/select/dspi_select.h and dspi.cpp.
use esphome_dspi.Prelude.{
  ℕ, ◌<◌, ◌≡◌, ◌⊎◌, refl, ap, ◌∙◌, arith, set, List, [], ◌∷◌, ◌++◌, true, some, get_elem?,
}
use esphome_dspi.Protocol.Wire.{byte_at}
use esphome_dspi.Protocol.Opcode.{Opcode, opcode}
use esphome_dspi.Hub.Transaction.{Transaction, new_transaction}
use esphome_dspi.Hub.Queue.{queue_free, enqueue}
use esphome_dspi.Hub.Queue.Refine.{pending, waiting_with}
use esphome_dspi.Hub.State.{DspiHub, DspiState}
use esphome_dspi.Hub.Requests.{enqueue_txn, request_refresh}
use esphome_dspi.Hub.Control.{set_request, set_input_source}
use esphome_dspi.Hub.Readback.{on_input_source}
use esphome_dspi.Entities.Select.{DspiSelect, index_for, on_source_state, control_source}

abbrev pub source_write : DspiHub → ℕ → Transaction
source_write h source =
    set_request (opcode Opcode.set_input_source) 1 (set new_transaction.payload 0 source)
      h.config.flash_timeout_ms

control_source-queue :
    (e : DspiSelect) (h : DspiHub) (index source : ℕ)
    → get_elem? e.values index ≡ some source
    → (control_source e h index).queue ≡ (enqueue (source_write h source) h.queue).queue
unfolding control_source set_input_source enqueue_txn request_refresh
control_source-queue e h index source f = rw (control_source, f) refl

on_input_source-source :
    (h : DspiHub) (bytes : List ℕ)
    → let s = (on_input_source h bytes 1).state in
      (s.input_source ≡ byte_at bytes 0) × (s.input_source_valid ≡ true)
unfolding on_input_source
on_input_source-source h bytes = (ground arith, ground arith)

-- What the select makes of a source that it lists at `index`.
shows_chosen :
    (e : DspiSelect) (s : DspiState) (index source : ℕ)
    → index_for e.values source ≡ some index
    → s.input_source ≡ source
    → s.input_source_valid ≡ true
    → let e' = on_source_state e s in
      ((e'.published ≡ e.published ++ index ∷ []) × (e'.last_published ≡ source))
      ⊎ ((e'.published ≡ e.published) × (e.last_published ≡ source))
unfolding on_source_state
shows_chosen e s index source f src valid = ground arith

-- An option is chosen while a slot of the queue is free, and the select lists its source at no
-- earlier option: a request waits whose payload, when the device reports the source back, makes the
-- select publish that option, unless it shows that source already.
pub control_source-shown :
    (e : DspiSelect) (h : DspiHub) (index source : ℕ)
    → get_elem? e.values index ≡ some source
    → index_for e.values source ≡ some index
    → 0 < queue_free h.queue
    → (t : Transaction) × (pending (source_write h source) (control_source e h index).queue
        ≡ some t)
      × (t.payload_len ≡ 1)
      × (let e' = on_source_state e (on_input_source h t.payload 1).state in
          ((e'.published ≡ e.published ++ index ∷ []) × (e'.last_published ≡ source))
          ⊎ ((e'.published ≡ e.published) × (e.last_published ≡ source)))
control_source-shown e h index source listed first room =
    let w = source_write h source in
    let q = control_source-queue e h index source listed in
    let (t, waits, payload, len) = waiting_with w w h.queue (ground arith) room in
    let (src, valid) = on_input_source-source h t.payload in
    let sent = src ∙ ap (λ b. byte_at b 0) payload in
    (
      t,
      ap (pending w) q ∙ waits,
      len,
      shows_chosen e (on_input_source h t.payload 1).state index source first sent valid,
    )
