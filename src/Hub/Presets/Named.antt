-- ===== src/Hub/Presets/Named.antt =====
-- dspi.cpp: which preset an answer with a name is taken for.
use esphome_dspi.Prelude.{
  ℕ, ◌≤◌, ◌<◌, ◌≡◌, ◌≢◌, sym, subst, ap, ◌∙◌, arith, List, [], ◌∷◌, true, false, take,
}
use esphome_dspi.Protocol.Preset.{preset_slots, preset_name_length, preset_name_len}
use esphome_dspi.Protocol.Opcode.{Opcode, opcode}
use esphome_dspi.Hub.Transaction.{Transaction, OnOk, OnFail}
use esphome_dspi.Hub.Queue.{enqueue, queue_free}
use esphome_dspi.Hub.Refresh.{IsPending, IsPending-kept, enqueue-IsPending}
use esphome_dspi.Hub.State.{DspiHub}
use esphome_dspi.Hub.Requests.{get_request}
use esphome_dspi.Hub.Presets.{on_preset_active, on_preset_name}

-- The read of a slot's name.
abbrev pub name_of : DspiHub → ℕ → Transaction
name_of h slot =
    get_request h (opcode Opcode.preset_get_name) preset_name_len OnOk.on_preset_name 1 slot
      OnFail.no_handler

changed_preset :
    (h : DspiHub) (new : ℕ)
    → new < preset_slots
    → h.state.active_preset ≢ new
    → let h' = on_preset_active h (new ∷ []) 1 in
      (h'.queue ≡ (enqueue (name_of h new) h.queue).queue)
      × (h'.state.active_preset ≡ new)
      × (h'.preset.name_slot ≡ new)
      × (h'.preset.name_requested ≡ true)
unfolding on_preset_active
changed_preset h new r other = ground arith

named :
    (h : DspiHub) (b : List ℕ) (n : ℕ)
    → 1 ≤ n
    → h.preset.name_requested ≡ true
    → h.preset.name_slot ≡ h.state.active_preset
    → let h' = on_preset_name h b n in
      (h'.state.active_preset ≡ h.state.active_preset)
      × (h'.state.active_preset_name ≡ take (preset_name_length b n) b)
      × (h'.state.active_preset_name_valid ≡ true)
      × (h'.preset.name_requested ≡ false)
unfolding on_preset_name
named h b n l asked same = ground arith

unasked :
    (h : DspiHub) (b : List ℕ) (n : ℕ) → h.preset.name_requested ≡ false → on_preset_name h b n ≡ h
unfolding on_preset_name
unasked h b n e = ground arith

-- The answer to a read of a name does not say which slot it is for. If the device turns to another
-- preset while the read of the old one's name still waits, and a slot of the queue is free, both
-- names are read, and the one that is answered first is taken for the name of the new preset; the
-- answer that follows is passed over.
pub on_preset_name-first :
    (h : DspiHub) (old new : ℕ) (b c : List ℕ) (n m : ℕ)
    → new < preset_slots
    → h.state.active_preset ≢ new
    → IsPending (name_of h old) h.queue
    → 0 < queue_free h.queue
    → 1 ≤ n
    → let h₁ = on_preset_active h (new ∷ []) 1 in
      let h₃ = on_preset_name (on_preset_name h₁ b n) c m in
      IsPending (name_of h old) h₁.queue
      × IsPending (name_of h new) h₁.queue
      × (h₃.state.active_preset ≡ new)
      × (h₃.state.active_preset_name ≡ take (preset_name_length b n) b)
      × (h₃.state.active_preset_name_valid ≡ true)
on_preset_name-first h old new b c n m r other waits room l =
    let (queue, active, slot, asked) = changed_preset h new r other in
    let h₁ = on_preset_active h (new ∷ []) 1 in
    let (same, name, valid, done) = named h₁ b n l asked (slot ∙ sym active) in
    let last = unasked (on_preset_name h₁ b n) c m done in
    let old_waits = IsPending-kept (name_of h old) (name_of h new) h.queue room waits in
    let new_waits = enqueue-IsPending (name_of h new) (name_of h new) h.queue (ground arith) room in
    (
      subst (IsPending (name_of h old)) (sym queue) old_waits,
      subst (IsPending (name_of h new)) (sym queue) new_waits,
      ap (λ (x : DspiHub). x.state.active_preset) last ∙ same ∙ active,
      ap (λ (x : DspiHub). x.state.active_preset_name) last ∙ name,
      ap (λ (x : DspiHub). x.state.active_preset_name_valid) last ∙ valid,
    )
