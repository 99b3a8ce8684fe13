-- ===== src/Hub/Sync/Handlers.antt =====
-- What the handlers of a refresh's answers do to the state.
use esphome_dspi.Prelude.{
  ℕ, ◌≤◌, ◌<◌, ◌≡◌, refl, arith, ◌∙◌, ◌⊎◌, true, false, List, truthy, ltb, inl, inr, if◌then◌else◌,
}
use esphome_dspi.Protocol.Wire.{byte_at}
use esphome_dspi.Protocol.Preset.{input_rate_len, preset_name_len, preset_slots, parse_input_rate}
use esphome_dspi.Protocol.Toggle.{ToggleTarget}
use esphome_dspi.Protocol.Opcode.{Opcode, opcode}
use esphome_dspi.Hub.Transaction.{Transaction, OnOk, OnFail}
use esphome_dspi.Hub.Queue.{enqueue}
use esphome_dspi.Hub.Requests.{get_request}
use esphome_dspi.Hub.State.{DspiHub, DspiState, toggle, toggle_valid}
use esphome_dspi.Hub.Transport.{run_ok}
use esphome_dspi.Hub.Presets.{on_preset_active}
use esphome_dspi.Hub.Readback.{
  on_input_source, on_input_rate, store_toggle, on_master_volume, on_user_volume,
}
use esphome_dspi.Hub.Readback.Toggles.{same_target, or-toggle_bit, and-complement16}
use esphome_dspi.Hub.Sync.{
  Reading, read_opcode, read_handler, noted, Shows, Answer, no_claim, is_quiet,
}

-- Readings of the same opcode are the same.
pub read_opcode-injective : (r o : Reading) → read_opcode r ≡ read_opcode o → r ≡ o
read_opcode-injective r o e = ground arith

on_input_source-noted :
    (h : DspiHub) (b : List ℕ) (n : ℕ)
    → no_claim h ≡ true
    → 1 ≤ n
    → (on_input_source h b n).state ≡ noted h.state Reading.input_source b
unfolding on_input_source noted
on_input_source-noted h b n e l = ground arith

on_preset_active-noted :
    (h : DspiHub) (b : List ℕ) (n : ℕ)
    → 1 ≤ n
    → byte_at b 0 < preset_slots
    → (on_preset_active h b n).state ≡ noted h.state Reading.active_preset b
unfolding on_preset_active noted
on_preset_active-noted h b n l p = ground arith

on_input_rate-noted :
    (h : DspiHub) (b : List ℕ) (n : ℕ)
    → input_rate_len ≤ n
    → (on_input_rate h b n).state ≡ noted h.state Reading.input_rate b
unfolding on_input_rate noted parse_input_rate
on_input_rate-noted h b n l =
    let f : ltb n input_rate_len ≡ false = ground arith in rw (f, on_input_rate) refl

-- An accepted answer is noted in the state, and nothing else of the state changes.
pub run_ok-noted :
    (r : Reading) (h : DspiHub) (b : List ℕ) (n : ℕ)
    → no_claim h ≡ true
    → Answer r b n
    → (run_ok (read_handler r) h b n).state ≡ noted h.state r b
unfolding run_ok on_master_volume on_user_volume store_toggle noted
run_ok-noted Reading.master_volume h b n e a = ground arith
run_ok-noted Reading.user_volume h b n e a = ground arith
run_ok-noted Reading.input_source h b n e a = on_input_source-noted h b n e a
run_ok-noted Reading.input_rate h b n e a = on_input_rate-noted h b n a
run_ok-noted Reading.active_preset h b n e a = on_preset_active-noted h b n a.0 a.1
run_ok-noted (Reading.toggle_state t) h b n e a = ground arith

-- Noting one toggle, as seen through any.
noted-toggle :
    (s : DspiState) (t u : ToggleTarget) (b : List ℕ)
    → let s' = noted s (Reading.toggle_state t) b in
      (toggle s' u ≡ (if same_target t u then truthy (byte_at b 0) else toggle s u))
      × (toggle_valid s' u ≡ (if same_target t u then true else toggle_valid s u))
unfolding noted toggle toggle_valid
noted-toggle s t u b =
    let o = or-toggle_bit s.toggle_values t u in
    let a = and-complement16 s.toggle_values t u in
    let v = or-toggle_bit s.toggle_valid_mask t u in ground (arith, o, a, v)

same_target_self : (t : ToggleTarget) → same_target t t ≡ true
same_target_self t = ground arith

other_target :
    (t u : ToggleTarget)
    → (Reading.toggle_state u ≡ Reading.toggle_state t → ⊥)
    → same_target t u ≡ false
other_target t u d = ground arith

pub noted-Shows : (s : DspiState) (r : Reading) (b : List ℕ) → Shows (noted s r b) r b
unfolding noted
noted-Shows s Reading.master_volume b = (refl, refl)
noted-Shows s Reading.user_volume b = (refl, refl)
noted-Shows s Reading.input_source b = (refl, refl)
noted-Shows s Reading.input_rate b = (refl, refl)
noted-Shows s Reading.active_preset b = (refl, refl)
noted-Shows s (Reading.toggle_state t) b =
    let k = simp (same_target_self t) at (noted-toggle s t t b) in (k.1, k.0)

-- The other readings show what they did.
pub noted-kept :
    (s : DspiState) (r o : Reading) (b c : List ℕ)
    → (r ≡ o → ⊥)
    → Shows s r c
    → Shows (noted s o b) r c
unfolding noted toggle toggle_valid
noted-kept s r Reading.master_volume b c d w = ground arith
noted-kept s r Reading.user_volume b c d w = ground arith
noted-kept s r Reading.input_source b c d w = ground arith
noted-kept s r Reading.input_rate b c d w = ground arith
noted-kept s r Reading.active_preset b c d w = ground arith
noted-kept s (Reading.toggle_state u) (Reading.toggle_state t) b c d w =
    let k = simp (other_target t u d) at (noted-toggle s t u b) in (k.1 ∙ w.0, k.0 ∙ w.1)
noted-kept s r (Reading.toggle_state t) b c d w = ground arith

-- The read of the name that an answer with the active preset may ask for.
abbrev pub name_read : DspiHub → ℕ → Transaction
name_read h slot =
    get_request h (opcode Opcode.preset_get_name) preset_name_len OnOk.on_preset_name 1 slot
      OnFail.no_handler

-- What is left alone by the answer to a known request: the parser and the claim of the boot source;
-- the queue too, but for the read of a name.
pub record Left (cb : OnOk) (h h' : DspiHub) : Type 0 where
  pub parser : h'.parser ≡ h.parser
  pub claim : no_claim h' ≡ no_claim h
  pub config : h'.config ≡ h.config
  pub quiet : is_quiet h ≡ true → is_quiet h' ≡ true
  pub queue :
      (h'.queue ≡ h.queue)
      ⊎ ((slot : ℕ) × (cb ≡ OnOk.on_preset_active)
          × (h'.queue ≡ (enqueue (name_read h slot) h.queue).queue))

on_preset_active-queue :
    (h : DspiHub) (b : List ℕ) (n : ℕ)
    → let q = (on_preset_active h b n).queue in
      (q ≡ h.queue) ⊎ (q ≡ (enqueue (name_read h (byte_at b 0)) h.queue).queue)
unfolding on_preset_active
on_preset_active-queue h b n = ground arith

on_preset_active-Left :
    (h : DspiHub) (b : List ℕ) (n : ℕ) → Left OnOk.on_preset_active h (on_preset_active h b n)
unfolding on_preset_active
on_preset_active-Left h b n = record {
  parser = ground arith;
  claim = ground arith;
  config = ground arith;
  quiet = λ q. ground arith;
  queue = elim (on_preset_active-queue h b n) [
    | inl e ↦ inl e
    | inr e ↦ inr (byte_at b 0, refl, e)
  ];
}

on_input_source-Left :
    (h : DspiHub) (b : List ℕ) (n : ℕ)
    → no_claim h ≡ true
    → Left OnOk.on_input_source h (on_input_source h b n)
unfolding on_input_source
on_input_source-Left h b n e = record {
  parser = ground arith;
  claim = ground arith;
  config = ground arith;
  quiet = λ q. ground arith;
  queue = inl (ground arith);
}

pub run_ok-Left :
    (r : Reading) (h : DspiHub) (b : List ℕ) (n : ℕ)
    → no_claim h ≡ true
    → Left (read_handler r) h (run_ok (read_handler r) h b n)
unfolding run_ok on_master_volume on_user_volume store_toggle on_input_rate parse_input_rate
run_ok-Left Reading.master_volume h b n e = record {
  parser = ground arith;
  claim = ground arith;
  config = ground arith;
  quiet = λ q. ground arith;
  queue = inl (ground arith);
}
run_ok-Left Reading.user_volume h b n e = record {
  parser = ground arith;
  claim = ground arith;
  config = ground arith;
  quiet = λ q. ground arith;
  queue = inl (ground arith);
}
run_ok-Left Reading.input_source h b n e = on_input_source-Left h b n e
run_ok-Left Reading.input_rate h b n e = record {
  parser = ground arith;
  claim = ground arith;
  config = ground arith;
  quiet = λ q. ground arith;
  queue = inl (ground arith);
}
run_ok-Left Reading.active_preset h b n e = on_preset_active-Left h b n
run_ok-Left (Reading.toggle_state t) h b n e = record {
  parser = ground arith;
  claim = ground arith;
  config = ground arith;
  quiet = λ q. ground arith;
  queue = inl (ground arith);
}
