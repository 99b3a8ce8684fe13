-- ===== src/Entities/Current.antt =====
-- components/dspi: the entities and the hub together.
use esphome_dspi.Prelude.{
  ℕ, true, false, Option, none, some, List, [], ◌∷◌, ◌++◌, ◌≡◌, ◌⊎◌, refl, ap, ◌∙◌, arith, inl, inr,
  Bool-cases,
}
use esphome_dspi.Hub.State.{DspiHub, DspiState, Output, new_state, toggle, toggle_valid}
use esphome_dspi.Protocol.Toggle.{ToggleTarget}
use esphome_dspi.Hub.Reach.{Reachable}
use esphome_dspi.Hub.Shown.{Agrees, shown, Reachable-Agrees}
use esphome_dspi.Entities.TextSensor.{shown_name}
use esphome_dspi.Entities.Listener.{Listener, settled, hear}
use esphome_dspi.Entities.Registered.{Kind, Entity, Shown, listener}

-- The states that the outputs hand to the listeners, in their order.
abbrev pub states : List Output → List DspiState
states [] = []
states (Output.published s ∷ out) = states out ++ s ∷ []
states (Output.tx frame ∷ out) = states out
states (Output.band_update update ∷ out) = states out
states (Output.logged_sources line ∷ out) = states out

module _ {E V W : Type 0} (l : Listener E V W) where
  hear-append :
      (e : E) (ss : List DspiState) (s : DspiState)
      → hear l e (ss ++ s ∷ []) ≡ l.on_state (hear l e ss) s
  unfolding hear
  hear-append e [] s = refl
  hear-append e (t ∷ ss) s = hear-append (l.on_state e t) ss s

  reading-hear :
      (e : E) (ss : List DspiState) (s : DspiState) → l.reading (hear l e ss) s ≡ l.reading e s
  unfolding hear
  reading-hear e [] s = refl
  reading-hear e (t ∷ ss) s = reading-hear (l.on_state e t) ss s ∙ l.reading_law e t s

  -- `e` shows `v`, or what it takes for the same.
  abbrev pub Shows : E → V → Type 0
  Shows e v = (u : V) × (l.last e ≡ some u) × ((u ≡ v) ⊎ (l.same v u ≡ true))

  settled-Shows :
      (last : Option V) (show : V → W) (v : V)
      → (u : V) × (settled l.same show last (some v) ≡ some u) × ((u ≡ v) ⊎ (l.same v u ≡ true))
  settled-Shows none show v = (v, refl, inl refl)
  settled-Shows (some u) show v = elim (Bool-cases (l.same v u)) [
    | inl e ↦ (u, rw e refl, inr e)
    | inr e ↦ (v, rw e refl, inl refl)
  ]

  on_state-Shows :
      (e : E) (s : DspiState) (v : V) → l.reading e s ≡ some v → Shows (l.on_state e s) v
  on_state-Shows e s v r =
      let (u, f, w) = settled-Shows (l.last e) (l.show e) v in
      (u, l.last_law e s ∙ ap (settled l.same (l.show e) (l.last e)) r ∙ f, w)

  -- After a run of outputs the listener shows what the last publication says.
  told-Shows :
      (e : E) (out : List Output) (v : V)
      → l.reading e new_state ≡ none
      → l.reading e (shown out) ≡ some v
      → Shows (hear l e (states out)) v
  told-Shows e [] v blank r = cc
  told-Shows e (Output.published s ∷ out) v blank r =
      rw (hear-append e (states out) s)
        (on_state-Shows (hear l e (states out)) s v (reading-hear e (states out) s ∙ r))
  told-Shows e (Output.tx frame ∷ out) v blank r = told-Shows e out v blank r
  told-Shows e (Output.band_update update ∷ out) v blank r = told-Shows e out v blank r
  told-Shows e (Output.logged_sources line ∷ out) v blank r = told-Shows e out v blank r

no_toggle : (s : DspiState) (t : ToggleTarget) → s.toggle_valid_mask ≡ 0 → toggle_valid s t ≡ false
unfolding toggle_valid
no_toggle s ToggleTarget.user_mute e = ground arith
no_toggle s ToggleTarget.loudness e = ground arith
no_toggle s ToggleTarget.eq_bypass e = ground arith
no_toggle s ToggleTarget.crossfeed e = ground arith
no_toggle s ToggleTarget.leveller e = ground arith

same_toggle :
    (told s : DspiState) (t : ToggleTarget)
    → told.toggle_valid_mask ≡ s.toggle_valid_mask
    → told.toggle_values ≡ s.toggle_values
    → (toggle_valid told t ≡ toggle_valid s t) × (toggle told t ≡ toggle s t)
unfolding toggle_valid toggle
same_toggle told s t m v = (ground arith, ground arith)

same_name :
    (told s : DspiState)
    → told.active_preset_name ≡ s.active_preset_name
    → told.active_preset ≡ s.active_preset
    → shown_name told ≡ shown_name s
unfolding shown_name
same_name told s n p = simp (n, p) refl

module _ (to_float : ℕ → ℕ) where
  blank : (k : Kind) (e : Entity k) → (listener to_float k).reading e new_state ≡ none
  unfolding listener
  blank Kind.number e = ground arith
  blank Kind.switch e = simp (no_toggle new_state e.target refl) refl
  blank Kind.source_select e = refl
  blank Kind.preset_select e = refl
  blank Kind.sensor e = refl
  blank Kind.text_sensor e = refl

  reading-Agrees :
      (k : Kind) (e : Entity k) (told s : DspiState) (v : Shown k)
      → Agrees told s
      → (listener to_float k).reading e s ≡ some v
      → (listener to_float k).reading e told ≡ some v
  unfolding listener Agrees
  reading-Agrees Kind.number e told s v a r = ground arith
  reading-Agrees Kind.switch e told s v a r =
      let (_, _, _, _, _, _, _, _, _, _, t, _, _) = a in
      elim t [
        | inl none_valid ↦ ground (arith, no_toggle s e.target none_valid)
        | inr (m, w) ↦ let (p, q) = same_toggle told s e.target m w in ground arith
      ]
  reading-Agrees Kind.source_select e told s v a r = ground arith
  reading-Agrees Kind.preset_select e told s v a r = ground arith
  reading-Agrees Kind.sensor e told s v a r = ground arith
  reading-Agrees Kind.text_sensor e told s v a r =
      let (_, _, _, _, _, _, p, _, _, _, _, n, _) = a in
      elim n [
        | inl unnamed ↦ ground arith
        | inr (name, named) ↦ let q = same_name told s name p in ground arith
      ]

  -- In every hub that can be reached, whichever entity was registered from the start and whatever
  -- it reads that the hub holds as valid: after all that the hub has published, the entity's last
  -- published value is this reading, or one that compares equal to it.
  pub Reachable-Shows :
      (clamp : ℕ → ℕ → ℕ → ℕ) (h : DspiHub) (k : Kind) (e : Entity k) (v : Shown k)
      → Reachable clamp h
      → (listener to_float k).reading e h.state ≡ some v
      → Shows (listener to_float k) (hear (listener to_float k) e (states h.out)) v
  Reachable-Shows clamp h k e v r reads =
      told-Shows (listener to_float k) e h.out v (blank k e)
        (reading-Agrees k e (shown h.out) h.state v (Reachable-Agrees clamp h r) reads)
