-- ===== src/Hub/Shown.antt =====
-- dspi.cpp: what the listeners of the state were told last.
use esphome_dspi.Prelude.{Bool}
use esphome_dspi.Hub.Reach.{Reachable}
use esphome_dspi.Hub.Told.{Kept}
use esphome_dspi.Hub.Told.Passes.{Reachable-kept}
use esphome_dspi.Prelude.{List, [], ◌∷◌, ◌≡◌, ◌⊎◌, false, ℕ, true, refl, inl, inr}
use esphome_dspi.Hub.State.{DspiHub, DspiState, Output, new_state}

-- The state of the last publication, or the initial one.
abbrev pub shown : List Output → DspiState
shown [] = new_state
shown (Output.published s ∷ out) = s
shown (Output.tx frame ∷ out) = shown out
shown (Output.band_update update ∷ out) = shown out
shown (Output.logged_sources line ∷ out) = shown out

-- The listeners know what the hub holds as valid. A set of toggle values, a name or a mask of sources
-- that is not valid may differ from what they were told, and so may what no listener reads.
unfoldable pub Agrees : DspiState → DspiState → Type 0
Agrees told s =
    (told.master_volume_db ≡ s.master_volume_db)
    × (told.master_volume_valid ≡ s.master_volume_valid)
    × (told.user_volume_db ≡ s.user_volume_db)
    × (told.user_volume_valid ≡ s.user_volume_valid)
    × (told.input_source ≡ s.input_source)
    × (told.input_source_valid ≡ s.input_source_valid)
    × (told.active_preset ≡ s.active_preset)
    × (told.active_preset_valid ≡ s.active_preset_valid)
    × (told.pipeline_rate_hz ≡ s.pipeline_rate_hz)
    × (told.pipeline_rate_valid ≡ s.pipeline_rate_valid)
    × ((s.toggle_valid_mask ≡ 0)
        ⊎ ((told.toggle_valid_mask ≡ s.toggle_valid_mask) × (told.toggle_values ≡ s.toggle_values)))
    × ((s.active_preset_name_valid ≡ false)
        ⊎ ((told.active_preset_name ≡ s.active_preset_name)
            × (told.active_preset_name_valid ≡ s.active_preset_name_valid)))
    × ((s.selectable_valid ≡ false)
        ⊎ ((told.selectable_mask ≡ s.selectable_mask)
            × (told.selectable_valid ≡ s.selectable_valid)))

Agrees-self : (s : DspiState) → Agrees s s
unfolding Agrees
Agrees-self s = (
  refl,
  refl,
  refl,
  refl,
  refl,
  refl,
  refl,
  refl,
  refl,
  refl,
  inr (refl, refl),
  inr (refl, refl),
  inr (refl, refl),
)

-- What `on_platform_` forgets of the device before.
Agrees-forget :
    (told s : DspiState)
    → Agrees told s
    → Agrees told (record s { active_preset_name_valid = false; toggle_valid_mask = 0 })
unfolding Agrees
Agrees-forget told s (a, b, c, d, e, f, g, i, j, k, t, n, m) =
    (a, b, c, d, e, f, g, i, j, k, inl refl, inl refl, m)

-- What no listener reads.
Agrees-directory :
    (told s : DspiState) (slots : ℕ)
    → Agrees told s
    → Agrees told (record s { slot_occupied = slots; preset_dir_valid = true })
unfolding Agrees
Agrees-directory told s slots a = a

-- The sources are published once the first answer has made them valid.
Agrees-mask :
    (told s : DspiState) (mask : ℕ)
    → s.selectable_valid ≡ false
    → Agrees told s
    → Agrees told (record s { selectable_mask = mask })
unfolding Agrees
Agrees-mask told s mask v (a, b, c, d, e, f, g, i, j, k, t, n, m) =
    (a, b, c, d, e, f, g, i, j, k, t, n, inl v)

abbrev ShownAgrees : Bool → DspiState → List Output → Type 0
ShownAgrees live s out = Agrees (shown out) s

ShownAgrees-Kept : Kept ShownAgrees
ShownAgrees-Kept = record {
  publish = λ l s s' o a. Agrees-self s';
  frame = λ l s o u on a. a;
  dies = λ l s o u off on a. a;
  tx = λ l s o f a. a;
  log = λ l s o line a. a;
  forget = λ l s o a. Agrees-forget (shown o) s a;
  directory = λ l s o slots a. Agrees-directory (shown o) s slots a;
  mask = λ l s o mask unknown a. Agrees-mask (shown o) s mask unknown a;
}

pub Reachable-Agrees :
    (clamp : ℕ → ℕ → ℕ → ℕ) (h : DspiHub) → Reachable clamp h → Agrees (shown h.out) h.state
Reachable-Agrees clamp h r =
    Reachable-kept ShownAgrees ShownAgrees-Kept clamp (Agrees-self new_state) h r
