-- ===== src/Hub/Told.antt =====
-- dspi.cpp: what holds of the outputs beside the state and the analyser's liveness, as long as
-- every kind of step keeps it.
pub mod Replies
pub mod Passes
use Prim.Native.String.{String}
use esphome_dspi.Prelude.{ℕ, Bool, true, false, ◌≡◌, List, ◌∷◌}
use esphome_dspi.Hub.State.{DspiState, RtaBandUpdate, Output}

-- A property of the liveness, the state and the outputs, newest first, that the steps keep: a
-- publication of any state, a band update, another output, and the changes that are not published.
pub record Kept (P : Bool → DspiState → List Output → Type 0) : Type 0 where
  pub publish :
      (l : Bool) (s s' : DspiState) (o : List Output) → P l s o → P l s' (Output.published s' ∷ o)
  pub frame :
      (l : Bool) (s : DspiState) (o : List Output) (u : RtaBandUpdate)
      → u.live ≡ true
      → P l s o
      → P true s (Output.band_update u ∷ o)
  pub dies :
      (l : Bool) (s : DspiState) (o : List Output) (u : RtaBandUpdate)
      → u.live ≡ false
      → l ≡ true
      → P l s o
      → P false s (Output.band_update u ∷ o)
  pub tx :
      (l : Bool) (s : DspiState) (o : List Output) (f : List ℕ) → P l s o → P l s (Output.tx f ∷ o)
  pub log :
      (l : Bool) (s : DspiState) (o : List Output) (line : String)
      → P l s o
      → P l s (Output.logged_sources line ∷ o)
  pub forget :
      (l : Bool) (s : DspiState) (o : List Output)
      → P l s o
      → P l (record s { active_preset_name_valid = false; toggle_valid_mask = 0 }) o
  pub directory :
      (l : Bool) (s : DspiState) (o : List Output) (slots : ℕ)
      → P l s o
      → P l (record s { slot_occupied = slots; preset_dir_valid = true }) o
  pub mask :
      (l : Bool) (s : DspiState) (o : List Output) (mask : ℕ)
      → s.selectable_valid ≡ false
      → P l s o
      → P l (record s { selectable_mask = mask }) o
