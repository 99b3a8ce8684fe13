-- ===== src/Hub/Update.antt =====
-- components/dspi/dspi.h and automation.h: a band update, and who is told of it.
use esphome_dspi.Prelude.{ℕ, Bool, true, false, ◌≡◌, ◌⊎◌, refl, subst, List, [], ◌∷◌, inl, inr}
use esphome_dspi.Protocol.Rta.Level.{
  FloatOps, rta_level_to_dbfs, rta_level_is_floor, rta_level_to_fraction,
}
use esphome_dspi.Hub.State.{DspiHub, RtaBandUpdate, Output}
use esphome_dspi.Hub.Reach.{Reachable}
use esphome_dspi.Hub.Live.{Edges, Reachable-Edges}

module _ {F : Type 0} (f : FloatOps F) where
  unfoldable pub db : RtaBandUpdate → ℕ → F
  unfolding rta_level_to_dbfs
  db u v = rta_level_to_dbfs f v u.level_zero

  unfoldable pub fraction : RtaBandUpdate → ℕ → F → F → F
  unfolding rta_level_to_fraction
  fraction u v floor_db top_db = rta_level_to_fraction f v u.level_zero floor_db top_db

unfoldable pub is_floor : RtaBandUpdate → ℕ → Bool
is_floor u v = rta_level_is_floor v

-- `RtaBandFrameTrigger`: what a trigger that was made before `setup()` has fired with, newest first.
unfoldable pub fired : List Output → List RtaBandUpdate
fired [] = []
fired (Output.band_update u ∷ out) = u ∷ fired out
fired (Output.tx frame ∷ out) = fired out
fired (Output.published s ∷ out) = fired out
fired (Output.logged_sources line ∷ out) = fired out

-- The newest of the updates says `live`; before the first, nothing is live.
abbrev pub SaysLive : Bool → List RtaBandUpdate → Type 0
SaysLive live [] = live ≡ false
SaysLive live (u ∷ us) = u.live ≡ live

-- No two updates in a row say that nothing is live, and the first does not.
abbrev pub DimsOnce : List RtaBandUpdate → Type 0
DimsOnce [] = Unit {0}
DimsOnce (u ∷ us) = (u.live ≡ true ⊎ SaysLive true us) × DimsOnce us

Edges-fired :
    (live : Bool) (out : List Output)
    → Edges live out
    → SaysLive live (fired out) × DimsOnce (fired out)
unfolding fired
Edges-fired _ _ Edges.start = (refl, tt)
Edges-fired _ _ (Edges.frame live u out on e) = (on, (inl on, (Edges-fired live out e).1))
Edges-fired _ _ (Edges.dies live u out off on e) =
    let (says, dims) = Edges-fired live out e in
    (off, (inr (subst (λ b. SaysLive b (fired out)) on says), dims))
Edges-fired _ _ (Edges.tx live frame out e) = Edges-fired live out e
Edges-fired _ _ (Edges.published live s out e) = Edges-fired live out e
Edges-fired _ _ (Edges.logged live line out e) = Edges-fired live out e

-- In every hub that can be reached, a trigger on the analyser's frames has fired with updates of
-- which no two in a row say that nothing is live; the newest says whether the analyser is live, and
-- if there is none, it is not.
pub Reachable-fired :
    (clamp : ℕ → ℕ → ℕ → ℕ) (h : DspiHub)
    → Reachable clamp h
    → SaysLive h.rta.live (fired h.out) × DimsOnce (fired h.out)
Reachable-fired clamp h r = Edges-fired h.rta.live h.out (Reachable-Edges clamp h r)
