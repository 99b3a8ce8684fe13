-- ===== src/Hub/Live.antt =====
-- dspi.cpp and components/dspi/automation.h: what a trigger on the analyser's frames is told.
use esphome_dspi.Prelude.{ℕ, List, [], ◌∷◌, Bool, true, false, ◌≡◌}
use esphome_dspi.Hub.State.{DspiHub, DspiState, RtaBandUpdate, Output}
use Prim.Native.String.{String}
use esphome_dspi.Hub.Reach.{Reachable}
use esphome_dspi.Hub.Told.{Kept}
use esphome_dspi.Hub.Told.Passes.{Reachable-kept}

-- The history of outputs, newest first, with what its last update says of the analyser: any number
-- of updates that say live, and one that says not live on each edge, never twice in a row.
pub data Edges : Bool → List Output → Type 0 where
  start : Edges false []
  frame :
      (live : Bool) (u : RtaBandUpdate) (out : List Output)
      → u.live ≡ true
      → Edges live out
      → Edges true (Output.band_update u ∷ out)
  dies :
      (live : Bool) (u : RtaBandUpdate) (out : List Output)
      → u.live ≡ false
      → live ≡ true
      → Edges live out
      → Edges false (Output.band_update u ∷ out)
  tx :
      (live : Bool) (f : List ℕ) (out : List Output)
      → Edges live out
      → Edges live (Output.tx f ∷ out)
  published :
      (live : Bool) (s : DspiState) (out : List Output)
      → Edges live out
      → Edges live (Output.published s ∷ out)
  logged :
      (live : Bool) (l : String) (out : List Output)
      → Edges live out
      → Edges live (Output.logged_sources l ∷ out)

abbrev LiveEdges : Bool → DspiState → List Output → Type 0
LiveEdges live s out = Edges live out

LiveEdges-Kept : Kept LiveEdges
LiveEdges-Kept = record {
  publish = λ l s s' o e. Edges.published l s' o e;
  frame = λ l s o u on e. Edges.frame l u o on e;
  dies = λ l s o u off on e. Edges.dies l u o off on e;
  tx = λ l s o f e. Edges.tx l f o e;
  log = λ l s o line e. Edges.logged l line o e;
  forget = λ l s o e. e;
  directory = λ l s o slots e. e;
  mask = λ l s o mask unknown e. e;
}

-- In every hub that can be reached, the updates of the analyser told so far are any number that say
-- live, and one that says not live each time it stops, never two of these in a row; the last one
-- told, if any, says what the hub holds.
pub Reachable-Edges :
    (clamp : ℕ → ℕ → ℕ → ℕ) (h : DspiHub) → Reachable clamp h → Edges h.rta.live h.out
Reachable-Edges clamp h r = Reachable-kept LiveEdges LiveEdges-Kept clamp Edges.start h r
