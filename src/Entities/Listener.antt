-- ===== src/Entities/Listener.antt =====
-- What a listener of the hub promises, whatever it shows.
use esphome_dspi.Prelude.{Bool, if◌then◌else◌, Option, none, some, List, [], ◌∷◌, ◌++◌}
use esphome_dspi.Prelude.{◌≡◌, refl, sym, ap, ap₂, ◌∙◌, inl, inr, Bool-cases}
use esphome_dspi.Hub.State.{DspiState}
use mathlib.Core.List.{append_assoc, append-nil}

-- The specification: each reading that differs from the last one shown is shown, in order, and
-- nothing else. A reading is `none` where the hub does not know the value.
module _ {V W : Type 0} (same : V → V → Bool) (show : V → W) where
  pub changes : Option V → List (Option V) → List W
  changes last [] = []
  changes last (none ∷ rs) = changes last rs
  changes none (some v ∷ rs) = show v ∷ changes (some v) rs
  changes (some u) (some v ∷ rs) =
      if same v u then changes (some u) rs else show v ∷ changes (some v) rs

  -- What stands as last shown after one reading.
  abbrev pub settled : Option V → Option V → Option V
  settled last none = last
  settled none (some v) = some v
  settled (some u) (some v) = if same v u then some u else some v

  -- What one reading makes the listener show.
  abbrev pub emitted : Option V → Option V → List W
  emitted last none = []
  emitted none (some v) = show v ∷ []
  emitted (some u) (some v) = if same v u then [] else show v ∷ []

  pub changes-cons :
      (last r : Option V) (rs : List (Option V))
      → changes last (r ∷ rs) ≡ emitted last r ++ changes (settled last r) rs
  unfolding changes
  changes-cons last none rs = refl
  changes-cons none (some v) rs = refl
  changes-cons (some u) (some v) rs = elim (Bool-cases (same v u)) [
    | inl e ↦ rw e refl
    | inr e ↦ rw e refl
  ]

-- The operations of a listener, and the laws that tie a state it is handed to what it shows.
pub record Listener (E V W : Type 0) : Type 0 where
  pub on_state : E → DspiState → E
  pub reading : E → DspiState → Option V
  pub same : V → V → Bool
  pub show : E → V → W
  pub last : E → Option V
  pub published : E → List W
  pub reading_law : (e : E) (s t : DspiState) → reading (on_state e s) t ≡ reading e t
  pub show_law : (e : E) (s : DspiState) → show (on_state e s) ≡ show e
  pub last_law :
      (e : E) (s : DspiState) → last (on_state e s) ≡ settled same (show e) (last e) (reading e s)
  pub published_law :
      (e : E) (s : DspiState)
      → published (on_state e s) ≡ published e ++ emitted same (show e) (last e) (reading e s)

module _ {E V W : Type 0} (l : Listener E V W) where
  -- The states of a run, handed over in their order.
  unfoldable pub hear : E → List DspiState → E
  hear e [] = e
  hear e (s ∷ ss) = hear (l.on_state e s) ss

  pub readings : E → List DspiState → List (Option V)
  readings e [] = []
  readings e (s ∷ ss) = l.reading e s ∷ readings e ss

  readings-on_state :
      (e : E) (s : DspiState) (ss : List DspiState) → readings (l.on_state e s) ss ≡ readings e ss
  unfolding readings
  readings-on_state e s [] = refl
  readings-on_state e s (t ∷ ss) =
      ap₂ (λ r rs. r ∷ rs) (l.reading_law e s t) (readings-on_state e s ss)

  pub hear-changes :
      (e : E) (ss : List DspiState)
      → l.published (hear e ss)
        ≡ l.published e ++ changes l.same (l.show e) (l.last e) (readings e ss)
  unfolding hear readings changes
  hear-changes e [] = sym (append-nil (l.published e))
  hear-changes e (s ∷ ss) =
      let r = l.reading e s in
      let rest =
        changes l.same (l.show e) (settled l.same (l.show e) (l.last e) r) (readings e ss) in
      let ih = hear-changes (l.on_state e s) ss in
      let same_tail = rw (l.show_law e s, l.last_law e s, readings-on_state e s ss) at ih in
      same_tail
      ∙ ap (λ p. p ++ rest) (l.published_law e s)
      ∙ append_assoc (l.published e) (emitted l.same (l.show e) (l.last e) r) rest
      ∙ ap (λ p. l.published e ++ p)
          (sym (changes-cons l.same (l.show e) (l.last e) r (readings e ss)))
