-- ===== src/Hub/Queue/Next.antt =====
-- `find_next_` picks the first waiting slot of the lowest priority number.
use esphome_dspi.Prelude.{ℕ, suc, ◌+◌, ◌≤◌, ◌≡◌, ◌⊎◌, refl, arith, true, false, ◌&&◌}
use esphome_dspi.Prelude.{Option, none, some, [], ◌∷◌, All, inl, inr, ltb}
use esphome_dspi.Prelude.{Bool-cases, get_elem?}
use esphome_dspi.Hub.Transaction.{Transaction}
use esphome_dspi.Hub.Queue.{Queue, find_next_from, find_next}

-- `slot` is in use and `q` holds nothing in use that goes before it.
abbrev pub Outranks : Transaction → Queue → Type 0
Outranks slot = All (λ s. s.in_use ≡ true → slot.priority ≤ s.priority)

abbrev pub IsIdle : Queue → Type 0
IsIdle = All (λ s. s.in_use ≡ false)

-- What `find_next_` may answer on the slots from index `i` on.
pub data Picks (i : ℕ) (q : Queue) : Option (ℕ × Transaction) → Type 0 where
  idle : IsIdle q → Picks i q none
  picks :
      (j : ℕ) (slot : Transaction)
      → get_elem? q j ≡ some slot
      → slot.in_use ≡ true
      → Outranks slot q
      → Picks i q (some (i + j, slot))

-- The loop's answer in the rest of the array, against the best slot `b` so far, found at `j`.
abbrev Better : ℕ → ℕ → Transaction → Queue → Option (ℕ × Transaction) → Type 0
Better i j b q none = ⊥
Better i j b q (some (k, slot)) =
    (((k ≡ j) × (slot ≡ b)) ⊎ ((m : ℕ) × (k ≡ i + m) × (get_elem? q m ≡ some slot)))
    × (slot.in_use ≡ true)
    × (slot.priority ≤ b.priority)
    × Outranks slot q

Better-take :
    (i j : ℕ) (b s : Transaction) (q : Queue) (r : Option (ℕ × Transaction))
    → (s.in_use && ltb s.priority b.priority) ≡ true
    → Better (i + 1) i s q r
    → Better i j b (s ∷ q) r
Better-take i j b s q none t h = h
Better-take i j b s q (some (k, slot)) t (inl (e, f), u, p, o) =
    (inr (0, omega arith, rw f refl), u, ground arith, ((λ _. p), o))
Better-take i j b s q (some (k, slot)) t (inr (m, e, f), u, p, o) =
    (inr (suc m, omega arith, f), u, ground arith, ((λ _. p), o))

Better-keep :
    (i j : ℕ) (b s : Transaction) (q : Queue) (r : Option (ℕ × Transaction))
    → (s.in_use && ltb s.priority b.priority) ≡ false
    → Better (i + 1) j b q r
    → Better i j b (s ∷ q) r
Better-keep i j b s q none t h = h
Better-keep i j b s q (some (k, slot)) t (inl e, u, p, o) =
    (inl e, u, p, ((λ used. ground arith), o))
Better-keep i j b s q (some (k, slot)) t (inr (m, e, f), u, p, o) =
    (inr (suc m, omega arith, f), u, p, ((λ used. ground arith), o))

find_next_from-Better :
    (i j : ℕ) (b : Transaction) (q : Queue)
    → b.in_use ≡ true
    → Better i j b q (find_next_from i (some (j, b)) q)
unfolding find_next_from
find_next_from-Better i j b [] u = (inl (refl, refl), u, omega arith, tt)
find_next_from-Better i j b (s ∷ q) u = elim (Bool-cases (s.in_use && ltb s.priority b.priority)) [
  | inl t ↦
      rw (t, find_next_from)
        (Better-take i j b s q _ t (find_next_from-Better (i + 1) i s q (ground arith)))
  | inr t ↦
      rw (t, find_next_from) (Better-keep i j b s q _ t (find_next_from-Better (i + 1) j b q u))
]

Picks-first :
    (i : ℕ) (s : Transaction) (q : Queue) (r : Option (ℕ × Transaction))
    → s.in_use ≡ true
    → Better (i + 1) i s q r
    → Picks i (s ∷ q) r
Picks-first i s q none u h = absurd h
Picks-first i s q (some (k, slot)) u (inl (e, f), v, p, o) =
    let at : i + 0 ≡ k = omega arith in rw (← at) (picks 0 slot (rw f refl) v ((λ _. p), o))
Picks-first i s q (some (k, slot)) u (inr (m, e, f), v, p, o) =
    let at : i + suc m ≡ k = omega arith in rw (← at) (picks (suc m) slot f v ((λ _. p), o))

Picks-later :
    (i : ℕ) (s : Transaction) (q : Queue) (r : Option (ℕ × Transaction))
    → s.in_use ≡ false
    → Picks (i + 1) q r
    → Picks i (s ∷ q) r
Picks-later i s q _ u (idle h) = idle (u, h)
Picks-later i s q _ u (picks j slot e v o) =
    let at : i + 1 + j ≡ i + suc j = omega arith in rw at (picks (suc j) slot e v ((λ used. cc), o))

find_next_from-Picks : (i : ℕ) (q : Queue) → Picks i q (find_next_from i none q)
unfolding find_next_from
find_next_from-Picks i [] = idle tt
find_next_from-Picks i (s ∷ q) = elim (Bool-cases s.in_use) [
  | inl u ↦ simp u (Picks-first i s q _ u (find_next_from-Better (i + 1) i s q u))
  | inr u ↦ simp u (Picks-later i s q _ u (find_next_from-Picks (i + 1) q))
]

-- `find_next_` answers with a waiting slot that no other waiting slot outranks, or with none
-- exactly when nothing waits.
pub find_next-Picks : (q : Queue) → Picks 0 q (find_next q)
unfolding find_next
find_next-Picks q = find_next_from-Picks 0 q

pub idle-find_next : (q : Queue) → IsIdle q → find_next q ≡ none
unfolding find_next find_next_from
idle-find_next q i = go 0 q i
  where
    go : (i : ℕ) (q : Queue) → IsIdle q → find_next_from i none q ≡ none
    go i [] w = refl
    go i (s ∷ q) w = rw w.0 (go (i + 1) q w.1)
