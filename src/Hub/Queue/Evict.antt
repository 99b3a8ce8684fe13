-- ===== src/Hub/Queue/Evict.antt =====
-- What a full queue does with one more request, and what it does while there is room.
use esphome_dspi.Prelude.{ℕ, suc, ◌+◌, ◌≤◌, ◌≡◌, ◌⊎◌, refl, arith, true, false}
use esphome_dspi.Prelude.{Option, none, some, [], ◌∷◌, set, get_elem?, All, inl, inr}
use esphome_dspi.Prelude.{ltb, leb, if◌then◌else◌, Bool-cases}
use esphome_dspi.Hub.Transaction.{Transaction}
use esphome_dspi.Hub.Queue.{Queue, coalesce, place, find_victim, evict, enqueue}
use esphome_dspi.Hub.Queue.Distinct.{waiting}

abbrev pub IsFull : Queue → Type 0
IsFull = All (λ s. s.in_use ≡ true)

-- `slot` stands at index `i`, and no slot has a higher priority number.
abbrev pub IsVictim : ℕ → Transaction → Queue → Type 0
IsVictim i slot q = (get_elem? q i ≡ some slot) × All (λ s. s.priority ≤ slot.priority) q

Worse : ℕ → ℕ → Transaction → Queue → Option (ℕ × Transaction) → Type 0
Worse i j v q none = ⊥
Worse i j v q (some (k, slot)) =
    (((k ≡ j) × (slot ≡ v)) ⊎ ((m : ℕ) × (k ≡ i + m) × (get_elem? q m ≡ some slot)))
    × (v.priority ≤ slot.priority)
    × All (λ s. s.priority ≤ slot.priority) q

Worse-take :
    (i j : ℕ) (v s : Transaction) (q : Queue) (r : Option (ℕ × Transaction))
    → ltb v.priority s.priority ≡ true
    → Worse (i + 1) i s q r
    → Worse i j v (s ∷ q) r
unfolding Worse
Worse-take i j v s q none t h = h
Worse-take i j v s q (some (k, slot)) t (inl (e, f), p, o) =
    (inr (0, omega arith, rw f refl), ground arith, (p, o))
Worse-take i j v s q (some (k, slot)) t (inr (m, e, f), p, o) =
    (inr (suc m, omega arith, f), ground arith, (p, o))

Worse-keep :
    (i j : ℕ) (v s : Transaction) (q : Queue) (r : Option (ℕ × Transaction))
    → ltb v.priority s.priority ≡ false
    → Worse (i + 1) j v q r
    → Worse i j v (s ∷ q) r
unfolding Worse
Worse-keep i j v s q none t h = h
Worse-keep i j v s q (some (k, slot)) t (inl e, p, o) = (inl e, p, (ground arith, o))
Worse-keep i j v s q (some (k, slot)) t (inr (m, e, f), p, o) =
    (inr (suc m, omega arith, f), p, (ground arith, o))

find_victim-Worse :
    (i j : ℕ) (v : Transaction) (q : Queue) → Worse i j v q (find_victim i (some (j, v)) q)
unfolding find_victim Worse
find_victim-Worse i j v [] = (inl (refl, refl), omega arith, tt)
find_victim-Worse i j v (s ∷ q) = elim (Bool-cases (ltb v.priority s.priority)) [
  | inl t ↦ simp t (Worse-take i j v s q _ t (find_victim-Worse (i + 1) i s q))
  | inr t ↦ simp t (Worse-keep i j v s q _ t (find_victim-Worse (i + 1) j v q))
]

worst_of_rest :
    (s : Transaction) (q : Queue) (r : Option (ℕ × Transaction))
    → Worse 1 0 s q r
    → (i : ℕ) × (slot : Transaction) × (r ≡ some (i, slot)) × IsVictim i slot (s ∷ q)
unfolding Worse
worst_of_rest s q none h = absurd h
worst_of_rest s q (some (k, slot)) (inl (e, f), p, o) = (k, slot, refl, (rw (e, f) refl, (p, o)))
worst_of_rest s q (some (k, slot)) (inr (m, e, f), p, o) =
    let at : k ≡ suc m = omega arith in (k, slot, refl, (rw at f, (p, o)))

-- In a nonempty array the third loop finds a slot of the highest priority number.
find_victim-IsVictim :
    (s : Transaction) (q : Queue)
    → (i : ℕ) × (slot : Transaction) × (find_victim 0 none (s ∷ q) ≡ some (i, slot))
      × IsVictim i slot (s ∷ q)
unfolding find_victim
find_victim-IsVictim s q = worst_of_rest s q _ (find_victim-Worse 1 0 s q)

full-place : (txn : Transaction) (q : Queue) → IsFull q → place txn q ≡ none
unfolding place
full-place txn [] f = refl
full-place txn (s ∷ q) f = ground (arith, full-place txn q)

-- On a full array with no request to fold into, a slot of the highest priority number gives way,
-- if the newcomer is at least as urgent. Otherwise the newcomer is refused and the array stays.
-- Either way one request is counted as dropped.
pub enqueue-full :
    (txn s : Transaction) (q : Queue)
    → IsFull (s ∷ q)
    → coalesce txn (s ∷ q) ≡ none
    → (i : ℕ) × (victim : Transaction) × IsVictim i victim (s ∷ q)
      × (enqueue txn (s ∷ q) ≡ (
          if leb txn.priority victim.priority
          then record { queue = set (s ∷ q) i (waiting txn); accepted = true; dropped = true }
          else record { queue = s ∷ q; accepted = false; dropped = true }))
unfolding enqueue
enqueue-full txn s q f e =
    let v = find_victim-IsVictim s q in
    (v.0, v.1, v.3, rw (e, full-place txn (s ∷ q) f, evict_at v.0 v.1 v.2) refl)
  where
    evict_at :
        (i : ℕ) (slot : Transaction)
        → find_victim 0 none (s ∷ q) ≡ some (i, slot)
        → evict txn (s ∷ q) ≡ (
            if leb txn.priority slot.priority
            then record { queue = set (s ∷ q) i (waiting txn); accepted = true; dropped = true }
            else record { queue = s ∷ q; accepted = false; dropped = true })
    evict_at i slot k = unfold evict in rw (k, evict) refl
