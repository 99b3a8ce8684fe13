-- ===== src/Hub/Queue.antt =====
-- dspi.cpp: the request queue, an array of `queue_depth` slots.
pub mod Distinct
pub mod Refine
pub mod Evict
pub mod Next
use esphome_dspi.Prelude.{ℕ, zero, suc, ◌+◌, ltb, leb, ◌==◌, Bool, true, false, ◌&&◌, not}
use esphome_dspi.Prelude.{if◌then◌else◌, Option, none, some, List, [], ◌∷◌, set, replicate}
use esphome_dspi.Hub.Transaction.{Transaction, new_transaction}

abbrev pub queue_depth : ℕ
queue_depth = 12

abbrev pub Queue : Type 0
Queue = List Transaction

abbrev pub empty_queue : Queue
empty_queue = replicate queue_depth new_transaction

-- The identity by which requests are folded together.
abbrev pub same_request : Transaction → Transaction → Bool
same_request s t = s.req == t.req && (s.frame_type == t.frame_type && s.wvalue == t.wvalue)

-- A waiting request takes the newer one's contents, and the higher attempt count of the two.
abbrev pub merged : Transaction → Transaction → Transaction
merged slot txn = record txn {
  in_use = true;
  attempts = if ltb txn.attempts slot.attempts then slot.attempts else txn.attempts;
}

abbrev put_back {ℓ} : {A : Type ℓ} → A → Option (List A) → Option (List A)
put_back x none = none
put_back x (some xs) = some (x ∷ xs)

-- The first loop: the slot that holds the same request, if any.
unfoldable pub coalesce : Transaction → Queue → Option Queue
coalesce txn [] = none
coalesce txn (slot ∷ rest) =
    if slot.in_use && same_request slot txn
    then some (merged slot txn ∷ rest)
    else put_back slot (coalesce txn rest)

-- The second loop: the first free slot, if any.
unfoldable pub place : Transaction → Queue → Option Queue
place txn [] = none
place txn (slot ∷ rest) =
    if not slot.in_use
    then some (record txn { in_use = true } ∷ rest)
    else put_back slot (place txn rest)

-- The third loop at index `i`: the first slot of the highest priority number.
unfoldable pub find_victim : ℕ → Option (ℕ × Transaction) → Queue → Option (ℕ × Transaction)
find_victim i victim [] = victim
find_victim i none (slot ∷ rest) = find_victim (i + 1) (some (i, slot)) rest
find_victim i (some (j, v)) (slot ∷ rest) =
    find_victim (i + 1) (if ltb v.priority slot.priority then some (i, slot) else some (j, v)) rest

-- What `enqueue_` returns, beside the array: accepted or not, and whether `txn_dropped_` counts.
pub record Outcome : Type 0 where
  pub queue : Queue
  pub accepted : Bool
  pub dropped : Bool

unfoldable pub evict : Transaction → Queue → Outcome
unfolding find_victim
evict txn queue = elim (find_victim 0 none queue) [
  | none ↦ record { queue = queue; accepted = false; dropped = true }
  | some (i, victim) ↦
      if leb txn.priority victim.priority
      then record {
        queue = set queue i (record txn { in_use = true });
        accepted = true;
        dropped = true;
      }
      else record { queue = queue; accepted = false; dropped = true }
]

abbrev accepted_in : Option Queue → Outcome → Outcome
accepted_in none otherwise = otherwise
accepted_in (some queue) otherwise = record { queue = queue; accepted = true; dropped = false }

unfoldable pub enqueue : Transaction → Queue → Outcome
unfolding coalesce place evict
enqueue txn queue =
    accepted_in (coalesce txn queue) (accepted_in (place txn queue) (evict txn queue))

unfoldable pub queue_free : Queue → ℕ
queue_free [] = 0
queue_free (slot ∷ rest) = if not slot.in_use then suc (queue_free rest) else queue_free rest

-- The loop of `find_next_` at index `i`; `none` is its -1.
unfoldable pub find_next_from : ℕ → Option (ℕ × Transaction) → Queue → Option (ℕ × Transaction)
find_next_from i best [] = best
find_next_from i none (slot ∷ rest) =
    find_next_from (i + 1) (if slot.in_use then some (i, slot) else none) rest
find_next_from i (some (j, b)) (slot ∷ rest) =
    find_next_from (i + 1)
      (if slot.in_use && ltb slot.priority b.priority then some (i, slot) else some (j, b)) rest

unfoldable pub find_next : Queue → Option (ℕ × Transaction)
unfolding find_next_from
find_next queue = find_next_from 0 none queue
