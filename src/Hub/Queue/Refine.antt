-- ===== src/Hub/Queue/Refine.antt =====
-- The queue as a map from the identity of a request to what waits under it.
use esphome_dspi.Prelude.{◌+◌, ◌≤◌, ◌<◌, ◌≡◌, refl, arith, true, false, ◌&&◌}
use esphome_dspi.Prelude.{Option, none, some, [], ◌∷◌, inl, inr}
use esphome_dspi.Prelude.{if◌then◌else◌, Option-cases, Bool-cases}
use esphome_dspi.Hub.Transaction.{Transaction}
use esphome_dspi.Hub.Queue.{Queue, same_request, merged, coalesce, place, enqueue, queue_free}
use esphome_dspi.Hub.Queue.Distinct.{waiting}

-- What waits under the identity of `key`.
abbrev pub pending : Transaction → Queue → Option Transaction
pending key [] = none
pending key (s ∷ q) = if s.in_use && same_request s key then some s else pending key q

-- What a request becomes beside what already waits under its identity.
abbrev pub folded : Option Transaction → Transaction → Transaction
folded none txn = waiting txn
folded (some slot) txn = merged slot txn

pub pending-coalesce :
    (key txn : Transaction) (q q' : Queue)
    → coalesce txn q ≡ some q'
    → pending key q'
      ≡ (if same_request txn key then some (folded (pending txn q) txn) else pending key q)
unfolding coalesce
pending-coalesce key txn [] q' e = cc
pending-coalesce key txn (s ∷ q) [] e = ground arith
pending-coalesce key txn (s ∷ q) (s' ∷ q') e = ground (arith, pending-coalesce key txn q q')

pub coalesce-none-pending :
    (txn : Transaction) (q : Queue) → coalesce txn q ≡ none → pending txn q ≡ none
unfolding coalesce
coalesce-none-pending txn [] e = refl
coalesce-none-pending txn (s ∷ q) e = ground (arith, coalesce-none-pending txn q)

pending-place :
    (key txn : Transaction) (q q' : Queue)
    → place txn q ≡ some q'
    → pending txn q ≡ none
    → pending key q' ≡ (if same_request txn key then some (waiting txn) else pending key q)
unfolding place
pending-place key txn [] q' e n = cc
pending-place key txn (s ∷ q) [] e n = ground arith
pending-place key txn (s ∷ q) (s' ∷ q') e n = ground (arith, pending-place key txn q q')

pub place-room :
    (txn : Transaction) (q : Queue) → 0 < queue_free q → (q' : Queue) × (place txn q ≡ some q')
unfolding place queue_free
place-room txn [] h = absurd (omega arith)
place-room txn (s ∷ q) h = elim (Bool-cases s.in_use) [
  | inl used ↦ let (q', e) = place-room txn q (ground arith) in (s ∷ q', ground arith)
  | inr free ↦ (waiting txn ∷ q, ground arith)
]

free-coalesce :
    (txn : Transaction) (q q' : Queue) → coalesce txn q ≡ some q' → queue_free q' ≡ queue_free q
unfolding coalesce queue_free
free-coalesce txn [] q' e = cc
free-coalesce txn (s ∷ q) [] e = ground arith
free-coalesce txn (s ∷ q) (s' ∷ q') e = ground (arith, free-coalesce txn q q')

free-place :
    (txn : Transaction) (q q' : Queue) → place txn q ≡ some q' → queue_free q' + 1 ≡ queue_free q
unfolding place queue_free
free-place txn [] q' e = cc
free-place txn (s ∷ q) [] e = ground arith
free-place txn (s ∷ q) (s' ∷ q') e = ground (arith, free-place txn q q')

-- While a slot is free, `enqueue_` is an insertion into the map of waiting requests: nothing is
-- dropped, at most one slot is used up, the request waits under its identity, folded with what
-- waited there, and every other identity is left as it was.
pub pending-enqueue :
    (key txn : Transaction) (q : Queue)
    → 0 < queue_free q
    → let r = enqueue txn q in
      (r.accepted ≡ true)
      × (r.dropped ≡ false)
      × (queue_free q ≤ queue_free r.queue + 1)
      × (pending key r.queue
          ≡ (if same_request txn key then some (folded (pending txn q) txn) else pending key q))
unfolding enqueue
pending-enqueue key txn q h = elim (Option-cases (coalesce txn q)) [
  | inr (q', e) ↦
      rw e (refl, refl, omega (arith, free-coalesce txn q q' e), pending-coalesce key txn q q' e)
  | inl e ↦
      let (q', f) = place-room txn q h in
      let n = coalesce-none-pending txn q e in
      rw (e, f, n)
        (refl, refl, omega (arith, free-place txn q q' f), pending-place key txn q q' f n)
]

-- What waits for a request that was just put in carries its payload.
pub waiting_with :
    (t key : Transaction) (q : Queue)
    → same_request t key ≡ true
    → 0 < queue_free q
    → (s : Transaction) × (pending key (enqueue t q).queue ≡ some s)
      × (s.payload ≡ t.payload)
      × (s.payload_len ≡ t.payload_len)
waiting_with t key q same room =
    let p = (pending-enqueue key t q room).3 in
    elim (Option-cases (pending t q)) [
      | inl e ↦ (folded none t, simp (same, e) at p, refl, refl)
      | inr (s, e) ↦ (folded (some s) t, simp (same, e) at p, refl, refl)
    ]
