-- ===== src/Hub/Queue/Distinct.antt =====
-- No request waits twice: the invariant that `enqueue_` keeps.
use esphome_dspi.Prelude.{ℕ, zero, suc, ◌≡◌, refl, arith, Bool, true, false, ◌&&◌}
use esphome_dspi.Prelude.{none, some, [], ◌∷◌, set, length, All, inl, inr}
use esphome_dspi.Prelude.{Option-cases, length-set}
use esphome_dspi.Hub.Transaction.{Transaction}
use esphome_dspi.Hub.Queue.{
  Queue, same_request, merged, coalesce, place, find_victim, evict, enqueue,
}

-- Two slots that wait for the same request.
abbrev pub clash : Transaction → Transaction → Bool
clash s t = s.in_use && (t.in_use && same_request s t)

abbrev pub Apart : Transaction → Queue → Type 0
Apart t = All (λ s. clash s t ≡ false)

abbrev pub IsDistinct : Queue → Type 0
IsDistinct [] = Unit {0}
IsDistinct (s ∷ q) = Apart s q × IsDistinct q

abbrev pub waiting : Transaction → Transaction
waiting txn = record txn { in_use = true }

coalesce-none-Apart :
    (txn : Transaction) (q : Queue) → coalesce txn q ≡ none → Apart (waiting txn) q
unfolding coalesce
coalesce-none-Apart txn [] e = tt
coalesce-none-Apart txn (s ∷ q) e = ground (arith, coalesce-none-Apart txn q)

clash-merged :
    (s slot txn : Transaction)
    → (slot.in_use && same_request slot txn) ≡ true
    → clash s slot ≡ false
    → clash s (merged slot txn) ≡ false
clash-merged s slot txn h k = ground arith

Apart-merged :
    (slot txn : Transaction) (q : Queue)
    → (slot.in_use && same_request slot txn) ≡ true
    → Apart slot q
    → Apart (merged slot txn) q
Apart-merged slot txn [] h a = tt
Apart-merged slot txn (s ∷ q) h a = (clash-merged s slot txn h a.0, Apart-merged slot txn q h a.1)

clash-merged_right :
    (s slot txn : Transaction)
    → (slot.in_use && same_request slot txn) ≡ true
    → clash slot s ≡ false
    → clash (merged slot txn) s ≡ false
clash-merged_right s slot txn h k = ground arith

Apart-coalesce :
    (s txn : Transaction) (q q' : Queue) → coalesce txn q ≡ some q' → Apart s q → Apart s q'
unfolding coalesce
Apart-coalesce s txn [] q' e a = cc
Apart-coalesce s txn (slot ∷ q) [] e a = tt
Apart-coalesce s txn (slot ∷ q) (slot' ∷ q') e a =
    ground (arith, clash-merged_right s slot txn, Apart-coalesce s txn q q')

coalesce-IsDistinct :
    (txn : Transaction) (q q' : Queue) → coalesce txn q ≡ some q' → IsDistinct q → IsDistinct q'
unfolding coalesce
coalesce-IsDistinct txn [] q' e d = cc
coalesce-IsDistinct txn (s ∷ q) [] e d = tt
coalesce-IsDistinct txn (s ∷ q) (s' ∷ q') e d =
    ground (arith, coalesce-IsDistinct txn q q', Apart-coalesce s txn q q', Apart-merged s txn q)

clash_comm : (s t : Transaction) → clash s t ≡ false → clash t s ≡ false
clash_comm s t h = ground arith

Apart-place :
    (s txn : Transaction) (q q' : Queue)
    → place txn q ≡ some q'
    → clash (waiting txn) s ≡ false
    → Apart s q
    → Apart s q'
unfolding place
Apart-place s txn [] q' e c a = cc
Apart-place s txn (slot ∷ q) [] e c a = tt
Apart-place s txn (slot ∷ q) (slot' ∷ q') e c a = ground (arith, Apart-place s txn q q')

place-IsDistinct :
    (txn : Transaction) (q q' : Queue)
    → place txn q ≡ some q'
    → Apart (waiting txn) q
    → IsDistinct q
    → IsDistinct q'
unfolding place
place-IsDistinct txn [] q' e a d = cc
place-IsDistinct txn (s ∷ q) [] e a d = tt
place-IsDistinct txn (s ∷ q) (s' ∷ q') e a d =
    ground (arith, place-IsDistinct txn q q', Apart-place s txn q q', clash_comm s (waiting txn))

Apart-set :
    (s t : Transaction) (q : Queue) (i : ℕ) → clash t s ≡ false → Apart s q → Apart s (set q i t)
Apart-set s t [] i c a = tt
Apart-set s t (x ∷ q) zero c a = (c, a.1)
Apart-set s t (x ∷ q) (suc i) c a = (a.0, Apart-set s t q i c a.1)

set-IsDistinct :
    (t : Transaction) (q : Queue) (i : ℕ) → Apart t q → IsDistinct q → IsDistinct (set q i t)
set-IsDistinct t [] i a d = tt
set-IsDistinct t (s ∷ q) zero a d = (a.1, d.1)
set-IsDistinct t (s ∷ q) (suc i) a d =
    (Apart-set s t q i (clash_comm s t a.0) d.0, set-IsDistinct t q i a.1 d.1)

evict-IsDistinct :
    (txn : Transaction) (q : Queue)
    → Apart (waiting txn) q
    → IsDistinct q
    → IsDistinct (evict txn q).queue
unfolding evict
evict-IsDistinct txn q a d = elim (Option-cases (find_victim 0 none q)) [
  | inl e ↦ rw (e, evict) d
  | inr ((i, v), e) ↦ rw (e, evict) (ground (arith, set-IsDistinct (waiting txn) q i))
]

-- Whatever `enqueue_` does with a request, no request waits in two slots afterwards.
pub enqueue-IsDistinct :
    (txn : Transaction) (q : Queue) → IsDistinct q → IsDistinct (enqueue txn q).queue
unfolding enqueue
enqueue-IsDistinct txn q d = elim (Option-cases (coalesce txn q)) [
  | inr (q', e) ↦ rw e (coalesce-IsDistinct txn q q' e d)
  | inl e ↦
      let a = coalesce-none-Apart txn q e in
      elim (Option-cases (place txn q)) [
        | inr (q', f) ↦ rw (e, f) (place-IsDistinct txn q q' f a d)
        | inl f ↦ rw (e, f) (evict-IsDistinct txn q a d)
      ]
]

length-coalesce :
    (txn : Transaction) (q q' : Queue) → coalesce txn q ≡ some q' → length q' ≡ length q
unfolding coalesce
length-coalesce txn [] q' e = cc
length-coalesce txn (s ∷ q) [] e = ground arith
length-coalesce txn (s ∷ q) (s' ∷ q') e = ground (arith, length-coalesce txn q q')

length-place : (txn : Transaction) (q q' : Queue) → place txn q ≡ some q' → length q' ≡ length q
unfolding place
length-place txn [] q' e = cc
length-place txn (s ∷ q) [] e = ground arith
length-place txn (s ∷ q) (s' ∷ q') e = ground (arith, length-place txn q q')

length-evict : (txn : Transaction) (q : Queue) → length (evict txn q).queue ≡ length q
unfolding evict
length-evict txn q = elim (Option-cases (find_victim 0 none q)) [
  | inl e ↦ rw (e, evict) refl
  | inr ((i, v), e) ↦ rw (e, evict) (ground (arith, length-set q i (waiting txn)))
]

-- The array keeps its size.
pub length-enqueue : (txn : Transaction) (q : Queue) → length (enqueue txn q).queue ≡ length q
unfolding enqueue
length-enqueue txn q = elim (Option-cases (coalesce txn q)) [
  | inr (q', e) ↦ rw e (length-coalesce txn q q' e)
  | inl e ↦ elim (Option-cases (place txn q)) [
    | inr (q', f) ↦ rw (e, f) (length-place txn q q' f)
    | inl f ↦ rw (e, f) (length-evict txn q)
  ]
]
