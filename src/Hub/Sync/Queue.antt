-- ===== src/Hub/Sync/Queue.antt =====
-- What waits in the queue while the device answers: how many exchanges it takes, and what is kept.
use esphome_dspi.Prelude.{
  ℕ, zero, suc, ◌+◌, ◌≤◌, ◌<◌, ◌≡◌, ◌≢◌, ◌⊎◌, refl, sym, ap, subst, arith, ◌∙◌, true, ◌&&◌, none,
  some, leb, [], ◌∷◌, set, get_elem?, All, inl, inr, Option-cases, Bool-cases, if◌then◌else◌,
}
use esphome_dspi.Hub.Transaction.{Transaction, OnOk}
use esphome_dspi.Hub.Queue.{
  Queue, enqueue, coalesce, place, evict, queue_free, same_request, merged, find_victim,
}
use esphome_dspi.Hub.Queue.Distinct.{waiting}
use esphome_dspi.Hub.Queue.Next.{IsIdle}
use esphome_dspi.Hub.Queue.Refine.{pending, place-room}
use esphome_dspi.Hub.Loop.{released}
use esphome_dspi.Hub.Sync.{Reading, read_opcode, read_handler}

-- The opcode and the handler of a reading, or of a request whose answer changes no reading.
pub data Known (req : ℕ) (cb : OnOk) : Type 0 where
  reads : (r : Reading) → req ≡ read_opcode r → cb ≡ read_handler r → Known req cb
  acknowledged : ((r : Reading) → req ≢ read_opcode r) → cb ≡ OnOk.no_handler → Known req cb
  names : ((r : Reading) → req ≢ read_opcode r) → cb ≡ OnOk.on_preset_name → Known req cb

unfoldable pub IsKnownSlot : Transaction → Type 0
IsKnownSlot s = s.in_use ≡ true → Known s.req s.on_ok

-- Every waiting request is known.
abbrev pub IsKnown : Queue → Type 0
IsKnown = All IsKnownSlot

pub Known-IsKnownSlot : (t : Transaction) → Known t.req t.on_ok → IsKnownSlot t
unfolding IsKnownSlot
Known-IsKnownSlot t k used = k

-- A request with the opcode `op` waits.
abbrev pub Waits : ℕ → Queue → Type 0
Waits op [] = ⊥
Waits op (s ∷ q) = ((s.in_use ≡ true) × (s.req ≡ op)) ⊎ Waits op q

-- The exchanges that a request may take: the answer with the active preset may ask for its name.
unfoldable pub handler_cost : OnOk → ℕ
handler_cost OnOk.on_preset_active = 2
handler_cost _ = 1

abbrev pub cost : Transaction → ℕ
cost t = if t.in_use then handler_cost t.on_ok else 0

-- The exchanges that what waits may take.
abbrev pub work : Queue → ℕ
work [] = 0
work (s ∷ q) = cost s + work q

pub some_cost : (cb : OnOk) → 0 < handler_cost cb
unfolding handler_cost
some_cost cb = ground arith

pub no_work-IsIdle : (q : Queue) → work q ≡ 0 → IsIdle q
no_work-IsIdle [] e = tt
no_work-IsIdle (s ∷ q) e =
    let c = some_cost s.on_ok in
    let rest : work q ≡ 0 = omega arith in (ground arith, no_work-IsIdle q rest)

pub work-released :
    (q : Queue) (i : ℕ) (t : Transaction)
    → get_elem? q i ≡ some t
    → work (set q i (released t)) + cost t ≡ work q
work-released [] i t e = cc
work-released (s ∷ q) zero t e = let here : s ≡ t = cc in rw here (omega arith)
work-released (s ∷ q) (suc i) t e = let ih = work-released q i t e in omega (arith, ih)

pub released-queue_free :
    (q : Queue) (i : ℕ) (t : Transaction)
    → get_elem? q i ≡ some t
    → 0 < queue_free (set q i (released t))
unfolding queue_free
released-queue_free [] i t e = cc
released-queue_free (s ∷ q) zero t e = omega arith
released-queue_free (s ∷ q) (suc i) t e = ground (arith, released-queue_free q i t e)

released-IsKnownSlot : (t : Transaction) → IsKnownSlot (released t)
unfolding IsKnownSlot
released-IsKnownSlot t used = cc

pub released-IsKnown :
    (q : Queue) (i : ℕ) (t : Transaction) → IsKnown q → IsKnown (set q i (released t))
released-IsKnown [] i t k = tt
released-IsKnown (s ∷ q) zero t k = (released-IsKnownSlot t, k.1)
released-IsKnown (s ∷ q) (suc i) t k = (k.0, released-IsKnown q i t k.1)

pub get_elem?-Known :
    (q : Queue) (i : ℕ) (t : Transaction)
    → get_elem? q i ≡ some t
    → t.in_use ≡ true
    → IsKnown q
    → Known t.req t.on_ok
unfolding IsKnownSlot
get_elem?-Known [] i t e u k = cc
get_elem?-Known (s ∷ q) zero t e u k = let here : s ≡ t = cc in subst IsKnownSlot here k.0 u
get_elem?-Known (s ∷ q) (suc i) t e u k = get_elem?-Known q i t e u k.1

pub released-Waits :
    (op : ℕ) (q : Queue) (i : ℕ) (t : Transaction)
    → get_elem? q i ≡ some t
    → Waits op q
    → (t.req ≡ op) ⊎ Waits op (set q i (released t))
released-Waits op [] i t e w = absurd w
released-Waits op (s ∷ q) zero t e (inl w) =
    let here : s ≡ t = cc in inl (ap (λ (x : Transaction). x.req) (sym here) ∙ w.1)
released-Waits op (s ∷ q) zero t e (inr w) = inr (inr w)
released-Waits op (s ∷ q) (suc i) t e (inl w) = inr (inl w)
released-Waits op (s ∷ q) (suc i) t e (inr w) = elim (released-Waits op q i t e w) [
  | inl f ↦ inl f
  | inr v ↦ inr (inr v)
]

-- What `q'` is to `q` when `t` was put in and found room.
pub record Put (t : Transaction) (q q' : Queue) : Type 0 where
  pub more : work q' ≤ work q + cost (waiting t)
  pub known : IsKnown q → IsKnown q'
  pub waits : (op : ℕ) → Waits op q → Waits op q'

coalesce-work :
    (t : Transaction) (q q' : Queue) → coalesce t q ≡ some q' → work q' ≤ work q + cost (waiting t)
unfolding coalesce
coalesce-work t [] q' e = cc
coalesce-work t (s ∷ q) [] e = ground arith
coalesce-work t (s ∷ q) (s' ∷ q') e = ground (arith, coalesce-work t q q')

place-work :
    (t : Transaction) (q q' : Queue) → place t q ≡ some q' → work q' ≤ work q + cost (waiting t)
unfolding place
place-work t [] q' e = cc
place-work t (s ∷ q) [] e = ground arith
place-work t (s ∷ q) (s' ∷ q') e = ground (arith, place-work t q q')

coalesce-Waits :
    (op : ℕ) (t : Transaction) (q q' : Queue) → coalesce t q ≡ some q' → Waits op q → Waits op q'
unfolding coalesce
coalesce-Waits op t [] q' e w = cc
coalesce-Waits op t (s ∷ q) [] e w = ground arith
coalesce-Waits op t (s ∷ q) (s' ∷ q') e w = ground (arith, coalesce-Waits op t q q')

place-Waits :
    (op : ℕ) (t : Transaction) (q q' : Queue) → place t q ≡ some q' → Waits op q → Waits op q'
unfolding place
place-Waits op t [] q' e w = cc
place-Waits op t (s ∷ q) [] e w = ground arith
place-Waits op t (s ∷ q) (s' ∷ q') e w = ground (arith, place-Waits op t q q')

coalesce-All :
    (P : Transaction → Type 0) (t : Transaction) (q q' : Queue)
    → ((s : Transaction) → P (merged s t))
    → coalesce t q ≡ some q'
    → All P q
    → All P q'
unfolding coalesce
coalesce-All P t [] q' k e a = cc
coalesce-All P t (s ∷ q) [] k e a = tt
coalesce-All P t (s ∷ q) (s' ∷ q') k e a =
    let ih = coalesce-All P t q q' k in ground (arith, ih, k s)

place-All :
    (P : Transaction → Type 0) (t : Transaction) (q q' : Queue)
    → P (waiting t)
    → place t q ≡ some q'
    → All P q
    → All P q'
unfolding place
place-All P t [] q' k e a = cc
place-All P t (s ∷ q) [] k e a = tt
place-All P t (s ∷ q) (s' ∷ q') k e a = let ih = place-All P t q q' k in ground (arith, ih)

-- A request that finds room takes its own cost, and leaves the others waiting.
pub enqueue-Put :
    (t : Transaction) (q : Queue)
    → 0 < queue_free q
    → Known t.req t.on_ok
    → Put t q (enqueue t q).queue
unfolding enqueue
enqueue-Put t q room k = elim (Option-cases (coalesce t q)) [
  | inr (q', e) ↦ rw e (record {
    more = coalesce-work t q q' e;
    known = coalesce-All IsKnownSlot t q q' (λ s. Known-IsKnownSlot (merged s t) k) e;
    waits = λ op. coalesce-Waits op t q q' e;
  })
  | inl e ↦
      let (q', f) = place-room t q room in
      rw (e, f)
        (record {
          more = place-work t q q' f;
          known = place-All IsKnownSlot t q q' (Known-IsKnownSlot (waiting t) k) f;
          waits = λ op. place-Waits op t q q' f;
        })
]

-- What is pending under an identity waits with its opcode.
pub IsPending-Waits : (key s : Transaction) (q : Queue) → pending key q ≡ some s → Waits key.req q
IsPending-Waits key s [] e = cc
IsPending-Waits key s (t ∷ q) e = elim (Bool-cases (t.in_use && same_request t key)) [
  | inl f ↦ inl (ground arith, ground arith)
  | inr f ↦ inr (IsPending-Waits key s q (simp f at e))
]

pub used_cost : (t : Transaction) → t.in_use ≡ true → 0 < cost t
used_cost t u = let c = some_cost t.on_ok in ground arith

pub active_cost : (t : Transaction) → t.in_use ≡ true → t.on_ok ≡ OnOk.on_preset_active → cost t ≡ 2
unfolding handler_cost
active_cost t u e = rw (u, e) refl

pub name_cost : (t : Transaction) → t.on_ok ≡ OnOk.on_preset_name → cost (waiting t) ≡ 1
unfolding handler_cost
name_cost t e = rw e refl

set-IsKnown :
    (q : Queue) (i : ℕ) (t : Transaction) → IsKnownSlot t → IsKnown q → IsKnown (set q i t)
set-IsKnown [] i t k a = tt
set-IsKnown (s ∷ q) zero t k a = (k, a.1)
set-IsKnown (s ∷ q) (suc i) t k a = (a.0, set-IsKnown q i t k a.1)

evict-IsKnown :
    (t : Transaction) (q : Queue) → Known t.req t.on_ok → IsKnown q → IsKnown (evict t q).queue
unfolding evict
evict-IsKnown t q k a = elim (Option-cases (find_victim 0 none q)) [
  | inl e ↦ rw (evict, e) a
  | inr ((i, victim), e) ↦ elim (Bool-cases (leb t.priority victim.priority)) [
    | inl f ↦ rw (evict, e, f) (set-IsKnown q i (waiting t) (Known-IsKnownSlot (waiting t) k) a)
    | inr f ↦ rw (evict, e, f) a
  ]
]

-- Known requests stay the only ones, whether or not there is room.
pub enqueue-IsKnown :
    (t : Transaction) (q : Queue) → Known t.req t.on_ok → IsKnown q → IsKnown (enqueue t q).queue
unfolding enqueue
enqueue-IsKnown t q k a = elim (Option-cases (coalesce t q)) [
  | inr (q', e) ↦ rw e (coalesce-All IsKnownSlot t q q' (λ s. Known-IsKnownSlot (merged s t) k) e a)
  | inl e ↦ elim (Option-cases (place t q)) [
    | inr (q', f) ↦ rw (e, f) (place-All IsKnownSlot t q q' (Known-IsKnownSlot (waiting t) k) f a)
    | inl f ↦ rw (e, f) (evict-IsKnown t q k a)
  ]
]
