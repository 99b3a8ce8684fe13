-- ===== src/Hub/Sync/Settles.antt =====
-- A queue of known requests, answered until nothing waits.
use esphome_dspi.Prelude.{
  ℕ, ◌≤◌, ◌≡◌, refl, sym, subst, arith, none, List, [], ◌∷◌, length, inl, inr, Option-cases,
}
use esphome_dspi.Hub.Queue.{Queue, find_next}
use esphome_dspi.Hub.Queue.Next.{IsIdle}
use esphome_dspi.Hub.State.{DspiHub}
use esphome_dspi.Hub.Loop.{send_if_idle}
use esphome_dspi.Hub.Progress.{not_found, unfound-IsIdle}
use esphome_dspi.Hub.Sync.{
  Reading, read_opcode, Shows, Answers, Responsive, exchange, exchanges, Ready,
}
use esphome_dspi.Hub.Sync.Queue.{IsKnown, Waits, work, no_work-IsIdle}
use esphome_dspi.Hub.Sync.Noted.{Ready-kept}
use esphome_dspi.Hub.Sync.Step.{Heard, exchange-Advance}

-- Nothing waits any more, and what was heard of is shown.
pub record Settled (dev : Answers) (h h' : DspiHub) : Type 0 where
  pub ready : Ready h'
  pub nothing_waits : IsIdle h'.queue
  pub shows : (r : Reading) → Heard dev h r → Shows h'.state r (dev (read_opcode r))

pub exchange-none :
    (dev : Answers) (now : ℕ) (h : DspiHub)
    → Ready h
    → find_next h.queue ≡ none
    → exchange dev now h ≡ record h { clock = now }
unfolding exchange send_if_idle
exchange-none dev now h r e = let s = not_found h e in simp (r.idle, s, r.none_asked) refl

idle-Waits : (op : ℕ) (q : Queue) → IsIdle q → Waits op q → ⊥
idle-Waits op [] i w = absurd w
idle-Waits op (s ∷ q) i (inl w) = let unused = i.0 in cc
idle-Waits op (s ∷ q) i (inr w) = idle-Waits op q i.1 w

heard_all :
    (dev : Answers) (h : DspiHub) (r : Reading)
    → IsIdle h.queue
    → Heard dev h r
    → Shows h.state r (dev (read_opcode r))
heard_all dev h r i (inl w) = absurd (idle-Waits (read_opcode r) h.queue i w)
heard_all dev h r i (inr s) = s

pub later-Ready : (h : DspiHub) (now : ℕ) → Ready h → Ready (record h { clock = now })
later-Ready h now r = Ready-kept h (record h { clock = now }) (refl, refl) refl refl r

idle-Settled :
    (times : List ℕ) (dev : Answers) (h : DspiHub)
    → Ready h
    → find_next h.queue ≡ none
    → Settled dev h (exchanges dev times h)
unfolding exchanges
idle-Settled [] dev h r e =
    let i = unfound-IsIdle h.queue e in
    record { ready = r; nothing_waits = i; shows = λ o. heard_all dev h o i }
idle-Settled (now ∷ times) dev h r e =
    let later = record h { clock = now } in
    let s = idle-Settled times dev later (later-Ready h now r) e in
    subst (λ x. Settled dev h (exchanges dev times x)) (sym (exchange-none dev now h r e))
      (record { ready = s.ready; nothing_waits = s.nothing_waits; shows = s.shows })

-- As many exchanges as what waits may take, at any times, leave nothing waiting, and every reading
-- of which the read waited shows what the device answers.
pub exchanges-Settled :
    (times : List ℕ) (dev : Answers) (h : DspiHub)
    → Responsive dev
    → Ready h
    → IsKnown h.queue
    → work h.queue ≤ length times
    → Settled dev h (exchanges dev times h)
unfolding exchanges
exchanges-Settled [] dev h d r k l =
    let i = no_work-IsIdle h.queue (omega arith) in
    record { ready = r; nothing_waits = i; shows = λ o. heard_all dev h o i }
exchanges-Settled (now ∷ times) dev h d r k l = elim (Option-cases (find_next h.queue)) [
  | inl e ↦ idle-Settled (now ∷ times) dev h r e
  | inr ((i, t), e) ↦
      let a = exchange-Advance dev now h i t d r k e in
      let s =
        exchanges-Settled times dev (exchange dev now h) d a.ready a.known
          (omega (arith, a.less)) in
      record {
        ready = s.ready;
        nothing_waits = s.nothing_waits;
        shows = λ o w. s.shows o (a.heard o w);
      }
]
