-- ===== src/Hub/Sync/Step.antt =====
-- What one exchange leaves waiting, and what it leaves shown.
use esphome_dspi.Prelude.{
  ℕ, ◌<◌, ◌≡◌, ◌⊎◌, refl, sym, subst, arith, true, Option, some, get_elem?, inl, inr,
}
use esphome_dspi.Hub.Transaction.{Transaction}
use esphome_dspi.Hub.Queue.{Queue, find_next}
use esphome_dspi.Hub.Queue.Next.{Picks, find_next-Picks}
use esphome_dspi.Hub.State.{DspiHub}
use esphome_dspi.Hub.Sync.{
  Reading, read_opcode, Shows, is_quiet, Answers, Responsive, exchange, Ready,
}
use esphome_dspi.Hub.Sync.Queue.{
  IsKnown, Waits, work, work-released, released-queue_free, released-IsKnown, get_elem?-Known,
  released-Waits,
}
use esphome_dspi.Hub.Sync.Exchange.{settled, exchange-Answered}
use esphome_dspi.Hub.Sync.Noted.{Known-Noted}

picked_at :
    (q : Queue) (r : Option (ℕ × Transaction)) (i : ℕ) (t : Transaction)
    → Picks 0 q r
    → r ≡ some (i, t)
    → (get_elem? q i ≡ some t) × (t.in_use ≡ true)
picked_at q _ i t (Picks.idle w) e = cc
picked_at q _ i t (Picks.picks j slot a u o) e =
    let at : j ≡ i = ground arith in
    let which : slot ≡ t = cc in (rw (← at, ← which) a, rw (← which) u)

-- The reading shows what the device answers to it, or its read still waits.
abbrev pub Heard : Answers → DspiHub → Reading → Type 0
Heard dev h r = Waits (read_opcode r) h.queue ⊎ Shows h.state r (dev (read_opcode r))

-- What an exchange with the device achieves.
pub record Advance (dev : Answers) (h h' : DspiHub) : Type 0 where
  pub ready : Ready h'
  pub known : IsKnown h'.queue
  pub less : work h'.queue < work h.queue
  pub config : h'.config ≡ h.config
  pub quiet : is_quiet h ≡ true → is_quiet h' ≡ true
  pub heard : (r : Reading) → Heard dev h r → Heard dev h' r

pub exchange-Advance :
    (dev : Answers) (now : ℕ) (h : DspiHub) (i : ℕ) (t : Transaction)
    → Responsive dev
    → Ready h
    → IsKnown h.queue
    → find_next h.queue ≡ some (i, t)
    → Advance dev h (exchange dev now h)
exchange-Advance dev now h i t d r k f =
    let (at, u) = picked_at h.queue _ i t (find_next-Picks h.queue) f in
    let a = exchange-Answered dev now h i t d r f in
    let g = settled h now i t a.parser a.count in
    let known = get_elem?-Known h.queue i t at u k in
    let n = Known-Noted dev t g a.parser.payload a.parser.len d u known r.claimed a.len a.payload in
    let ready : Ready g = record {
      idle = refl;
      none_asked = refl;
      at_rest = a.at_rest;
      parser_valid = a.valid;
      claimed = r.claimed;
    } in
    let after = n.after (released-queue_free h.queue i t at) in
    let sum = work-released h.queue i t at in
    subst (Advance dev h) (sym a.ran) (record {
      ready = n.ready ready;
      config = n.config;
      quiet = n.quiet;
      known = after.known (released-IsKnown h.queue i t k);
      less = omega (arith, after.less, sum);
      heard = λ o w. elim w [
        | inl waits ↦ elim (released-Waits (read_opcode o) h.queue i t at waits) [
          | inl this ↦ inr (n.shown o this)
          | inr still ↦ inl (after.waits (read_opcode o) still)
        ]
        | inr shown ↦ inr (n.keeps o shown)
      ];
    })
