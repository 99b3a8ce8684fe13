-- ===== src/Hub/Sync/Noted.antt =====
-- What the handler of a known request does for the readings, the queue and the link.
use esphome_dspi.Prelude.{
  ℕ, ◌+◌, ◌<◌, ◌≡◌, ◌≢◌, ◌⊎◌, refl, sym, ap, subst, arith, ◌∙◌, ◌==◌, true, List, take, length, inl,
  inr, Bool-cases,
}
use esphome_dspi.Framing.Parser.{FrameParser}
use esphome_dspi.Framing.Parser.Bounds.{IsValid}
use esphome_dspi.Hub.Transaction.{Transaction, OnOk}
use esphome_dspi.Hub.Queue.{Queue, queue_free}
use esphome_dspi.Hub.State.{DspiHub, toggle, toggle_valid}
use esphome_dspi.Hub.Presets.{on_preset_name}
use esphome_dspi.Hub.Transport.{run_ok}
use esphome_dspi.Hub.Link.Kept.{SameLink, run_ok-SameLink}
use esphome_dspi.Hub.Sync.{
  Reading, read_opcode, read_handler, Shows, Answer, noted, no_claim, is_quiet, Answers, Responsive,
  Ready,
}
use esphome_dspi.Hub.Sync.Queue.{
  Known, IsKnown, Waits, cost, work, used_cost, active_cost, name_cost, enqueue-Put,
}
use esphome_dspi.Hub.Sync.Handlers.{
  read_opcode-injective, run_ok-noted, noted-Shows, noted-kept, name_read, Left, run_ok-Left,
}
use esphome_dspi.Hub.Sync.Buffer.{Answer-buffer, Shows-buffer}

same_or_not : (r o : Reading) → (r ≡ o) ⊎ (r ≡ o → ⊥)
same_or_not r o = elim (Bool-cases (read_opcode r == read_opcode o)) [
  | inl e ↦ inl (read_opcode-injective r o (ground arith))
  | inr e ↦ inr (λ p. let f = ap read_opcode p in ground arith)
]

pub Ready-kept :
    (g h : DspiHub)
    → SameLink g h
    → h.parser ≡ g.parser
    → no_claim h ≡ no_claim g
    → Ready g
    → Ready h
Ready-kept g h l p c r = record {
  idle = l.0 ∙ r.idle;
  none_asked = l.1 ∙ r.none_asked;
  at_rest = ap (λ (x : FrameParser). x.state) p ∙ r.at_rest;
  parser_valid = subst IsValid (sym p) r.parser_valid;
  claimed = c ∙ r.claimed;
}

-- The queue after the handler of the request `t` has run, against the queue `freed`, in which only
-- the slot of `t` was freed.
pub record After (t : Transaction) (freed q : Queue) : Type 0 where
  pub less : work q < work freed + cost t
  pub known : IsKnown freed → IsKnown q
  pub waits : (op : ℕ) → Waits op freed → Waits op q

After-same : (t : Transaction) (freed : Queue) → t.in_use ≡ true → After t freed freed
After-same t freed u = record {
  less = omega (arith, used_cost t u);
  known = λ k. k;
  waits = λ op w. w;
}

-- The name of a preset is no reading.
name_read-Known : (h : DspiHub) (slot : ℕ) → Known (name_read h slot).req (name_read h slot).on_ok
name_read-Known h slot = Known.names (λ r e. ground arith) refl

After-Left :
    (cb : OnOk) (t : Transaction) (g h : DspiHub)
    → t.in_use ≡ true
    → t.on_ok ≡ cb
    → 0 < queue_free g.queue
    → Left cb g h
    → After t g.queue h.queue
After-Left cb t g h u e room l = elim l.queue [
  | inl same ↦ subst (After t g.queue) (sym same) (After-same t g.queue u)
  | inr (slot, active, asked) ↦
      let p = enqueue-Put (name_read g slot) g.queue room (name_read-Known g slot) in
      let two = active_cost t u (e ∙ active) in
      let one = name_cost (name_read g slot) refl in
      subst (After t g.queue) (sym asked)
        (record { less = omega (arith, p.more, two, one); known = p.known; waits = p.waits })
]

-- The handler of the request `t` against the readings.
pub record Noted (dev : Answers) (t : Transaction) (g h : DspiHub) : Type 0 where
  pub ready : Ready g → Ready h
  pub config : h.config ≡ g.config
  pub quiet : is_quiet g ≡ true → is_quiet h ≡ true
  pub after : 0 < queue_free g.queue → After t g.queue h.queue
  pub shown : (r : Reading) → t.req ≡ read_opcode r → Shows h.state r (dev (read_opcode r))
  pub keeps :
      (r : Reading) → Shows g.state r (dev (read_opcode r)) → Shows h.state r (dev (read_opcode r))

reads-Noted :
    (dev : Answers) (t : Transaction) (o : Reading) (g : DspiHub) (b : List ℕ) (n : ℕ)
    → Responsive dev
    → t.in_use ≡ true
    → t.req ≡ read_opcode o
    → t.on_ok ≡ read_handler o
    → no_claim g ≡ true
    → n ≡ length (dev t.req)
    → take n b ≡ dev t.req
    → Noted dev t g (run_ok t.on_ok g b n)
reads-Noted dev t o g b n d u op cb c len bytes =
    let a =
      subst (λ k. Answer o (dev (read_opcode o)) k) (sym (len ∙ ap (λ x. length (dev x)) op))
        (d.accepted o) in
    let e = bytes ∙ ap dev op in
    let l = run_ok-Left o g b n c in
    let s = run_ok-noted o g b n c (Answer-buffer o b _ n e a) in
    let here = run_ok (read_handler o) g b n in
    let answer : Shows here.state o (dev (read_opcode o)) =
      subst (λ x. Shows x o (dev (read_opcode o))) (sym s)
        (Shows-buffer o (noted g.state o b) b _ n e a (noted-Shows g.state o b)) in
    let shown : (r : Reading) → o ≡ r → Shows here.state r (dev (read_opcode r)) =
      λ r f. subst (λ x. Shows here.state x (dev (read_opcode x))) f answer in
    subst (λ k. Noted dev t g (run_ok k g b n)) (sym cb)
      (record {
        ready = Ready-kept g here (run_ok-SameLink (read_handler o) g b n) l.parser l.claim;
        config = l.config;
        quiet = l.quiet;
        after = λ room. After-Left (read_handler o) t g here u cb room l;
        shown = λ r f. shown r (read_opcode-injective o r (sym op ∙ f));
        keeps = λ r w. elim (same_or_not r o) [
          | inl f ↦ shown r (sym f)
          | inr f ↦
              subst (λ x. Shows x r (dev (read_opcode r))) (sym s) (noted-kept g.state r o b _ f w)
        ];
      })

on_preset_name-Shows :
    (r : Reading) (g : DspiHub) (b c : List ℕ) (n : ℕ)
    → Shows g.state r c
    → Shows (on_preset_name g b n).state r c
unfolding on_preset_name toggle toggle_valid
on_preset_name-Shows r g b c n w = ground arith

on_preset_name-left :
    (g : DspiHub) (b : List ℕ) (n : ℕ)
    → let h = on_preset_name g b n in
      (h.parser ≡ g.parser)
      × (no_claim h ≡ no_claim g)
      × (h.queue ≡ g.queue)
      × (h.config ≡ g.config)
      × (is_quiet g ≡ true → is_quiet h ≡ true)
unfolding on_preset_name
on_preset_name-left g b n =
    (ground arith, ground arith, ground arith, ground arith, λ q. ground arith)

-- A request whose answer changes no reading.
names-Noted :
    (dev : Answers) (t : Transaction) (g : DspiHub) (b : List ℕ) (n : ℕ)
    → t.in_use ≡ true
    → ((r : Reading) → t.req ≢ read_opcode r)
    → Noted dev t g (run_ok OnOk.on_preset_name g b n)
unfolding run_ok
names-Noted dev t g b n u other =
    let (parser, claim, queue, config, quiet) = on_preset_name-left g b n in
    record {
      ready =
          Ready-kept g (on_preset_name g b n) (run_ok-SameLink OnOk.on_preset_name g b n) parser
            claim;
      config = config;
      quiet = quiet;
      after = λ room. subst (After t g.queue) (sym queue) (After-same t g.queue u);
      shown = λ r f. absurd (other r f);
      keeps = λ r w. on_preset_name-Shows r g b _ n w;
    }

acknowledged-Noted :
    (dev : Answers) (t : Transaction) (g : DspiHub) (b : List ℕ) (n : ℕ)
    → t.in_use ≡ true
    → ((r : Reading) → t.req ≢ read_opcode r)
    → Noted dev t g (run_ok OnOk.no_handler g b n)
unfolding run_ok
acknowledged-Noted dev t g b n u other = record {
  ready = λ r. r;
  config = refl;
  quiet = λ q. q;
  after = λ room. After-same t g.queue u;
  shown = λ r f. absurd (other r f);
  keeps = λ r w. w;
}

pub Known-Noted :
    (dev : Answers) (t : Transaction) (g : DspiHub) (b : List ℕ) (n : ℕ)
    → Responsive dev
    → t.in_use ≡ true
    → Known t.req t.on_ok
    → no_claim g ≡ true
    → n ≡ length (dev t.req)
    → take n b ≡ dev t.req
    → Noted dev t g (run_ok t.on_ok g b n)
Known-Noted dev t g b n d u k c len bytes = elim k [
  | Known.reads o op cb ↦ reads-Noted dev t o g b n d u op cb c len bytes
  | Known.acknowledged other cb ↦
      subst (λ x. Noted dev t g (run_ok x g b n)) (sym cb) (acknowledged-Noted dev t g b n u other)
  | Known.names other cb ↦
      subst (λ x. Noted dev t g (run_ok x g b n)) (sym cb) (names-Noted dev t g b n u other)
]
