-- ===== src/Hub/Transport/Unanswered/GivesUp.antt =====
-- dspi.cpp: how often a request that no one answers is sent, and how it ends.
use esphome_dspi.Prelude.{
  ℕ, zero, suc, ◌+◌, ◌≤◌, ◌<◌, ◌≡◌, refl, sym, subst, arith, ap, ◌∙◌, [], ◌∷◌, ◌++◌, List,
  replicate, true,
}
use esphome_dspi.Hub.State.{DspiHub, Output}
use esphome_dspi.Hub.Transport.Silent.{Trying, GivenUp, last_try}
use esphome_dspi.Hub.Loop.{loop, step_link, frame_of}
use esphome_dspi.Hub.Sync.{is_quiet}
use esphome_dspi.Hub.Transport.Unanswered.{
  is_timed_out, Phase, Unanswered, InFlight, Delayed, later-InFlight, later-Delayed, pass_awaiting,
  pass_delayed, pass_timed_out, pass_due, step_timed_out, counted_timeout,
}

-- The request after `n` tries that have timed out, in each phase.
abbrev Tried : Phase → List ℕ → ℕ → ℕ → DspiHub → Type 0
Tried Phase.in_flight f n limit h = InFlight f n limit h
Tried Phase.delayed f n limit h = Delayed f (n + 1) limit h

-- What is left to be sent.
abbrev unsent : Phase → ℕ → ℕ
unsent Phase.in_flight n = n
unsent Phase.delayed n = suc n

snoc_replicate :
    (n : ℕ) (x : Output) (out : List Output)
    → replicate n x ++ (x ∷ out) ≡ x ∷ (replicate n x ++ out)
snoc_replicate zero x out = refl
snoc_replicate (suc n) x out = ap (λ l. x ∷ l) (snoc_replicate n x out)

-- Every frame that is written is that of the request, and there is one for each try.
Unanswered-Tried :
    (p : Phase) (f : List ℕ) (n k limit : ℕ) (h h' : DspiHub)
    → k + unsent p n ≤ limit
    → limit ≤ 255
    → Tried p f k limit h
    → Unanswered p n h h'
    → InFlight f (k + unsent p n) limit h'
      × (h'.out ≡ replicate (unsent p n) (Output.tx f) ++ h.out)
Unanswered-Tried _ f _ k limit _ _ more small i (Unanswered.here h) =
    (subst (λ m. InFlight f m limit h) (omega arith) i, refl)
Unanswered-Tried _ f _ k limit _ _ more small i (Unanswered.awaits n h h' now e u) =
    let p = pass_awaiting h now i.trying.waits i.quiet e in
    let later = later-InFlight f k limit h now i in
    let (t, sent) =
      Unanswered-Tried Phase.in_flight f n k limit (loop h now []).0 h' more small
        (subst (InFlight f k limit) (sym p) later) u in
    (t, sent ∙ ap (λ x. replicate n (Output.tx f) ++ x.out) p)
Unanswered-Tried _ f _ k limit _ _ more small i (Unanswered.times_out n h h' now e u) =
    let (d, out) = pass_timed_out f k limit h now (omega arith) small i e in
    let (t, sent) =
      Unanswered-Tried Phase.delayed f n k limit (loop h now []).0 h' (omega arith) small d u in
    (t, (sent ∙ ap (λ l. replicate (suc n) (Output.tx f) ++ l) out))
Unanswered-Tried _ f _ k limit _ _ more small d (Unanswered.delays n h h' now e u) =
    let p = pass_delayed h now d.backoff d.quiet e in
    let later = later-Delayed f (k + 1) limit h now d in
    let (t, sent) =
      Unanswered-Tried Phase.delayed f n k limit (loop h now []).0 h' more small
        (subst (Delayed f (k + 1) limit) (sym p) later) u in
    (t, sent ∙ ap (λ x. replicate (suc n) (Output.tx f) ++ x.out) p)
Unanswered-Tried _ f _ k limit _ _ more small d (Unanswered.resends n h h' now e u) =
    let (i, out) = pass_due f (k + 1) limit h now d e in
    let (t, sent) =
      Unanswered-Tried Phase.in_flight f n (k + 1) limit (loop h now []).0 h' (omega arith) small i
        u in
    (
      subst (λ m. InFlight f m limit h') (omega arith) t,
      sent ∙ ap (λ l. replicate n (Output.tx f) ++ l) out ∙ snoc_replicate n (Output.tx f) h.out,
    )

last_timeout :
    (n limit now : ℕ) (h : DspiHub)
    → limit ≤ n
    → n < 255
    → Trying n limit h
    → is_timed_out h now ≡ true
    → GivenUp (step_link (record h { clock = now }) now)
last_timeout n limit now h over small t e =
    let g = record h { clock = now } in
    rw (step_timed_out g now t.waits e) (
      last_try n limit (counted_timeout g) over small record {
        waits = t.waits;
        in_flight = t.in_flight;
        tried = t.tried;
        budget = t.budget;
        alone = t.alone;
        room = t.room;
      })

-- A request with a limit of fewer than 255 retries is in flight for the first time, nothing else
-- waits, and nothing else makes the hub ask. Passes of `loop` in which no byte arrives, at any
-- times, until the time for an answer has been over as often as the limit of retries and the last
-- try is in flight, have written the frame of the request once for each of these retries, and have
-- put out nothing else. When the time is over once more, the step of the link ends the request, with
-- nothing in flight, the hub idle or offline and nothing waiting.
pub Unanswered-gives_up :
    (limit now : ℕ) (h h' : DspiHub)
    → limit < 255
    → is_quiet h ≡ true
    → Trying 0 limit h
    → Unanswered Phase.in_flight limit h h'
    → is_timed_out h' now ≡ true
    → (h'.out ≡ replicate limit (Output.tx (frame_of h.link.current)) ++ h.out)
      × Trying limit limit h'
      × GivenUp (step_link (record h' { clock = now }) now)
Unanswered-gives_up limit now h h' small quiet t u e =
    let start : InFlight (frame_of h.link.current) 0 limit h = record {
      trying = t;
      frame = refl;
      quiet = quiet;
    } in
    let (i, out) =
      Unanswered-Tried Phase.in_flight (frame_of h.link.current) limit 0 limit h h' (omega arith)
        (omega arith) start u in
    let count : 0 + limit ≡ limit = omega arith in
    let last = subst (λ m. Trying m limit h') count i.trying in
    (out, last, last_timeout limit limit now h' (omega arith) small last e)
