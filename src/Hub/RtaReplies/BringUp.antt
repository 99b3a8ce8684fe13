-- ===== src/Hub/RtaReplies/BringUp.antt =====
-- dspi.cpp: the analyser from its capabilities to its stream, against a device that answers.
use esphome_dspi.Prelude.{
  ℕ, zero, suc, ◌+◌, ◌-◌, ◌*◌, ◌/◌, ◌%◌, ◌&&◌, ◌||◌, ◌≤◌, ◌<◌, ◌≡◌, ◌⊎◌, refl, arith, List, Bool,
  true, false, some, ◌==◌, inl, inr, Bool-cases, leb, ltb, ltb→lt, u8, u16, set,
}
use esphome_dspi.Protocol.Rta.{
  RtaConfig, RtaCaps, rta_parse_caps, rta_parse_config, rta_cfg_version, rta_max_bands, rta_rd_u16,
}
use esphome_dspi.Hub.State.{DspiHub, RtaPhase}
use esphome_dspi.Hub.RtaReplies.{on_rta_caps, on_rta_centres, on_rta_config, centre_loop}
use esphome_dspi.Hub.Transport.{run_ok}
use esphome_dspi.Hub.RtaReplies.Asked.{phase_handler}
use esphome_dspi.Hub.RtaReplies.Bounds.{centre_loop-bounds}

-- A device with an analyser: its answers to the request for the capabilities, for the configuration,
-- and for each chunk of the band centres, each with its length.
pub record Analyser : Type 0 where
  pub caps_bytes : List ℕ
  pub caps_len : ℕ
  pub config_bytes : List ℕ
  pub config_len : ℕ
  pub centre_bytes : ℕ → List ℕ
  pub centre_len : ℕ → ℕ

-- The first two are accepted.
pub record IsAnalyser (dev : Analyser) : Type 0 where
  pub caps : RtaCaps
  pub config : RtaConfig
  pub caps_parse : rta_parse_caps dev.caps_bytes dev.caps_len ≡ some caps
  pub config_parse : rta_parse_config dev.config_bytes dev.config_len ≡ some config
  pub version : (caps.version == rta_cfg_version) ≡ true

-- What the device answers to what the phase asks for.
abbrev pub answer_to : RtaPhase → Analyser → DspiHub → List ℕ × ℕ
answer_to RtaPhase.need_caps dev h = (dev.caps_bytes, dev.caps_len)
answer_to RtaPhase.need_centres dev h =
    (dev.centre_bytes h.rta.centre_chunk, dev.centre_len h.rta.centre_chunk)
answer_to _ dev h = (dev.config_bytes, dev.config_len)

-- The handler of what the phase asks for, run on the device's answer.
unfoldable pub answer_in : RtaPhase → Analyser → DspiHub → DspiHub
unfolding run_ok
answer_in p dev h = let (bytes, len) = answer_to p dev h in run_ok (phase_handler p) h bytes len

unfoldable pub answers : ℕ → Analyser → DspiHub → DspiHub
answers zero dev h = h
answers (suc n) dev h = answers n dev (answer_in h.rta.phase dev h)

-- The answers that a phase may still take before the stream starts.
abbrev rank_in : RtaPhase → ℕ → ℕ → ℕ
rank_in RtaPhase.need_caps want have = 42
rank_in RtaPhase.need_centres want have = 4 + (want - have)
rank_in RtaPhase.read_config want have = 3
rank_in RtaPhase.set_config want have = 2
rank_in RtaPhase.verify_config want have = 1
rank_in _ want have = 0

abbrev rank : DspiHub → ℕ
rank h = rank_in h.rta.phase h.rta.caps.max_bands h.rta.centres_have

abbrev is_coming_up : RtaPhase → Bool
is_coming_up RtaPhase.need_caps = true
is_coming_up RtaPhase.need_centres = true
is_coming_up RtaPhase.read_config = true
is_coming_up RtaPhase.set_config = true
is_coming_up RtaPhase.verify_config = true
is_coming_up RtaPhase.streaming = true
is_coming_up _ = false

-- On its way to the stream, with no more bands than the table holds.
abbrev ComingUp : DspiHub → Type 0
ComingUp h =
    (is_coming_up h.rta.phase ≡ true)
    × ((h.rta.phase ≡ RtaPhase.need_caps) ⊎ (h.rta.caps.max_bands ≤ rta_max_bands))

-- One answer brings the stream nearer.
abbrev Nearer : DspiHub → DspiHub → Type 0
Nearer h h' = ComingUp h' × (rank h' < rank h)

caps-Nearer :
    (dev : Analyser) (h : DspiHub)
    → IsAnalyser dev
    → h.rta.phase ≡ RtaPhase.need_caps
    → Nearer h (on_rta_caps h dev.caps_bytes dev.caps_len)
unfolding on_rta_caps
caps-Nearer dev h d p = let parse = d.caps_parse in let v = d.version in ground (arith, parse, v)

config-Nearer :
    (dev : Analyser) (h : DspiHub)
    → IsAnalyser dev
    → ComingUp h
    → (h.rta.phase ≡ RtaPhase.read_config)
      ⊎ ((h.rta.phase ≡ RtaPhase.set_config) ⊎ (h.rta.phase ≡ RtaPhase.verify_config))
    → Nearer h (on_rta_config h dev.config_bytes dev.config_len)
unfolding on_rta_config
config-Nearer dev h d c p = let parse = d.config_parse in ground (arith, parse)

-- A chunk that is not empty brings at least one centre, while any is missing.
centre_loop-more :
    (left i : ℕ) (b : List ℕ) (want : ℕ) (centres : List ℕ) (have : ℕ)
    → 0 < left
    → have < want
    → have < rta_max_bands
    → have < (centre_loop left i b want (centres, have)).1
unfolding centre_loop
centre_loop-more zero i b want centres have l w m = absurd (omega arith)
centre_loop-more (suc left) i b want centres have l w m =
    let v = rta_rd_u16 b (u16 (i * 2)) in
    let go : (ltb have want && ltb have rta_max_bands) ≡ true = ground arith in
    let e : (have + 1) % 256 ≡ have + 1 = omega arith in
    let k =
      centre_loop-bounds left (i + 1) b want (set centres have v) (u8 (have + 1))
        (rw e (omega arith)) in
    rw go (omega (arith, k.2, e))

centre_loop-stops :
    (left i : ℕ) (b : List ℕ) (want : ℕ) (centres : List ℕ) (have : ℕ)
    → want ≤ have
    → (centre_loop left i b want (centres, have)).1 ≡ have
unfolding centre_loop
centre_loop-stops zero i b want centres have w = refl
centre_loop-stops (suc left) i b want centres have w =
    let stop : (ltb have want && ltb have rta_max_bands) ≡ false = ground arith in rw stop refl

more_to_come :
    (left : ℕ) (b : List ℕ) (want : ℕ) (centres : List ℕ) (have : ℕ)
    → want ≤ rta_max_bands
    → (leb want (centre_loop left 0 b want (centres, have)).1 || left == 0) ≡ false
    → let r = centre_loop left 0 b want (centres, have) in (have < r.1) × (r.1 < want)
more_to_come left b want centres have wide more =
    let below : (centre_loop left 0 b want (centres, have)).1 < want = ground arith in
    let some_left : 0 < left = ground arith in
    elim (Bool-cases (ltb have want)) [
      | inl w ↦ (
        centre_loop-more left 0 b want centres have some_left (ltb→lt have want w)
            (omega (arith, ltb→lt have want w)),
        below,
      )
      | inr w ↦
          let s = centre_loop-stops left 0 b want centres have (ground arith) in
          absurd (ground (arith, s, below))
    ]

centres-Nearer :
    (h : DspiHub) (b : List ℕ) (n : ℕ)
    → ComingUp h
    → h.rta.phase ≡ RtaPhase.need_centres
    → Nearer h (on_rta_centres h b n)
unfolding on_rta_centres
centres-Nearer h b n c p =
    let want = h.rta.caps.max_bands in
    let have = h.rta.centres_have in
    let left = u16 (n / 2) in
    let r = centre_loop left 0 b want (h.rta.band_centre_hz, have) in
    let wide : want ≤ rta_max_bands = ground arith in
    elim (Bool-cases (leb want r.1 || left == 0)) [
      | inl done ↦ ground (arith, done)
      | inr more ↦
          let k = more_to_come left b want h.rta.band_centre_hz have wide more in
          ground (arith, more, k)
    ]

-- Any phase on the way but the last.
answer_in-Nearer :
    (dev : Analyser) (h : DspiHub) (p : RtaPhase)
    → IsAnalyser dev
    → ComingUp h
    → h.rta.phase ≡ p
    → (p ≡ RtaPhase.streaming) ⊎ Nearer h (answer_in p dev h)
unfolding answer_in
answer_in-Nearer dev h RtaPhase.need_caps d c e = inr (caps-Nearer dev h d e)
answer_in-Nearer dev h RtaPhase.need_centres d c e = inr (centres-Nearer h _ _ c e)
answer_in-Nearer dev h RtaPhase.read_config d c e = inr (config-Nearer dev h d c (inl e))
answer_in-Nearer dev h RtaPhase.set_config d c e = inr (config-Nearer dev h d c (inr (inl e)))
answer_in-Nearer dev h RtaPhase.verify_config d c e = inr (config-Nearer dev h d c (inr (inr e)))
answer_in-Nearer dev h RtaPhase.streaming d c e = inl refl
answer_in-Nearer dev h RtaPhase.disabled d c e = absurd (ground arith)
answer_in-Nearer dev h RtaPhase.unsupported d c e = absurd (ground arith)
answer_in-Nearer dev h RtaPhase.stopping d c e = absurd (ground arith)

no_rank : (h : DspiHub) → ComingUp h → rank h ≡ 0 → h.rta.phase ≡ RtaPhase.streaming
no_rank h c e = ground arith

answers-streaming :
    (n : ℕ) (dev : Analyser) (h : DspiHub)
    → h.rta.phase ≡ RtaPhase.streaming
    → (answers n dev h).rta.phase ≡ RtaPhase.streaming
unfolding answers answer_in
answers-streaming zero dev h e = e
answers-streaming (suc n) dev h e = simp e (answers-streaming n dev h e)

rank-answers :
    (n : ℕ) (dev : Analyser) (h : DspiHub)
    → IsAnalyser dev
    → ComingUp h
    → rank h ≤ n
    → (answers n dev h).rta.phase ≡ RtaPhase.streaming
unfolding answers
rank-answers zero dev h d c l = no_rank h c (omega arith)
rank-answers (suc n) dev h d c l = elim (answer_in-Nearer dev h h.rta.phase d c refl) [
  | inl e ↦ answers-streaming (suc n) dev h e
  | inr k ↦ rank-answers n dev (answer_in h.rta.phase dev h) d k.0 (omega (arith, k.1, l))
]

-- Against a device whose capabilities are of the right version and whose configuration parses, and
-- whatever band centres it sends, in chunks of any length, even empty ones: from the phase that asks
-- for the capabilities, 42 answers to what the phases ask for start the stream.
pub answers-bring_up :
    (dev : Analyser) (h : DspiHub)
    → IsAnalyser dev
    → h.rta.phase ≡ RtaPhase.need_caps
    → (answers 42 dev h).rta.phase ≡ RtaPhase.streaming
answers-bring_up dev h d e = rank-answers 42 dev h d (ground arith, inl e) (ground arith)
