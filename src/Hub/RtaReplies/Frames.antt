-- ===== src/Hub/RtaReplies/Frames.antt =====
-- dspi.cpp: which band frames reach the listeners, and how the configuration settles.
use esphome_dspi.Prelude.{
  ℕ, List, get_or, true, false, ◌≡◌, refl, arith, ◌⊎◌, inl, inr, Bool-cases, some,
}
use esphome_dspi.Protocol.Rta.{RtaBandFrame, RtaConfig, rta_parse_band_frame, rta_parse_config}
use esphome_dspi.Hub.State.{DspiHub, RtaPhase}
use esphome_dspi.Hub.RtaReplies.{is_stale, seq_known, on_rta_bands, config_matches, on_rta_config}

-- While the analyser is live, a fresh frame that carries the last sequence number of its channel
-- again reaches no listener.
pub on_rta_bands-repeated :
    (h : DspiHub) (b : List ℕ) (n : ℕ) (frame : RtaBandFrame)
    → rta_parse_band_frame b n ≡ some frame
    → is_stale frame h.config.rta_stale_ms ≡ false
    → seq_known h.rta frame ≡ true
    → get_or h.rta.last_seq frame.channel 0 ≡ frame.seq
    → h.rta.live ≡ true
    → (on_rta_bands h b n).out ≡ h.out
unfolding on_rta_bands
on_rta_bands-repeated h b n frame e fresh known same live = ground arith

reading :
    (h : DspiHub) (b : List ℕ) (n : ℕ) (c : RtaConfig)
    → h.rta.phase ≡ RtaPhase.read_config
    → rta_parse_config b n ≡ some c
    → let p = (on_rta_config h b n).rta.phase in
      (p ≡ RtaPhase.streaming) ⊎ (p ≡ RtaPhase.set_config)
unfolding on_rta_config
reading h b n c p e = elim (Bool-cases (config_matches c h.rta.cfg_desired)) [
  | inl ok ↦ inl (simp (p, e, ok) refl)
  | inr differs ↦ inr (simp (p, e, differs) refl)
]

setting :
    (h : DspiHub) (b : List ℕ) (n : ℕ)
    → h.rta.phase ≡ RtaPhase.set_config
    → (on_rta_config h b n).rta.phase ≡ RtaPhase.verify_config
unfolding on_rta_config
setting h b n p = simp p refl

verifying :
    (h : DspiHub) (b : List ℕ) (n : ℕ) (c : RtaConfig)
    → h.rta.phase ≡ RtaPhase.verify_config
    → rta_parse_config b n ≡ some c
    → (on_rta_config h b n).rta.phase ≡ RtaPhase.streaming
unfolding on_rta_config
verifying h b n c p e = elim (Bool-cases (config_matches c h.rta.cfg_desired)) [
  | inl ok ↦ simp (p, e, ok) refl
  | inr differs ↦ simp (p, e, differs) refl
]

-- From the phase that reads the configuration, either the first answer, where it parses, starts the
-- stream, or the third does, where it parses: whatever the device applied, the configuration is
-- written once at most.
pub on_rta_config-settles :
    (h : DspiHub) (b₁ b₂ b₃ : List ℕ) (n₁ n₂ n₃ : ℕ) (c₁ c₃ : RtaConfig)
    → h.rta.phase ≡ RtaPhase.read_config
    → rta_parse_config b₁ n₁ ≡ some c₁
    → rta_parse_config b₃ n₃ ≡ some c₃
    → let h₁ = on_rta_config h b₁ n₁ in
      let h₃ = on_rta_config (on_rta_config h₁ b₂ n₂) b₃ n₃ in
      (h₁.rta.phase ≡ RtaPhase.streaming) ⊎ (h₃.rta.phase ≡ RtaPhase.streaming)
on_rta_config-settles h b₁ b₂ b₃ n₁ n₂ n₃ c₁ c₃ p e f = elim (reading h b₁ n₁ c₁ p e) [
  | inl done ↦ inl done
  | inr write ↦
      let h₁ = on_rta_config h b₁ n₁ in
      inr (verifying (on_rta_config h₁ b₂ n₂) b₃ n₃ c₃ (setting h₁ b₂ n₂ write) f)
]
