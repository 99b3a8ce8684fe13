-- ===== src/Witnesses/Analyser.antt =====
-- The analyser coming up, at a concrete device.
use esphome_dspi.Prelude.{◌≡◌, refl, ◌∷◌, replicate}
use esphome_dspi.Protocol.Rta.{
  default_config, rta_parse_caps, rta_rd_u16, rta_cfg_version, rta_caps_len,
}
use esphome_dspi.Hub.State.{DspiHub, RtaPhase}
use esphome_dspi.Hub.RtaReplies.BringUp.{Analyser, IsAnalyser, answers, answers-bring_up}
use esphome_dspi.Witnesses.{fresh, config_bytes, config_bytes-parse}

-- 20 bands, told in chunks of 16 centres.
abbrev analyser : Analyser
analyser = record {
  caps_bytes = rta_cfg_version ∷ 2 ∷ 4 ∷ 9 ∷ 12 ∷ 11 ∷ 4 ∷ 20 ∷ 243 ∷ replicate 11 0;
  caps_len = rta_caps_len;
  config_bytes = config_bytes;
  config_len = 12;
  centre_bytes = λ chunk. replicate 32 1;
  centre_len = λ chunk. 32;
}

analyser-IsAnalyser : IsAnalyser analyser
unfolding rta_parse_caps rta_rd_u16
analyser-IsAnalyser = record {
  caps = _;
  config = default_config;
  caps_parse = refl;
  config_parse = config_bytes-parse;
  version = refl;
}

abbrev starting : DspiHub
starting = record fresh { rta = record (fresh.rta) { phase = RtaPhase.need_caps } }

answers-bring_up_example : (answers 42 analyser starting).rta.phase ≡ RtaPhase.streaming
answers-bring_up_example = answers-bring_up analyser starting analyser-IsAnalyser refl
