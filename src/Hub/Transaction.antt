-- ===== src/Hub/Transaction.antt =====
-- dspi.h: `Transaction`. The pointers to member functions are the constructors of two types.
use esphome_dspi.Prelude.{ℕ, Bool, false, List, replicate}
use esphome_dspi.Protocol.Wire.{FrameType, frame_byte, max_tx_payload}
use esphome_dspi.Protocol.Toggle.{ToggleTarget}

-- What `on_ok` may point to; `no_handler` is the null pointer.
pub data OnOk : Type 0 where
  no_handler on_platform on_uart_config on_iface_status on_spdif_input_config : OnOk
  on_adat_enable on_adat_pin on_master_volume on_user_volume on_input_source : OnOk
  on_input_rate on_preset_dir on_preset_active on_preset_name on_preset_load : OnOk
  on_rta_caps on_rta_centres on_rta_config on_rta_bands on_rta_status on_rta_control : OnOk
  on_toggle : ToggleTarget → OnOk

-- What `on_fail` may point to.
pub data OnFail : Type 0 where
  no_handler on_preset_load_failed on_rta_setup_failed on_rta_bands_failed : OnFail
  on_rta_optional_failed : OnFail
  on_toggle_failed : ToggleTarget → OnFail

pub record Transaction : Type 0 where
  pub req : ℕ
  pub frame_type : ℕ
  pub wvalue : ℕ
  pub wlen : ℕ
  pub payload : List ℕ
  pub payload_len : ℕ
  pub attempts : ℕ
  pub priority : ℕ
  pub max_retries : ℕ
  pub timeout_ms : ℕ
  pub on_ok : OnOk
  pub on_fail : OnFail
  pub in_use : Bool

abbrev pub retries_default : ℕ
retries_default = 0xFF

abbrev pub new_transaction : Transaction
new_transaction = record {
  req = 0;
  frame_type = frame_byte FrameType.get_req;
  wvalue = 0;
  wlen = 0;
  payload = replicate max_tx_payload 0;
  payload_len = 0;
  attempts = 0;
  priority = 1;
  max_retries = retries_default;
  timeout_ms = 0;
  on_ok = OnOk.no_handler;
  on_fail = OnFail.no_handler;
  in_use = false;
}
