-- ===== src/Protocol/Toggle/Wanted.antt =====
-- components/dspi/protocol.h: the targets that a mask names, against `toggle_mask_count`.
use esphome_dspi.Prelude.{ℕ, ◌+◌, ◌≤◌, ◌<◌, bit_and, truthy, leb, leb→le, refl, if◌then◌else◌}
use esphome_dspi.Prelude.Table.{all_words, all_words_sound}
use esphome_dspi.Protocol.Toggle.{ToggleTarget, toggle_bit, toggle_mask_count}

-- One, where the mask names the target.
abbrev pub wants : ℕ → ToggleTarget → ℕ
wants mask target = if truthy (bit_and mask (toggle_bit target)) then 1 else 0

-- How many of the targets a mask names.
abbrev pub wanted : ℕ → ℕ
wanted mask =
    wants mask ToggleTarget.user_mute
    + wants mask ToggleTarget.loudness
    + wants mask ToggleTarget.eq_bypass
    + wants mask ToggleTarget.crossfeed
    + wants mask ToggleTarget.leveller

pub wanted-le : (mask : ℕ) → mask < 65536 → wanted mask ≤ toggle_mask_count mask
unfolding toggle_mask_count all_words
wanted-le mask r =
    leb→le _ _ (all_words_sound (λ m. leb (wanted m) (toggle_mask_count m)) mask refl r)
