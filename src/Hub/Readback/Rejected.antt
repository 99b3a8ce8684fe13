-- ===== src/Hub/Readback/Rejected.antt =====
-- dspi.cpp: a toggle that the device rejects for good.
use esphome_dspi.Prelude.{
  ℕ, ◌+◌, ◌^◌, ◌<◌, ◌≡◌, ◌≢◌, arith, bit_and, bit_or, truthy, Bool, false, not, ◌&&◌, if◌then◌else◌,
}
use esphome_dspi.Prelude.Bits.{bit, bit-lt, bit-bit_and, bit_or-lt}
use esphome_dspi.Protocol.Wire.{CtrlStatus, status_byte}
use esphome_dspi.Protocol.Toggle.{ToggleTarget, toggle_bit, toggle_index}
use esphome_dspi.Hub.State.{DspiHub}
use esphome_dspi.Hub.Readback.{mark_toggle_unsupported, complement16}
use esphome_dspi.Hub.Loop.{toggles_to_read}
use esphome_dspi.Hub.Readback.Toggles.{reads_bit, or-toggle_bit, same_target}

-- Whether a refresh reads a target.
abbrev pub is_read : DspiHub → ToggleTarget → Bool
is_read h target = truthy (bit_and (toggles_to_read h.toggles) (toggle_bit target))

complement16-bit :
    (m : ℕ) (u : ToggleTarget)
    → m < 65536
    → bit (complement16 m) (toggle_index u) + bit m (toggle_index u) ≡ 1
complement16-bit m ToggleTarget.user_mute fits = omega arith
complement16-bit m ToggleTarget.loudness fits = omega arith
complement16-bit m ToggleTarget.eq_bypass fits = omega arith
complement16-bit m ToggleTarget.crossfeed fits = omega arith
complement16-bit m ToggleTarget.leveller fits = omega arith

-- A target is read if it is asked for and was not rejected.
and-rejected :
    (r m : ℕ) (u : ToggleTarget)
    → m < 65536
    → truthy (bit_and (bit_and r (complement16 m)) (toggle_bit u))
      ≡ (truthy (bit_and r (toggle_bit u)) && not (truthy (bit_and m (toggle_bit u))))
and-rejected r m u fits =
    let i = toggle_index u in
    rw (reads_bit (bit_and r (complement16 m)) u, reads_bit r u, reads_bit m u)
      (ground (
        arith,
        bit-bit_and r (complement16 m) i,
        complement16-bit m u fits,
        bit-lt r i,
        bit-lt m i,
      ))

toggle_bit-lt : (t : ToggleTarget) → toggle_bit t < 2 ^ 16
toggle_bit-lt t = ground arith

-- A rejection other than a failure of the link takes its own target out of the reads of a refresh,
-- and leaves the others as they were.
pub mark_toggle_unsupported-is_read :
    (h : DspiHub) (t u : ToggleTarget) (status : ℕ)
    → status ≢ status_byte CtrlStatus.link_failed
    → h.toggles.toggle_unsupported < 65536
    → is_read (mark_toggle_unsupported h t status) u
      ≡ (if same_target t u then false else is_read h u)
unfolding mark_toggle_unsupported
mark_toggle_unsupported-is_read h t u status final fits =
    let m = h.toggles.toggle_unsupported in
    let r = h.toggles.toggle_read_mask in
    let fits' = bit_or-lt 16 m (toggle_bit t) fits (toggle_bit-lt t) in
    let before = and-rejected r m u fits in
    let after = and-rejected r (bit_or m (toggle_bit t)) u fits' in
    let o = or-toggle_bit m t u in ground (arith, before, after, o)
