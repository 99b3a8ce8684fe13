-- ===== src/Hub/RtaReplies/Bounds.antt =====
-- dspi.cpp: the band-centre table and the channels that are polled.
use esphome_dspi.Prelude.{
  ◌&&◌, ℕ, zero, suc, ◌+◌, ◌≤◌, ◌<◌, ◌%◌, ◌*◌, ◌/◌, ◌⊎◌, ◌^◌, bit_and, u8, u16, List, length,
  length-set, set, true, truthy, ◌≡◌, refl, arith, some, ltb, inl, inr, Bool-cases, Option-cases,
  ◌∙◌,
}
use esphome_dspi.Protocol.Rta.{rta_max_bands, rta_rd_u16}
use esphome_dspi.Hub.State.{DspiHub}
use esphome_dspi.Hub.Rta.{poll_loop, rta_next_poll_channel}
use esphome_dspi.Hub.RtaReplies.{centre_loop, on_rta_centres}

pub centre_loop-bounds :
    (left i : ℕ) (b : List ℕ) (want : ℕ) (cs : List ℕ) (have : ℕ)
    → have ≤ rta_max_bands
    → let r = centre_loop left i b want (cs, have) in
      (r.1 ≤ rta_max_bands) × (length r.0 ≡ length cs) × (have ≤ r.1)
unfolding centre_loop
centre_loop-bounds zero i b want cs have r = (r, refl, omega arith)
centre_loop-bounds (suc left) i b want cs have r =
    let v = rta_rd_u16 b (u16 (i * 2)) in
    elim (Bool-cases (ltb have want && ltb have rta_max_bands)) [
      | inr stop ↦ rw stop (r, refl, omega arith)
      | inl go ↦
          let small : have < rta_max_bands = ground arith in
          let e : (have + 1) % 256 ≡ have + 1 = omega arith in
          let ih =
            centre_loop-bounds left (i + 1) b want (set cs have v) (u8 (have + 1))
              (rw e (omega arith)) in
          rw go (ih.0, ih.1 ∙ length-set cs have v, omega (arith, ih.2, e))
    ]

-- Whatever chunks the device sends, at most 37 band centres are ever counted, and the table keeps
-- its size: no centre is stored past its end.
pub on_rta_centres-bounded :
    (h : DspiHub) (b : List ℕ) (n : ℕ)
    → h.rta.centres_have ≤ rta_max_bands
    → let h' = on_rta_centres h b n in
      (h'.rta.centres_have ≤ rta_max_bands)
      × (length h'.rta.band_centre_hz ≡ length h.rta.band_centre_hz)
      × (h.rta.centres_have ≤ h'.rta.centres_have)
unfolding on_rta_centres
on_rta_centres-bounded h b n r =
    let ih =
      centre_loop-bounds (u16 (n / 2)) 0 b h.rta.caps.max_bands h.rta.band_centre_hz
        h.rta.centres_have r in
    ground (arith, ih)

poll_loop-some :
    (left i cursor mask ch : ℕ)
    → poll_loop left i cursor mask ≡ some ch
    → (ch < 16) × (truthy (bit_and mask (2 ^ ch)) ≡ true)
unfolding poll_loop
poll_loop-some zero i cursor mask ch e = cc
poll_loop-some (suc left) i cursor mask ch e =
    ground (arith, poll_loop-some left (i + 1) cursor mask ch)

-- The channel that is polled next is one of the sixteen and one that still answers, and the cursor
-- moves past it; or there is none.
pub rta_next_poll_channel-answers :
    (h : DspiHub)
    → let r = rta_next_poll_channel h in
      (r.1 ≡ 0xFF)
      ⊎ ((r.1 < 16)
          × (truthy (bit_and h.rta.poll_mask (2 ^ r.1)) ≡ true)
          × (r.0.rta.poll_cursor ≡ (r.1 + 1) % 16))
unfolding rta_next_poll_channel
rta_next_poll_channel-answers h = elim (Bool-cases (truthy h.rta.poll_mask)) [
  | inr none_left ↦ rw none_left (inl refl)
  | inl some_left ↦ elim (Option-cases (poll_loop 16 0 h.rta.poll_cursor h.rta.poll_mask)) [
    | inl e ↦ simp (some_left, e) (inl refl)
    | inr (ch, e) ↦
        let f = poll_loop-some 16 0 h.rta.poll_cursor h.rta.poll_mask ch e in
        let g : (ch + 1) % 16 % 256 ≡ (ch + 1) % 16 = omega arith in
        simp (some_left, e) (inr (f.0, f.1, g))
  ]
]
