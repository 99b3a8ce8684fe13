-- ===== src/Hub/Sync/Buffer.antt =====
-- An answer in the parser's buffer, which may hold more.
use esphome_dspi.Prelude.{
  ℕ, zero, suc, ◌≤◌, ◌<◌, ◌≡◌, refl, sym, ap, arith, ◌∙◌, truthy, List, [], ◌∷◌, take,
}
use esphome_dspi.Protocol.Wire.{byte_at}
use esphome_dspi.Protocol.Preset.{rd_u32}
use esphome_dspi.Hub.State.{DspiState}
use esphome_dspi.Hub.Sync.{Reading, Shows, Answer}

byte_at-take : (n i : ℕ) (b : List ℕ) → i < n → byte_at (take n b) i ≡ byte_at b i
byte_at-take zero i b h = absurd (omega arith)
byte_at-take (suc n) i [] h = refl
byte_at-take (suc n) zero (x ∷ b) h = refl
byte_at-take (suc n) (suc i) (x ∷ b) h = byte_at-take n i b (omega arith)

rd_u32-take : (n : ℕ) (b : List ℕ) → 4 ≤ n → rd_u32 (take n b) 0 ≡ rd_u32 b 0
unfolding rd_u32
rd_u32-take n b h =
    rw
      (
        byte_at-take n 0 b (omega arith),
        byte_at-take n 1 b (omega arith),
        byte_at-take n 2 b (omega arith),
        byte_at-take n 3 b (omega arith),
      )
      refl

-- What a reading's answer says is in the bytes that were sent, whatever else the buffer holds.
pub Answer-buffer :
    (r : Reading) (b c : List ℕ) (n : ℕ) → take n b ≡ c → Answer r c n → Answer r b n
Answer-buffer Reading.active_preset b c n e (l, p) =
    let f = byte_at-take n 0 b (omega arith) in (l, ground (arith, ap (λ x. byte_at x 0) e, f))
Answer-buffer Reading.master_volume b c n e a = a
Answer-buffer Reading.user_volume b c n e a = a
Answer-buffer Reading.input_source b c n e a = a
Answer-buffer Reading.input_rate b c n e a = a
Answer-buffer (Reading.toggle_state t) b c n e a = a

pub Shows-buffer :
    (r : Reading) (s : DspiState) (b c : List ℕ) (n : ℕ)
    → take n b ≡ c
    → Answer r c n
    → Shows s r b
    → Shows s r c
Shows-buffer Reading.master_volume s b c n e a w =
    (w.0, w.1 ∙ sym (rd_u32-take n b a) ∙ ap (λ x. rd_u32 x 0) e)
Shows-buffer Reading.user_volume s b c n e a w =
    (w.0, w.1 ∙ sym (rd_u32-take n b a) ∙ ap (λ x. rd_u32 x 0) e)
Shows-buffer Reading.input_source s b c n e a w =
    (w.0, w.1 ∙ sym (byte_at-take n 0 b (omega arith)) ∙ ap (λ x. byte_at x 0) e)
Shows-buffer Reading.input_rate s b c n e a w =
    (w.0, w.1 ∙ sym (rd_u32-take n b (omega arith)) ∙ ap (λ x. rd_u32 x 0) e)
Shows-buffer Reading.active_preset s b c n e a w =
    (w.0, w.1 ∙ sym (byte_at-take n 0 b (omega arith)) ∙ ap (λ x. byte_at x 0) e)
Shows-buffer (Reading.toggle_state t) s b c n e a w =
    let f = sym (byte_at-take n 0 b (omega arith)) ∙ ap (λ x. byte_at x 0) e in
    (w.0, w.1 ∙ ap truthy f)
