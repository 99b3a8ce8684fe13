-- ===== src/Crc16/Detect.antt =====
-- What the checksum of crc16.h detects: each round is a bijection on 16 bits.
use esphome_dspi.Prelude.{ℕ, zero, suc, ◌+◌, ◌*◌, ◌/◌, ◌%◌, ◌^◌, ◌<◌, bit_xor}
use esphome_dspi.Prelude.{◌≡◌, ◌≢◌, refl, sym, ap, ◌∙◌, arith, true, ◌==◌, ==_iff}
use esphome_dspi.Prelude.{truthy, if◌then◌else◌, List, [], ◌∷◌, ◌++◌, All}
use esphome_dspi.Prelude.Bits.{bit_xor-cancel, bit_xor-lt, bit_xor_comm}
use esphome_dspi.Prelude.Table.{all_words, all_words_sound}
use esphome_dspi.Crc16.{crc16_step, crc16_rounds, crc16_update, crc16_from}

-- The round run backwards: the low bit says whether the polynomial went in.
crc16_unstep : ℕ → ℕ
crc16_unstep c = if truthy (c % 2) then bit_xor c 0x1021 / 2 + 0x8000 else c / 2

unstep_table : all_words (λ c. crc16_unstep (crc16_step c) == c) ≡ true
unfolding all_words crc16_unstep crc16_step
unstep_table = refl

crc16_step-lt : (c : ℕ) → crc16_step c < 65536
unfolding crc16_step
crc16_step-lt c = ground arith

unstep-step : (c : ℕ) → c < 65536 → crc16_unstep (crc16_step c) ≡ c
unstep-step c h =
    (==_iff _ _).0 (all_words_sound (λ c. crc16_unstep (crc16_step c) == c) c unstep_table h)

crc16_step-injective : (c d : ℕ) → c < 65536 → d < 65536 → crc16_step c ≡ crc16_step d → c ≡ d
crc16_step-injective c d hc hd e = sym (unstep-step c hc) ∙ ap crc16_unstep e ∙ unstep-step d hd

rounds-injective : (n c d : ℕ) → c < 65536 → d < 65536 → crc16_rounds n c ≡ crc16_rounds n d → c ≡ d
unfolding crc16_rounds
rounds-injective zero c d hc hd e = e
rounds-injective (suc n) c d hc hd e =
    crc16_step-injective c d hc hd
      (rounds-injective n (crc16_step c) (crc16_step d) (crc16_step-lt c) (crc16_step-lt d) e)

rounds-lt : (n c : ℕ) → c < 65536 → crc16_rounds n c < 65536
unfolding crc16_rounds
rounds-lt zero c h = h
rounds-lt (suc n) c h = rounds-lt n (crc16_step c) (crc16_step-lt c)

folded-lt : (c byte : ℕ) → c < 65536 → byte < 256 → bit_xor c (byte * 2 ^ 8) < 65536
folded-lt c byte hc hb = bit_xor-lt 16 c (byte * 2 ^ 8) hc (omega arith)

pub crc16_update-lt : (c byte : ℕ) → c < 65536 → byte < 256 → crc16_update c byte < 65536
unfolding crc16_update
crc16_update-lt c byte hc hb = rounds-lt 8 (bit_xor c (byte * 2 ^ 8)) (folded-lt c byte hc hb)

-- Two checksums that a byte takes to the same value were the same before.
update-injective_crc :
    (c d byte : ℕ)
    → c < 65536
    → d < 65536
    → byte < 256
    → crc16_update c byte ≡ crc16_update d byte
    → c ≡ d
unfolding crc16_update
update-injective_crc c d byte hc hd hb e =
    let w = byte * 2 ^ 8 in
    let same =
      rounds-injective 8 (bit_xor c w) (bit_xor d w) (folded-lt c byte hc hb)
        (folded-lt d byte hd hb) e in
    sym (bit_xor-cancel c w) ∙ ap (λ t. bit_xor t w) same ∙ bit_xor-cancel d w

xor-cancel_left : (a b c : ℕ) → bit_xor a b ≡ bit_xor a c → b ≡ c
xor-cancel_left a b c e =
    sym (bit_xor-cancel b a)
    ∙ ap (λ t. bit_xor t a) (bit_xor_comm b a ∙ e ∙ bit_xor_comm a c)
    ∙ bit_xor-cancel c a

-- Two bytes that take a checksum to the same value are the same.
update-injective_byte :
    (c a b : ℕ) → c < 65536 → a < 256 → b < 256 → crc16_update c a ≡ crc16_update c b → a ≡ b
unfolding crc16_update
update-injective_byte c a b hc ha hb e =
    let same =
      rounds-injective 8 (bit_xor c (a * 2 ^ 8)) (bit_xor c (b * 2 ^ 8)) (folded-lt c a hc ha)
        (folded-lt c b hc hb) e in
    omega (arith, xor-cancel_left c (a * 2 ^ 8) (b * 2 ^ 8) same)

abbrev pub IsBytes : List ℕ → Type 0
IsBytes = All (λ b. b < 256)

pub crc16_from-lt : (c : ℕ) (xs : List ℕ) → c < 65536 → IsBytes xs → crc16_from c xs < 65536
unfolding crc16_from
crc16_from-lt c [] h b = h
crc16_from-lt c (x ∷ xs) h b = crc16_from-lt (crc16_update c x) xs (crc16_update-lt c x h b.0) b.1

pub crc16_from-append :
    (c : ℕ) (xs ys : List ℕ) → crc16_from c (xs ++ ys) ≡ crc16_from (crc16_from c xs) ys
unfolding crc16_from
crc16_from-append c [] ys = refl
crc16_from-append c (x ∷ xs) ys = crc16_from-append (crc16_update c x) xs ys

from-injective :
    (c d : ℕ) (xs : List ℕ)
    → c < 65536
    → d < 65536
    → IsBytes xs
    → crc16_from c xs ≡ crc16_from d xs
    → c ≡ d
unfolding crc16_from
from-injective c d [] hc hd b e = e
from-injective c d (x ∷ xs) hc hd b e = update-injective_crc c d x hc hd b.0 (
    from-injective (crc16_update c x) (crc16_update d x) xs (crc16_update-lt c x hc b.0)
      (crc16_update-lt d x hd b.0) b.1 e)

-- Two buffers of bytes that differ in exactly one place have different checksums, whatever
-- value the checksum starts from.
pub crc16_one_byte :
    (c : ℕ) (before after : List ℕ) (x y : ℕ)
    → c < 65536
    → IsBytes before
    → IsBytes after
    → x < 256
    → y < 256
    → x ≢ y
    → crc16_from c (before ++ x ∷ after) ≢ crc16_from c (before ++ y ∷ after)
unfolding crc16_from
crc16_one_byte c before after x y hc hb ha hx hy ne e =
    let m = crc16_from c before in
    let hm = crc16_from-lt c before hc hb in
    ne (
      update-injective_byte m x y hm hx hy (
        from-injective (crc16_update m x) (crc16_update m y) after (crc16_update-lt m x hm hx)
          (crc16_update-lt m y hm hy) ha
          (sym (crc16_from-append c before (x ∷ after))
            ∙ e
            ∙ crc16_from-append c before (y ∷ after))))
