-- ===== src/Prelude/Table.antt =====
-- Claims about every byte and every 16-bit word, checked by evaluation.
use Prim.Native.Nat.{ℕ, zero, suc, ◌+◌, ◌*◌, ◌/◌, ◌%◌, ◌<◌}
use mathlib.Core.Path.{◌≡◌}
use mathlib.Core.Bool.{Bool, true, ◌&&◌}
use native.Mathlib.Omega.{arith}

-- The test passes at every number under the bound.
unfoldable pub passes : (ℕ → Bool) → ℕ → Bool
passes test zero = true
passes test (suc bound) = passes test bound && test bound

pub passes-at :
    (test : ℕ → Bool) (bound i : ℕ) → i < bound → passes test bound ≡ true → test i ≡ true
unfolding passes
passes-at test zero i h e = absurd (omega arith)
passes-at test (suc bound) i h e = ground (arith, passes-at test bound i)

-- By blocks of 256, so that the evaluation is not deep.
unfoldable pub all_words : (ℕ → Bool) → Bool
unfolding passes
all_words p = passes (λ hi. passes (λ lo. p (hi * 256 + lo)) 256) 256

pub all_words_sound : (p : ℕ → Bool) (x : ℕ) → all_words p ≡ true → x < 65536 → p x ≡ true
unfolding all_words
all_words_sound p x h lt =
    let block =
      passes-at (λ hi. passes (λ lo. p (hi * 256 + lo)) 256) 256 (x / 256) (omega arith) h in
    let found : p (x / 256 * 256 + x % 256) ≡ true =
      passes-at (λ lo. p (x / 256 * 256 + lo)) 256 (x % 256) (omega arith) block in
    let e : x / 256 * 256 + x % 256 ≡ x = omega arith in rw e at found
