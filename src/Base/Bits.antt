-- ===== src/Base/Bits.antt =====
-- `&` of bytes and of 16-bit words with the masks of the program, by evaluation over all values.
use Prim.Native.Nat.{ℕ, zero, suc, ◌+◌, ◌-◌, ◌*◌, ◌%◌, ◌<◌, bit_and, bit_or}
use mathlib.Core.Path.{◌≡◌, refl}
use mathlib.Core.Bool.{Bool, true, not, ◌&&◌, ◌||◌}
use native.Mathlib.Omega.{arith}
use anti_dos.Base.Tests.{◌==◌, ==_iff}

-- `test` holds from 0 up to the bound.
holds_up_to : ℕ → (ℕ → Bool) → Bool
holds_up_to zero test = true
holds_up_to (suc bound) test = holds_up_to bound test && test bound

holds_at :
    (bound : ℕ) (test : ℕ → Bool) (i : ℕ)
    → i < bound
    → holds_up_to bound test ≡ true
    → test i ≡ true
unfolding holds_up_to
holds_at zero test i below h = elim below [ ]
holds_at (suc bound) test i below h = ground (arith, holds_at bound test i)

abbrev same : Bool → Bool → Bool
same true b = b
same _ b = not b

same→eq : (a b : Bool) → same a b ≡ true → a ≡ b
same→eq a b h = ground arith

-- The mask 0xff3f on a word loaded by a little-endian host.
abbrev word_test : ℕ → ℕ → Bool
word_test lo hi = same (bit_and (lo + 256 * hi) 0xff3f == 0) ((256 * lo + hi) % 0x4000 == 0)

word_table : holds_up_to 256 (λ hi. holds_up_to 256 (λ lo. word_test lo hi)) ≡ true
unfolding holds_up_to
word_table = refl

-- The word of bytes `lo hi` has no bit of 0xff3f exactly when the number that the network reads in
-- them is a multiple of 0x4000.
pub bit_and_fragment :
    (lo hi : ℕ)
    → lo < 256
    → hi < 256
    → (bit_and (lo + 256 * hi) 0xff3f == 0) ≡ ((256 * lo + hi) % 0x4000 == 0)
bit_and_fragment lo hi p q = same→eq _ _ (
    holds_at 256 (λ l. word_test l hi) lo p
      (holds_at 256 (λ h. holds_up_to 256 (λ l. word_test l h)) hi q word_table))

pub bit_and_bit : (b : ℕ) → b < 2 → bit_and b 1 ≡ b
bit_and_bit zero h = refl
bit_and_bit (suc zero) h = refl
bit_and_bit (suc (suc b)) h = absurd (omega arith)

-- Flags of four bits: three of them are replaced by a mode, or the lowest is cleared.
abbrev mode_test : ℕ → ℕ → Bool
mode_test m f = not (m % 2 == 0) || (bit_or (bit_and f 0xfffffff1) m == m + f % 2)

pub bit_or_mode :
    (m f : ℕ) → m < 16 → m % 2 ≡ 0 → f < 16 → bit_or (bit_and f 0xfffffff1) m ≡ m + f % 2
unfolding holds_up_to
bit_or_mode m f p e q = ground (
  arith,
  e,
  holds_at 16 (mode_test m) f q (holds_at 16 (λ k. holds_up_to 16 (mode_test k)) m p refl),
)

pub bit_and_even : (f : ℕ) → f < 16 → bit_and f 0xfffffffe ≡ f - f % 2
unfolding holds_up_to
bit_and_even f h = (==_iff _ _).0 (holds_at 16 (λ k. bit_and k 0xfffffffe == k - k % 2) f h refl)
