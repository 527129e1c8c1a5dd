-- ===== src/Prelude/Bits.antt =====
-- Masks on one byte as arithmetic; each is a table of at most 256 entries, checked by evaluation.
use Prim.Native.Nat.{ℕ, zero, suc, ◌+◌, ◌*◌, ◌/◌, ◌%◌, ◌<◌, bit_and, bit_or}
use mathlib.Core.Path.{◌≡◌, refl}
use mathlib.Core.Bool.{Bool, true, false, ◌&&◌}
use mathlib.Core.Logic.{ite}
use native.Mathlib.Decide.{ℕ_discrete}
use native.Mathlib.Omega.{arith}

module _ (f g : ℕ → ℕ) where
  agree_below : ℕ → Bool
  unfolding ℕ_discrete
  agree_below zero = true
  agree_below (suc n) = ite (ℕ_discrete (f n) (g n)) (agree_below n) false

  agree_below→eq : (n : ℕ) → agree_below n ≡ true → (i : ℕ) → i < n → f i ≡ g i
  unfolding agree_below
  agree_below→eq zero e i h = absurd (omega arith)
  agree_below→eq (suc n) e i h = ground (arith, agree_below→eq n (ground arith) i)

pub bit_and_7f : (b : ℕ) → b < 256 → bit_and b 0x7f ≡ b % 128
unfolding agree_below
bit_and_7f = agree_below→eq _ _ 256 refl

pub bit_and_80 : (b : ℕ) → b < 256 → bit_and b 0x80 ≡ b / 128 * 128
unfolding agree_below
bit_and_80 = agree_below→eq _ _ 256 refl

pub bit_or_80 : (b : ℕ) → b < 128 → bit_or 0x80 b ≡ 128 + b
unfolding agree_below
bit_or_80 = agree_below→eq _ _ 128 refl

-- A test holds of every number below a bound, by evaluation.
unfoldable pub all_below : ℕ → (ℕ → Bool) → Bool
all_below zero holds = true
all_below (suc bound) holds = holds bound && all_below bound holds

pub all_below_sound :
    (bound : ℕ) (holds : ℕ → Bool) (at : ℕ)
    → all_below bound holds ≡ true
    → at < bound
    → holds at ≡ true
unfolding all_below
all_below_sound zero holds at whole small = absurd (omega arith)
all_below_sound (suc bound) holds at whole small = ground (arith, all_below_sound bound holds at)

pub bit_and_0f : (b : ℕ) → b < 256 → bit_and b 0x0F ≡ b % 16
unfolding agree_below
bit_and_0f = agree_below→eq _ _ 256 refl

pub bit_and_f0 : (b : ℕ) → b < 256 → bit_and b 0xF0 ≡ b / 16 * 16
unfolding agree_below
bit_and_f0 = agree_below→eq _ _ 256 refl
