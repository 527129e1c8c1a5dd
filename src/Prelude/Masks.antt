-- ===== src/Prelude/Masks.antt =====
-- `&` with the `k` lowest bits is the remainder by `2 ^ k`, for a number of any size.
use Prim.Native.Nat.{
  ℕ, zero, suc, ◌+◌, ◌-◌, ◌*◌, ◌/◌, ◌%◌, ◌^◌, ◌≤◌, ◌<◌, min, digits, bit_and, bit_and-bitwise,
}
use mathlib.Core.Path.{◌≡◌, ap, ◌∙◌}
use native.Mathlib.Nat.{
  add-mul-mod_self_right, mod-eq_of_lt, div-add-mod, mod-lt, two-pow-succ, one-le-pow,
}
use native.Mathlib.Omega.{arith}

-- The remainder by twice `m`, from the remainder by `m` of the half.
pub mod_double : (a m : ℕ) → 0 < m → a % (m + m) ≡ a / 2 % m * 2 + a % 2
mod_double a m pos =
    let low = a / 2 % m * 2 + a % 2 in
    let below : low < m + m = omega (arith, mod-lt (a / 2) pos) in
    let split : a ≡ low + a / 2 / m * (m + m) =
      omega (arith, ap (λ (t : ℕ). t * 2) (div-add-mod (a / 2) m), div-add-mod a 2) in
    ap (λ t. t % (m + m)) split
    ∙ add-mul-mod_self_right low (a / 2 / m) (m + m)
    ∙ mod-eq_of_lt below

digits-mask : (k n a : ℕ) → a ≤ n → digits (λ b. zero) min n a (2 ^ k - 1) ≡ a % 2 ^ k
digits-mask k zero zero h = omega (arith, one-le-pow k 2)
digits-mask k zero (suc a) h = absurd (omega arith)
digits-mask k (suc n) zero h = omega (arith, one-le-pow k 2)
digits-mask zero (suc n) (suc a) h = omega (arith, digits-mask zero n (suc a / 2) (omega arith))
digits-mask (suc k) (suc n) (suc a) h =
    let double = two-pow-succ k in
    let pos = one-le-pow k 2 in
    let half : (2 ^ suc k - 1) / 2 ≡ 2 ^ k - 1 = omega arith in
    rw (half, digits-mask k n (suc a / 2) (omega arith))
      (omega (arith, mod_double (suc a) (2 ^ k) (omega arith), ap (λ (t : ℕ). suc a % t) double))

pub bit_and-mask : (k a : ℕ) → bit_and a (2 ^ k - 1) ≡ a % 2 ^ k
bit_and-mask k a = bit_and-bitwise a (2 ^ k - 1) ∙ digits-mask k a a (omega arith)
