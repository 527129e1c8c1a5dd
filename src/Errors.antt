-- ===== src/Errors.antt =====
-- The `anyhow` errors of tools/nesrom/src, one constructor for each message, and results with `do`.
-- `panic` is no error value of the code: it is an index or a slice out of range.
use Prim.Native.Nat.{ℕ}
use mathlib.Core.Bool.{Bool, true, false}

pub data Error : Type 0 where
  not_ines : Error
  prg_too_short : ℕ → ℕ → Error
  chr_too_short : ℕ → Error
  unsupported_mapper : ℕ → Error
  not_prg_space : ℕ → Error
  bank_out_of_range : ℕ → ℕ → ℕ → Error
  not_mapped : ℕ → Error
  panic : Error

pub data Result {ℓ} (T : Type ℓ) : Type ℓ where
  err : Error → Result T
  ok : T → Result T

infixl 5 ◌>>=◌ ◌>>◌
abbrev pub ◌>>=◌ {ℓ κ} : {T : Type ℓ} {U : Type κ} → Result T → (T → Result U) → Result U
err message >>= next = err message
ok value >>= next = next value

abbrev pub ◌>>◌ {ℓ} : {U : Type ℓ} → Result (Unit {0}) → Result U → Result U
check >> rest = check >>= λ _. rest

-- `if b { bail!(e) }`
abbrev pub bail_if : Bool → Error → Result (Unit {0})
bail_if true e = err e
bail_if false e = ok tt
