-- ===== src/Compress/Decoded.antt =====
-- tools/nesrom/src/compress/mod.rs: the result of a decoder, and the output limit.
use decomps_agent.Prelude.{ℕ, ◌-◌, ◌^◌, Bool, List, Option, none, some, length, leb, true, false}

pub record Decoded : Type 0 where
  pub data_out : List ℕ
  pub consumed : ℕ
  pub is_ok : Bool

abbrev pub usize_max : ℕ
usize_max = 2 ^ 64 - 1

-- `max_out.unwrap_or(usize::MAX)`
abbrev pub limit_of : Option ℕ → ℕ
limit_of none = usize_max
limit_of (some m) = m

-- `max_out.map(|m| out.len() >= m).unwrap_or(true)`
abbrev pub reached : Option ℕ → List ℕ → Bool
reached none out = true
reached (some m) out = leb m (length out)

-- How a decoder's run ends: with its result, or with a panic on an index out of range.
-- `out_of_fuel` is the model's own.
pub data Exit : Type 0 where
  finished : Decoded → Exit
  panicked : Exit
  out_of_fuel : Exit

-- What a part of the loop does: go on with the bytes left, their position and the output; leave the
-- loop with them; return from the function; or panic.
pub data Step : Type 0 where
  go_on : List ℕ → ℕ → List ℕ → Step
  leave : List ℕ → ℕ → List ℕ → Step
  give_back : Decoded → Step
  panic_at : Step

-- The end of a copy out of the output itself.
abbrev pub copied : Option (List ℕ) → List ℕ → ℕ → Step
copied none rest i = panic_at
copied (some out) rest i = go_on rest i out

-- A return in the middle of the input.
abbrev pub truncated : ℕ → List ℕ → Step
truncated i out = give_back (record { data_out = out; consumed = i; is_ok = false })
