-- ===== src/Compress/Dispatch.antt =====
-- tools/nesrom/src/compress/mod.rs: the choice of a decoder by its name. Scripts run by another engine,
-- which is a parameter; so is what it does with a path.
pub mod Bounds
use Prim.Native.String.{String, slice, len}
use text.Mathlib.Text.{starts_with, ◌==◌ as ◌===◌}
use decomps_agent.Prelude.{
  ℕ, ◌/◌, Bool, true, false, ◌||◌, if◌then◌else◌, min, List, Option, none, some, length, take,
}
use decomps_agent.Compress.Decoded.{Decoded, Exit, finished, out_of_fuel}
use decomps_agent.Compress.Rle
use decomps_agent.Compress.Lz
use decomps_agent.Compress.Pb53

-- A decoder's run, or the error of an unknown name.
pub data Outcome : Type 0 where
  ran : Exit → Outcome
  unknown_decoder : String → Outcome

-- `max_out.unwrap_or(input.len()).min(input.len())`
abbrev raw_len : Option ℕ → ℕ → ℕ
raw_len none all = all
raw_len (some m) all = min m all

abbrev pub raw : List ℕ → Option ℕ → Exit
raw input max_out =
    let n = raw_len max_out (length input) in
    finished (record { data_out = take n input; consumed = n; is_ok = true })

abbrev pub returned : Option Decoded → Exit
returned none = out_of_fuel
returned (some d) = finished d

-- `max_out.map(|n| n / 16)`
abbrev pub in_tiles : Option ℕ → Option ℕ
in_tiles none = none
in_tiles (some n) = some (n / 16)

-- `script` stands for `script::decode`.
unfoldable pub decode :
    (String → List ℕ → Option ℕ → Outcome) → String → List ℕ → Option ℕ → Outcome
decode script name input max_out =
    if starts_with name "script:"
    then script (slice name 7 (len name)) input max_out
    else if name === "raw"
    then ran (raw input max_out)
    else if name === "rle"
    then ran (returned (Rle.decode input max_out))
    else if name === "pb53"
    then ran (Pb53.decode input (in_tiles max_out))
    else if name === "lz"
    then ran (Lz.decode input max_out)
    else unknown_decoder name

unfoldable pub is_known : String → Bool
is_known name =
    starts_with name "script:"
    || (name === "raw" || (name === "rle" || (name === "pb53" || name === "lz")))
