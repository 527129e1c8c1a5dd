-- ===== src/Compress/Lz.antt =====
-- tools/nesrom/src/compress/lz.rs: the decoder of the LZSS variant.
-- The cursor `i` over the input is the list of the bytes that are left, beside the count `i`.
pub mod Safety
pub mod Window
pub mod Encode
use decomps_agent.Prelude.{
  ℕ, zero, suc, ◌+◌, ◌-◌, ◌*◌, ◌^◌, bit_and, bit_or, Bool, true, false, Option, none, some, ◌>>=◌,
  List, [], ◌∷◌, ◌++◌, ltb, leb, ◌!=◌, if◌then◌else◌, length, get_elem?,
}
use decomps_agent.Compress.Decoded.{
  Decoded, Exit, finished, panicked, out_of_fuel, Step, go_on, leave, give_back, panic_at, copied,
  truncated, limit_of, reached,
}

-- `for k in 0..len { if out.len() >= limit { break; } let b = out[start + k]; out.push(b); }`, with
-- `from` for `start + k`; `none` is an index out of range.
unfoldable pub copy_back : ℕ → ℕ → ℕ → List ℕ → Option (List ℕ)
copy_back zero limit from out = some out
copy_back (suc count) limit from out = elim (leb limit (length out)) [
  | true ↦ some out
  | false ↦ get_elem? out from >>= λ b. copy_back count limit (from + 1) (out ++ (b ∷ []))
]

abbrev pub offset_of : ℕ → ℕ → ℕ
offset_of lo hi = bit_or (bit_and hi 0xf0 * 2 ^ 4) lo + 1

abbrev pub count_of : ℕ → ℕ
count_of hi = bit_and hi 0x0f + 3

-- One item whose first byte is given: a literal under a set flag, else a back-reference.
unfoldable pub decode_item : Bool → ℕ → ℕ → List ℕ → ℕ → List ℕ → Step
decode_item true limit x rest i out = go_on rest (i + 1) (out ++ (x ∷ []))
decode_item false limit lo [] i out = truncated i out
decode_item false limit lo (hi ∷ rest) i out =
    let offset = offset_of lo hi in
    if ltb (length out) offset
    then truncated (i + 2) out
    else copied (copy_back (count_of hi) limit (length out - offset) out) rest (i + 2)

-- `for bit in (0..8).rev()`: the bits `0 .. n` are still to be looked at.
unfoldable pub decode_items : ℕ → ℕ → ℕ → List ℕ → ℕ → List ℕ → Step
decode_items zero flags limit rest i out = go_on rest i out
decode_items (suc bit) flags limit [] i out = leave [] i out
decode_items (suc bit) flags limit (x ∷ rest) i out = elim (leb limit (length out)) [
  | true ↦ leave (x ∷ rest) i out
  | false ↦ elim (decode_item (bit_and flags (2 ^ bit) != 0) limit x rest i out) [
    | go_on rest' i' out' ↦ decode_items bit flags limit rest' i' out'
    | leave rest' i' out' ↦ leave rest' i' out'
    | give_back d ↦ give_back d
    | panic_at ↦ panic_at
  ]
]

abbrev pub finish : Option ℕ → ℕ → List ℕ → Decoded
finish max_out i out = record { data_out = out; consumed = i; is_ok = reached max_out out }

-- The `while` loop.
unfoldable pub decode_loop : ℕ → Option ℕ → List ℕ → ℕ → List ℕ → Exit
decode_loop zero max_out input i out = out_of_fuel
decode_loop (suc fuel) max_out [] i out = finished (finish max_out i out)
decode_loop (suc fuel) max_out (flags ∷ rest) i out = elim (ltb (length out) (limit_of max_out)) [
  | true ↦ elim (decode_items 8 flags (limit_of max_out) rest (i + 1) out) [
    | go_on rest' i' out' ↦ decode_loop fuel max_out rest' i' out'
    | leave rest' i' out' ↦ finished (finish max_out i' out')
    | give_back d ↦ finished d
    | panic_at ↦ panicked
  ]
  | false ↦ finished (finish max_out i out)
]

-- Each round takes the flag byte at least.
unfoldable pub decode : List ℕ → Option ℕ → Exit
decode input max_out = decode_loop (length input + 1) max_out input 0 []
