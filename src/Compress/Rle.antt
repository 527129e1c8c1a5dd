-- ===== src/Compress/Rle.antt =====
-- tools/nesrom/src/compress/rle.rs: the decoder and the reference encoder.
-- The cursor `i` over the input is the list of the bytes that are left, beside the count `i`.
pub mod Packets
pub mod Rounds
pub mod Stream
pub mod Encoder
pub mod RoundTrip
pub mod Safety
use decomps_agent.Prelude.{
  ℕ, zero, suc, ◌+◌, ◌-◌, ◌%◌, bit_and, bit_or, Option, none, some, List, [], ◌∷◌, ◌++◌, true,
  false, ◌&&◌, ltb, leb, ◌==◌, ◌!=◌, if◌then◌else◌, length, take, drop,
}
use decomps_agent.Compress.Decoded.{Decoded, limit_of, reached}

-- What one round of the loop does: go on with the bytes left, their position and the output, or
-- return from the function.
pub data Round : Type 0 where
  continue : List ℕ → ℕ → List ℕ → Round
  return : Decoded → Round

-- `for _ in 0..count { if out.len() >= limit { break; } out.push(b); }`
pub repeat_push : ℕ → ℕ → ℕ → List ℕ → List ℕ
repeat_push zero limit b out = out
repeat_push (suc count) limit b out =
    let more = repeat_push count limit b (out ++ (b ∷ [])) in
    if leb limit (length out) then out else more

-- The branch of a repeat packet, from the test of `i` on.
pub repeat_packet : ℕ → ℕ → List ℕ → ℕ → List ℕ → Round
repeat_packet count limit [] i out = return (record { data_out = out; consumed = i; is_ok = false })
repeat_packet count limit (b ∷ rest) i out = continue rest (i + 1) (repeat_push count limit b out)

-- The `for` loop of a literal packet: the test of `i`, then the test of the limit.
pub copy_literals : ℕ → ℕ → List ℕ → ℕ → List ℕ → Round
copy_literals zero limit rest i out = continue rest i out
copy_literals (suc count) limit [] i out =
    return (record { data_out = out; consumed = i; is_ok = false })
copy_literals (suc count) limit (x ∷ rest) i out =
    let more = copy_literals count limit rest (i + 1) (out ++ (x ∷ [])) in
    if leb limit (length out) then continue (x ∷ rest) i out else more

-- One round on the control byte `n`; `i` is the position behind it.
pub decode_round : ℕ → ℕ → List ℕ → ℕ → List ℕ → Round
decode_round limit n rest i out =
    if bit_and n 0x80 != 0
    then repeat_packet (bit_and n 0x7f + 1) limit rest i out
    else copy_literals (n + 1) limit rest i out

pub finish : Option ℕ → ℕ → List ℕ → Decoded
finish max_out i out = record { data_out = out; consumed = i; is_ok = reached max_out out }

-- The `while` loop; `none` means that the fuel ran out.
pub decode_loop : ℕ → Option ℕ → List ℕ → ℕ → List ℕ → Option Decoded
decode_loop zero max_out input i out = none
decode_loop (suc fuel) max_out [] i out = some (finish max_out i out)
decode_loop (suc fuel) max_out (n ∷ rest) i out = elim (ltb (length out) (limit_of max_out)) [
  | true ↦ elim (decode_round (limit_of max_out) n rest (i + 1) out) [
    | continue rest' i' out' ↦ decode_loop fuel max_out rest' i' out'
    | return d ↦ some d
  ]
  | false ↦ some (finish max_out i out)
]

-- Each round takes the control byte at least.
pub decode : List ℕ → Option ℕ → Option Decoded
decode input max_out = decode_loop (length input + 1) max_out input 0 []

-- `while i + run < input.len() && input[i + run] == b && run < cap { run += 1; }`; the list is
-- what follows position `i + run`.
pub run_from : ℕ → ℕ → List ℕ → ℕ → ℕ
run_from cap b [] run = run
run_from cap b (x ∷ rest) run =
    let more = run_from cap b rest (run + 1) in if x == b && ltb run cap then more else run

-- `while i < input.len() && lit < 128`: stops before a run of three.
pub literal_count : List ℕ → ℕ → ℕ
literal_count [] lit = lit
literal_count (x ∷ rest) lit =
    let more = literal_count rest (lit + 1) in
    if ltb lit 128 then (if leb 3 (run_from 3 x rest 1) then lit else more) else lit

-- `(n as u8) - 1`, with the wrap of 8 bits.
abbrev pub less_one : ℕ → ℕ
less_one n = (n % 256 + 255) % 256

pub encode_loop : ℕ → List ℕ → List ℕ → Option (List ℕ)
encode_loop zero input out = none
encode_loop (suc fuel) [] out = some out
encode_loop (suc fuel) (b ∷ rest) out =
    let run = run_from 128 b rest 1 in
    let lit = literal_count (b ∷ rest) 0 in
    elim (leb 3 run) [
      | true ↦ encode_loop fuel (drop run (b ∷ rest)) (out ++ (bit_or 0x80 (less_one run) ∷ b ∷ []))
      | false ↦ encode_loop fuel (drop lit (b ∷ rest)) (out ++ (less_one lit ∷ take lit (b ∷ rest)))
    ]

pub encode : List ℕ → Option (List ℕ)
encode input = encode_loop (length input + 1) input []
