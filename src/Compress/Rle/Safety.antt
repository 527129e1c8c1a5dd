-- ===== src/Compress/Rle/Safety.antt =====
-- compress/rle.rs on any input, well formed or not.
use decomps_agent.Prelude.{
  ℕ, zero, suc, ◌+◌, ◌≤◌, ◌<◌, ◌≡◌, inl, inr, refl, arith, Option, some, List, [], ◌∷◌, ◌++◌, false,
  length, length-append, append_cons, append-nil, ltb, leb, Bool-cases, ◌!=◌, bit_and,
}
use decomps_agent.Prelude.Bits.{bit_and_80}
use decomps_agent.Compress.Decoded.{Decoded, limit_of}
use decomps_agent.Compress.Rle.{
  Round, continue, return, repeat_push, repeat_packet, copy_literals, decode_round, finish,
  decode_loop, decode,
}

-- What a round may do to a cursor at position `i` with `left` bytes behind it.
abbrev RoundInBounds : ℕ → ℕ → ℕ → Round → Type 0
RoundInBounds limit i left (continue rest i' out) =
    (length out ≤ limit) × (length rest ≤ left) × (i' + length rest ≡ i + left)
RoundInBounds limit i left (return d) =
    (length d.data_out ≤ limit) × (i ≤ d.consumed) × (d.consumed ≤ i + left) × (d.is_ok ≡ false)

repeat_push-le :
    (count limit b : ℕ) (out : List ℕ)
    → length out ≤ limit
    → length (repeat_push count limit b out) ≤ limit
unfolding repeat_push
repeat_push-le zero limit b out h = h
repeat_push-le (suc count) limit b out h =
    ground (arith, length-append out (b ∷ []), repeat_push-le count limit b (out ++ (b ∷ [])))

RoundInBounds-more :
    (limit i left : ℕ) (r : Round)
    → RoundInBounds limit (i + 1) left r
    → RoundInBounds limit i (suc left) r
RoundInBounds-more limit i left (continue rest i' out) h = omega arith
RoundInBounds-more limit i left (return d) (a, b, c, e) = (a, omega arith, omega arith, e)

copy_literals-InBounds :
    (count limit : ℕ) (rest : List ℕ) (i : ℕ) (out : List ℕ)
    → length out ≤ limit
    → RoundInBounds limit i (length rest) (copy_literals count limit rest i out)
unfolding copy_literals
copy_literals-InBounds zero limit rest i out h = omega arith
copy_literals-InBounds (suc count) limit [] i out h = ground arith
copy_literals-InBounds (suc count) limit (x ∷ rest) i out h =
    elim (Bool-cases (leb limit (length out))) [
      | inl full ↦ rw full (omega arith)
      | inr room ↦ rw room (
          RoundInBounds-more limit i (length rest) _ (
            copy_literals-InBounds count limit rest (i + 1) (out ++ (x ∷ []))
              (ground (arith, length-append out (x ∷ [])))))
    ]

decode_round-InBounds :
    (limit n : ℕ) (rest : List ℕ) (i : ℕ) (out : List ℕ)
    → length out ≤ limit
    → RoundInBounds limit i (length rest) (decode_round limit n rest i out)
unfolding decode_round
decode_round-InBounds limit n rest i out h = elim (Bool-cases (bit_and n 0x80 != 0)) [
  | inl repeats ↦ rw repeats (of_repeat rest)
  | inr copies ↦ rw copies (copy_literals-InBounds (n + 1) limit rest i out h)
]
  where
    of_repeat :
        (rest' : List ℕ)
        → RoundInBounds limit i
            (length rest')
            (repeat_packet (bit_and n 0x7f + 1) limit rest' i out)
    of_repeat [] = unfold repeat_packet in ground arith
    of_repeat (b ∷ rest') =
        unfold repeat_packet in omega (arith, repeat_push-le (bit_and n 0x7f + 1) limit b out h)

-- The decoder returned, within the limit and within its input.
abbrev pub ReturnsInBounds : Option ℕ → ℕ → ℕ → Option Decoded → Type 0
ReturnsInBounds m i left result =
    (d : Decoded) × (result ≡ some d)
    × (length d.data_out ≤ limit_of m)
    × (i ≤ d.consumed)
    × (d.consumed ≤ i + left)

decode_loop_total :
    (fuel : ℕ) (m : Option ℕ) (input : List ℕ) (i : ℕ) (out : List ℕ)
    → length out ≤ limit_of m
    → length input < fuel
    → ReturnsInBounds m i (length input) (decode_loop fuel m input i out)
unfolding decode_loop
decode_loop_total zero m input i out le f = absurd (omega arith)
decode_loop_total (suc fuel) m [] i out le f = (
  finish m i out,
  refl,
  unfold finish in le,
  unfold finish in omega arith,
  unfold finish in omega arith,
)
decode_loop_total (suc fuel) m (n ∷ rest) i out le f =
    elim (Bool-cases (ltb (length out) (limit_of m))) [
      | inr full ↦ (
        finish m i out,
        rw (full, decode_loop) refl,
        unfold finish in le,
        unfold finish in omega arith,
        unfold finish in omega arith,
      )
      | inl room ↦
          rw (room, decode_loop)
            (after (decode_loop_total fuel m) (decode_round (limit_of m) n rest (i + 1) out)
              (decode_round-InBounds (limit_of m) n rest (i + 1) out le))
    ]
  where
    after :
        ((input : List ℕ) (i : ℕ) (out : List ℕ)
          → length out ≤ limit_of m
          → length input < fuel
          → ReturnsInBounds m i (length input) (decode_loop fuel m input i out))
        → (r : Round) → RoundInBounds (limit_of m) (i + 1) (length rest) r
        → ReturnsInBounds m i (suc (length rest)) (elim r [
          | continue rest' i' out' ↦ decode_loop fuel m rest' i' out'
          | return d ↦ some d
        ])
    after total (continue rest' i' out') (a, b, c) =
        let (d, e, p, q, r) = total rest' i' out' a (omega arith) in
        (d, e, p, omega arith, omega arith)
    after total (return d) (a, b, c, e) = (d, refl, a, omega arith, omega arith)

-- On every input and for every limit the decoder returns; it puts out no more than the limit and
-- consumes no more than its input.
pub decode_total :
    (input : List ℕ) (m : Option ℕ) → ReturnsInBounds m 0 (length input) (decode input m)
unfolding decode
decode_total input m = decode_loop_total (length input + 1) m input 0 [] (omega arith) (omega arith)

copy_literals_short :
    (count limit : ℕ) (bytes : List ℕ) (i : ℕ) (out : List ℕ)
    → length bytes < count
    → length out + length bytes ≤ limit
    → copy_literals count limit bytes i out
      ≡ return (record { data_out = out ++ bytes; consumed = i + length bytes; is_ok = false })
unfolding copy_literals
copy_literals_short zero limit bytes i out h k = absurd (omega arith)
copy_literals_short (suc count) limit [] i out h k = ground (arith, append-nil out)
copy_literals_short (suc count) limit (x ∷ bytes) i out h k = ground (
  arith,
  length-append out (x ∷ []),
  append_cons out x bytes,
  copy_literals_short count limit bytes (i + 1) (out ++ (x ∷ [])),
)

-- A literal packet announces `n + 1` bytes and the input ends before them, but not before the
-- requested size: the decoder has put out exactly as many bytes as were requested, and still
-- reports `is_ok = false`.
pub decode_literal_short :
    (n x : ℕ) (bytes : List ℕ)
    → n < 128
    → length bytes < n
    → decode (n ∷ x ∷ bytes) (some (suc (length bytes)))
      ≡ some (record { data_out = x ∷ bytes; consumed = length bytes + 2; is_ok = false })
unfolding decode decode_loop decode_round
decode_literal_short n x bytes h k =
    ground (arith, bit_and_80 n, copy_literals_short (n + 1) (suc (length bytes)) (x ∷ bytes) 1 [])
