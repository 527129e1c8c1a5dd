-- ===== src/Compress/Rle/Rounds.antt =====
-- One round of the decoder's loop on one packet of compress/rle.rs.
use decomps_agent.Prelude.{
  ℕ, zero, suc, ◌+◌, ◌-◌, ◌≤◌, ◌<◌, ◌≡◌, refl, sym, ap, ◌∙◌, arith, Option, some, List, [], ◌∷◌,
  ◌++◌, append-nil, leb, inl, inr, Bool-cases, length, take, replicate, length-append, take_all,
  take-append_long, append_cons,
}
use decomps_agent.Prelude.Bits.{bit_and_7f, bit_and_80}
use decomps_agent.Compress.Decoded.{limit_of}
use decomps_agent.Compress.Rle.{
  Round, continue, repeat_push, repeat_packet, copy_literals, decode_round, finish, decode_loop,
}
use decomps_agent.Compress.Rle.Packets.{literal, IsPacket}

repeat_push_lem :
    (count limit b : ℕ) (out : List ℕ)
    → length out ≤ limit
    → repeat_push count limit b out ≡ take limit (out ++ replicate count b)
unfolding repeat_push
repeat_push_lem zero limit b out h = rw append-nil (sym (take_all limit out h))
repeat_push_lem (suc count) limit b out h = elim (Bool-cases (leb limit (length out))) [
  | inl full ↦ rw full (sym (take-append_long limit out _ (ground arith) ∙ take_all limit out h))
  | inr more ↦ rw more (
      repeat_push_lem count limit b (out ++ (b ∷ [])) (ground (arith, length-append out (b ∷ [])))
      ∙ ap (take limit) (append_cons out b (replicate count b)))
]

-- A literal packet that fits is copied whole.
pub copy_literals_fits :
    (limit : ℕ) (bytes rest : List ℕ) (i : ℕ) (out : List ℕ)
    → length out + length bytes ≤ limit
    → copy_literals (length bytes) limit (bytes ++ rest) i out
      ≡ continue rest (i + length bytes) (out ++ bytes)
unfolding copy_literals
copy_literals_fits limit [] rest i out h = ground (arith, append-nil out)
copy_literals_fits limit (x ∷ bytes) rest i out h = ground (
  arith,
  length-append out (x ∷ []),
  append_cons out x bytes,
  copy_literals_fits limit bytes rest (i + 1) (out ++ (x ∷ [])),
)

-- One that does not is copied up to the limit, and the cursor stays inside the packet.
pub copy_literals_cut :
    (limit : ℕ) (bytes rest : List ℕ) (i : ℕ) (out : List ℕ)
    → length out ≤ limit
    → limit ≤ length out + length bytes
    → (rest' : List ℕ) × (i' : ℕ) × (copy_literals (length bytes) limit (bytes ++ rest) i out
        ≡ continue rest' i' (take limit (out ++ bytes)))
      × (i ≤ i')
      × (i' ≤ i + length bytes)
unfolding copy_literals
copy_literals_cut limit [] rest i out h k = (
  rest,
  i,
  rw append-nil (ap (continue rest i) (sym (take_all limit out h))),
  omega arith,
  omega arith,
)
copy_literals_cut limit (x ∷ bytes) rest i out h k = elim (Bool-cases (leb limit (length out))) [
  | inl full ↦ (
    x ∷ (bytes ++ rest),
    i,
    rw full (
        ap (continue (x ∷ (bytes ++ rest)) i)
          (sym (take-append_long limit out _ (ground arith) ∙ take_all limit out h))),
    omega arith,
    omega arith,
  )
  | inr more ↦
      let longer = length-append out (x ∷ []) in
      let (rest', i', e, lo, hi) =
        copy_literals_cut limit bytes rest (i + 1) (out ++ (x ∷ [])) (ground arith)
          (ground arith) in
      (rest', i', rw (more, e, append_cons out x bytes) refl, omega arith, omega arith)
]

pub decode_round_run :
    (limit count b : ℕ) (rest : List ℕ) (i : ℕ) (out : List ℕ)
    → 1 ≤ count
    → count ≤ 128
    → length out ≤ limit
    → decode_round limit (128 + (count - 1)) (b ∷ rest) i out
      ≡ continue rest (i + 1) (take limit (out ++ replicate count b))
unfolding decode_round repeat_packet
decode_round_run limit count b rest i out lo hi h = ground (
  arith,
  bit_and_80 (128 + (count - 1)),
  bit_and_7f (128 + (count - 1)),
  repeat_push_lem count limit b out,
)

decode_round_literal :
    (limit n : ℕ) (rest : List ℕ) (i : ℕ) (out : List ℕ)
    → n < 128
    → decode_round limit n rest i out ≡ copy_literals (n + 1) limit rest i out
unfolding decode_round
decode_round_literal limit n rest i out h = ground (arith, bit_and_80 n)

-- The loop stops as soon as the limit is reached.
pub decode_loop_full :
    (fuel : ℕ) (m : Option ℕ) (rest : List ℕ) (i : ℕ) (out : List ℕ)
    → limit_of m ≤ length out
    → decode_loop (suc fuel) m rest i out ≡ some (finish m i out)
unfolding decode_loop
decode_loop_full fuel m [] i out h = refl
decode_loop_full fuel m (n ∷ rest) i out h = ground arith

pub decode_loop_continue :
    (fuel : ℕ) (m : Option ℕ) (n : ℕ) (rest : List ℕ) (i : ℕ) (out rest' : List ℕ) (i' : ℕ)
    (out' : List ℕ)
    → length out < limit_of m
    → decode_round (limit_of m) n rest (i + 1) out ≡ continue rest' i' out'
    → decode_loop (suc fuel) m (n ∷ rest) i out ≡ decode_loop fuel m rest' i' out'
unfolding decode_loop
decode_loop_continue fuel m n rest i out rest' i' out' h e = ground arith

-- The control byte of a literal packet makes the round copy its bytes.
pub decode_round_bytes :
    (limit : ℕ) (bytes rest : List ℕ) (i : ℕ) (out : List ℕ) {r : Round}
    → IsPacket (literal bytes)
    → copy_literals (length bytes) limit (bytes ++ rest) i out ≡ r
    → decode_round limit (length bytes - 1) (bytes ++ rest) i out ≡ r
decode_round_bytes limit bytes rest i out valid e =
    let same : length bytes - 1 + 1 ≡ length bytes = omega arith in
    rw (decode_round_literal limit (length bytes - 1) (bytes ++ rest) i out (omega arith), same) e
