-- ===== src/Compress/Rle/Encoder.antt =====
-- The encoder of compress/rle.rs and the packets it writes.
use decomps_agent.Prelude.{
  ℕ, zero, suc, ◌+◌, ◌-◌, ◌≤◌, ◌<◌, ◌≡◌, refl, ap, ◌∙◌, arith, Option, some, List, [], ◌∷◌, ◌++◌,
  append-nil, append_assoc, ◌==◌, ltb, leb, leb→le, ◌&&◌, inl, inr, Bool-cases, length, take, drop,
  replicate, All, bit_or, length-take, length-drop, take-append-drop,
}
use decomps_agent.Prelude.Bits.{bit_or_80}
use decomps_agent.Compress.Rle.{run_from, literal_count, less_one, encode_loop, encode}
use decomps_agent.Compress.Rle.Packets.{Packet, repeated, literal, IsPacket, render, expand}

-- A count that came out of `run_from`: `k` more copies of `b` stand at the front of `rest`.
record IsRun (most b : ℕ) (rest : List ℕ) (run result : ℕ) : Type 0 where
  more : ℕ
  counts : result ≡ run + more
  copies : replicate more b ++ drop more rest ≡ rest
  capped : result ≤ most

run_from-IsRun :
    (most b : ℕ) (rest : List ℕ) (run : ℕ)
    → run ≤ most
    → IsRun most b rest run (run_from most b rest run)
unfolding run_from
run_from-IsRun most b [] run h = record {
  more = 0;
  counts = omega arith;
  copies = refl;
  capped = h;
}
run_from-IsRun most b (x ∷ rest) run h = elim (Bool-cases (x == b && ltb run most)) [
  | inl goes_on ↦
      let r = run_from-IsRun most b rest (run + 1) (ground arith) in
      let same : x ≡ b = ground arith in
      rw goes_on record {
        more = suc r.more;
        counts = omega arith;
        copies = rw (r.copies, same) refl;
        capped = r.capped;
      }
  | inr stops ↦ rw stops record { more = 0; counts = omega arith; copies = refl; capped = h }
]

run_from-le :
    (b : ℕ) (rest : List ℕ) (run : ℕ) → run ≤ 3 → run_from 3 b rest run ≤ run_from 128 b rest run
unfolding run_from
run_from-le b [] run h = omega arith
run_from-le b (x ∷ rest) run h = ground (
  arith,
  run_from-le b rest (run + 1),
  (run_from-IsRun 128 b rest (run + 1) (omega arith)).counts,
)

literal_count_bounds :
    (xs : List ℕ) (lit : ℕ)
    → lit ≤ 128
    → (lit ≤ literal_count xs lit)
      × (literal_count xs lit ≤ lit + length xs)
      × (literal_count xs lit ≤ 128)
unfolding literal_count
literal_count_bounds [] lit h = omega arith
literal_count_bounds (x ∷ xs) lit h = ground (arith, literal_count_bounds xs (lit + 1))

-- Where no run of three starts, one literal at least is taken.
literal_count_pos :
    (b : ℕ) (rest : List ℕ) → run_from 128 b rest 1 < 3 → 1 ≤ literal_count (b ∷ rest) 0
unfolding literal_count
literal_count_pos b rest h = ground (arith, run_from-le b rest 1, literal_count_bounds rest 1)

-- What the encoder has written behind `out`.
pub record IsEncoding (input out : List ℕ) (result : Option (List ℕ)) : Type 0 where
  pub packets : List Packet
  pub valid : All IsPacket packets
  pub returns : result ≡ some (out ++ render packets)
  pub stands_for : expand packets ≡ input

IsEncoding-run :
    (n b : ℕ) (input out whole : List ℕ) {result : Option (List ℕ)}
    → replicate n b ++ input ≡ whole
    → IsPacket (repeated n b)
    → IsEncoding input (out ++ (bit_or 0x80 (less_one n) ∷ b ∷ [])) result
    → IsEncoding whole out result
IsEncoding-run n b input out whole joins p e = record {
  packets = repeated n b ∷ e.packets;
  valid = (p, e.valid);
  returns =
      let control : bit_or 0x80 (less_one n) ≡ 128 + (n - 1) =
        omega (arith, bit_or_80 (less_one n)) in
      e.returns
      ∙ ap some (append_assoc out (bit_or 0x80 (less_one n) ∷ b ∷ []) (render e.packets))
      ∙ rw control refl;
  stands_for = ap (λ t. replicate n b ++ t) e.stands_for ∙ joins;
}

IsEncoding-literal :
    (n : ℕ) (bytes input out whole : List ℕ) {result : Option (List ℕ)}
    → bytes ++ input ≡ whole
    → length bytes ≡ n
    → IsPacket (literal bytes)
    → IsEncoding input (out ++ (less_one n ∷ bytes)) result
    → IsEncoding whole out result
IsEncoding-literal n bytes input out whole joins size p e = record {
  packets = literal bytes ∷ e.packets;
  valid = (p, e.valid);
  returns =
      let control : less_one n ≡ length bytes - 1 = omega arith in
      e.returns
      ∙ ap some (append_assoc out (less_one n ∷ bytes) (render e.packets))
      ∙ rw control refl;
  stands_for = ap (λ t. bytes ++ t) e.stands_for ∙ joins;
}

-- A run that `run_from` counted, put back before the rest.
run_back :
    (b : ℕ) (rest : List ℕ) (n : ℕ)
    → IsRun 128 b rest 1 n
    → replicate n b ++ drop n (b ∷ rest) ≡ b ∷ rest
run_back b rest n r = let e : n ≡ suc r.more = omega arith in rw e (ap (λ t. b ∷ t) r.copies)

encode_loop-IsEncoding :
    (fuel : ℕ) (input out : List ℕ)
    → length input < fuel
    → IsEncoding input out (encode_loop fuel input out)
unfolding encode_loop
encode_loop-IsEncoding zero input out h = absurd (omega arith)
encode_loop-IsEncoding (suc fuel) [] out h = record {
  packets = [];
  valid = tt;
  returns = rw append-nil refl;
  stands_for = refl;
}
encode_loop-IsEncoding (suc fuel) (b ∷ rest) out h =
    let run = run_from 128 b rest 1 in
    let counted = run_from-IsRun 128 b rest 1 (omega arith) in
    let lit = literal_count (b ∷ rest) 0 in
    let taken = length-take lit (b ∷ rest) in
    let bounds = literal_count_bounds (b ∷ rest) 0 (omega arith) in
    elim (Bool-cases (leb 3 run)) [
      | inl long ↦
          rw (long, encode_loop)
            (IsEncoding-run run b (drop run (b ∷ rest)) out (b ∷ rest) (run_back b rest run counted)
              (ground arith)
              (encode_loop-IsEncoding fuel (drop run (b ∷ rest)) _
                (omega (arith, length-drop run (b ∷ rest), leb→le 3 run long))))
      | inr short ↦
          rw (short, encode_loop)
            (let pos = literal_count_pos b rest (ground arith) in
              IsEncoding-literal lit (take lit (b ∷ rest)) (drop lit (b ∷ rest)) out (b ∷ rest)
                (take-append-drop lit (b ∷ rest)) (omega arith) (omega arith)
                (encode_loop-IsEncoding fuel (drop lit (b ∷ rest)) _
                  (omega (arith, length-drop lit (b ∷ rest)))))
    ]

-- The encoder returns, and what it returns is a stream of packets that stands for its input.
pub encode-IsEncoding : (input : List ℕ) → IsEncoding input [] (encode input)
unfolding encode
encode-IsEncoding input = encode_loop-IsEncoding (length input + 1) input [] (omega arith)
