-- ===== src/Compress/Rle/Stream.antt =====
-- The decoder of compress/rle.rs on whole streams of packets.
use decomps_agent.Prelude.{
  ℕ, zero, suc, ◌+◌, ◌-◌, ◌≤◌, ◌<◌, ◌≡◌, refl, sym, ap, ◌∙◌, arith, Option, List, [], ◌∷◌, ◌++◌,
  append-nil, append_assoc, ltb, leb, inl, inr, Bool-cases, length, take, replicate, All,
  length-append, length-take, length-replicate, take_all, take-append_long, take-take-append,
}
use decomps_agent.Compress.Decoded.{Decoded, limit_of}
use decomps_agent.Compress.Rle.{finish, decode_loop, decode}
use decomps_agent.Compress.Rle.Packets.{
  Packet, repeated, literal, IsPacket, render, expand, IsExpansion,
}
use decomps_agent.Compress.Rle.Rounds.{
  decode_round_run, decode_round_bytes, copy_literals_fits, copy_literals_cut, decode_loop_full,
  decode_loop_continue,
}

IsExpansion-full :
    (fuel : ℕ) (m : Option ℕ) (rest : List ℕ) (i : ℕ) (out more : List ℕ) (start size : ℕ)
    → limit_of m ≡ length out
    → start ≤ i
    → i ≤ start + size
    → (length (out ++ more) ≤ limit_of m → i ≡ start + size)
    → IsExpansion m (out ++ more) start size (decode_loop (suc fuel) m rest i out)
IsExpansion-full fuel m rest i out more start size e lo hi done = record {
  consumed = i;
  returns =
      rw
        (
          decode_loop_full fuel m rest i out (omega arith),
          take-append_long (limit_of m) out more (omega arith),
          take_all (limit_of m) out (omega arith),
        )
        (unfold finish in refl);
  within = (lo, hi);
  complete = done;
}

-- A result on the rest of the stream is a result on the whole of it.
IsExpansion-step :
    (m : Option ℕ) (full full' : List ℕ) (start start' size size' : ℕ) {result : Option Decoded}
    → take (limit_of m) full ≡ take (limit_of m) full'
    → (length full' ≤ limit_of m → length full ≤ limit_of m)
    → start' ≤ start
    → start + size ≡ start' + size'
    → IsExpansion m full start size result
    → IsExpansion m full' start' size' result
IsExpansion-step m full full' start start' size size' same shorter le sum r = record {
  consumed = r.consumed;
  returns = rw (← same) r.returns;
  within = omega (arith, r.within);
  complete = λ h. r.complete (shorter h) ∙ sum;
}

-- The same for a round that put out `chunk`.
IsExpansion-chunk :
    (m : Option ℕ) (out chunk more : List ℕ) (start start' size size' : ℕ) {result : Option Decoded}
    → start' ≤ start
    → start + size ≡ start' + size'
    → IsExpansion m (take (limit_of m) (out ++ chunk) ++ more) start size result
    → IsExpansion m (out ++ (chunk ++ more)) start' size' result
IsExpansion-chunk m out chunk more start start' size size' le sum r =
    IsExpansion-step m _ _ start start' size size'
      (take-take-append (limit_of m) (out ++ chunk) more
        ∙ ap (take (limit_of m)) (append_assoc out chunk more))
      (λ h. omega (
        arith,
        length-append (take (limit_of m) (out ++ chunk)) more,
        length-take (limit_of m) (out ++ chunk),
        length-append out chunk,
        length-append out (chunk ++ more),
        length-append chunk more,
        h,
      ))
      le sum r

-- The loop on a packet for which there is no room.
decode_loop_no_room :
    (fuel : ℕ) (m : Option ℕ) (rest : List ℕ) (i : ℕ) (out more : List ℕ) (size : ℕ)
    → length out ≡ limit_of m
    → 1 ≤ length more
    → IsExpansion m (out ++ more) i size (decode_loop (suc fuel) m rest i out)
decode_loop_no_room fuel m rest i out more size e some_more =
    IsExpansion-full fuel m rest i out more i size (omega arith) (omega arith) (omega arith)
      (λ h. absurd (omega (arith, length-append out more, h)))

literal_fits :
    (bytes : List ℕ) (ps : List Packet) (fuel : ℕ) (m : Option ℕ) (i : ℕ) (out : List ℕ)
    → IsPacket (literal bytes)
    → length out < limit_of m
    → length out + length bytes ≤ limit_of m
    → IsExpansion m
        ((out ++ bytes) ++ expand ps)
        (i + 1 + length bytes)
        (length (render ps))
        (decode_loop fuel m (render ps) (i + 1 + length bytes) (out ++ bytes))
    → IsExpansion m
        (out ++ (bytes ++ expand ps))
        i
        (length (render (literal bytes ∷ ps)))
        (decode_loop (suc fuel) m (render (literal bytes ∷ ps)) i out)
literal_fits bytes ps fuel m i out valid room fits r =
    rw
      (decode_loop_continue fuel m (length bytes - 1) (bytes ++ render ps) i out (render ps)
        (i + 1 + length bytes) (out ++ bytes) room
        (decode_round_bytes (limit_of m) bytes (render ps) (i + 1) out valid
          (copy_literals_fits (limit_of m) bytes (render ps) (i + 1) out fits)))
      (IsExpansion-chunk m out bytes (expand ps) (i + 1 + length bytes) i (length (render ps)) _
        (omega arith) (omega (arith, length-append bytes (render ps)))
        (rw (take_all (limit_of m) (out ++ bytes) (omega (arith, length-append out bytes))) r))

literal_cut :
    (bytes : List ℕ) (ps : List Packet) (fuel : ℕ) (m : Option ℕ) (i : ℕ) (out : List ℕ)
    → IsPacket (literal bytes)
    → length out < limit_of m
    → limit_of m < length out + length bytes
    → IsExpansion m
        (out ++ (bytes ++ expand ps))
        i
        (length (render (literal bytes ∷ ps)))
        (decode_loop (suc (suc fuel)) m (render (literal bytes ∷ ps)) i out)
literal_cut bytes ps fuel m i out valid room over =
    let whole = length-append out bytes in
    let cut = length-take (limit_of m) (out ++ bytes) in
    let (rest', i', e, lo, hi) =
      copy_literals_cut (limit_of m) bytes (render ps) (i + 1) out (omega arith) (omega arith) in
    let same : take (limit_of m) (out ++ (bytes ++ expand ps)) ≡ take (limit_of m) (out ++ bytes) =
      ap (take (limit_of m)) (sym (append_assoc out bytes (expand ps)))
      ∙ take-append_long (limit_of m) (out ++ bytes) (expand ps) (omega arith) in
    record {
      consumed = i';
      returns =
          rw
            (
              same,
              decode_loop_continue (suc fuel) m (length bytes - 1) (bytes ++ render ps) i out rest'
                  i' (take (limit_of m) (out ++ bytes)) room
                  (decode_round_bytes (limit_of m) bytes (render ps) (i + 1) out valid e),
              decode_loop_full fuel m rest' i' (take (limit_of m) (out ++ bytes)) (omega arith),
            )
            (unfold finish in refl);
      within = omega (arith, length-append bytes (render ps));
      complete = λ h. absurd (
          omega
            (arith, h, length-append out (bytes ++ expand ps), length-append bytes (expand ps)));
    }

decode_loop-render :
    (ps : List Packet) (fuel : ℕ) (m : Option ℕ) (i : ℕ) (out : List ℕ)
    → All IsPacket ps
    → length out ≤ limit_of m
    → length (render ps) < fuel
    → IsExpansion m (out ++ expand ps) i (length (render ps)) (decode_loop fuel m (render ps) i out)
decode_loop-render ps zero m i out valid le f = absurd (omega arith)
decode_loop-render [] (suc fuel) m i out valid le f = rw append-nil record {
  consumed = i;
  returns = rw (take_all (limit_of m) out le) (unfold decode_loop finish in refl);
  within = omega arith;
  complete = λ h. omega arith;
}
decode_loop-render (repeated count b ∷ ps) (suc fuel) m i out (valid, rest) le f =
    elim (Bool-cases (ltb (length out) (limit_of m))) [
      | inl room ↦
          rw
            (decode_loop_continue fuel m _ (b ∷ render ps) i out (render ps) (i + 1 + 1)
              (take (limit_of m) (out ++ replicate count b)) (ground arith)
              (decode_round_run (limit_of m) count b (render ps) (i + 1) out valid.0 valid.1 le))
            (IsExpansion-chunk m out (replicate count b) (expand ps) (i + 1 + 1) i _ _ (omega arith)
              (omega arith)
              (decode_loop-render ps fuel m (i + 1 + 1)
                (take (limit_of m) (out ++ replicate count b)) rest
                (omega (arith, length-take (limit_of m) (out ++ replicate count b))) (omega arith)))
      | inr none_left ↦
          decode_loop_no_room fuel m _ i out _ _ (ground arith)
            (omega (arith, length-append (replicate count b) (expand ps), length-replicate count b))
    ]
decode_loop-render (literal bytes ∷ ps) (suc zero) m i out (valid, rest) le f = absurd (omega arith)
decode_loop-render (literal bytes ∷ ps) (suc (suc fuel)) m i out (valid, rest) le f =
    let whole = length-append out bytes in
    let stream = length-append bytes (render ps) in
    elim (Bool-cases (ltb (length out) (limit_of m))) [
      | inr none_left ↦
          decode_loop_no_room (suc fuel) m _ i out _ _ (ground arith)
            (omega (arith, length-append bytes (expand ps)))
      | inl room ↦ elim (Bool-cases (leb (length out + length bytes) (limit_of m))) [
        | inl fits ↦ literal_fits bytes ps (suc fuel) m i out valid (ground arith) (ground arith) (
            decode_loop-render ps (suc fuel) m (i + 1 + length bytes) (out ++ bytes) rest
              (ground arith) (omega arith))
        | inr over ↦ literal_cut bytes ps fuel m i out valid (ground arith) (ground arith)
      ]
    ]

-- On a stream of packets the decoder puts out what the packets stand for, cut at the requested
-- size; `is_ok` says whether that size was reached, and the whole stream is consumed if all of
-- the expansion fits the limit.
pub decode-render :
    (ps : List Packet) (m : Option ℕ)
    → All IsPacket ps
    → IsExpansion m (expand ps) 0 (length (render ps)) (decode (render ps) m)
unfolding decode
decode-render ps m valid =
    decode_loop-render ps (length (render ps) + 1) m 0 [] valid (omega arith) (omega arith)
