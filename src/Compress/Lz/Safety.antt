-- ===== src/Compress/Lz/Safety.antt =====
-- compress/lz.rs on any input: end, indices and limit.
use decomps_agent.Prelude.{
  ℕ, zero, suc, ◌+◌, ◌-◌, ◌≤◌, ◌<◌, ◌≡◌, inl, inr, refl, sym, arith, Bool, true, false, Option,
  some, List, [], ◌∷◌, ◌++◌, length, length-append, get_elem?-some, ltb, leb, Bool-cases, ◌!=◌,
  bit_and, ◌^◌,
}
use decomps_agent.Compress.Decoded.{
  Decoded, Exit, finished, panicked, Step, go_on, leave, give_back, panic_at, copied, limit_of,
}
use decomps_agent.Compress.Lz.{
  copy_back, offset_of, count_of, decode_item, decode_items, finish, decode_loop, decode,
}

-- What a part of the loop may do to a cursor that has `left` bytes and ends at position `last`.
abbrev pub StepInBounds : ℕ → ℕ → ℕ → Step → Type 0
StepInBounds limit last left (go_on rest i out) =
    (length out ≤ limit) × (length rest ≤ left) × (i + length rest ≡ last)
StepInBounds limit last left (leave rest i out) = (length out ≤ limit) × (i ≤ last)
StepInBounds limit last left (give_back d) = (length d.data_out ≤ limit) × (d.consumed ≤ last)
StepInBounds limit last left panic_at = ⊥

StepInBounds-more :
    (limit last a b : ℕ) (s : Step)
    → a ≤ b
    → StepInBounds limit last a s
    → StepInBounds limit last b s
StepInBounds-more limit last a b (go_on rest i out) le h = omega arith
StepInBounds-more limit last a b (leave rest i out) le h = h
StepInBounds-more limit last a b (give_back d) le h = h
StepInBounds-more limit last a b panic_at le h = h

-- A copy from inside the output never reads behind its end, though the end moves.
copy_back_total :
    (count limit from : ℕ) (out : List ℕ)
    → from < length out
    → length out ≤ limit
    → (out' : List ℕ) × (copy_back count limit from out ≡ some out') × (length out' ≤ limit)
unfolding copy_back
copy_back_total zero limit from out h le = (out, refl, le)
copy_back_total (suc count) limit from out h le = elim (Bool-cases (leb limit (length out))) [
  | inl full ↦ rw (full, copy_back) (out, refl, le)
  | inr room ↦
      let (b, e) = get_elem?-some out from h in
      let longer = length-append out (b ∷ []) in
      rw (room, copy_back, e)
        (copy_back_total count limit (from + 1) (out ++ (b ∷ [])) (omega arith) (ground arith))
]

copied-InBounds :
    (limit last left : ℕ) (copy : Option (List ℕ)) (out : List ℕ) (rest : List ℕ) (i : ℕ)
    → copy ≡ some out
    → length out ≤ limit
    → length rest ≤ left
    → i + length rest ≡ last
    → StepInBounds limit last left (copied copy rest i)
copied-InBounds limit last left copy out rest i e h k l = rw e (h, k, l)

decode_item-InBounds :
    (flag : Bool) (limit x : ℕ) (rest : List ℕ) (i : ℕ) (out : List ℕ)
    → length out < limit
    → StepInBounds limit (i + 1 + length rest) (length rest) (decode_item flag limit x rest i out)
unfolding decode_item
decode_item-InBounds true limit x rest i out h = omega (arith, length-append out (x ∷ []))
decode_item-InBounds false limit x [] i out h = omega arith
decode_item-InBounds false limit x (hi ∷ rest) i out h =
    elim (Bool-cases (ltb (length out) (offset_of x hi))) [
      | inl far ↦ rw far (omega arith, omega arith)
      | inr near ↦
          let (out', e, le) =
            copy_back_total (count_of hi) limit (length out - offset_of x hi) out (ground arith)
              (omega arith) in
          rw near (
            copied-InBounds limit (i + 1 + suc (length rest)) (suc (length rest)) _ out' rest
              (i + 2) e le (omega arith) (omega arith))
    ]

decode_items-InBounds :
    (bit flags limit : ℕ) (rest : List ℕ) (i : ℕ) (out : List ℕ)
    → length out ≤ limit
    → StepInBounds limit (i + length rest) (length rest) (decode_items bit flags limit rest i out)
unfolding decode_items
decode_items-InBounds zero flags limit rest i out h = (h, omega arith, refl)
decode_items-InBounds (suc bit) flags limit [] i out h = (h, omega arith)
decode_items-InBounds (suc bit) flags limit (x ∷ rest) i out h =
    elim (Bool-cases (leb limit (length out))) [
      | inl full ↦ rw (full, decode_items) (h, omega arith)
      | inr room ↦
          rw (room, decode_items)
            (after (decode_items-InBounds bit flags limit)
              (decode_item (bit_and flags (2 ^ bit) != 0) limit x rest i out)
              (decode_item-InBounds (bit_and flags (2 ^ bit) != 0) limit x rest i out
                (ground arith)))
    ]
  where
    after :
        ((rest : List ℕ) (i : ℕ) (out : List ℕ)
          → length out ≤ limit
          → StepInBounds limit
              (i + length rest)
              (length rest)
              (decode_items bit flags limit rest i out))
        → (s : Step) → StepInBounds limit (i + 1 + length rest) (length rest) s
        → StepInBounds limit (i + suc (length rest)) (suc (length rest)) (elim s [
          | go_on rest' i' out' ↦ decode_items bit flags limit rest' i' out'
          | leave rest' i' out' ↦ leave rest' i' out'
          | give_back d ↦ give_back d
          | panic_at ↦ panic_at
        ])
    after rec (go_on rest' i' out') (a, b, c) =
        let same : i' + length rest' ≡ i + suc (length rest) = omega arith in
        rw (sym same) (
          StepInBounds-more limit (i' + length rest') (length rest') (suc (length rest)) _
            (omega arith) (rec rest' i' out' a))
    after rec (leave rest' i' out') (a, b) = (a, omega arith)
    after rec (give_back d) (a, b) = (a, omega arith)
    after rec panic_at h = h

-- The decoder returned, within the limit and within its input.
abbrev pub EndsInBounds : ℕ → ℕ → Exit → Type 0
EndsInBounds limit last exit =
    (d : Decoded) × (exit ≡ finished d) × (length d.data_out ≤ limit) × (d.consumed ≤ last)

decode_loop-InBounds :
    (fuel : ℕ) (m : Option ℕ) (input : List ℕ) (i : ℕ) (out : List ℕ)
    → length out ≤ limit_of m
    → length input < fuel
    → EndsInBounds (limit_of m) (i + length input) (decode_loop fuel m input i out)
unfolding decode_loop
decode_loop-InBounds zero m input i out le f = absurd (omega arith)
decode_loop-InBounds (suc fuel) m [] i out le f = (finish m i out, refl, le, omega arith)
decode_loop-InBounds (suc fuel) m (flags ∷ rest) i out le f =
    elim (Bool-cases (ltb (length out) (limit_of m))) [
      | inr full ↦ (finish m i out, rw (full, decode_loop) refl, le, omega arith)
      | inl room ↦
          rw (room, decode_loop)
            (after (decode_loop-InBounds fuel m)
              (decode_items 8 flags (limit_of m) rest (i + 1) out)
              (decode_items-InBounds 8 flags (limit_of m) rest (i + 1) out le))
    ]
  where
    after :
        ((input : List ℕ) (i : ℕ) (out : List ℕ)
          → length out ≤ limit_of m
          → length input < fuel
          → EndsInBounds (limit_of m) (i + length input) (decode_loop fuel m input i out))
        → (s : Step) → StepInBounds (limit_of m) (i + 1 + length rest) (length rest) s
        → EndsInBounds (limit_of m) (i + suc (length rest)) (elim s [
          | go_on rest' i' out' ↦ decode_loop fuel m rest' i' out'
          | leave rest' i' out' ↦ finished (finish m i' out')
          | give_back d ↦ finished d
          | panic_at ↦ panicked
        ])
    after rec (go_on rest' i' out') (a, b, c) =
        let (d, e, p, q) = rec rest' i' out' a (omega arith) in (d, e, p, omega arith)
    after rec (leave rest' i' out') (a, b) = (finish m i' out', refl, a, omega arith)
    after rec (give_back d) (a, b) = (d, refl, a, omega arith)
    after rec panic_at h = absurd h

-- On every input and for every limit the decoder returns: it reads no index out of range, puts out
-- no more than the limit and consumes no more than its input.
pub decode-EndsInBounds :
    (input : List ℕ) (m : Option ℕ) → EndsInBounds (limit_of m) (length input) (decode input m)
unfolding decode
decode-EndsInBounds input m =
    let (d, e, p, q) =
      decode_loop-InBounds (length input + 1) m input 0 [] (omega arith) (omega arith) in
    (d, e, p, omega arith)
