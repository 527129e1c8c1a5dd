-- ===== src/Compress/Lz/Encode/RoundTrip.antt =====
-- compress/lz.rs: what the encoder writes is decoded to its input.
use decomps_agent.Prelude.{
  ℕ, zero, suc, ◌+◌, ◌-◌, ◌/◌, ◌%◌, ◌^◌, ◌≤◌, ◌<◌, ◌≡◌, ◌∙◌, ◌⊎◌, refl, sym, ap, ap₂, inl, inr,
  arith, none, true, false, List, [], ◌∷◌, ◌++◌, length, take, drop, length-append, length-take,
  length-drop, take_all, take-append-drop, get_or, ltb, leb, bit_or, Bool-cases, lt→leb_false,
  le→ltb_false, lt→ltb,
}
use decomps_agent.Compress.Decoded.{finished, Step, go_on, leave, usize_max}
use decomps_agent.Compress.Lz.{offset_of, decode_item, decode_items, decode_loop, decode}
use decomps_agent.Compress.Lz.Encode.{
  best_match, low_byte, high_byte, Group, in_front, encode_items, encode_loop, encode,
}
use decomps_agent.Compress.Lz.Encode.Match.{IsMatch, best_match-IsMatch}
use decomps_agent.Compress.Lz.Encode.Flags.{
  set_bit, bit_set, bit_clear, offset_of-bytes, count_of-bytes, Room-of,
}
use decomps_agent.Compress.Lz.Encode.Copy.{copy_back-Agree}
use decomps_agent.Compress.Lz.Encode.Progress.{Agree-fits, progress}

-- The first elements up to a place, and those behind it.
take-next :
    (i : ℕ) (xs : List ℕ) → i < length xs → take i xs ++ (get_or xs i 0 ∷ []) ≡ take (i + 1) xs
take-next zero [] h = absurd (omega arith)
take-next (suc i) [] h = absurd (omega arith)
take-next zero (x ∷ xs) h = refl
take-next (suc i) (x ∷ xs) h =
    let e : suc (i + 1) ≡ suc i + 1 = omega arith in
    ap (λ l. x ∷ l) (take-next i xs (omega arith)) ∙ ap (λ n. take n (x ∷ xs)) e

take-more : (i n : ℕ) (xs : List ℕ) → take i xs ++ take n (drop i xs) ≡ take (i + n) xs
take-more zero n xs = let e : n ≡ 0 + n = omega arith in ap (λ k. take k xs) e
take-more (suc i) n [] = take_all n [] (omega arith) ∙ sym (take_all (suc i + n) [] (omega arith))
take-more (suc i) n (x ∷ xs) =
    let e : suc (i + n) ≡ suc i + n = omega arith in
    ap (λ l. x ∷ l) (take-more i n xs) ∙ ap (λ k. take k (x ∷ xs)) e

-- What the decoder makes of a group and the bytes behind it: it goes on with these, or it is at the end
-- of both.
Decodes : List ℕ → Group → List ℕ → ℕ → Step → Type 0
Decodes input g tail pos result =
    (result ≡ go_on tail (pos + length g.bytes) (take g.next input))
    ⊎ ((tail ≡ [])
        × (g.next ≡ length input)
        × (result ≡ leave [] (pos + length g.bytes) (take g.next input)))

shift :
    (input : List ℕ) (bytes : List ℕ) (g : Group) (tail : List ℕ) (pos : ℕ) (result : Step)
    → Decodes input g tail (pos + length bytes) result
    → Decodes input (in_front bytes g) tail pos result
unfolding Decodes
shift input bytes g tail pos result (inl e) =
    let at : pos + length bytes + length g.bytes ≡ pos + length (bytes ++ g.bytes) =
      omega (arith, length-append bytes g.bytes) in
    inl (e ∙ ap (λ n. go_on tail n (take g.next input)) at)
shift input bytes g tail pos result (inr (a, b, e)) =
    let at : pos + length bytes + length g.bytes ≡ pos + length (bytes ++ g.bytes) =
      omega (arith, length-append bytes g.bytes) in
    inr (a, b, e ∙ ap (λ n. leave [] n (take g.next input)) at)

module _ (limit : ℕ) (input : List ℕ) (room_left : length input < limit) where
  Good : ℕ → ℕ → Group → Type 0
  Good bit i g =
      (tail : List ℕ) (pos : ℕ)
      → (g.next ≡ length input → tail ≡ [])
      → Decodes input g tail pos
          (decode_items bit g.flags limit (g.bytes ++ tail) pos (take i input))

  open_end : (i : ℕ) → leb limit (length (take i input)) ≡ false
  open_end i = lt→leb_false (length (take i input)) limit (omega (arith, length-take i input))

  literal_Good :
      (bit i : ℕ) (g : Group)
      → bit < 8
      → g.flags < 256
      → g.flags / 2 ^ bit % 2 ≡ 1
      → i < length input
      → Good bit (i + 1) g
      → Good (suc bit) i (in_front (get_or input i 0 ∷ []) g)
  unfolding Good decode_items decode_item
  literal_Good bit i g hb hf is_set h good tail pos last =
      rw
        (
          open_end i,
          bit_set g.flags bit hf hb is_set,
          decode_items,
          decode_item,
          take-next i input h,
        )
        (shift input (get_or input i 0 ∷ []) g tail pos _ (good tail (pos + 1) last))

  reference_Good :
      (bit i : ℕ) (g : Group) (best : ℕ × ℕ)
      → bit < 8
      → g.flags < 256
      → g.flags / 2 ^ bit % 2 ≡ 0
      → i ≤ length input
      → 3 ≤ best.1
      → IsMatch (i - (i - 4096)) input i best
      → Good bit (i + best.1) g
      → Good (suc bit) i (in_front (low_byte (best.0 - 1) ∷ high_byte (best.0 - 1) best.1 ∷ []) g)
  unfolding Good decode_items decode_item
  reference_Good bit i g best hb hf is_clear h long found good tail pos last =
      let some_way : 0 < best.0 = found.behind (omega arith) in
      let near = found.near in
      let short = found.short in
      let size = length-take i input in
      let fits = Agree-fits best.1 _ (drop i input) found.agree in
      let offset : offset_of (low_byte (best.0 - 1)) (high_byte (best.0 - 1) best.1) ≡ best.0 =
        omega (arith, offset_of-bytes (best.0 - 1) best.1 (omega arith) long short) in
      let count = count_of-bytes (best.0 - 1) best.1 (omega arith) long short in
      let back : ltb (length (take i input)) best.0 ≡ false =
        le→ltb_false best.0 (length (take i input)) (omega (arith, size)) in
      let place : length (take i input) - best.0 ≡ i - best.0 = omega (arith, size) in
      let copy =
        copy_back-Agree best.1 limit (i - best.0) (take i input) (drop i input)
          (drop (i - best.0) input) (omega (arith, size))
          (omega (arith, size, fits, length-drop i input))
          (ap (λ l. drop (i - best.0) l) (take-append-drop i input)) found.agree in
      let item : decode_item false limit (low_byte (best.0 - 1))
            (high_byte (best.0 - 1) best.1 ∷ (g.bytes ++ tail)) pos (take i input)
          ≡ go_on (g.bytes ++ tail) (pos + 2) (take (i + best.1) input) =
        rw (decode_item, offset, back, count, place, copy, take-more i best.1 input) refl in
      rw (open_end i, bit_clear g.flags bit hf hb is_clear, decode_items, item)
        (shift input (low_byte (best.0 - 1) ∷ high_byte (best.0 - 1) best.1 ∷ []) g tail pos _
          (good tail (pos + 2) last))

  end_Good :
      (bit flags i : ℕ)
      → i ≡ length input
      → Good (suc bit) i (record { flags = flags; bytes = []; next = i })
  unfolding Good decode_items Decodes
  end_Good bit flags i at [] pos last =
      let p : pos ≡ pos + 0 = omega arith in inr (refl, at, ap (λ n. leave [] n (take i input)) p)
  end_Good bit flags i at (x ∷ tail) pos last = absurd (let e = last at in cc)

  group_Good :
      (bit flags i : ℕ)
      → bit ≤ 8
      → flags < 256
      → flags % 2 ^ bit ≡ 0
      → i ≤ length input
      → Good bit i (encode_items bit flags input i)
  unfolding Good encode_items decode_items Decodes
  group_Good zero flags i hb hf clear h = λ tail pos last.
      let p : pos ≡ pos + 0 = omega arith in inl (ap (λ n. go_on tail n (take i input)) p)
  group_Good (suc bit) flags i hb hf clear h = elim (Bool-cases (leb (length input) i)) [
    | inl end ↦ rw (end, encode_items) (end_Good bit flags i (ground arith))
    | inr more ↦
        let s : suc bit ≡ bit + 1 = omega arith in
        let clear' = ap (λ n. flags % 2 ^ n) (sym s) ∙ clear in
        let room = Room-of flags bit hf (omega arith) clear' in
        let best = best_match input i in
        let found = best_match-IsMatch input i in
        elim (Bool-cases (leb 3 best.1)) [
          | inl long ↦
              let fits : i + best.1 ≤ length input =
                omega
                  (arith, Agree-fits best.1 _ (drop i input) found.agree, length-drop i input) in
              let p = progress bit flags input (i + best.1) (omega arith) hf room.low_clear fits in
              rw (more, long, encode_items)
                (reference_Good bit i _ best (omega arith) p.small
                  (ap (λ n. n % 2) p.high ∙ room.is_clear) h (ground arith) found
                  (group_Good bit flags (i + best.1) (omega arith) hf room.low_clear fits))
          | inr short ↦
              let put = set_bit flags bit hf (omega arith) clear' in
              let small : bit_or flags (2 ^ bit) < 256 = omega (arith, put, room.put_small) in
              let low = ap (λ n. n % 2 ^ bit) put ∙ room.put_low in
              let inside : i < length input = ground arith in
              let p =
                progress bit (bit_or flags (2 ^ bit)) input (i + 1) (omega arith) small low
                  (omega arith) in
              rw (more, short, encode_items)
                (literal_Good bit i _ (omega arith) p.small
                  (ap (λ n. n % 2) p.high ∙ ap (λ n. n / 2 ^ bit % 2) put ∙ room.put_set) inside
                  (group_Good bit (bit_or flags (2 ^ bit)) (i + 1) (omega arith) small low
                    (omega arith)))
        ]
  ]

module _ (input : List ℕ) (room_left : length input < usize_max) where
  finish_whole :
      (i pos : ℕ)
      → i ≡ length input
      → finished (record { data_out = take i input; consumed = pos; is_ok = true })
        ≡ finished (record { data_out = input; consumed = pos + 0; is_ok = true })
  finish_whole i pos at =
      let p : pos ≡ pos + 0 = omega arith in
      ap₂ (λ l n. finished (record { data_out = l; consumed = n; is_ok = true }))
        (take_all i input (omega arith)) p

  loop_back :
      (left fuel i pos : ℕ)
      → i ≤ length input
      → length input ≤ i + left
      → length (encode_loop left input i) + 1 ≤ fuel
      → decode_loop fuel none (encode_loop left input i) pos (take i input)
        ≡ finished (record {
          data_out = input;
          consumed = pos + length (encode_loop left input i);
          is_ok = true;
        })
  unfolding encode_loop decode_loop Good Decodes
  loop_back left zero i pos h full enough = absurd (omega arith)
  loop_back zero (suc fuel) i pos h full enough = finish_whole i pos (omega arith)
  loop_back (suc left) (suc fuel) i pos h full enough = elim (Bool-cases (ltb i (length input))) [
    | inr end ↦ rw (end, encode_loop) (finish_whole i pos (ground arith))
    | inl more ↦
        let g = encode_items 8 0 input i in
        let p = progress 8 0 input i (omega arith) (omega arith) refl h in
        let tail = encode_loop left input g.next in
        let code : encode_loop (suc left) input i ≡ g.flags ∷ (g.bytes ++ tail) =
          rw (more, encode_loop) refl in
        let size = ap (λ l. length l) code in
        let joined = length-append g.bytes tail in
        let below : ltb (length (take i input)) usize_max ≡ true =
          lt→ltb (length (take i input)) usize_max (omega (arith, length-take i input)) in
        let ahead = p.forward in
        let inside = p.inside in
        let at_end : g.next ≡ length input → tail ≡ [] = λ e. no_more left g.next e in
        rw (code)
          (elim (group_Good usize_max input room_left 8 0 i (omega arith) (omega arith) refl h tail
            (pos + 1) at_end) [
              | inl on ↦
                  rw (below, on, decode_loop)
                    (loop_back left fuel g.next (pos + 1 + length g.bytes) inside (ground arith)
                        (omega (arith, size, joined))
                      ∙ ap (λ n. finished (record { data_out = input; consumed = n; is_ok = true }))
                          (let same : pos + 1 + length g.bytes + length tail
                                ≡ pos + suc (length (g.bytes ++ tail)) =
                              omega (arith, joined) in
                            same))
              | inr (no_tail, whole, gone) ↦
                  rw (below, gone, decode_loop)
                    (let empty = ap (λ l. length l) no_tail in
                      let same : pos + 1 + length g.bytes ≡ pos + suc (length (g.bytes ++ tail)) =
                        omega (arith, joined, empty) in
                      ap₂ (λ l n. finished (record { data_out = l; consumed = n; is_ok = true }))
                        (take_all g.next input (omega arith)) same)
            ])
  ]
    where
      no_more : (k j : ℕ) → j ≡ length input → encode_loop k input j ≡ []
      no_more zero j e = refl
      no_more (suc k) j e = rw (le→ltb_false (length input) j (omega arith), encode_loop) refl

-- Decoding what the encoder writes gives the input back, and all of the code is read; the input is
-- shorter than the largest `usize`.
pub decode-encode_whole :
    (input : List ℕ)
    → length input < usize_max
    → decode (encode input) none
      ≡ finished (record { data_out = input; consumed = length (encode input); is_ok = true })
unfolding decode encode
decode-encode_whole input h =
    let size = length (encode_loop (length input) input 0) in
    let e : 0 + size ≡ size = omega arith in
    loop_back input h (length input) (size + 1) 0 0 (omega arith) (omega arith) (omega arith)
    ∙ ap (λ n. finished (record { data_out = input; consumed = n; is_ok = true })) e
