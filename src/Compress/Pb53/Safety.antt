-- ===== src/Compress/Pb53/Safety.antt =====
-- compress/pb53.rs on any input: end, indices and whole tiles.
use decomps_agent.Prelude.{
  ℕ, zero, suc, ◌+◌, ◌-◌, ◌*◌, ◌/◌, ◌%◌, ◌≤◌, ◌<◌, ◌≡◌, ◌⊎◌, inl, inr, refl, sym, arith, false,
  Option, some, List, [], ◌∷◌, ◌++◌, length, length-append, replicate, get_elem?-some, ltb, leb,
  Bool-cases, ◌!=◌, ◌==◌, ◌&&◌, ◌||◌, bit_and, bit_xor,
}
use decomps_agent.Compress.Decoded.{
  Decoded, Exit, finished, panicked, Step, go_on, leave, give_back, panic_at, copied,
}
use decomps_agent.Compress.Pb53.{
  Plane, filled, short, plane_bytes, packed_plane, fill_of, plane, copy_from, repeat_tile, of_plane,
  second_plane, two_planes, decode_tile, tile_limit, finish, decode_loop, decode,
}

-- A plane adds `count` bytes to an output of `size`, or stops before that many.
abbrev pub PlaneInBounds : ℕ → ℕ → ℕ → ℕ → Plane → Type 0
PlaneInBounds count size last left (filled rest i out) =
    (length out ≡ size + count) × (length rest ≤ left) × (i + length rest ≡ last)
PlaneInBounds count size last left (short i out) = (length out ≤ size + count) × (i ≤ last)

plane_bytes-InBounds :
    (count flag x : ℕ) (rest : List ℕ) (i : ℕ) (out : List ℕ) (size total left last : ℕ)
    → length out + count ≡ size + total
    → length rest ≤ left
    → i + length rest ≡ last
    → PlaneInBounds total size last left (plane_bytes count flag x rest i out)
unfolding plane_bytes
plane_bytes-InBounds zero flag x rest i out size total left last e f g = (omega arith, f, g)
plane_bytes-InBounds (suc count) flag x [] i out size total left last e f g =
    elim (Bool-cases (bit_and (flag * 2 % 256) 0x80 != 0)) [
      | inl again ↦
          rw (again, plane_bytes)
            (plane_bytes-InBounds count (flag * 2 % 256) x [] i (out ++ (x ∷ [])) size total left
              last (omega (arith, length-append out (x ∷ []))) f g)
      | inr new ↦ rw (new, plane_bytes) (omega arith, omega arith)
    ]
plane_bytes-InBounds (suc count) flag x (y ∷ rest) i out size total left last e f g =
    elim (Bool-cases (bit_and (flag * 2 % 256) 0x80 != 0)) [
      | inl again ↦
          rw (again, plane_bytes)
            (plane_bytes-InBounds count (flag * 2 % 256) x (y ∷ rest) i (out ++ (x ∷ [])) size total
              left last (omega (arith, length-append out (x ∷ []))) f g)
      | inr new ↦
          rw (new, plane_bytes)
            (plane_bytes-InBounds count (flag * 2 % 256) y rest (i + 1) (out ++ (y ∷ [])) size total
              left last (omega (arith, length-append out (y ∷ []))) (omega arith) (omega arith))
    ]

packed_plane-InBounds :
    (ctrl : ℕ) (rest : List ℕ) (i : ℕ) (out : List ℕ)
    → PlaneInBounds 8 (length out) (i + length rest) (length rest) (packed_plane ctrl rest i out)
unfolding packed_plane
packed_plane-InBounds ctrl [] i out = (omega arith, omega arith)
packed_plane-InBounds ctrl (x ∷ rest) i out =
    plane_bytes-InBounds 7 ctrl x rest (i + 1) (out ++ (x ∷ [])) (length out) 8 _ _
      (omega (arith, length-append out (x ∷ []))) (omega arith) (omega arith)

plane-InBounds :
    (ctrl : ℕ) (rest : List ℕ) (i : ℕ) (out : List ℕ)
    → PlaneInBounds 8 (length out) (i + length rest) (length rest) (plane ctrl rest i out)
unfolding plane
plane-InBounds ctrl rest i out = elim (Bool-cases (leb 0x80 ctrl)) [
  | inl solid ↦
      rw (solid, plane) (length-append out (replicate 8 (fill_of ctrl 1)), omega arith, refl)
  | inr packed ↦ rw (packed, plane) (packed_plane-InBounds ctrl rest i out)
]

-- What a tile may do to an output of `size` bytes: add 16 bytes, or return with fewer.
abbrev pub TileInBounds : ℕ → ℕ → ℕ → Step → Type 0
TileInBounds size last left (go_on rest i out) =
    (length out ≡ size + 16) × (length rest ≤ left) × (i + length rest ≡ last)
TileInBounds size last left (leave rest i out) = ⊥
TileInBounds size last left (give_back d) =
    (length d.data_out ≤ size + 16) × (d.consumed ≤ last) × (d.is_ok ≡ false)
TileInBounds size last left panic_at = ⊥

copy_from_total :
    (count from x : ℕ) (out : List ℕ)
    → from < length out
    → (out' : List ℕ) × (copy_from count from x out ≡ some out')
      × (length out' ≡ length out + count)
unfolding copy_from
copy_from_total zero from x out h = (out, refl, omega arith)
copy_from_total (suc count) from x out h =
    let (b, e) = get_elem?-some out from h in
    let longer = length-append out (bit_xor b x ∷ []) in
    let (out', f, g) =
      copy_from_total count (from + 1) x (out ++ (bit_xor b x ∷ [])) (omega arith) in
    (out', rw (copy_from, e) f, omega arith)

copied-TileInBounds :
    (size last left : ℕ) (copy : Option (List ℕ)) (out : List ℕ) (rest : List ℕ) (i : ℕ)
    → copy ≡ some out
    → length out ≡ size + 16
    → length rest ≤ left
    → i + length rest ≡ last
    → TileInBounds size last left (copied copy rest i)
copied-TileInBounds size last left copy out rest i e h k l = rw e (h, k, l)

repeat_tile-InBounds :
    (back : ℕ) (rest : List ℕ) (i : ℕ) (out : List ℕ)
    → 1 ≤ back
    → TileInBounds (length out) (i + length rest) (length rest) (repeat_tile back rest i out)
unfolding repeat_tile
repeat_tile-InBounds back rest i out h = elim (Bool-cases (ltb (length out) back)) [
  | inl few ↦ rw (few, repeat_tile) (omega arith, omega arith, refl)
  | inr enough ↦
      let (out', e, f) = copy_from_total 16 (length out - back) 0 out (ground arith) in
      rw (enough, repeat_tile)
        (copied-TileInBounds (length out) (i + length rest) (length rest) _ out' rest i e f
          (omega arith) refl)
]

of_plane-InBounds :
    (size last left : ℕ) (p : Plane)
    → PlaneInBounds 8 (size + 8) last left p
    → TileInBounds size last left (of_plane p)
of_plane-InBounds size last left (filled rest i out) h = omega arith
of_plane-InBounds size last left (short i out) h = (omega arith, omega arith, refl)

TileInBounds-more :
    (size last a b : ℕ) (s : Step) → a ≤ b → TileInBounds size last a s → TileInBounds size last b s
TileInBounds-more size last a b (go_on rest i out) le h = omega arith
TileInBounds-more size last a b (leave rest i out) le h = h
TileInBounds-more size last a b (give_back d) le h = h
TileInBounds-more size last a b panic_at le h = h

second_plane-InBounds :
    (size last left : ℕ) (rest : List ℕ) (i : ℕ) (out : List ℕ)
    → length out ≡ size + 8
    → length rest ≤ left
    → i + length rest ≡ last
    → TileInBounds size last left (second_plane rest i out)
unfolding second_plane
second_plane-InBounds size last left [] i out e f g = (omega arith, omega arith, refl)
second_plane-InBounds size last left (ctrl ∷ rest) i out e f g =
    elim (Bool-cases (ctrl == 0x82 || ctrl == 0x83)) [
      | inl copies ↦
          let (out', h, k) =
            copy_from_total 8 (length out - 8) (fill_of ctrl 1) out (omega arith) in
          rw (copies, second_plane)
            (copied-TileInBounds size last left _ out' rest (i + 1) h (omega arith) (omega arith)
              (omega arith))
      | inr own ↦
          let place : i + 1 + length rest ≡ last = omega arith in
          let bounds = plane-InBounds ctrl rest (i + 1) out in
          rw (own, second_plane)
            (TileInBounds-more size last (length rest) left _ (omega arith) (
              of_plane-InBounds size last (length rest) (plane ctrl rest (i + 1) out)
                (rw (sym place, sym e) bounds)))
    ]

two_planes-InBounds :
    (size last left : ℕ) (p : Plane)
    → PlaneInBounds 8 size last left p
    → TileInBounds size last left (two_planes p)
unfolding two_planes
two_planes-InBounds size last left (filled rest i out) (a, b, c) =
    second_plane-InBounds size last left rest i out a b c
two_planes-InBounds size last left (short i out) h = (omega arith, omega arith, refl)

pub decode_tile-InBounds :
    (ctrl : ℕ) (rest : List ℕ) (i : ℕ) (out : List ℕ)
    → TileInBounds (length out) (i + length rest) (length rest) (decode_tile ctrl rest i out)
unfolding decode_tile
decode_tile-InBounds ctrl rest i out = elim (Bool-cases (leb 0x84 ctrl && leb ctrl 0x87)) [
  | inl solid ↦
      rw (solid, decode_tile)
        (
          omega (
            arith,
            length-append (out ++ replicate 8 (fill_of ctrl 1)) (replicate 8 (fill_of ctrl 2)),
            length-append out (replicate 8 (fill_of ctrl 1)),
          ),
          omega arith,
          refl,
        )
  | inr a ↦ elim (Bool-cases (ctrl == 0x82)) [
    | inl previous ↦
        rw (a, previous, decode_tile) (repeat_tile-InBounds 16 rest i out (omega arith))
    | inr b ↦ elim (Bool-cases (ctrl == 0x83)) [
      | inl table ↦
          rw (a, b, table, decode_tile) (repeat_tile-InBounds 4096 rest i out (omega arith))
      | inr c ↦
          rw (a, b, c, decode_tile)
            (two_planes-InBounds (length out) (i + length rest) (length rest)
              (plane ctrl rest i out) (plane-InBounds ctrl rest i out))
    ]
  ]
]

-- The limit, rounded up to whole tiles.
abbrev pub whole_tiles : ℕ → ℕ
whole_tiles limit = (limit + 15) / 16 * 16

-- The decoder returned within its input and within the tiles of the limit, and with whole tiles unless it says that the input was bad.
abbrev pub EndsInTiles : ℕ → ℕ → Exit → Type 0
EndsInTiles limit last exit =
    (d : Decoded) × (exit ≡ finished d)
    × (length d.data_out ≤ whole_tiles limit)
    × (d.consumed ≤ last)
    × ((d.is_ok ≡ false) ⊎ (length d.data_out % 16 ≡ 0))

decode_loop-InTiles :
    (fuel : ℕ) (m : Option ℕ) (input : List ℕ) (i : ℕ) (out : List ℕ)
    → length out ≤ whole_tiles (tile_limit m)
    → length out % 16 ≡ 0
    → length input < fuel
    → EndsInTiles (tile_limit m) (i + length input) (decode_loop fuel m input i out)
unfolding decode_loop
decode_loop-InTiles zero m input i out le t f = absurd (omega arith)
decode_loop-InTiles (suc fuel) m [] i out le t f = (finish m i out, refl, le, omega arith, inr t)
decode_loop-InTiles (suc fuel) m (ctrl ∷ rest) i out le t f =
    elim (Bool-cases (ltb (length out) (tile_limit m))) [
      | inr full ↦ (finish m i out, rw (full, decode_loop) refl, le, omega arith, inr t)
      | inl room ↦
          rw (room, decode_loop)
            (after (decode_loop-InTiles fuel m) (decode_tile ctrl rest (i + 1) out)
              (decode_tile-InBounds ctrl rest (i + 1) out) (ground arith))
    ]
  where
    after :
        ((input : List ℕ) (i : ℕ) (out : List ℕ)
          → length out ≤ whole_tiles (tile_limit m)
          → length out % 16 ≡ 0
          → length input < fuel
          → EndsInTiles (tile_limit m) (i + length input) (decode_loop fuel m input i out))
        → (s : Step) → TileInBounds (length out) (i + 1 + length rest) (length rest) s
        → length out < tile_limit m
        → EndsInTiles (tile_limit m) (i + suc (length rest)) (elim s [
          | go_on rest' i' out' ↦ decode_loop fuel m rest' i' out'
          | leave rest' i' out' ↦ finished (finish m i' out')
          | give_back d ↦ finished d
          | panic_at ↦ panicked
        ])
    after rec (go_on rest' i' out') (a, b, c) lt =
        let (d, e, p, q, r) = rec rest' i' out' (omega arith) (omega arith) (omega arith) in
        (d, e, p, omega arith, r)
    after rec (leave rest' i' out') h lt = absurd h
    after rec (give_back d) (a, b, bad) lt = (d, refl, omega arith, omega arith, inl bad)
    after rec panic_at h lt = absurd h

-- On every input and for every number of tiles the decoder returns: it reads no index out of range,
-- consumes no more than its input, puts out no more than the tiles of the limit, and what it puts out is
-- whole tiles of 16 bytes unless it reports that it did not end well.
pub decode-EndsInTiles :
    (input : List ℕ) (m : Option ℕ) → EndsInTiles (tile_limit m) (length input) (decode input m)
unfolding decode
decode-EndsInTiles input m =
    let (d, e, p, q, r) =
      decode_loop-InTiles (length input + 1) m input 0 [] (omega arith) refl (omega arith) in
    (d, e, p, omega arith, r)
