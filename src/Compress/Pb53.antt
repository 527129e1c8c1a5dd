-- ===== src/Compress/Pb53.antt =====
-- tools/nesrom/src/compress/pb53.rs: the decoder of the PB53 tile format.
-- The cursor `i` over the input is the list of the bytes that are left, beside the count `i`.
pub mod Safety
use decomps_agent.Prelude.{
  ℕ, zero, suc, ◌+◌, ◌-◌, ◌*◌, ◌%◌, ◌^◌, bit_and, bit_xor, Bool, true, false, Option, none, some,
  ◌>>=◌, ◌&&◌, ◌||◌, ◌==◌, List, [], ◌∷◌, ◌++◌, ltb, leb, ◌!=◌, if◌then◌else◌, length, replicate,
  get_elem?,
}
use decomps_agent.Compress.Decoded.{
  Decoded, Exit, finished, panicked, out_of_fuel, Step, go_on, leave, give_back, panic_at, copied,
  truncated, usize_max,
}

-- What `plane` leaves: the bytes left, their position and the output, and whether it returned true.
pub data Plane : Type 0 where
  filled : List ℕ → ℕ → List ℕ → Plane
  short : ℕ → List ℕ → Plane

-- The `for` loop of `plane` with `count` bytes to go.
unfoldable pub plane_bytes : ℕ → ℕ → ℕ → List ℕ → ℕ → List ℕ → Plane
plane_bytes zero flag last rest i out = filled rest i out
plane_bytes (suc count) flag last [] i out = elim (bit_and (flag * 2 % 256) 0x80 != 0) [
  | true ↦ plane_bytes count (flag * 2 % 256) last [] i (out ++ (last ∷ []))
  | false ↦ short i out
]
plane_bytes (suc count) flag last (x ∷ rest) i out = elim (bit_and (flag * 2 % 256) 0x80 != 0) [
  | true ↦ plane_bytes count (flag * 2 % 256) last (x ∷ rest) i (out ++ (last ∷ []))
  | false ↦ plane_bytes count (flag * 2 % 256) x rest (i + 1) (out ++ (x ∷ []))
]

-- A plane that is not solid: its first byte follows literally.
unfoldable pub packed_plane : ℕ → List ℕ → ℕ → List ℕ → Plane
packed_plane ctrl [] i out = short i out
packed_plane ctrl (x ∷ rest) i out = plane_bytes 7 ctrl x rest (i + 1) (out ++ (x ∷ []))

-- The byte that the lowest bit under `mask` fills a plane with.
abbrev pub fill_of : ℕ → ℕ → ℕ
fill_of ctrl mask = if bit_and ctrl mask != 0 then 0xff else 0x00

unfoldable pub plane : ℕ → List ℕ → ℕ → List ℕ → Plane
plane ctrl rest i out = elim (leb 0x80 ctrl) [
  | true ↦ filled rest i (out ++ replicate 8 (fill_of ctrl 1))
  | false ↦ packed_plane ctrl rest i out
]

-- `for k in 0..count { let b = out[s + k] ^ x; out.push(b); }`, with `from` for `s + k`; `none` is an
-- index out of range. Without the exclusive or, `x` is 0.
unfoldable pub copy_from : ℕ → ℕ → ℕ → List ℕ → Option (List ℕ)
copy_from zero from x out = some out
copy_from (suc count) from x out =
    get_elem? out from >>= λ b. copy_from count (from + 1) x (out ++ (bit_xor b x ∷ []))

-- `repeat the tile back bytes ago`
unfoldable pub repeat_tile : ℕ → List ℕ → ℕ → List ℕ → Step
repeat_tile back rest i out = elim (ltb (length out) back) [
  | true ↦ truncated i out
  | false ↦ copied (copy_from 16 (length out - back) 0 out) rest i
]

abbrev pub of_plane : Plane → Step
of_plane (filled rest i out) = go_on rest i out
of_plane (short i out) = truncated i out

-- The second plane of a tile, behind a first plane that is complete.
unfoldable pub second_plane : List ℕ → ℕ → List ℕ → Step
second_plane [] i out = truncated i out
second_plane (ctrl ∷ rest) i out = elim (ctrl == 0x82 || ctrl == 0x83) [
  | true ↦ copied (copy_from 8 (length out - 8) (fill_of ctrl 1) out) rest (i + 1)
  | false ↦ of_plane (plane ctrl rest (i + 1) out)
]

unfoldable pub two_planes : Plane → Step
two_planes (filled rest i out) = second_plane rest i out
two_planes (short i out) = truncated i out

-- One tile: the `match` on its control byte, with `i` the position behind that.
unfoldable pub decode_tile : ℕ → List ℕ → ℕ → List ℕ → Step
decode_tile ctrl rest i out = elim (leb 0x84 ctrl && leb ctrl 0x87) [
  | true ↦ go_on rest i (out ++ replicate 8 (fill_of ctrl 1) ++ replicate 8 (fill_of ctrl 2))
  | false ↦ elim (ctrl == 0x82) [
    | true ↦ repeat_tile 16 rest i out
    | false ↦ elim (ctrl == 0x83) [
      | true ↦ repeat_tile 4096 rest i out
      | false ↦ two_planes (plane ctrl rest i out)
    ]
  ]
]

-- `t * 16` on the 64 bits of a `usize`.
abbrev pub tile_bytes : ℕ → ℕ
tile_bytes t = t * 16 % 2 ^ 64

abbrev pub tile_limit : Option ℕ → ℕ
tile_limit none = usize_max
tile_limit (some t) = tile_bytes t

abbrev pub finish : Option ℕ → ℕ → List ℕ → Decoded
finish max_tiles i out = record {
  data_out = out;
  consumed = i;
  is_ok = elim max_tiles [ none ↦ true | some t ↦ leb (tile_bytes t) (length out) ];
}

-- The `while` loop.
unfoldable pub decode_loop : ℕ → Option ℕ → List ℕ → ℕ → List ℕ → Exit
decode_loop zero max_tiles input i out = out_of_fuel
decode_loop (suc fuel) max_tiles [] i out = finished (finish max_tiles i out)
decode_loop (suc fuel) max_tiles (ctrl ∷ rest) i out =
    elim (ltb (length out) (tile_limit max_tiles)) [
      | true ↦ elim (decode_tile ctrl rest (i + 1) out) [
        | go_on rest' i' out' ↦ decode_loop fuel max_tiles rest' i' out'
        | leave rest' i' out' ↦ finished (finish max_tiles i' out')
        | give_back d ↦ finished d
        | panic_at ↦ panicked
      ]
      | false ↦ finished (finish max_tiles i out)
    ]

-- Each tile takes its control byte at least.
unfoldable pub decode : List ℕ → Option ℕ → Exit
decode input max_tiles = decode_loop (length input + 1) max_tiles input 0 []
