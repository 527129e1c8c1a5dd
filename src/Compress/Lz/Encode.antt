-- ===== src/Compress/Lz/Encode.antt =====
-- tools/nesrom/src/compress/lz.rs: the greedy encoder.
pub mod Match
pub mod Flags
pub mod Copy
pub mod Progress
pub mod RoundTrip
use decomps_agent.Prelude.{
  ℕ, zero, suc, ◌+◌, ◌-◌, ◌*◌, ◌/◌, ◌%◌, ◌^◌, bit_and, bit_or, true, false, List, [], ◌∷◌, ◌++◌,
  ltb, leb, ◌==◌, if◌then◌else◌, length, drop, get_or,
}

-- `while l < 18 && …`: how many of the bytes at two places agree, at most `cap`.
unfoldable pub match_len : ℕ → List ℕ → List ℕ → ℕ
match_len zero xs ys = 0
match_len (suc cap) [] ys = 0
match_len (suc cap) (x ∷ xs) [] = 0
match_len (suc cap) (x ∷ xs) (y ∷ ys) =
    let more = match_len cap xs ys in if x == y then suc more else 0

-- `for s in win_start..i`, with `left` for `i - s`: the first of the longest matches, as its distance
-- and its length.
unfoldable pub find_best : ℕ → List ℕ → ℕ → ℕ × ℕ → ℕ × ℕ
find_best zero input i best = best
find_best (suc left) input i best =
    let l = match_len 18 (drop (i - suc left) input) (drop i input) in
    find_best left input i (if ltb best.1 l then (suc left, l) else best)

-- `i - i.saturating_sub(4096)` places are tried.
abbrev pub best_match : List ℕ → ℕ → ℕ × ℕ
best_match input i = find_best (i - (i - 4096)) input i (0, 0)

-- `(off & 0xFF) as u8` and `((off >> 4) & 0xF0) as u8 | (length - 3) as u8`
abbrev pub low_byte : ℕ → ℕ
low_byte off = bit_and off 0xff

abbrev pub high_byte : ℕ → ℕ → ℕ
high_byte off len = bit_or (bit_and (off / 2 ^ 4) 0xf0 % 2 ^ 8) ((len - 3) % 2 ^ 8)

-- What the items of a flag byte give: the flags, the bytes behind them, and the new `i`.
pub record Group : Type 0 where
  pub flags : ℕ
  pub bytes : List ℕ
  pub next : ℕ

abbrev pub in_front : List ℕ → Group → Group
in_front bytes g = record { flags = g.flags; bytes = bytes ++ g.bytes; next = g.next }

-- `for bit in (0..8).rev()`: the bits `0 .. n` are still to be given.
unfoldable pub encode_items : ℕ → ℕ → List ℕ → ℕ → Group
encode_items zero flags input i = record { flags = flags; bytes = []; next = i }
encode_items (suc bit) flags input i = elim (leb (length input) i) [
  | true ↦ record { flags = flags; bytes = []; next = i }
  | false ↦
      let best = best_match input i in
      elim (leb 3 best.1) [
        | true ↦
            in_front (low_byte (best.0 - 1) ∷ high_byte (best.0 - 1) best.1 ∷ [])
              (encode_items bit flags input (i + best.1))
        | false ↦
            in_front (get_or input i 0 ∷ [])
              (encode_items bit (bit_or flags (2 ^ bit)) input (i + 1))
      ]
]

-- The `while` loop: every round of a flag byte takes one byte of the input at least.
unfoldable pub encode_loop : ℕ → List ℕ → ℕ → List ℕ
encode_loop zero input i = []
encode_loop (suc fuel) input i = elim (ltb i (length input)) [
  | true ↦ let g = encode_items 8 0 input i in g.flags ∷ (g.bytes ++ encode_loop fuel input g.next)
  | false ↦ []
]

unfoldable pub encode : List ℕ → List ℕ
encode input = encode_loop (length input) input 0
