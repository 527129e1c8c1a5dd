-- ===== src/Compress/Dispatch/Bounds.antt =====
-- compress/mod.rs: every decoder keeps the limit, and only unknown names are refused.
use Prim.Native.String.{String}
use text.Mathlib.Text.{starts_with, ◌==◌ as ◌===◌}
use decomps_agent.Prelude.{
  ℕ, ◌/◌, ◌≤◌, ◌≡◌, refl, inl, inr, arith, true, false, min, Bool-cases, List, Option, some, length,
  take, length-take,
}
use decomps_agent.Compress.Decoded.{Exit, usize_max}
use decomps_agent.Compress.Rle
use decomps_agent.Compress.Rle.Safety.{decode_total}
use decomps_agent.Compress.Lz
use decomps_agent.Compress.Lz.Safety.{EndsInBounds, decode-EndsInBounds}
use decomps_agent.Compress.Pb53
use decomps_agent.Compress.Pb53.Safety.{decode-EndsInTiles}
use decomps_agent.Compress.Dispatch.{Outcome, ran, raw, returned, in_tiles, decode, is_known}

raw-EndsInBounds : (input : List ℕ) (m : ℕ) → EndsInBounds m (length input) (raw input (some m))
raw-EndsInBounds input m = (
  record {
    data_out = take (min m (length input)) input;
    consumed = min m (length input);
    is_ok = true;
  },
  refl,
  omega (arith, length-take (min m (length input)) input),
  omega arith,
)

rle-EndsInBounds :
    (input : List ℕ) (m : ℕ) → EndsInBounds m (length input) (returned (Rle.decode input (some m)))
rle-EndsInBounds input m =
    let (d, e, size, from, last) = decode_total input (some m) in
    (d, rw e refl, size, omega (arith, last))

pb53-EndsInBounds :
    (input : List ℕ) (m : ℕ)
    → m ≤ usize_max
    → EndsInBounds m (length input) (Pb53.decode input (in_tiles (some m)))
pb53-EndsInBounds input m h =
    let (d, e, size, last, tiles) = decode-EndsInTiles input (some (m / 16)) in
    (d, e, omega (arith, size), last)

-- What a name leads to with the limit `m`.
abbrev pub RunsInBounds : ℕ → ℕ → Outcome → Type 0
RunsInBounds m last outcome = (exit : Exit) × (outcome ≡ ran exit) × EndsInBounds m last exit

-- For every known name but that of a script the decoder returns, with no more output than the limit and
-- having read no more than its input.
pub decode-RunsInBounds :
    (script : String → List ℕ → Option ℕ → Outcome) (name : String) (input : List ℕ) (m : ℕ)
    → starts_with name "script:" ≡ false
    → is_known name ≡ true
    → m ≤ usize_max
    → RunsInBounds m (length input) (decode script name input (some m))
unfolding decode is_known
decode-RunsInBounds script name input m own known h = elim (Bool-cases (name === "raw")) [
  | inl here ↦ rw (own, here, decode) (raw input (some m), refl, raw-EndsInBounds input m)
  | inr n1 ↦ elim (Bool-cases (name === "rle")) [
    | inl here ↦
        rw (own, n1, here, decode)
          (returned (Rle.decode input (some m)), refl, rle-EndsInBounds input m)
    | inr n2 ↦ elim (Bool-cases (name === "pb53")) [
      | inl here ↦
          rw (own, n1, n2, here, decode)
            (Pb53.decode input (in_tiles (some m)), refl, pb53-EndsInBounds input m h)
      | inr n3 ↦
          let here : (name === "lz") ≡ true = ground arith in
          rw (own, n1, n2, n3, here, decode)
            (Lz.decode input (some m), refl, decode-EndsInBounds input (some m))
    ]
  ]
]
