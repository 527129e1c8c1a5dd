-- ===== src/Cpu/Sweep/Cover.antt =====
-- stats.rs: the linear sweep and the listing that it counts.
use decomps_agent.Prelude.{
  ℕ, zero, suc, ◌+◌, ◌≤◌, ◌<◌, ◌≡◌, refl, sym, arith, ap, ◌∙◌, if◌then◌else◌, List, [], ◌∷◌, ◌++◌,
  Option, some, length, drop, length-drop, take-append-drop, All, All-drop, IsByte,
}
use decomps_agent.Cpu.Insn.{Insn, decode}
use decomps_agent.Cpu.Insn.Lengths.{decode-prefix}
use decomps_agent.Cpu.Sweep.{Counts, is_good, sweep_loop, sweep}

-- The bytes of the instructions, one behind the other.
abbrev pub bytes_of : List Insn → List ℕ
bytes_of [] = []
bytes_of (i ∷ insns) = i.bytes ++ bytes_of insns

abbrev pub count_good : List Insn → ℕ
count_good [] = 0
count_good (i ∷ insns) = (if is_good i then 1 else 0) + count_good insns

count_good-le : (insns : List Insn) → count_good insns ≤ length insns
count_good-le [] = omega arith
count_good-le (i ∷ insns) = ground (arith, count_good-le insns)

-- Each instruction is what the decoder reads off the bytes from its place on.
abbrev pub IsDecoding : List Insn → Type 0
IsDecoding [] = Unit
IsDecoding (i ∷ insns) =
    ((b : ℕ) × (rest : List ℕ) × (b ∷ rest ≡ i.bytes ++ bytes_of insns) × (i ≡ decode b rest))
    × IsDecoding insns

-- What a sweep of `bytes` that starts from `start` returns.
abbrev pub Covers : List ℕ → Counts → Option Counts → Type 0
Covers bytes start result =
    (insns : List Insn) × (bytes_of insns ≡ bytes)
    × (IsDecoding insns)
    × (length insns ≤ length bytes)
    × (result
        ≡ some
            (record { total = start.total + length insns; good = start.good + count_good insns }))

counts_eq :
    (a b c d : ℕ)
    → a ≡ c
    → b ≡ d
    → record { total = a; good = b } ≡ (let r : Counts = record { total = c; good = d } in r)
counts_eq a b c d e f = rw (e, f) refl

one_more :
    (i : Insn) (start : Counts) (n g : ℕ)
    → record {
      total = start.total + 1 + n;
      good = (if is_good i then start.good + 1 else start.good) + g;
    }
      ≡ (let r : Counts = record {
        total = start.total + suc n;
        good = start.good + ((if is_good i then 1 else 0) + g);
      } in
          r)
one_more i start n g = counts_eq _ _ _ _ (omega arith) (ground arith)

sweep_loop-Covers :
    (fuel : ℕ) (bytes : List ℕ) (counts : Counts)
    → All IsByte bytes
    → length bytes < fuel
    → Covers bytes counts (sweep_loop fuel bytes counts)
unfolding sweep_loop
sweep_loop-Covers zero bytes counts h f = absurd (omega arith)
sweep_loop-Covers (suc fuel) [] counts h f =
    ([], refl, tt, omega arith, ap (λ c. some c) (counts_eq _ _ _ _ (omega arith) (omega arith)))
sweep_loop-Covers (suc fuel) (b ∷ rest) counts (lt, h) f =
    let i = decode b rest in
    let (low, high, fits, prefix) = decode-prefix b rest lt in
    let left = drop i.len (b ∷ rest) in
    let shorter = length-drop i.len (b ∷ rest) in
    let next : Counts = record {
      total = counts.total + 1;
      good = if is_good i then counts.good + 1 else counts.good;
    } in
    let (insns, whole, decoded, short, e) =
      sweep_loop-Covers fuel left next (All-drop IsByte i.len (b ∷ rest) (lt, h)) (omega arith) in
    let joined : i.bytes ++ bytes_of insns ≡ b ∷ rest =
      rw (prefix, whole) (take-append-drop i.len (b ∷ rest)) in
    (
      i ∷ insns,
      joined,
      ((b, rest, sym joined, refl), decoded),
      omega arith,
      e ∙ ap (λ c. some c) (one_more i counts (length insns) (count_good insns)),
    )

-- On every string of bytes the sweep ends, and what it counts are the decoded instructions of a
-- listing that takes every byte exactly once: `total` is their number, at most one for each byte, and
-- `good` the number of those that are legal with a common mnemonic.
pub sweep-Covers :
    (bytes : List ℕ)
    → All IsByte bytes
    → Covers bytes (record { total = 0; good = 0 }) (sweep bytes)
unfolding sweep
sweep-Covers bytes h =
    sweep_loop-Covers (length bytes + 1) bytes (record { total = 0; good = 0 }) h (omega arith)
