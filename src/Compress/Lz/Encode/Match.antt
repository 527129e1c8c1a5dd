-- ===== src/Compress/Lz/Encode/Match.antt =====
-- compress/lz.rs: what the search for a match finds.
use decomps_agent.Prelude.{
  ℕ, zero, suc, ◌-◌, ◌≤◌, ◌<◌, ◌≡◌, inl, inr, arith, ltb, ◌==◌, ==_iff, Bool-cases, List, [], ◌∷◌,
  drop,
}
use decomps_agent.Compress.Lz.Encode.{match_len, find_best, best_match}

-- The first `n` bytes of both are there and agree.
unfoldable pub Agree : ℕ → List ℕ → List ℕ → Type 0
Agree zero xs ys = Unit {0}
Agree (suc n) [] ys = ⊥
Agree (suc n) (x ∷ xs) [] = ⊥
Agree (suc n) (x ∷ xs) (y ∷ ys) = (x ≡ y) × Agree n xs ys

match_len-Agree :
    (room : ℕ) (xs ys : List ℕ) → Agree (match_len room xs ys) xs ys × (match_len room xs ys ≤ room)
unfolding match_len Agree
match_len-Agree zero xs ys = (tt, omega arith)
match_len-Agree (suc room) [] ys = (tt, omega arith)
match_len-Agree (suc room) (x ∷ xs) [] = (tt, omega arith)
match_len-Agree (suc room) (x ∷ xs) (y ∷ ys) = elim (Bool-cases (x == y)) [
  | inl same ↦
      let rest = match_len-Agree room xs ys in
      rw same (((==_iff x y).0 same, rest.0), omega (arith, rest.1))
  | inr other ↦ rw other (tt, omega arith)
]

-- A match is nothing, or it lies at a distance from 1 up to `i` and its bytes agree with those at `i`.
pub record IsMatch (bound : ℕ) (input : List ℕ) (i : ℕ) (best : ℕ × ℕ) : Type 0 where
  pub agree : Agree best.1 (drop (i - best.0) input) (drop i input)
  pub short : best.1 ≤ 18
  pub near : best.0 ≤ bound
  pub behind : 0 < best.1 → 0 < best.0

find_best-IsMatch :
    (bound left : ℕ) (input : List ℕ) (i : ℕ) (best : ℕ × ℕ)
    → left ≤ bound
    → IsMatch bound input i best
    → IsMatch bound input i (find_best left input i best)
unfolding find_best
find_best-IsMatch bound zero input i best h k = k
find_best-IsMatch bound (suc left) input i best h k =
    let l = match_len 18 (drop (i - suc left) input) (drop i input) in
    let m = match_len-Agree 18 (drop (i - suc left) input) (drop i input) in
    elim (Bool-cases (ltb best.1 l)) [
      | inl longer ↦ rw longer (
          find_best-IsMatch bound left input i (suc left, l) (omega arith)
            (record { agree = m.0; short = m.1; near = h; behind = λ p. omega arith }))
      | inr shorter ↦ rw shorter (find_best-IsMatch bound left input i best (omega arith) k)
    ]

pub best_match-IsMatch :
    (input : List ℕ) (i : ℕ) → IsMatch (i - (i - 4096)) input i (best_match input i)
unfolding Agree
best_match-IsMatch input i =
    find_best-IsMatch (i - (i - 4096)) (i - (i - 4096)) input i (0, 0) (omega arith)
      (record {
        agree = tt;
        short = omega arith;
        near = omega arith;
        behind = λ p. absurd (omega arith);
      })
