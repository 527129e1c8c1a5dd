-- ===== src/Compress/Lz/Window.antt =====
-- compress/lz.rs: what a back-reference copies.
use decomps_agent.Prelude.{
  ℕ, zero, suc, ◌+◌, ◌-◌, ◌≤◌, ◌<◌, ◌≡◌, inl, inr, refl, sym, ◌∙◌, subst, arith, some, List, [],
  ◌∷◌, ◌++◌, length, length-append, get_elem?-some, get_or, get_or-append_before, get_or-append_at,
  get_elem?-get_or, leb, Bool-cases, min,
}
use decomps_agent.Compress.Lz.{copy_back}

-- `result` is `out` with `count` bytes behind it, or those that the limit leaves room for, each equal to
-- the one `length out - from` places before it.
abbrev pub Repeats : ℕ → ℕ → ℕ → List ℕ → List ℕ → Type 0
Repeats count limit from out result =
    (length result ≡ min (length out + count) limit)
    × ((j : ℕ) → j < length out → get_or result j 0 ≡ get_or out j 0)
    × ((k : ℕ)
        → from ≤ k
        → k + (length out - from) < length result
        → get_or result (k + (length out - from)) 0 ≡ get_or result k 0)

-- A back-reference that starts at `from` inside an output within the limit gives the output with `count`
-- bytes behind it, or as many as the limit leaves room for: what was there stays, and each byte from
-- `from` on equals the one as many places behind it as the reference reaches back, also where the copy
-- overlaps itself.
pub copy_back-Repeats :
    (count limit from : ℕ) (out : List ℕ)
    → from < length out
    → length out ≤ limit
    → (result : List ℕ) × (copy_back count limit from out ≡ some result)
      × Repeats count limit from out result
unfolding copy_back
copy_back-Repeats zero limit from out h le =
    (out, refl, (ground arith, λ j lt. refl, λ k a b. absurd (omega arith)))
copy_back-Repeats (suc count) limit from out h le = elim (Bool-cases (leb limit (length out))) [
  | inl full ↦
      (out, rw (full, copy_back) refl, (ground arith, λ j lt. refl, λ k a b. absurd (omega arith)))
  | inr room ↦
      let (b, e) = get_elem?-some out from h in
      let longer = length-append out (b ∷ []) in
      let (result, f, (size, before, again)) =
        copy_back-Repeats count limit (from + 1) (out ++ (b ∷ [])) (omega arith) (ground arith) in
      let kept : (j : ℕ) → j < length out → get_or result j 0 ≡ get_or out j 0 =
        λ j lt. before j (omega arith) ∙ get_or-append_before out (b ∷ []) j 0 lt in
      let first : get_or result (length out) 0 ≡ get_or result from 0 =
        before (length out) (omega arith)
        ∙ get_or-append_at out b 0
        ∙ sym (get_elem?-get_or out from b 0 e)
        ∙ sym (kept from h) in
      (
        result,
        rw (room, copy_back, e) f,
        (
          ground arith,
          kept,
          λ k a lt. elim (Bool-cases (leb k from)) [
            | inl start ↦
                let at : k ≡ from = ground arith in
                let here : from + (length out - from) ≡ length out = omega arith in
                rw (at, here) first
            | inr later ↦
                let same : length (out ++ (b ∷ [])) - (from + 1) ≡ length out - from =
                  omega arith in
                subst (λ n. k + n < length result → get_or result (k + n) 0 ≡ get_or result k 0)
                  same (again k (ground arith)) lt
          ],
        ),
      )
]
