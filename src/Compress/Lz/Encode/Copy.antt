-- ===== src/Compress/Lz/Encode/Copy.antt =====
-- compress/lz.rs: a back-reference to a match copies the bytes that the input has next.
use decomps_agent.Prelude.{
  ℕ, zero, suc, ◌+◌, ◌≤◌, ◌<◌, ◌≡◌, ◌∙◌, refl, sym, ap, arith, some, List, [], ◌∷◌, ◌++◌, length,
  take, drop, length-append, get_elem?, append_cons, lt→leb_false, append-nil,
}
use decomps_agent.Compress.Lz.{copy_back}
use decomps_agent.Compress.Lz.Encode.Match.{Agree}

-- The head of what is dropped to is the element there.
drop-head :
    (n : ℕ) (xs : List ℕ) (x : ℕ) (rest : List ℕ)
    → drop n xs ≡ x ∷ rest
    → (get_elem? xs n ≡ some x) × (drop (suc n) xs ≡ rest)
drop-head zero [] x rest e = absurd (cc)
drop-head zero (y ∷ xs) x rest e = (cc, cc)
drop-head (suc n) [] x rest e = absurd (cc)
drop-head (suc n) (y ∷ xs) x rest e = drop-head n xs x rest e

get_elem?-before :
    (xs ys : List ℕ) (i : ℕ) → i < length xs → get_elem? (xs ++ ys) i ≡ get_elem? xs i
get_elem?-before [] ys i h = absurd (omega arith)
get_elem?-before (x ∷ xs) ys zero h = refl
get_elem?-before (x ∷ xs) ys (suc i) h = get_elem?-before xs ys i (omega arith)

pub copy_back-Agree :
    (count limit from : ℕ) (out ys xs : List ℕ)
    → from < length out
    → length out + count ≤ limit
    → drop from (out ++ ys) ≡ xs
    → Agree count xs ys
    → copy_back count limit from out ≡ some (out ++ take count ys)
unfolding copy_back Agree
copy_back-Agree zero limit from out ys xs h le e a = ap some (sym (append-nil out))
copy_back-Agree (suc count) limit from out [] [] h le e a = absurd a
copy_back-Agree (suc count) limit from out (y ∷ ys) [] h le e a = absurd a
copy_back-Agree (suc count) limit from out [] (x ∷ xs) h le e a = absurd a
copy_back-Agree (suc count) limit from out (y ∷ ys) (x ∷ xs) h le e (same, a) =
    let head = drop-head from (out ++ (y ∷ ys)) x xs e in
    let here : get_elem? out from ≡ some y =
      sym (get_elem?-before out (y ∷ ys) from h) ∙ head.0 ∙ ap some same in
    let split = append_cons out y ys in
    let next : from + 1 ≡ suc from = omega arith in
    rw (lt→leb_false (length out) limit (omega arith), copy_back, here)
      (copy_back-Agree count limit (from + 1) (out ++ (y ∷ [])) ys xs
          (omega (arith, length-append out (y ∷ []))) (omega (arith, length-append out (y ∷ [])))
          (ap (λ l. drop (from + 1) l) split ∙ ap (λ n. drop n (out ++ (y ∷ ys))) next ∙ head.1) a
        ∙ ap some (append_cons out y (take count ys)))
