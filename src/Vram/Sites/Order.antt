-- ===== src/Vram/Sites/Order.antt =====
-- vram.rs: what sorting the writes by their sequence numbers gives.
use decomps_agent.Prelude.{
  ℕ, ◌≤◌, ◌≡◌, inl, inr, refl, ap, ◌∙◌, arith, false, leb, ◌==◌, if◌then◌else◌, Bool-cases, List,
  [], ◌∷◌, All,
}
use decomps_agent.Vram.Sites.{VramWrite, insert_by_seq, sort_by_seq}

-- The writes with one sequence number, in their order.
abbrev pub with_seq : ℕ → List VramWrite → List VramWrite
with_seq k [] = []
with_seq k (w ∷ ws) = if w.seq == k then w ∷ with_seq k ws else with_seq k ws

abbrev pub Ascending : List VramWrite → Type 0
Ascending [] = Unit {0}
Ascending (w ∷ ws) = All (λ v. w.seq ≤ v.seq) ws × Ascending ws

-- The same writes by their sequence numbers; those with the same number keep their order.
abbrev pub IsSorted : List VramWrite → List VramWrite → Type 0
IsSorted ws sorted = Ascending sorted × ((k : ℕ) → with_seq k sorted ≡ with_seq k ws)

insert-All :
    (n : ℕ) (w : VramWrite) (ws : List VramWrite)
    → n ≤ w.seq
    → All (λ v. n ≤ v.seq) ws
    → All (λ v. n ≤ v.seq) (insert_by_seq w ws)
insert-All n w [] h hs = (h, tt)
insert-All n w (first ∷ rest) h (k, hs) = elim (Bool-cases (leb w.seq first.seq)) [
  | inl early ↦ rw early (h, (k, hs))
  | inr late ↦ rw late (k, insert-All n w rest h hs)
]

raise : (a b : ℕ) (ws : List VramWrite) → a ≤ b → All (λ v. b ≤ v.seq) ws → All (λ v. a ≤ v.seq) ws
raise a b [] le h = tt
raise a b (w ∷ ws) le (h, hs) = (omega (arith, h), raise a b ws le hs)

insert-Ascending :
    (w : VramWrite) (ws : List VramWrite) → Ascending ws → Ascending (insert_by_seq w ws)
insert-Ascending w [] h = (tt, tt)
insert-Ascending w (first ∷ rest) (low, h) = elim (Bool-cases (leb w.seq first.seq)) [
  | inl early ↦
      let le : w.seq ≤ first.seq = ground arith in
      rw early ((le, raise w.seq first.seq rest le low), (low, h))
  | inr late ↦ rw late (insert-All first.seq w rest (ground arith) low, insert-Ascending w rest h)
]

insert-with_seq :
    (k : ℕ) (w : VramWrite) (ws : List VramWrite)
    → with_seq k (insert_by_seq w ws) ≡ with_seq k (w ∷ ws)
insert-with_seq k w [] = refl
insert-with_seq k w (first ∷ rest) = elim (Bool-cases (leb w.seq first.seq)) [
  | inl early ↦ rw early refl
  | inr late ↦ elim (Bool-cases (w.seq == k)) [
    | inl this ↦
        let other : (first.seq == k) ≡ false = ground arith in
        rw (late, other, insert-with_seq k w rest, this) refl
    | inr not_this ↦ elim (Bool-cases (first.seq == k)) [
      | inl that ↦ rw (late, that, insert-with_seq k w rest, not_this) refl
      | inr neither ↦ rw (late, neither, insert-with_seq k w rest, not_this) refl
    ]
  ]
]

pub sort-IsSorted : (ws : List VramWrite) → IsSorted ws (sort_by_seq ws)
sort-IsSorted [] = (tt, λ k. refl)
sort-IsSorted (w ∷ ws) =
    let (up, same) = sort-IsSorted ws in
    (
      insert-Ascending w (sort_by_seq ws) up,
      λ k.
          insert-with_seq k w (sort_by_seq ws) ∙ ap (λ l. if w.seq == k then w ∷ l else l) (same k),
    )
