-- ===== src/Vram/Sites/Runs.antt =====
-- vram.rs: the addresses of a site as a run with a stride.
use decomps_agent.Prelude.{
  ℕ, ◌+◌, ◌^◌, ◌<◌, ◌≡◌, inl, inr, arith, Bool, true, false, ◌&&◌, leb, ◌==◌, ==_iff, if◌then◌else◌,
  Bool-cases, List, [], ◌∷◌, length, All,
}
use decomps_agent.Vram.Sites.{VramWrite, insert_by_seq, sort_by_seq, newest, delta_of}

-- From the newest address back to the first, each a stride behind the next.
abbrev pub IsSteps : ℕ → ℕ → List ℕ → Type 0
IsSteps stride start [] = ⊥
IsSteps stride start (a ∷ []) = a ≡ start
IsSteps stride start (a ∷ b ∷ rest) = (a ≡ b + stride) × IsSteps stride start (b ∷ rest)

abbrev pub IsWord : ℕ → Type 0
IsWord n = n < 2 ^ 16

abbrev pub AreWords : List VramWrite → Type 0
AreWords ws = All (λ w. IsWord w.vram_n) ws

IsSteps-extended :
    (count stride start n : ℕ) (addrs : List ℕ)
    → count ≡ length addrs
    → IsSteps stride start addrs
    → All IsWord addrs
    → IsWord n
    → (count == 1) ≡ true
    → newest addrs < n
    → IsSteps (delta_of n (newest addrs)) start (n ∷ addrs)
IsSteps-extended count stride start n [] e h words w one lt = absurd h
IsSteps-extended count stride start n (a ∷ []) e h (wa, u) w one lt = (omega arith, h)
IsSteps-extended count stride start n (a ∷ b ∷ rest) e h words w one lt = absurd (ground arith)

IsSteps-kept :
    (stride start n : ℕ) (addrs : List ℕ)
    → IsSteps stride start addrs
    → All IsWord addrs
    → IsWord n
    → delta_of n (newest addrs) ≡ stride
    → newest addrs < n
    → IsSteps stride start (n ∷ addrs)
IsSteps-kept stride start n [] h words w e lt = absurd h
IsSteps-kept stride start n (a ∷ rest) h (wa, u) w e lt = (omega arith, h)

-- The two cases of the stride, on the test whether the site has one write.
pub IsSteps-next :
    (test : Bool) (count stride start n : ℕ) (addrs : List ℕ)
    → (count == 1) ≡ test
    → count ≡ length addrs
    → IsSteps stride start addrs
    → All IsWord addrs
    → IsWord n
    → (if test
        then leb 1 (delta_of n (newest addrs)) && leb (delta_of n (newest addrs)) 32
        else delta_of n (newest addrs) == stride)
      ≡ true
    → newest addrs < n
    → IsSteps (if test then delta_of n (newest addrs) else stride) start (n ∷ addrs)
IsSteps-next true count stride start n addrs one e steps words w ok lt =
    IsSteps-extended count stride start n addrs e steps words w one lt
IsSteps-next false count stride start n addrs one e steps words w ok lt =
    IsSteps-kept stride start n addrs steps words w ((==_iff _ _).0 ok) lt

pub insert-AreWords :
    (w : VramWrite) (ws : List VramWrite)
    → IsWord w.vram_n
    → AreWords ws
    → AreWords (insert_by_seq w ws)
insert-AreWords w [] h hs = (h, tt)
insert-AreWords w (first ∷ rest) h (k, hs) = elim (Bool-cases (leb w.seq first.seq)) [
  | inl early ↦ rw early (h, (k, hs))
  | inr late ↦ rw late (k, insert-AreWords w rest h hs)
]

pub sort-AreWords : (ws : List VramWrite) → AreWords ws → AreWords (sort_by_seq ws)
sort-AreWords [] h = tt
sort-AreWords (w ∷ ws) (h, hs) = insert-AreWords w (sort_by_seq ws) h (sort-AreWords ws hs)
