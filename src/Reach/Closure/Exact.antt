-- ===== src/Reach/Closure/Exact.antt =====
-- reach.rs: `closure` against reachability as a relation.
use decomps_agent.Prelude.{
  ℕ, zero, suc, ◌≡◌, ◌↔◌, ◌∙◌, inl, inr, refl, sym, subst, arith, true, ◌||◌, ◌==◌, ==_iff,
  Bool-cases, List, [], ◌∷◌, ◌++◌, some,
}
use decomps_agent.Reach.Maps.{set_insert, set_has, set_has-set_insert, set_has-append}
use decomps_agent.Reach.State.{Sub, Trace}
use decomps_agent.Reach.Closure.{callees, search, closure}
use decomps_agent.Reach.Closure.Terminates.{closure_ends}

-- A subroutine that is reached from the roots by calls.
pub data Reached (subs : List (ℕ × Sub)) (roots : List ℕ) : ℕ → Type 0 where
  root : (r : ℕ) → set_has r roots ≡ true → Reached subs roots r
  call : (r c : ℕ) → Reached subs roots r → set_has c (callees subs r) ≡ true → Reached subs roots c

-- What the loop keeps: all that is seen or queued is reached, and the roots and the callees of the
-- seen are seen or queued.
record Inv (subs : List (ℕ × Sub)) (roots seen q : List ℕ) : Type 0 where
  seen_sound : (x : ℕ) → set_has x seen ≡ true → Reached subs roots x
  queue_sound : (x : ℕ) → set_has x q ≡ true → Reached subs roots x
  rooted : (x : ℕ) → set_has x roots ≡ true → (set_has x seen || set_has x q) ≡ true
  closed :
      (r c : ℕ)
      → set_has r seen ≡ true
      → set_has c (callees subs r) ≡ true
      → (set_has c seen || set_has c q) ≡ true

start : (subs : List (ℕ × Sub)) (roots : List ℕ) → Inv subs roots [] roots
unfolding set_has
start subs roots = record {
  seen_sound = λ x h. absurd (ground arith);
  queue_sound = λ x h. root x h;
  rooted = λ x h. h;
  closed = λ r c h k. absurd (ground arith);
}

skip :
    (subs : List (ℕ × Sub)) (roots seen q : List ℕ) (r : ℕ)
    → set_has r seen ≡ true
    → Inv subs roots seen (r ∷ q)
    → Inv subs roots seen q
unfolding set_has
skip subs roots seen q r old i = record {
  seen_sound = i.seen_sound;
  queue_sound = λ x h. i.queue_sound x (ground arith);
  rooted = λ x h. forget x (i.rooted x h);
  closed = λ a c h k. forget c (i.closed a c h k);
}
  where
    forget :
        (x : ℕ)
        → (set_has x seen || set_has x (r ∷ q)) ≡ true
        → (set_has x seen || set_has x q) ≡ true
    forget x h = elim (Bool-cases (x == r)) [
      | inl same ↦
          let known : set_has x seen ≡ true =
            subst (λ k. set_has k seen ≡ true) (sym ((==_iff x r).0 same)) old in
          ground arith
      | inr other ↦ ground arith
    ]

visit :
    (subs : List (ℕ × Sub)) (roots seen q : List ℕ) (r : ℕ)
    → Inv subs roots seen (r ∷ q)
    → Inv subs roots (set_insert r seen) (q ++ callees subs r)
unfolding set_has
visit subs roots seen q r i = record {
  seen_sound = λ x h. elim (Bool-cases (x == r)) [
    | inl same ↦
        subst (λ k. Reached subs roots k) (sym ((==_iff x r).0 same))
          (i.queue_sound r (ground arith))
    | inr other ↦ i.seen_sound x (ground (arith, set_has-set_insert x r seen))
  ];
  queue_sound = λ x h. elim (Bool-cases (set_has x q)) [
    | inl queued ↦ i.queue_sound x (ground arith)
    | inr called ↦
        call r x (i.queue_sound r (ground arith))
          (ground (arith, set_has-append x q (callees subs r)))
  ];
  rooted = λ x h. keep x (i.rooted x h);
  closed = λ a c h k. elim (Bool-cases (a == r)) [
    | inl same ↦
        let here : set_has c (callees subs r) ≡ true =
          subst (λ j. set_has c (callees subs j) ≡ true) ((==_iff a r).0 same) k in
        ground (arith, set_has-append c q (callees subs r))
    | inr other ↦ keep c (i.closed a c (ground (arith, set_has-set_insert a r seen)) k)
  ];
}
  where
    keep :
        (x : ℕ)
        → (set_has x seen || set_has x (r ∷ q)) ≡ true
        → (set_has x (set_insert r seen) || set_has x (q ++ callees subs r)) ≡ true
    keep x h = ground (arith, set_has-set_insert x r seen, set_has-append x q (callees subs r))

search-Inv :
    (subs : List (ℕ × Sub)) (roots : List ℕ) (fuel : ℕ) (seen q found : List ℕ)
    → Inv subs roots seen q
    → search subs fuel seen q ≡ some found
    → Inv subs roots found []
unfolding search
search-Inv subs roots zero seen [] found i e =
    let same : seen ≡ found = cc in subst (λ s. Inv subs roots s []) same i
search-Inv subs roots zero seen (r ∷ q) found i e = absurd (cc)
search-Inv subs roots (suc fuel) seen [] found i e =
    let same : seen ≡ found = cc in subst (λ s. Inv subs roots s []) same i
search-Inv subs roots (suc fuel) seen (r ∷ q) found i e = elim (Bool-cases (set_has r seen)) [
  | inl old ↦
      search-Inv subs roots fuel seen q found (skip subs roots seen q r old i)
        (sym (rw (old, search) refl) ∙ e)
  | inr fresh ↦
      search-Inv subs roots fuel (set_insert r seen) (q ++ callees subs r) found
        (visit subs roots seen q r i) (sym (rw (fresh, search) refl) ∙ e)
]

-- With no queue left, what is seen is closed under calls.
complete :
    (subs : List (ℕ × Sub)) (roots found : List ℕ)
    → Inv subs roots found []
    → (x : ℕ) → Reached subs roots x
    → set_has x found ≡ true
unfolding set_has
complete subs roots found i _ (root x h) = let k = i.rooted x h in ground arith
complete subs roots found i _ (call r x h k) =
    let seen = complete subs roots found i r h in let j = i.closed r x seen k in ground arith

-- The search ends, and a subroutine is in the set that it returns exactly if a chain of calls leads to it
-- from one of the roots.
pub closure-Reached :
    (t : Trace) (roots : List ℕ) (x : ℕ)
    → (found : List ℕ) × (closure t roots ≡ some found)
      × ((set_has x found ≡ true) ↔ Reached t.subs roots x)
unfolding closure
closure-Reached t roots x =
    let ends = closure_ends t roots in
    let i = search-Inv t.subs roots _ [] roots ends.0 (start t.subs roots) ends.1 in
    (ends.0, ends.1, (i.seen_sound x, complete t.subs roots ends.0 i x))
