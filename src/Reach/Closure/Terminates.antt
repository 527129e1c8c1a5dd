-- ===== src/Reach/Closure/Terminates.antt =====
-- reach.rs: the loop of `closure` ends.
use decomps_agent.Prelude.{
  ℕ, zero, suc, ◌+◌, ◌≤◌, ◌≡◌, inl, inr, refl, arith, false, ◌==◌, if◌then◌else◌, Bool-cases, List,
  [], ◌∷◌, ◌++◌, some, length, length-append,
}
use decomps_agent.Reach.Maps.{lookup, set_insert, set_has, set_has-set_insert}
use decomps_agent.Reach.State.{Sub, Trace}
use decomps_agent.Reach.Closure.{callees, search, call_count, closure}

-- The calls of the subroutines that were not seen.
unfoldable pub budget : List ℕ → List (ℕ × Sub) → ℕ
budget seen [] = 0
budget seen ((k, s) ∷ subs) = (if set_has k seen then 0 else length s.calls) + budget seen subs

budget_nil : (subs : List (ℕ × Sub)) → budget [] subs ≡ call_count subs
unfolding budget call_count set_has
budget_nil [] = refl
budget_nil ((k, s) ∷ subs) = rw (budget_nil subs) refl

budget_le :
    (r : ℕ) (seen : List ℕ) (subs : List (ℕ × Sub))
    → budget (set_insert r seen) subs ≤ budget seen subs
unfolding budget
budget_le r seen [] = omega arith
budget_le r seen ((k, s) ∷ subs) =
    ground (arith, set_has-set_insert k r seen, budget_le r seen subs)

-- Seeing a subroutine takes its calls out of the budget.
budget_drop :
    (r : ℕ) (seen : List ℕ) (subs : List (ℕ × Sub))
    → set_has r seen ≡ false
    → budget (set_insert r seen) subs + length (callees subs r) ≤ budget seen subs
unfolding budget callees lookup
budget_drop r seen [] h = omega arith
budget_drop r seen ((k, s) ∷ subs) h = elim (Bool-cases (r == k)) [
  | inl same ↦ rw same (ground (arith, set_has-set_insert k r seen, budget_le r seen subs))
  | inr other ↦ rw other (ground (arith, set_has-set_insert k r seen, budget_drop r seen subs h))
]

search_ends :
    (subs : List (ℕ × Sub)) (fuel : ℕ) (seen q : List ℕ)
    → length q + budget seen subs ≤ fuel
    → (found : List ℕ) × (search subs fuel seen q ≡ some found)
unfolding search
search_ends subs zero seen [] h = (seen, refl)
search_ends subs zero seen (r ∷ q) h = absurd (omega arith)
search_ends subs (suc fuel) seen [] h = (seen, refl)
search_ends subs (suc fuel) seen (r ∷ q) h = elim (Bool-cases (set_has r seen)) [
  | inl old ↦ rw (old, search) (search_ends subs fuel seen q (omega arith))
  | inr fresh ↦
      rw (fresh, search)
        (search_ends subs fuel (set_insert r seen) (q ++ callees subs r)
          (omega (arith, budget_drop r seen subs fresh, length-append q (callees subs r))))
]

pub closure_ends : (t : Trace) (roots : List ℕ) → (found : List ℕ) × (closure t roots ≡ some found)
unfolding closure
closure_ends t roots =
    search_ends t.subs (length roots + call_count t.subs) [] roots
      (omega (arith, budget_nil t.subs))
