-- ===== src/Reach/Closure.antt =====
-- reach.rs: `closure`, the subroutines reachable through `calls`; the loop has fuel.
pub mod Terminates
pub mod Exact
use decomps_agent.Prelude.{
  ℕ, zero, suc, ◌+◌, Bool, true, false, List, [], ◌∷◌, ◌++◌, Option, none, some, length,
}
use decomps_agent.Reach.Maps.{lookup, set_insert, set_has}
use decomps_agent.Reach.State.{Sub, Trace}

abbrev calls_of : Option Sub → List ℕ
calls_of none = []
calls_of (some s) = s.calls

-- What the subroutine at `r` calls; nothing, if there is none.
unfoldable pub callees : List (ℕ × Sub) → ℕ → List ℕ
callees subs r = calls_of (lookup r subs)

-- The loop over the queue `q`; `none` is the end of the fuel.
unfoldable pub search : List (ℕ × Sub) → ℕ → List ℕ → List ℕ → Option (List ℕ)
search subs zero seen [] = some seen
search subs zero seen (r ∷ q) = none
search subs (suc fuel) seen [] = some seen
search subs (suc fuel) seen (r ∷ q) = elim (set_has r seen) [
  | true ↦ search subs fuel seen q
  | false ↦ search subs fuel (set_insert r seen) (q ++ callees subs r)
]

-- Every subroutine's calls are queued once.
unfoldable pub call_count : List (ℕ × Sub) → ℕ
call_count [] = 0
call_count ((k, s) ∷ subs) = length s.calls + call_count subs

unfoldable pub closure : Trace → List ℕ → Option (List ℕ)
closure t roots = search t.subs (length roots + call_count t.subs) [] roots
