-- ===== src/Reach/Ends.antt =====
-- reach.rs: the passes of `trace_pass` come to an end: what is still to be replayed and resolved.
pub mod Rounds
pub mod Passes
use decomps_agent.Prelude.{
  ℕ, zero, suc, ◌+◌, ◌-◌, ◌≤◌, ◌≡◌, refl, arith, Bool, true, false, ◌&&◌, ◌||◌, ◌==◌, ==_self,
  if◌then◌else◌, List, [], ◌∷◌, ◌++◌, Option, none, some,
}
use decomps_agent.Mapper.State.{same_slots}
use decomps_agent.Reach.State.{CallSite, Indirect, SiteKey, World}
use decomps_agent.Reach.Record.{same_number}
use decomps_agent.Reach.World.{has_visit}
use decomps_agent.Reach.Resolve.{site_key, same_key, has_site}

-- The call sites, and the indirect jumps, that were not processed.
unfoldable pub open_sites : List SiteKey → List CallSite → ℕ
open_sites keys [] = 0
open_sites keys (cs ∷ sites) =
    (if has_site (site_key cs) keys then 0 else 1) + open_sites keys sites

unfoldable pub open_indirects : List (ℕ × List ℕ) → List Indirect → ℕ
open_indirects keys [] = 0
open_indirects keys (ind ∷ inds) =
    (if has_visit ind.off ind.st.prg8k keys then 0 else 1) + open_indirects keys inds

abbrev pub load : World → ℕ
load w =
    open_sites w.eng.processed_sites w.eng.call_sites
    + open_indirects w.eng.processed_indirects w.eng.indirects

pub data Listed {ℓ} {A : Type ℓ} (x : A) : List A → Type ℓ where
  first : (rest : List A) → Listed x (x ∷ rest)
  later : (y : A) (rest : List A) → Listed x rest → Listed x (y ∷ rest)

pub open_sites-append :
    (keys : List SiteKey) (sites : List CallSite) (cs : CallSite)
    → open_sites keys (sites ++ (cs ∷ [])) ≤ open_sites keys sites + 1
unfolding open_sites
open_sites-append keys [] cs = ground arith
open_sites-append keys (d ∷ sites) cs = omega (arith, open_sites-append keys sites cs)

pub open_indirects-append :
    (keys : List (ℕ × List ℕ)) (inds : List Indirect) (ind : Indirect)
    → open_indirects keys (inds ++ (ind ∷ [])) ≤ open_indirects keys inds + 1
unfolding open_indirects
open_indirects-append keys [] ind = ground arith
open_indirects-append keys (d ∷ inds) ind = omega (arith, open_indirects-append keys inds ind)

same_slots_self : (s : List ℕ) → same_slots s s ≡ true
unfolding same_slots
same_slots_self [] = refl
same_slots_self (x ∷ s) = rw (==_self x, same_slots_self s) refl

same_number_self : (o : Option ℕ) → same_number o o ≡ true
same_number_self none = refl
same_number_self (some n) = ==_self n

same_key_self : (k : SiteKey) → same_key k k ≡ true
unfolding same_key
same_key_self k =
    rw
      (
        ==_self k.jsr_off,
        same_slots_self k.slots,
        same_number_self k.a,
        same_number_self k.x,
        same_number_self k.y,
      )
      refl

pub mark_le :
    (k : SiteKey) (keys : List SiteKey) (sites : List CallSite)
    → open_sites (k ∷ keys) sites ≤ open_sites keys sites
unfolding open_sites has_site
mark_le k keys [] = omega arith
mark_le k keys (cs ∷ sites) = ground (arith, mark_le k keys sites)

-- To process a call site that is listed and was not processed leaves fewer.
pub mark_lt :
    (cs : CallSite) (keys : List SiteKey) (sites : List CallSite)
    → Listed cs sites
    → has_site (site_key cs) keys ≡ false
    → open_sites (site_key cs ∷ keys) sites + 1 ≤ open_sites keys sites
unfolding open_sites has_site
mark_lt cs keys _ (first rest) h =
    ground (arith, same_key_self (site_key cs), mark_le (site_key cs) keys rest)
mark_lt cs keys _ (later d rest at) h = ground (arith, mark_lt cs keys rest at h)

mark_indirect_le :
    (off : ℕ) (slots : List ℕ) (keys : List (ℕ × List ℕ)) (inds : List Indirect)
    → open_indirects ((off, slots) ∷ keys) inds ≤ open_indirects keys inds
unfolding open_indirects has_visit
mark_indirect_le off slots keys [] = omega arith
mark_indirect_le off slots keys (ind ∷ inds) = ground (arith, mark_indirect_le off slots keys inds)

pub mark_indirect_lt :
    (ind : Indirect) (keys : List (ℕ × List ℕ)) (inds : List Indirect)
    → Listed ind inds
    → has_visit ind.off ind.st.prg8k keys ≡ false
    → open_indirects ((ind.off, ind.st.prg8k) ∷ keys) inds + 1 ≤ open_indirects keys inds
unfolding open_indirects has_visit
mark_indirect_lt ind keys _ (first rest) h = ground (
  arith,
  ==_self ind.off,
  same_slots_self ind.st.prg8k,
  mark_indirect_le ind.off ind.st.prg8k keys rest,
)
mark_indirect_lt ind keys _ (later d rest at) h =
    ground (arith, mark_indirect_lt ind keys rest at h)
