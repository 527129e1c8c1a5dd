-- ===== src/Reach/Sound/Traces.antt =====
-- reach.rs: the passes behind `drain`, the entries, and the finished trace.
use decomps_agent.Prelude.{
  ℕ, zero, suc, ◌+◌, ◌≡◌, refl, inl, inr, Bool, true, false, not, if◌then◌else◌, Bool-cases, List,
  [], ◌∷◌, Option, none, some, All, subst,
}
use decomps_agent.Ines.{Rom}
use decomps_agent.Mapper.State.{RomLoc, same_slots}
use decomps_agent.Mapper.Chip.{Mapper}
use decomps_agent.Vram.{Queue}
use decomps_agent.Reach.Maps.{Ascends, Holds, set_has}
use decomps_agent.Reach.State.{CallSite, Indirect, EdgeKind, Trace, World, entry_outside_rom}
use decomps_agent.Reach.Record.{edge, add_sub, dedupe_edges, fill_hw_vram}
use decomps_agent.Reach.Targets.{sort_targets, dedup_targets}
use decomps_agent.Reach.Replay.{helper_loop}
use decomps_agent.Reach.World.{has_visit}
use decomps_agent.Reach.Resolve.{
  site_key, has_site, all_unknown, mark_site, resumed, replay_site, helper_site, helper_sites,
  replay_helpers, resolve_to, resolve_targets, mark_indirect, clear_unresolved, targets_of,
  target_item, resolve_one, resolve_pending, resolve_indirects,
}
use decomps_agent.Reach.Pass.{
  Start, new_world, entry_item, enter_at, enter_all, pass_round, pass_loop, finished, trace_pass,
}
use decomps_agent.Reach.Relation.{Among, here, there, Reaches}
use decomps_agent.Reach.Invariant.{
  Genuine, Sound, SiteOk, LeadsTo, IndirectOk, retraced-Sound, push_work-Sound,
  push_unresolved-Sound,
}
use decomps_agent.Reach.Sound.Rounds.{drain-Sound}
use decomps_agent.Reach.Sound.Tables.{AllTargets}
use decomps_agent.Reach.Sound.Words.{sorted_targets-Leads}

module _ (rom : Rom) (m : Mapper) (entries : List Start) where
  if-Sound :
      (b : Bool) (x y : Bool × World)
      → (b ≡ true → Sound rom m entries x.1)
      → (b ≡ false → Sound rom m entries y.1)
      → Sound rom m entries (if b then x else y).1
  if-Sound true x y f g = f refl
  if-Sound false x y f g = g refl

  mark_site-Sound :
      (cs : CallSite) (w : World)
      → Sound rom m entries w
      → Sound rom m entries (mark_site (site_key cs) w)
  mark_site-Sound cs w s = record {
    ordered = s.ordered;
    genuine = s.genuine;
    work_ok = s.work_ok;
    sites_ok = s.sites_ok;
    indirects_ok = s.indirects_ok;
  }

  helper_site-Sound :
      (cs : CallSite) (w : World)
      → SiteOk rom m entries cs
      → Sound rom m entries w
      → Sound rom m entries (helper_site rom m cs w).1
  unfolding helper_site replay_site
  helper_site-Sound cs w ok s =
      let left = helper_loop rom m 256 cs.callee_pc cs.regs cs.st [] in
      let marked = mark_site-Sound cs w s in
      if-Sound (not (set_has cs.callee_off w.eng.helper_subs)) _ _ (λ e. s)
        (λ helper.
          if-Sound (has_site (site_key cs) w.eng.processed_sites) _ _ (λ e. s)
            (λ fresh.
              if-Sound (all_unknown cs) _ _ (λ e. marked)
                (λ known.
                  if-Sound (same_slots left.0.prg8k cs.st.prg8k) _ _ (λ e. marked)
                    (λ switched.
                      push_work-Sound rom m entries (resumed cs left.0) _ (ok cs.regs)
                        (retraced-Sound rom m entries _ _ refl marked)))))

  helper_sites-Sound :
      (sites : List CallSite) (w : World)
      → All (SiteOk rom m entries) sites
      → Sound rom m entries w
      → Sound rom m entries (helper_sites rom m sites w).1
  unfolding helper_sites
  helper_sites-Sound [] w ok s = s
  helper_sites-Sound (cs ∷ sites) w ok s =
      helper_sites-Sound sites _ ok.1 (helper_site-Sound cs w ok.0 s)

  resolve_to-Sound :
      (ind : Indirect) (x : ℕ × EdgeKind) (o : Option RomLoc) (w : World)
      → LeadsTo rom m entries ind.kind ind.st x.0
      → IndirectOk rom m entries ind
      → Sound rom m entries w
      → Sound rom m entries (resolve_to rom m ind x o w).2
  unfolding edge add_sub
  resolve_to-Sound ind (tgt, kind) none w leads ok s = s
  resolve_to-Sound ind (tgt, kind) (some tl) w leads ok s =
      let linked = retraced-Sound rom m entries w _ refl s in
      elim (Bool-cases (has_visit tl.file_offset ind.st.prg8k w.eng.visited)) [
        | inl old ↦ rw old linked
        | inr fresh ↦
            rw fresh
              (push_work-Sound rom m entries (target_item rom m ind tgt tl) _ (ok tgt leads) linked)
      ]

  resolve_targets-Sound :
      (ind : Indirect) (targets : List (ℕ × EdgeKind)) (w : World)
      → AllTargets (LeadsTo rom m entries ind.kind ind.st) targets
      → IndirectOk rom m entries ind
      → Sound rom m entries w
      → Sound rom m entries (resolve_targets rom m ind targets w).2
  unfolding resolve_targets
  resolve_targets-Sound ind [] w leads ok s = s
  resolve_targets-Sound ind (x ∷ targets) w leads ok s =
      resolve_targets-Sound ind targets _ leads.1 ok (resolve_to-Sound ind x _ w leads.0 ok s)

  clear-Sound :
      (resolved : Bool) (pc : ℕ) (w : World)
      → Sound rom m entries w
      → Sound rom m entries (clear_unresolved rom m resolved pc w)
  clear-Sound true pc w s = retraced-Sound rom m entries w _ refl s
  clear-Sound false pc w s = s

  mark_indirect-Sound :
      (ind : Indirect) (w : World)
      → Sound rom m entries w
      → Sound rom m entries (mark_indirect rom m ind w)
  mark_indirect-Sound ind w s = record {
    ordered = s.ordered;
    genuine = s.genuine;
    work_ok = s.work_ok;
    sites_ok = s.sites_ok;
    indirects_ok = s.indirects_ok;
  }

  resolve_pending-Sound :
      (pending : List Indirect) (w : World)
      → All (IndirectOk rom m entries) pending
      → Sound rom m entries w
      → Sound rom m entries (resolve_pending rom m pending w).1
  unfolding resolve_pending resolve_one
  resolve_pending-Sound [] w ok s = s
  resolve_pending-Sound (ind ∷ pending) w ok s = resolve_pending-Sound pending _ ok.1 (
      if-Sound (has_visit ind.off ind.st.prg8k w.eng.processed_indirects) _ _ (λ e. s)
        (λ fresh. clear-Sound _ ind.pc _ (
          resolve_targets-Sound ind
            (dedup_targets (sort_targets (targets_of rom m ind.kind ind.st w.trace)))
            (mark_indirect rom m ind w)
            (sorted_targets-Leads rom m entries ind.kind ind.st w.trace s.genuine) ok.0
            (mark_indirect-Sound ind w s))))

  pass_round-Sound :
      (limit : ℕ) (w : World)
      → Sound rom m entries w
      → Sound rom m entries (pass_round rom m limit w).1
  unfolding pass_round replay_helpers resolve_indirects
  pass_round-Sound limit w s =
      let drained = drain-Sound rom m entries limit w s in
      let helped = helper_sites-Sound _ _ drained.sites_ok drained in
      resolve_pending-Sound _ _ helped.indirects_ok helped

  pass_loop-Sound :
      (limit fuel : ℕ) (w left : World)
      → Sound rom m entries w
      → pass_loop rom m limit fuel w ≡ some left
      → Sound rom m entries left
  unfolding pass_loop
  pass_loop-Sound limit zero w left s e = absurd (cc)
  pass_loop-Sound limit (suc fuel) w left s e =
      go (λ after t k. pass_loop-Sound limit fuel after left t k) (pass_round rom m limit w)
        (pass_round-Sound limit w s) e
    where
      go :
          ((after : World)
            → Sound rom m entries after
            → pass_loop rom m limit fuel after ≡ some left
            → Sound rom m entries left)
          → (next : Bool × World) → Sound rom m entries next.1
          → (elim next.0 [ true ↦ pass_loop rom m limit fuel next.1 | false ↦ some next.1 ])
            ≡ some left
          → Sound rom m entries left
      go again (true, after) t k = again after t k
      go again (false, after) t k =
          let same : after ≡ left = cc in subst (λ u. Sound rom m entries u) same t

  enter_at-Sound :
      (e : Start) (o : Option RomLoc) (w : World)
      → Among e entries
      → Sound rom m entries w
      → Sound rom m entries (enter_at e o w)
  unfolding add_sub
  enter_at-Sound e none w a s = push_unresolved-Sound rom m entries e.addr 0 entry_outside_rom w s
  enter_at-Sound e (some loc) w a s =
      push_work-Sound rom m entries (entry_item e loc) _ (Reaches.entry e a)
        (retraced-Sound rom m entries w _ refl s)

  enter_all-Sound :
      (left : List Start) (w : World)
      → ((e : Start) → Among e left → Among e entries)
      → Sound rom m entries w
      → Sound rom m entries (enter_all rom m left w)
  unfolding enter_all
  enter_all-Sound [] w sub s = s
  enter_all-Sound (e ∷ left) w sub s =
      enter_all-Sound left _ (λ d a. sub d (there e left a))
        (enter_at-Sound e _ w (sub e (here left)) s)

-- What the finished trace lists: instructions in the order of their file offsets, each the one that the
-- ROM holds at its offset, and each reached by the flow of control from an entry.
pub trace_pass-Genuine :
    (rom : Rom) (m : Mapper) (limit : ℕ) (entries : List Start) (queues : List Queue) (t : Trace)
    → trace_pass rom m limit entries queues ≡ some t
    → Ascends 0 t.insns × Holds (Genuine rom m entries) t.insns
unfolding trace_pass Ascends Holds fill_hw_vram dedupe_edges
trace_pass-Genuine rom m limit entries queues t e =
    let entered =
      enter_all-Sound rom m entries entries (new_world queues) (λ d a. a) (fresh queues) in
    let looped = pass_loop rom m limit (limit + 1) (enter_all rom m entries (new_world queues)) in
    go looped (λ left k. pass_loop-Sound rom m entries limit (limit + 1) _ left entered k) e
  where
    fresh : (qs : List Queue) → Sound rom m entries (new_world qs)
    fresh qs = record { ordered = tt; genuine = tt; work_ok = tt; sites_ok = tt; indirects_ok = tt }

    go :
        (o : Option World)
        → ((left : World) → o ≡ some left → Sound rom m entries left)
        → finished rom m o ≡ some t
        → Ascends 0 t.insns × Holds (Genuine rom m entries) t.insns
    go none ok k = absurd (cc)
    go (some w) ok k =
        let s = ok w refl in
        let same : fill_hw_vram (dedupe_edges w.trace) ≡ t = cc in
        subst (λ u. Ascends 0 u.insns × Holds (Genuine rom m entries) u.insns) same
          (s.ordered, s.genuine)
