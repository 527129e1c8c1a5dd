-- ===== src/Reach/Ends/Passes.antt =====
-- reach.rs: a pass that adds work has processed something, so `trace_pass` ends within its fuel.
use decomps_agent.Prelude.{
  ℕ, zero, suc, ◌+◌, ◌-◌, ◌≤◌, ◌≡◌, ◌∙◌, refl, sym, subst, ap, inl, inr, arith, Bool, true, false,
  not, ◌||◌, if◌then◌else◌, Bool-cases, List, [], ◌∷◌, Option, none, some,
}
use decomps_agent.Ines.{Rom}
use decomps_agent.Mapper.State.{RomLoc, same_slots}
use decomps_agent.Mapper.Chip.{Mapper}
use decomps_agent.Mapper.Address.{cpu_to_rom}
use decomps_agent.Vram.{Queue}
use decomps_agent.Reach.Maps.{set_has}
use decomps_agent.Reach.State.{CallSite, Indirect, EdgeKind, Trace, World}
use decomps_agent.Reach.Record.{dedupe_edges, fill_hw_vram}
use decomps_agent.Reach.Targets.{sort_targets, dedup_targets}
use decomps_agent.Reach.World.{has_visit}
use decomps_agent.Reach.Replay.{helper_loop}
use decomps_agent.Reach.Drain.{drain}
use decomps_agent.Reach.Resolve.{
  site_key, has_site, all_unknown, mark_site, replay_site, helper_site, helper_sites,
  replay_helpers, resolve_to, resolve_targets, mark_indirect, clear_unresolved, targets_of,
  resolve_one, resolve_pending, resolve_indirects,
}
use decomps_agent.Reach.Pass.{
  Start, new_world, enter_at, enter_all, pass_round, pass_loop, finished, trace_pass,
}
use decomps_agent.Reach.Ranges.Cover.{one_if}
use decomps_agent.Reach.Ends.{
  open_sites, open_indirects, load, Listed, first, later, mark_lt, mark_indirect_lt,
}
use decomps_agent.Reach.Ends.Rounds.{drain-pays}

-- A pass from `w`, with its answer: the lists of calls and jumps and the steps stay, and what is left to
-- process is less if the answer is that work was added.
record Drops (w : World) (r : Bool × World) : Type 0 where
  steps_same : r.1.eng.steps ≡ w.eng.steps
  sites_same : r.1.eng.call_sites ≡ w.eng.call_sites
  indirects_same : r.1.eng.indirects ≡ w.eng.indirects
  drop : load r.1 + one_if r.0 ≤ load w

stay : (w : World) → Drops w (false, w)
stay w = record { steps_same = refl; sites_same = refl; indirects_same = refl; drop = omega arith }

both : (w : World) (r s : Bool × World) → Drops w r → Drops r.1 s → Drops w (r.0 || s.0, s.1)
both w (true, mid) (b, after) p q = record {
  steps_same = q.steps_same ∙ p.steps_same;
  sites_same = q.sites_same ∙ p.sites_same;
  indirects_same = q.indirects_same ∙ p.indirects_same;
  drop = let x = p.drop in let y = q.drop in omega arith;
}
both w (false, mid) (b, after) p q = record {
  steps_same = q.steps_same ∙ p.steps_same;
  sites_same = q.sites_same ∙ p.sites_same;
  indirects_same = q.indirects_same ∙ p.indirects_same;
  drop = let x = p.drop in let y = q.drop in omega arith;
}

if-Drops :
    (w : World) (b : Bool) (x y : Bool × World)
    → (b ≡ true → Drops w x)
    → (b ≡ false → Drops w y)
    → Drops w (if b then x else y)
if-Drops w true x y f g = f refl
if-Drops w false x y f g = g refl

module _ (rom : Rom) (m : Mapper) where
  helper_site-Drops :
      (cs : CallSite) (w : World) → Listed cs w.eng.call_sites → Drops w (helper_site rom m cs w)
  unfolding helper_site replay_site
  helper_site-Drops cs w at =
      let left = helper_loop rom m 256 cs.callee_pc cs.regs cs.st [] in
      if-Drops w (not (set_has cs.callee_off w.eng.helper_subs)) _ _ (λ e. stay w)
        (λ helper.
          if-Drops w (has_site (site_key cs) w.eng.processed_sites) _ _ (λ e. stay w)
            (λ fresh.
              let less = mark_lt cs w.eng.processed_sites w.eng.call_sites at fresh in
              if-Drops w (all_unknown cs) _ _ (λ e. marked false less)
                (λ known.
                  if-Drops w (same_slots left.0.prg8k cs.st.prg8k) _ _ (λ e. marked false less)
                    (λ switched. record {
                      steps_same = refl;
                      sites_same = refl;
                      indirects_same = refl;
                      drop = omega (arith, less);
                    }))))
    where
      marked :
          (b : Bool)
          → open_sites (site_key cs ∷ w.eng.processed_sites) w.eng.call_sites + 1
            ≤ open_sites w.eng.processed_sites w.eng.call_sites
          → Drops w (b, mark_site (site_key cs) w)
      marked true less = record {
        steps_same = refl;
        sites_same = refl;
        indirects_same = refl;
        drop = omega (arith, less);
      }
      marked false less = record {
        steps_same = refl;
        sites_same = refl;
        indirects_same = refl;
        drop = omega (arith, less);
      }

  helper_sites-Drops :
      (sites : List CallSite) (w : World)
      → ((cs : CallSite) → Listed cs sites → Listed cs w.eng.call_sites)
      → Drops w (helper_sites rom m sites w)
  unfolding helper_sites
  helper_sites-Drops [] w sub = stay w
  helper_sites-Drops (cs ∷ sites) w sub =
      let head = helper_site-Drops cs w (sub cs (first sites)) in
      both w (helper_site rom m cs w) _ head (
        helper_sites-Drops sites (helper_site rom m cs w).1
          (λ d at. subst (λ l. Listed d l) (sym head.sites_same) (sub d (later cs sites at))))

  -- The targets only add to the work list and to the trace.
  Quiet : World → World → Type 0
  Quiet w after =
      (after.eng.steps ≡ w.eng.steps)
      × (after.eng.call_sites ≡ w.eng.call_sites)
      × (after.eng.indirects ≡ w.eng.indirects)
      × (load after ≡ load w)

  resolve_to-Quiet :
      (ind : Indirect) (x : ℕ × EdgeKind) (o : Option RomLoc) (w : World)
      → Quiet w (resolve_to rom m ind x o w).2
  unfolding Quiet
  resolve_to-Quiet ind (tgt, kind) none w = (refl, refl, refl, refl)
  resolve_to-Quiet ind (tgt, kind) (some tl) w =
      elim (Bool-cases (has_visit tl.file_offset ind.st.prg8k w.eng.visited)) [
        | inl old ↦ rw old (refl, refl, refl, refl)
        | inr fresh ↦ rw fresh (refl, refl, refl, refl)
      ]

  resolve_targets-Quiet :
      (ind : Indirect) (targets : List (ℕ × EdgeKind)) (w : World)
      → Quiet w (resolve_targets rom m ind targets w).2
  unfolding Quiet resolve_targets
  resolve_targets-Quiet ind [] w = (refl, refl, refl, refl)
  resolve_targets-Quiet ind (x ∷ targets) w =
      let one = resolve_to rom m ind x (cpu_to_rom m rom x.0 ind.st) w in
      let p = resolve_to-Quiet ind x (cpu_to_rom m rom x.0 ind.st) w in
      let q = resolve_targets-Quiet ind targets one.2 in
      (q.0 ∙ p.0, q.1 ∙ p.1, q.2 ∙ p.2, q.3 ∙ p.3)

  resolve_one-Drops :
      (ind : Indirect) (w : World)
      → Listed ind w.eng.indirects
      → has_visit ind.off ind.st.prg8k w.eng.processed_indirects ≡ false
      → Drops w (resolve_one rom m ind w)
  unfolding Quiet resolve_one
  resolve_one-Drops ind w at fresh =
      let targets = dedup_targets (sort_targets (targets_of rom m ind.kind ind.st w.trace)) in
      let marked = mark_indirect rom m ind w in
      let done = resolve_targets rom m ind targets marked in
      let q = resolve_targets-Quiet ind targets marked in
      let less = mark_indirect_lt ind w.eng.processed_indirects w.eng.indirects at fresh in
      settle done.0 done.1 done.2 q (omega (arith, less))
    where
      settle :
          (resolved added : Bool) (after : World)
          → Quiet (mark_indirect rom m ind w) after
          → load (mark_indirect rom m ind w) + 1 ≤ load w
          → Drops w (added, clear_unresolved rom m resolved ind.pc after)
      settle true true after q less = record {
        steps_same = q.0;
        sites_same = q.1;
        indirects_same = q.2;
        drop = let same = q.3 in omega arith;
      }
      settle true false after q less = record {
        steps_same = q.0;
        sites_same = q.1;
        indirects_same = q.2;
        drop = let same = q.3 in omega arith;
      }
      settle false true after q less = record {
        steps_same = q.0;
        sites_same = q.1;
        indirects_same = q.2;
        drop = let same = q.3 in omega arith;
      }
      settle false false after q less = record {
        steps_same = q.0;
        sites_same = q.1;
        indirects_same = q.2;
        drop = let same = q.3 in omega arith;
      }

  resolve_pending-Drops :
      (pending : List Indirect) (w : World)
      → ((ind : Indirect) → Listed ind pending → Listed ind w.eng.indirects)
      → Drops w (resolve_pending rom m pending w)
  unfolding resolve_pending
  resolve_pending-Drops [] w sub = stay w
  resolve_pending-Drops (ind ∷ pending) w sub =
      let known = has_visit ind.off ind.st.prg8k w.eng.processed_indirects in
      let one : Bool × World = if known then (false, w) else resolve_one rom m ind w in
      let head : Drops w one =
        if-Drops w known (false, w) (resolve_one rom m ind w) (λ e. stay w)
          (λ fresh. resolve_one-Drops ind w (sub ind (first pending)) fresh) in
      both w one _ head (
        resolve_pending-Drops pending one.1 (λ d at.
          subst (λ l. Listed d l) (sym head.indirects_same) (sub d (later ind pending at))))

  passes-Drops :
      (w : World)
      → Drops w (
        (replay_helpers rom m w).0 || (resolve_indirects rom m (replay_helpers rom m w).1).0,
        (resolve_indirects rom m (replay_helpers rom m w).1).1,
      )
  unfolding replay_helpers resolve_indirects
  passes-Drops w =
      let helped = helper_sites rom m w.eng.call_sites w in
      both w helped (resolve_pending rom m helped.1.eng.indirects helped.1)
        (helper_sites-Drops w.eng.call_sites w (λ cs at. at))
        (resolve_pending-Drops helped.1.eng.indirects helped.1 (λ ind at. at))

  pass_loop_ends :
      (limit fuel : ℕ) (w : World)
      → load w + (limit - w.eng.steps) + 1 ≤ fuel
      → (left : World) × (pass_loop rom m limit fuel w ≡ some left)
  unfolding pass_loop pass_round
  pass_loop_ends limit zero w h = absurd (omega arith)
  pass_loop_ends limit (suc fuel) w h =
      let drained = drain rom m limit w in
      let paid = drain-pays rom m limit w in
      let dropped = passes-Drops drained in
      go (λ after k. pass_loop_ends limit fuel after k) (pass_round rom m limit w)
        (λ e. omega (
          arith,
          paid,
          dropped.steps_same,
          more _ (load (pass_round rom m limit w).1) (load drained) e dropped.drop,
        ))
    where
      more : (b : Bool) (n k : ℕ) → b ≡ true → n + one_if b ≤ k → n + 1 ≤ k
      more b n k e d = subst (λ c. n + one_if c ≤ k) e d

      go :
          ((after : World)
            → load after + (limit - after.eng.steps) + 1 ≤ fuel
            → (left : World) × (pass_loop rom m limit fuel after ≡ some left))
          → (next : Bool × World)
          → (next.0 ≡ true → load next.1 + (limit - next.1.eng.steps) + 1 ≤ fuel)
          → (left : World) × ((elim next.0 [
            | true ↦ pass_loop rom m limit fuel next.1
            | false ↦ some next.1
          ])
              ≡ some left)
      go again (true, after) k = again after (k refl)
      go again (false, after) k = (after, refl)

  enter_all-Quiet :
      (entries : List Start) (w : World)
      → (load (enter_all rom m entries w) ≡ load w)
        × ((enter_all rom m entries w).eng.steps ≡ w.eng.steps)
  unfolding enter_all
  enter_all-Quiet [] w = (refl, refl)
  enter_all-Quiet (e ∷ entries) w =
      let head = enter (cpu_to_rom m rom e.addr e.st) in
      let rest = enter_all-Quiet entries (enter_at e (cpu_to_rom m rom e.addr e.st) w) in
      (rest.0 ∙ head.0, rest.1 ∙ head.1)
    where
      enter :
          (o : Option RomLoc)
          → (load (enter_at e o w) ≡ load w) × ((enter_at e o w).eng.steps ≡ w.eng.steps)
      enter none = (refl, refl)
      enter (some loc) = (refl, refl)

-- `trace_pass` ends with a trace, from any entries and on any ROM: its outer loop takes at most one more
-- round than the limit on the steps.
pub trace_pass_ends :
    (rom : Rom) (m : Mapper) (limit : ℕ) (entries : List Start) (queues : List Queue)
    → (t : Trace) × (trace_pass rom m limit entries queues ≡ some t)
unfolding trace_pass open_sites open_indirects
trace_pass_ends rom m limit entries queues =
    let quiet = enter_all-Quiet rom m entries (new_world queues) in
    let ends =
      pass_loop_ends rom m limit (limit + 1) (enter_all rom m entries (new_world queues))
        (omega (arith, quiet.0, quiet.1)) in
    (finish ends.0, ap (λ o. finished rom m o) ends.1)
  where
    finish : World → Trace
    finish w = fill_hw_vram (dedupe_edges w.trace)
