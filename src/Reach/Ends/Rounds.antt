-- ===== src/Reach/Ends/Rounds.antt =====
-- reach.rs: a round of `drain` takes a step and leaves at most one more call or jump to process.
use decomps_agent.Prelude.{
  ℕ, zero, suc, ◌+◌, ◌-◌, ◌≤◌, ◌≡◌, refl, inl, inr, arith, Bool, true, false, ◌&&◌, ◌||◌, ◌==◌, leb,
  ltb, ◌%◌, ◌^◌, not, if◌then◌else◌, Bool-cases, Option-cases, List, [], ◌∷◌, Option, none, some,
  length,
}
use decomps_agent.Ines.{Rom}
use decomps_agent.Mapper.State.{RomLoc}
use decomps_agent.Mapper.Chip.{Mapper, on_write, is_mapper_reg}
use decomps_agent.Mapper.Address.{cpu_to_rom}
use decomps_agent.Cpu.Insn.{Insn}
use decomps_agent.Cpu.Flow.{
  is_branch, is_jsr, is_jmp_abs, is_jmp_ind, is_return, is_brk, is_store, indexed, mem_operand,
}
use decomps_agent.Sim.{stored}
use decomps_agent.Vram.{Event, step}
use decomps_agent.Reach.State.{Item, World, Indirect}
use decomps_agent.Reach.Maps.{has_key, or_insert}
use decomps_agent.Reach.Targets.{insn_at}
use decomps_agent.Reach.World.{Cursor, push_indirect, add_helper, has_visit, note_hw}
use decomps_agent.Reach.Effects.{bank_effect, bank_step, record_step, vram_step}
use decomps_agent.Reach.Flow.{
  branch_at, on_branch, enter_call, call_at, call_site, on_jsr, jump_at, on_jmp, indirect_to,
  on_jmp_ind, dispatch, on_return, advance, flow,
}
use decomps_agent.Reach.Drain.{
  trace_insn, visit_new, visit_at, visit, settle, pop_from, tick, run, drain,
}
use decomps_agent.Reach.Ends.{load, open_sites-append, open_indirects-append}

-- The steps stay, and at most `n` calls and jumps are added.
abbrev pub Adds : ℕ → World → World → Type 0
Adds n w after = (after.eng.steps ≡ w.eng.steps) × (load after ≤ load w + n)

if-Adds :
    (n : ℕ) (w : World) (b : Bool) (x y : World)
    → Adds n w x
    → Adds n w y
    → Adds n w (if b then x else y)
if-Adds n w true x y f g = f
if-Adds n w false x y f g = g

Adds-then : (w mid after : World) → Adds 0 w mid → Adds 1 mid after → Adds 1 w after
Adds-then w mid after f g = (omega (arith, f.0, g.0), omega (arith, f.1, g.1))

push_indirect-Adds : (ind : Indirect) (w : World) → Adds 1 w (push_indirect ind w)
push_indirect-Adds ind w =
    (refl, omega (arith, open_indirects-append w.eng.processed_indirects w.eng.indirects ind))

module _ (rom : Rom) (m : Mapper) where
  add_helper-Adds : (o : Option ℕ) (w : World) → Adds 0 w (add_helper o w)
  add_helper-Adds none w = (refl, omega arith)
  add_helper-Adds (some s) w = (refl, omega arith)

  bank_effect-Adds :
      (value : Option ℕ) (is_indexed : Bool) (op : ℕ) (loc : RomLoc) (it : Item) (w : World)
      → Adds 0 w (bank_effect m value is_indexed op loc it w).1
  unfolding bank_effect
  bank_effect-Adds none is_indexed op loc it w = (refl, omega arith)
  bank_effect-Adds (some value) true op loc it w = (refl, omega arith)
  bank_effect-Adds (some value) false op loc it w =
      elim (Option-cases (on_write m op value it.st).1) [
        | inl quiet ↦ rw quiet (refl, omega arith)
        | inr (sw, switched) ↦ rw switched (refl, omega arith)
      ]

  bank_step-Adds :
      (o : Option ℕ) (loc : RomLoc) (i : Insn) (it : Item) (w : World)
      → Adds 0 w (bank_step m o loc i it w).1
  unfolding bank_step
  bank_step-Adds none loc i it w = (refl, omega arith)
  bank_step-Adds (some op) loc i it w =
      elim (Bool-cases (is_store i && leb 0x8000 op && is_mapper_reg m op)) [
        | inl h ↦
            let helped = add_helper-Adds it.sub w in
            let done =
              bank_effect-Adds (stored i it.regs).v (indexed i) op loc it (add_helper it.sub w) in
            rw h (omega (arith, helped.0, done.0), omega (arith, helped.1, done.1))
        | inr other ↦ rw other (refl, omega arith)
      ]

  record_step-Adds :
      (o : Option Event) (loc : RomLoc) (it : Item) (w : World) → Adds 0 w (record_step o loc it w)
  record_step-Adds none loc it w = (refl, omega arith)
  record_step-Adds (some ev) loc it w = (refl, omega arith)

  branch_at-Adds :
      (o : Option ℕ) (loc : RomLoc) (it : Item) (w : World) → Adds 1 w (branch_at rom m o loc it w)
  branch_at-Adds none loc it w = (refl, omega arith)
  branch_at-Adds (some tgt) loc it w = elim (Option-cases (cpu_to_rom m rom tgt it.st)) [
    | inl out ↦ rw out (refl, omega arith)
    | inr (tl, at) ↦ rw at (refl, omega arith)
  ]

  call_at-Adds :
      (o : Option ℕ) (first : Bool) (loc : RomLoc) (it : Item) (w : World)
      → Adds 1 w (call_at rom m o first loc it w).1
  unfolding enter_call
  call_at-Adds none first loc it w = (refl, omega arith)
  call_at-Adds (some tgt) first loc it w = elim (Option-cases (cpu_to_rom m rom tgt it.st)) [
    | inl out ↦ rw out (if-Adds 1 w first _ _ (refl, omega arith) (refl, omega arith))
    | inr (tl, at) ↦ rw at (
      refl,
      omega (
        arith,
        open_sites-append w.eng.processed_sites w.eng.call_sites (call_site tgt loc tl it),
      ),
    )
  ]

  jump_at-Adds :
      (o : Option ℕ) (first : Bool) (loc : RomLoc) (it : Item) (w : World)
      → Adds 1 w (jump_at rom m o first loc it w)
  jump_at-Adds none first loc it w = (refl, omega arith)
  jump_at-Adds (some tgt) first loc it w = elim (Option-cases (cpu_to_rom m rom tgt it.st)) [
    | inl out ↦ rw out (if-Adds 1 w first _ _ (refl, omega arith) (refl, omega arith))
    | inr (tl, at) ↦ rw at (refl, omega arith)
  ]

  indirect_to-Adds :
      (o : Option (ℕ × RomLoc)) (ptr : ℕ) (first : Bool) (loc : RomLoc) (it : Item) (w : World)
      → Adds 1 w (indirect_to rom m o ptr first loc it w)
  indirect_to-Adds (some (tgt, tl)) ptr first loc it w = (refl, omega arith)
  indirect_to-Adds none ptr first loc it w =
      if-Adds 1 w first _ _ (push_indirect-Adds _ w) (push_indirect-Adds _ w)

  dispatch-Adds :
      (o : Option (ℕ × ℕ)) (first : Bool) (loc : RomLoc) (it : Item) (w : World)
      → Adds 1 w (dispatch o first loc it w)
  dispatch-Adds none first loc it w = (refl, omega arith)
  dispatch-Adds (some (lo, hi)) first loc it w =
      if-Adds 1 w first _ _ (push_indirect-Adds _ w) (push_indirect-Adds _ w)

  on_return-Adds :
      (first : Bool) (recent : List Insn) (loc : RomLoc) (i : Insn) (it : Item) (w : World)
      → Adds 1 w (on_return first recent loc i it w)
  unfolding on_return
  on_return-Adds first recent loc i it w =
      if-Adds 1 w (i.opcode == 0x60 && leb 4 (length recent)) _ _ (dispatch-Adds _ first loc it w)
        (refl, omega arith)

  advance-world :
      (recent : List Insn) (i : Insn) (it : Item) (w : World) → (advance rom m recent i it w).1 ≡ w
  unfolding advance
  advance-world recent i it w = elim (Bool-cases (ltb ((it.pc + i.len) % 2 ^ 16) 0x8000)) [
    | inl low ↦ rw low refl
    | inr high ↦ rw high refl
  ]

  if-visit :
      (w : World) (b : Bool) (x y : Option Cursor × World)
      → Adds 1 w x.1
      → Adds 1 w y.1
      → Adds 1 w (if b then x else y).1
  if-visit w true x y f g = f
  if-visit w false x y f g = g

  advance-Adds :
      (recent : List Insn) (i : Insn) (it : Item) (w after : World)
      → Adds 1 w after
      → Adds 1 w (advance rom m recent i it after).1
  advance-Adds recent i it w after a = rw (advance-world recent i it after) a

  flow-Adds :
      (first : Bool) (recent : List Insn) (loc : RomLoc) (i : Insn) (it : Item) (w : World)
      → Adds 1 w (flow rom m first recent loc i it w).1
  unfolding flow on_branch on_jsr on_jmp on_jmp_ind
  flow-Adds first recent loc i it w =
      if-visit w i.illegal _ _ (refl, omega arith)
        (if-visit w (is_branch i) _ _ (advance-Adds recent i it w _ (branch_at-Adds _ loc it w)) (
          if-visit w (is_jsr i) _ _
            (advance-Adds recent i _ w _ (call_at-Adds i.operand first loc it w))
            (if-visit w (is_jmp_abs i) _ _ (jump_at-Adds i.operand first loc it w) (
              if-visit w (is_jmp_ind i) _ _ (indirect_to-Adds _ _ first loc it w) (
                if-visit w (is_return i || is_brk i) _ _ (on_return-Adds first recent loc i it w)
                  (advance-Adds recent i it w w (refl, omega arith)))))))

  visit_new-Adds :
      (loc : RomLoc) (cur : Cursor) (w : World) → Adds 1 w (visit_new rom m loc cur w).1
  unfolding visit_new vram_step
  visit_new-Adds loc cur w =
      let i = insn_at rom.prg loc.file_offset in
      let op = mem_operand i in
      let first = not (has_key loc.file_offset w.trace.insns) in
      let listed = record w.trace {
        insns = or_insert loc.file_offset (trace_insn loc i cur.it) w.trace.insns;
      } in
      let hit : World = record { eng = w.eng; trace = note_hw first op loc cur.it i listed } in
      let banked = bank_step m op loc i cur.it hit in
      let stepped = vram_step loc i banked.0 banked.1 in
      Adds-then w banked.1 (flow rom m first cur.recent loc i stepped.0 stepped.1).1
        (bank_step-Adds op loc i cur.it hit)
        (Adds-then banked.1 stepped.1 (flow rom m first cur.recent loc i stepped.0 stepped.1).1
          (record_step-Adds (step i banked.0.regs banked.0.vram banked.1.eng.queues).1 loc banked.0
            banked.1)
          (flow-Adds first cur.recent loc i stepped.0 stepped.1))

  visit_at-Adds :
      (o : Option RomLoc) (cur : Cursor) (w : World) → Adds 1 w (visit_at rom m o cur w).1
  unfolding visit_at
  visit_at-Adds none cur w = (refl, omega arith)
  visit_at-Adds (some loc) cur w =
      if-visit w (has_visit loc.file_offset cur.it.st.prg8k w.eng.visited) _ _ (refl, omega arith)
        (visit_new-Adds loc cur _)

  settle-Adds : (r : Option Cursor × World) → Adds 0 r.1 (settle r).1
  settle-Adds (some cur, w) = (refl, omega arith)
  settle-Adds (none, w) = pop w.eng.work
    where
      pop : (work : List Item) → Adds 0 w (pop_from work w).1
      pop [] = (refl, omega arith)
      pop (it ∷ work) = (refl, omega arith)

  -- A call or a jump that is added is paid with a step.
  run-pays :
      (limit left : ℕ) (o : Option Cursor) (w : World)
      → left ≡ limit - w.eng.steps
      → load (run rom m left o w) + (limit - (run rom m left o w).eng.steps)
        ≤ load w + (limit - w.eng.steps)
  unfolding run visit
  run-pays limit zero none w h = omega arith
  run-pays limit (suc left) none w h = omega arith
  run-pays limit zero (some cur) w h = omega arith
  run-pays limit (suc left) (some cur) w h =
      let visited = visit_at-Adds (cpu_to_rom m rom cur.it.pc cur.it.st) cur (tick w) in
      let next = settle (visit rom m cur (tick w)) in
      let settled = settle-Adds (visit rom m cur (tick w)) in
      let rest = run-pays limit left next.0 next.1 (omega (arith, visited.0, settled.0)) in
      omega (arith, visited.0, visited.1, settled.0, settled.1, rest)

  pub drain-pays :
      (limit : ℕ) (w : World)
      → load (drain rom m limit w) + (limit - (drain rom m limit w).eng.steps)
        ≤ load w + (limit - w.eng.steps)
  unfolding drain
  drain-pays limit w =
      let settled = settle-Adds (none, w) in
      let first = settle (none, w) in
      omega (
        arith,
        settled.0,
        settled.1,
        run-pays limit (limit - w.eng.steps) first.0 first.1 (omega (arith, settled.0)),
      )
