-- ===== src/Reach/Sound.antt =====
-- reach.rs: the rounds of `drain` keep the invariant.
pub mod Rounds
pub mod Traces
pub mod Tables
pub mod Words
use Prim.Native.String.{String}
use decomps_agent.Prelude.{
  ℕ, zero, suc, ◌+◌, ◌%◌, ◌^◌, ◌≡◌, ◌∙◌, refl, sym, inl, inr, arith, Bool, true, false, not, ◌&&◌,
  ◌||◌, leb, ltb, ◌==◌, if◌then◌else◌, Bool-cases, Option-cases, List, [], ◌∷◌, ◌++◌, Option, none,
  some, ◌>>=◌, length, drop, All, All-append, All-drop, ◌-◌, ap, subst,
}
use decomps_agent.Ines.{Rom}
use decomps_agent.Mapper.State.{BankState, RomLoc}
use decomps_agent.Mapper.Chip.{Mapper, on_write, is_mapper_reg}
use decomps_agent.Mapper.Address.{cpu_to_rom, read_u16}
use decomps_agent.Cpu.Insn.{Insn}
use decomps_agent.Cpu.Flow.{
  is_branch, is_jsr, is_jmp_abs, is_jmp_ind, is_return, is_brk, is_store, indexed, mem_operand,
  target,
}
use decomps_agent.Render.{hex4}
use decomps_agent.Sim.{Regs, stored}
use decomps_agent.Vram.{Event, step}
use decomps_agent.Reach.State.{
  Trace, Item, World, branch_edge, jmp_edge, jsr_outside_rom, jmp_outside_rom, indirect_jump,
  rts_jump_table, pointer,
}
use decomps_agent.Reach.Record.{edge, add_sub, record_vram}
use decomps_agent.Reach.Replay.{unwrap_or, replay_vram}
use decomps_agent.Reach.World.{
  Cursor, on_trace, push_work, push_unresolved, push_indirect, add_helper, routine, or_empty,
}
use decomps_agent.Reach.Effects.{bank_effect, bank_step, record_step, vram_step}
use decomps_agent.Reach.Flow.{
  follow, push_site, call_site, branch_to, branch_at, on_branch, link_call, enter_call, call_to,
  call_at, on_jsr, jump_to, jump_at, on_jmp, pointed, indirect_to, on_jmp_ind, dispatch, rts_trick,
  loads_indexed, is_pha, both, keep_eight, on_return, advance, flow,
}
use decomps_agent.Reach.Pass.{Start}
use decomps_agent.Reach.Frame.{record_vram-insns, replay_vram-insns}
use decomps_agent.Reach.Relation.{
  Effect, unchanged, written, written_unknown, Goes, falls_through, Reaches, Shown,
}
use decomps_agent.Reach.Invariant.{
  Sound, Ok, CursorOk, IsReached, LeadsTo, AreShown, retraced-Sound, push_work-Sound,
  push_indirect-Sound, push_unresolved-Sound, note_first-Sound,
}
use decomps_agent.Reach.Handlers.{
  Here, branch_at-Sound, call_at-Sound, call_at-place, jump_at-Sound, indirect_to-Sound,
  on_return-Sound, keep_eight-AreShown,
}

module _ (rom : Rom) (m : Mapper) (entries : List Start) where
  advance-Ok :
      (recent : List Insn) (i : Insn) (it : Item) (w : World)
      → AreShown rom m entries (recent ++ (i ∷ []))
      → Reaches rom m entries ((it.pc + i.len) % 2 ^ 16) it.st
      → Sound rom m entries w
      → Ok rom m entries (advance rom m recent i it w)
  unfolding advance
  advance-Ok recent i it w seen h s = elim (Bool-cases (ltb ((it.pc + i.len) % 2 ^ 16) 0x8000)) [
    | inl low ↦ rw low (tt, s)
    | inr high ↦ rw high ((h, keep_eight-AreShown rom m entries _ seen), s)
  ]

  pub if-Ok :
      (b : Bool) (x y : Option Cursor × World)
      → (b ≡ true → Ok rom m entries x)
      → (b ≡ false → Ok rom m entries y)
      → Ok rom m entries (if b then x else y)
  if-Ok true x y f g = f refl
  if-Ok false x y f g = g refl

  -- The tests of the code, by opcode.
  falls :
      (i : Insn)
      → (not i.illegal
          && (is_branch i
              || (is_jsr i || not (is_jmp_abs i || (is_jmp_ind i || (is_return i || is_brk i))))))
        ≡ true
      → falls_through i ≡ true
  unfolding is_jsr is_jmp_abs is_jmp_ind is_return is_brk
  falls i h = h

  pub flow-Ok :
      (first : Bool) (recent : List Insn) (loc : RomLoc) (i : Insn) (it : Item) (w : World)
      → AreShown rom m entries recent
      → Shown rom m entries i
      → Here rom m entries i it
      → Sound rom m entries w
      → Ok rom m entries (flow rom m first recent loc i it w)
  unfolding flow on_branch on_jsr on_jmp on_jmp_ind
  flow-Ok first recent loc i it w seen this h s =
      let called = call_at rom m i.operand first loc it w in
      let place = call_at-place rom m entries i.operand first loc it w in
      let on : (not i.illegal
              && (is_branch i
                  || (is_jsr i
                      || not (is_jmp_abs i || (is_jmp_ind i || (is_return i || is_brk i))))))
            ≡ true
          → Reaches rom m entries ((it.pc + i.len) % 2 ^ 16) it.st =
        λ f. h _ _ (Goes.next (falls i f)) in
      let after = All-append (Shown rom m entries) recent (i ∷ []) seen (this, tt) in
      if-Ok i.illegal _ _ (λ bad. (tt, s))
        (λ legal.
          if-Ok (is_branch i) _ _
            (λ cond.
              advance-Ok recent i it _ after (on (ground arith))
                (branch_at-Sound rom m entries (target i it.pc) loc i it w refl cond h s))
            (λ b.
              if-Ok (is_jsr i) _ _
                (λ jsr.
                  advance-Ok recent i called.0 called.1 after
                    (rw (place.0, place.1) (on (ground arith)))
                    (call_at-Sound rom m entries i.operand first loc i it w jsr refl h s))
                (λ c.
                  if-Ok (is_jmp_abs i) _ _
                    (λ jmp.
                      (tt, jump_at-Sound rom m entries i.operand first loc i it w jmp refl h s))
                    (λ d.
                      if-Ok (is_jmp_ind i) _ _
                        (λ ind.
                          (tt, indirect_to-Sound rom m entries _ first loc i it w refl ind h s))
                        (λ e.
                          if-Ok (is_return i || is_brk i) _ _
                            (λ ret.
                              (tt, on_return-Sound rom m entries first recent loc i it w seen h s))
                            (λ plain. advance-Ok recent i it w after (on (ground arith)) s))))))
