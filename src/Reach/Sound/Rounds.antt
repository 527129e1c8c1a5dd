-- ===== src/Reach/Sound/Rounds.antt =====
-- reach.rs: `drain` and the two passes behind it keep the invariant.
use decomps_agent.Prelude.{
  ℕ, zero, suc, ◌+◌, ◌-◌, ◌<◌, ◌≡◌, refl, sym, subst, inl, inr, arith, not, leb, ltb, get_or,
  bit_and, ◌*◌, ◌/◌, Bool-cases, List, [], ◌∷◌, Option, none, some, length, All,
}
use decomps_agent.Ines.{Rom, usize_wrap}
use decomps_agent.Mapper.State.{BankState, RomLoc}
use decomps_agent.Mapper.Chip.{Mapper}
use decomps_agent.Mapper.Address.{cpu_to_rom}
use decomps_agent.Cpu.Insn.{Insn}
use decomps_agent.Cpu.Flow.{mem_operand}
use decomps_agent.Reach.Maps.{or_insert, has_key, or_insert-Ascends, or_insert-Holds}
use decomps_agent.Reach.State.{Item, World, flow_outside_rom}
use decomps_agent.Reach.Targets.{insn_at}
use decomps_agent.Reach.World.{Cursor, has_visit}
use decomps_agent.Reach.Effects.{vram_step}
use decomps_agent.Reach.Drain.{
  trace_insn, visit_new, mark, visit_at, visit, tick, pop_from, settle, run, drain,
}
use decomps_agent.Reach.Pass.{Start}
use decomps_agent.Reach.Frame.{note_hw-insns}
use decomps_agent.Reach.Relation.{Effect, Goes, Reaches, Shown}
use decomps_agent.Reach.Invariant.{
  Genuine, Sound, Ok, CursorOk, IsReached, retraced-Sound, push_unresolved-Sound,
}
use decomps_agent.Reach.Stores.{bank_step-Affects, vram_step-Sound}
use decomps_agent.Reach.Sound.{flow-Ok, if-Ok}

-- A place that `cpu_to_rom` finds lies inside the ROM.
pub cpu_to_rom-inside :
    (m : Mapper) (rom : Rom) (addr : ℕ) (st : BankState) (loc : RomLoc)
    → cpu_to_rom m rom addr st ≡ some loc
    → loc.file_offset < length rom.prg
unfolding cpu_to_rom
cpu_to_rom-inside m rom addr st loc e =
    let place =
      usize_wrap (get_or st.prg8k ((addr - 0x8000) / 0x2000) 0 * 0x2000 + bit_and addr 0x1FFF) in
    elim (Bool-cases (ltb addr 0x8000)) [
      | inl low ↦ absurd (ground arith)
      | inr high ↦ elim (Bool-cases (leb (length rom.prg) place)) [
        | inl outside ↦ absurd (ground arith)
        | inr inside ↦ let same : place ≡ loc.file_offset = ground arith in ground arith
      ]
    ]

module _ (rom : Rom) (m : Mapper) (entries : List Start) where
  list_insn-Sound :
      (loc : RomLoc) (it : Item) (w : World)
      → cpu_to_rom m rom it.pc it.st ≡ some loc
      → IsReached rom m entries it
      → Sound rom m entries w
      → Sound rom m entries (record {
        eng = w.eng;
        trace = record w.trace {
          insns =
              or_insert loc.file_offset
                (trace_insn loc (insn_at rom.prg loc.file_offset) it)
                w.trace.insns;
        };
      })
  unfolding Genuine
  list_insn-Sound loc it w at r s = record {
    ordered = or_insert-Ascends loc.file_offset 0 _ w.trace.insns (omega arith) s.ordered;
    genuine =
        or_insert-Holds (Genuine rom m entries) loc.file_offset _ w.trace.insns
          (refl, cpu_to_rom-inside m rom it.pc it.st loc at, refl, (it.st, loc, r, at, refl))
          s.genuine;
    work_ok = s.work_ok;
    sites_ok = s.sites_ok;
    indirects_ok = s.indirects_ok;
  }

  here_of :
      (i : Insn) (pc pc2 : ℕ) (st after : BankState) (loc : RomLoc)
      → Reaches rom m entries pc st
      → cpu_to_rom m rom pc st ≡ some loc
      → insn_at rom.prg loc.file_offset ≡ i
      → Effect m i st after
      → pc2 ≡ pc
      → (pc' : ℕ) (st' : BankState) → Goes rom m entries i pc2 after pc' st'
      → Reaches rom m entries pc' st'
  here_of i pc pc2 st after loc r at e f q pc' st' g =
      Reaches.step pc pc' st after st' loc r at (subst (λ j. Effect m j st after) (sym e) f) (
        subst (λ j. Goes rom m entries j pc after pc' st') (sym e)
          (subst (λ p. Goes rom m entries i p after pc' st') q g))

  visit_new-Ok :
      (loc : RomLoc) (cur : Cursor) (w : World)
      → cpu_to_rom m rom cur.it.pc cur.it.st ≡ some loc
      → CursorOk rom m entries (some cur)
      → Sound rom m entries w
      → Ok rom m entries (visit_new rom m loc cur w)
  unfolding visit_new vram_step
  visit_new-Ok loc cur w at (r, seen) s =
      let i = insn_at rom.prg loc.file_offset in
      let first = not (has_key loc.file_offset w.trace.insns) in
      let listed = list_insn-Sound loc cur.it w at r s in
      let hit =
        retraced-Sound rom m entries _ _ (note_hw-insns first (mem_operand i) loc cur.it i _)
          listed in
      let banked = bank_step-Affects rom m entries (mem_operand i) loc i cur.it _ refl hit in
      let stepped = vram_step-Sound rom m entries loc i _ _ banked.2 in
      flow-Ok rom m entries first cur.recent loc i _ _ seen
        (Shown.shown cur.it.pc cur.it.st loc r at)
        (here_of i cur.it.pc _ cur.it.st _ loc r at refl banked.0 banked.1) stepped

  -- Neither the visits nor the steps are part of the invariant.
  mark-Sound :
      (off : ℕ) (slots : List ℕ) (w : World)
      → Sound rom m entries w
      → Sound rom m entries (mark off slots w)
  mark-Sound off slots w s = record {
    ordered = s.ordered;
    genuine = s.genuine;
    work_ok = s.work_ok;
    sites_ok = s.sites_ok;
    indirects_ok = s.indirects_ok;
  }

  tick-Sound : (w : World) → Sound rom m entries w → Sound rom m entries (tick w)
  tick-Sound w s = record {
    ordered = s.ordered;
    genuine = s.genuine;
    work_ok = s.work_ok;
    sites_ok = s.sites_ok;
    indirects_ok = s.indirects_ok;
  }

  visit_at-Ok :
      (o : Option RomLoc) (cur : Cursor) (w : World)
      → cpu_to_rom m rom cur.it.pc cur.it.st ≡ o
      → CursorOk rom m entries (some cur)
      → Sound rom m entries w
      → Ok rom m entries (visit_at rom m o cur w)
  unfolding visit_at
  visit_at-Ok none cur w at r s =
      (tt, push_unresolved-Sound rom m entries cur.it.pc 0 flow_outside_rom w s)
  visit_at-Ok (some loc) cur w at r s =
      if-Ok rom m entries (has_visit loc.file_offset cur.it.st.prg8k w.eng.visited) _ _
        (λ old. (tt, s))
        (λ fresh. visit_new-Ok loc cur _ at r (mark-Sound loc.file_offset cur.it.st.prg8k w s))

  settle-Ok : (r : Option Cursor × World) → Ok rom m entries r → Ok rom m entries (settle r)
  settle-Ok (some cur, w) k = k
  settle-Ok (none, w) (k, s) = pop (w.eng.work) s.work_ok
    where
      pop :
          (work : List Item)
          → All (IsReached rom m entries) work
          → Ok rom m entries (pop_from work w)
      pop [] ok = (tt, s)
      pop (it ∷ work) ok = (
        (ok.0, tt),
        record {
          ordered = s.ordered;
          genuine = s.genuine;
          work_ok = ok.1;
          sites_ok = s.sites_ok;
          indirects_ok = s.indirects_ok;
        },
      )

  run-Sound :
      (left : ℕ) (o : Option Cursor) (w : World)
      → CursorOk rom m entries o
      → Sound rom m entries w
      → Sound rom m entries (run rom m left o w)
  unfolding run visit
  run-Sound zero none w c s = s
  run-Sound (suc left) none w c s = s
  run-Sound zero (some cur) w c s = tick-Sound w s
  run-Sound (suc left) (some cur) w c s =
      let next = settle-Ok _ (visit_at-Ok _ cur (tick w) refl c (tick-Sound w s)) in
      run-Sound left _ _ next.0 next.1

  pub drain-Sound :
      (limit : ℕ) (w : World) → Sound rom m entries w → Sound rom m entries (drain rom m limit w)
  unfolding drain
  drain-Sound limit w s =
      let first = settle-Ok (none, w) (tt, s) in run-Sound (limit - w.eng.steps) _ _ first.0 first.1
