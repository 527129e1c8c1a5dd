-- ===== src/Reach/Drain.antt =====
-- reach.rs: `drain`, the work list of the trace.
use decomps_agent.Prelude.{
  ℕ, zero, suc, ◌+◌, ◌-◌, not, if◌then◌else◌, List, [], ◌∷◌, Option, none, some,
}
use decomps_agent.Ines.{Rom}
use decomps_agent.Mapper.State.{RomLoc}
use decomps_agent.Mapper.Chip.{Mapper}
use decomps_agent.Mapper.Address.{cpu_to_rom}
use decomps_agent.Cpu.Insn.{Insn}
use decomps_agent.Cpu.Flow.{mem_operand}
use decomps_agent.Reach.Maps.{has_key, or_insert}
use decomps_agent.Reach.State.{TraceInsn, flow_outside_rom, Item, World}
use decomps_agent.Reach.Targets.{insn_at}
use decomps_agent.Reach.World.{Cursor, start, on_trace, push_unresolved, has_visit, note_hw}
use decomps_agent.Reach.Effects.{bank_step, vram_step}
use decomps_agent.Reach.Flow.{flow}

abbrev pub trace_insn : RomLoc → Insn → Item → TraceInsn
trace_insn loc i it = record {
  cpu_addr = it.pc;
  bank = loc.bank;
  file_offset = loc.file_offset;
  insn = i;
  sub = it.sub;
}

abbrev pub mark : ℕ → List ℕ → World → World
mark off slots w = record {
  eng = record w.eng { visited = (off, slots) ∷ w.eng.visited };
  trace = w.trace;
}

abbrev pub tick : World → World
tick w = record { eng = record w.eng { steps = w.eng.steps + 1 }; trace = w.trace }

abbrev pub pop_from : List Item → World → Option Cursor × World
pop_from [] w = (none, w)
pop_from (it ∷ work) w =
    (some (start it), record { eng = record w.eng { work = work }; trace = w.trace })

-- The cursor of the next round: where the last one went on, or the next item.
abbrev pub settle : Option Cursor × World → Option Cursor × World
settle (some cur, w) = (some cur, w)
settle (none, w) = pop_from w.eng.work w

module _ (rom : Rom) (m : Mapper) where
  -- A place that was not visited in this bank state.
  unfoldable pub visit_new : RomLoc → Cursor → World → Option Cursor × World
  visit_new loc cur w =
      let i = insn_at rom.prg loc.file_offset in
      let first = not (has_key loc.file_offset w.trace.insns) in
      let listed =
        on_trace
          (λ t. record t { insns = or_insert loc.file_offset (trace_insn loc i cur.it) t.insns })
          w in
      let op = mem_operand i in
      let hit = on_trace (note_hw first op loc cur.it i) listed in
      let banked = bank_step m op loc i cur.it hit in
      let stepped = vram_step loc i banked.0 banked.1 in
      flow rom m first cur.recent loc i stepped.0 stepped.1

  -- One round at an address with a place in the ROM, or without.
  unfoldable pub visit_at : Option RomLoc → Cursor → World → Option Cursor × World
  visit_at none cur w = (none, push_unresolved cur.it.pc 0 flow_outside_rom w)
  visit_at (some loc) cur w =
      if has_visit loc.file_offset cur.it.st.prg8k w.eng.visited
      then (none, w)
      else visit_new loc cur (mark loc.file_offset cur.it.st.prg8k w)

  unfoldable pub visit : Cursor → World → Option Cursor × World
  visit cur w = visit_at (cpu_to_rom m rom cur.it.pc cur.it.st) cur w

  -- The rounds, with `left` of the steps to go; the step behind them counts too and ends the loop.
  unfoldable pub run : ℕ → Option Cursor → World → World
  run left none w = w
  run zero (some cur) w = tick w
  run (suc left) (some cur) w = let next = settle (visit cur (tick w)) in run left next.0 next.1

  -- `drain`, with `limit` for the 6,000,000 steps of the source.
  unfoldable pub drain : ℕ → World → World
  drain limit w = let first = settle (none, w) in run (limit - w.eng.steps) first.0 first.1
