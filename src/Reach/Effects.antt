-- ===== src/Reach/Effects.antt =====
-- reach.rs: the effects of one instruction on the bank state and on the VRAM state.
use decomps_agent.Prelude.{ℕ, Bool, true, false, ◌&&◌, leb, if◌then◌else◌, Option, none, some}
use decomps_agent.Mapper.State.{RomLoc}
use decomps_agent.Mapper.Chip.{Mapper, on_write, is_mapper_reg}
use decomps_agent.Mapper.Notes.{write_note}
use decomps_agent.Cpu.Insn.{Insn}
use decomps_agent.Cpu.Flow.{is_store, indexed}
use decomps_agent.Render.{hex4}
use decomps_agent.Sim.{stored}
use decomps_agent.Vram.{Event, step}
use decomps_agent.Reach.State.{dynamic_value, of_note, Item, World}
use decomps_agent.Reach.Record.{record_vram}
use decomps_agent.Reach.World.{on_trace, routine, or_empty, push_switch, push_switched, add_helper}

abbrev pub record_step : Option Event → RomLoc → Item → World → World
record_step none loc it w = w
record_step (some ev) loc it w =
    on_trace
      (λ t. record_vram ev loc.file_offset it.pc loc.bank (or_empty (routine it.sub t)) none none t)
      w

unfoldable pub vram_step : RomLoc → Insn → Item → World → Item × World
vram_step loc i it w =
    let stepped = step i it.regs it.vram w.eng.queues in
    (record it { vram = stepped.0 }, record_step stepped.1 loc it w)

module _ (m : Mapper) where
  -- A store to a register of the mapper: of a known value at a known address, or of another.
  unfoldable pub bank_effect : Option ℕ → Bool → ℕ → RomLoc → Item → World → Item × World
  bank_effect (some value) false op loc it w =
      let written = on_write m op value it.st in
      (record it { st = written.0 }, push_switched written.1 op value loc it w)
  bank_effect value is_indexed op loc it w = (
    record it { st = record it.st { dynamic = true } },
    push_switch
        (record {
          addr = hex4 it.pc;
          bank = loc.bank;
          register = hex4 op;
          resolved_value = dynamic_value;
          description = of_note (write_note m op);
        })
        w,
  )

  unfoldable pub bank_step : Option ℕ → RomLoc → Insn → Item → World → Item × World
  bank_step none loc i it w = (it, w)
  bank_step (some op) loc i it w =
      if is_store i && leb 0x8000 op && is_mapper_reg m op
      then bank_effect (stored i it.regs).v (indexed i) op loc it (add_helper it.sub w)
      else (it, w)
