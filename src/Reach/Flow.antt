-- ===== src/Reach/Flow.antt =====
-- reach.rs: where an instruction leads.
use decomps_agent.Prelude.{
  ℕ, ◌+◌, ◌-◌, ◌%◌, ◌^◌, Bool, true, false, ◌&&◌, ◌||◌, leb, ltb, ◌==◌, if◌then◌else◌, List, [],
  ◌∷◌, ◌++◌, Option, none, some, ◌>>=◌, length, drop,
}
use decomps_agent.Ines.{Rom}
use decomps_agent.Mapper.State.{BankState, RomLoc}
use decomps_agent.Mapper.Chip.{Mapper}
use decomps_agent.Mapper.Address.{cpu_to_rom, read_u16}
use decomps_agent.Cpu.Table.{Mode, abx, aby, Mnemonic, pha}
use decomps_agent.Cpu.Insn.{Insn}
use decomps_agent.Cpu.Flow.{is_branch, is_jsr, is_jmp_abs, is_jmp_ind, is_return, is_brk, target}
use decomps_agent.Render.{hex4}
use decomps_agent.Sim.{update}
use decomps_agent.Reach.Maps.{adjust, set_insert}
use decomps_agent.Reach.State.{
  Sub, subroutine, branch_edge, jsr_edge, jmp_edge, jsr_outside_rom, jmp_outside_rom, indirect_jump,
  rts_jump_table, Trace, Item, CallSite, pointer, rts_table_at, World,
}
use decomps_agent.Reach.Record.{add_sub, edge}
use decomps_agent.Reach.Targets.{is_lda}
use decomps_agent.Reach.Replay.{unwrap_or, replay_vram}
use decomps_agent.Reach.World.{
  Cursor, on_trace, push_work, push_unresolved, push_indirect, routine, or_empty,
}

-- `Item { pc: tgt, … }` with the rest of `it`.
abbrev pub follow : ℕ → Item → Item
follow tgt it = record it { pc = tgt }

abbrev pub add_call : Option ℕ → ℕ → List (ℕ × Sub) → List (ℕ × Sub)
add_call none callee subs = subs
add_call (some s) callee subs =
    adjust s (λ owner. record owner { calls = set_insert callee owner.calls }) subs

abbrev pub call_site : ℕ → RomLoc → RomLoc → Item → CallSite
call_site tgt loc tl it = record {
  jsr_pc = it.pc;
  jsr_off = loc.file_offset;
  jsr_bank = loc.bank;
  callee_off = tl.file_offset;
  callee_pc = tgt;
  regs = it.regs;
  st = it.st;
  sub = it.sub;
}

abbrev pub push_site : CallSite → World → World
push_site site w = record {
  eng = record w.eng { call_sites = w.eng.call_sites ++ (site ∷ []) };
  trace = w.trace;
}

abbrev pub by_index : Mode → Bool
by_index abx = true
by_index aby = true
by_index _ = false

abbrev pub is_pha : Mnemonic → Bool
is_pha pha = true
is_pha _ = false

abbrev pub loads_indexed : Insn → Bool
loads_indexed i = is_lda i.mnemonic && by_index i.mode

abbrev pub both : Option ℕ → Option ℕ → Option (ℕ × ℕ)
both (some hi) (some lo) = some (lo, hi)
both _ _ = none

-- `LDA hi,idx / PHA / LDA lo,idx / PHA`: the addresses of the two tables, low before high.
unfoldable pub rts_trick : List Insn → Option (ℕ × ℕ)
rts_trick (a ∷ b ∷ c ∷ d ∷ []) =
    if loads_indexed a && is_pha b.mnemonic && loads_indexed c && is_pha d.mnemonic
    then both a.operand c.operand
    else none
rts_trick _ = none

abbrev pub dispatch : Option (ℕ × ℕ) → Bool → RomLoc → Item → World → World
dispatch none first loc it w = w
dispatch (some (lo, hi)) first loc it w =
    let noted =
      push_indirect
        (record {
          pc = it.pc;
          off = loc.file_offset;
          bank = loc.bank;
          kind = rts_table_at lo hi;
          st = it.st;
        })
        w in
    if first then push_unresolved it.pc loc.bank rts_jump_table noted else noted

unfoldable pub on_return : Bool → List Insn → RomLoc → Insn → Item → World → World
on_return first recent loc i it w =
    if i.opcode == 0x60 && leb 4 (length recent)
    then dispatch (rts_trick (drop (length recent - 4) recent)) first loc it w
    else w

abbrev pub keep_eight : List Insn → List Insn
keep_eight recent = if ltb 8 (length recent) then drop 1 recent else recent

module _ (rom : Rom) (m : Mapper) where
  abbrev pub branch_to : ℕ → Option RomLoc → RomLoc → Item → World → World
  branch_to tgt none loc it w = w
  branch_to tgt (some tl) loc it w =
      push_work (follow tgt it) (on_trace (edge loc tl it.st m branch_edge) w)

  abbrev pub branch_at : Option ℕ → RomLoc → Item → World → World
  branch_at none loc it w = w
  branch_at (some tgt) loc it w = branch_to tgt (cpu_to_rom m rom tgt it.st) loc it w

  unfoldable pub on_branch : RomLoc → Insn → Item → World → World
  on_branch loc i it w = branch_at (target i it.pc) loc it w

  -- The edge, the callers and the calls of a `JSR`.
  unfoldable pub link_call : RomLoc → RomLoc → Item → Trace → Trace
  link_call loc tl it t =
      let linked = edge loc tl it.st m jsr_edge (add_sub tl subroutine t) in
      record linked {
        subs = add_call it.sub tl.file_offset (
            adjust tl.file_offset (λ s. record s { callers = set_insert loc.file_offset s.callers })
              linked.subs);
      }

  unfoldable pub enter_call : ℕ → RomLoc → RomLoc → Item → World → Item × World
  enter_call tgt loc tl it w =
      let callee = record it { pc = tgt; sub = some tl.file_offset } in
      let called =
        push_work callee (push_site (call_site tgt loc tl it) (on_trace (link_call loc tl it) w)) in
      let caller = or_empty (routine it.sub called.trace) in
      let replayed =
        replay_vram rom m 3 called.eng.queues tgt it.regs it.st it.vram (hex4 tgt) it.pc caller
          called.trace in
      (record it { vram = replayed.0 }, record { eng = called.eng; trace = replayed.1 })

  abbrev pub call_to : ℕ → Option RomLoc → Bool → RomLoc → Item → World → Item × World
  call_to tgt none first loc it w =
      (it, if first then push_unresolved it.pc loc.bank jsr_outside_rom w else w)
  call_to tgt (some tl) first loc it w = enter_call tgt loc tl it w

  abbrev pub call_at : Option ℕ → Bool → RomLoc → Item → World → Item × World
  call_at none first loc it w = (it, w)
  call_at (some tgt) first loc it w = call_to tgt (cpu_to_rom m rom tgt it.st) first loc it w

  unfoldable pub on_jsr : Bool → RomLoc → Insn → Item → World → Item × World
  on_jsr first loc i it w = call_at i.operand first loc it w

  abbrev pub jump_to : ℕ → Option RomLoc → Bool → RomLoc → Item → World → World
  jump_to tgt none first loc it w =
      if first then push_unresolved it.pc loc.bank jmp_outside_rom w else w
  jump_to tgt (some tl) first loc it w =
      push_work (follow tgt it) (on_trace (edge loc tl it.st m jmp_edge) w)

  abbrev pub jump_at : Option ℕ → Bool → RomLoc → Item → World → World
  jump_at none first loc it w = w
  jump_at (some tgt) first loc it w = jump_to tgt (cpu_to_rom m rom tgt it.st) first loc it w

  unfoldable pub on_jmp : Bool → RomLoc → Insn → Item → World → World
  on_jmp first loc i it w = jump_at i.operand first loc it w

  -- A pointer in the ROM that leads into the ROM.
  abbrev pub pointed : ℕ → BankState → Option (ℕ × RomLoc)
  pointed ptr st = cpu_to_rom m rom ptr st >>= (λ pl. read_u16 rom.prg pl.file_offset) >>= λ tgt.
      (cpu_to_rom m rom tgt st >>= λ tl. some (tgt, tl))

  abbrev pub indirect_to : Option (ℕ × RomLoc) → ℕ → Bool → RomLoc → Item → World → World
  indirect_to (some (tgt, tl)) ptr first loc it w =
      push_work (follow tgt it) (on_trace (edge loc tl it.st m jmp_edge) w)
  indirect_to none ptr first loc it w =
      let noted =
        push_indirect
          (record {
            pc = it.pc;
            off = loc.file_offset;
            bank = loc.bank;
            kind = pointer ptr;
            st = it.st;
          })
          w in
      if first then push_unresolved it.pc loc.bank indirect_jump noted else noted

  unfoldable pub on_jmp_ind : Bool → RomLoc → Insn → Item → World → World
  on_jmp_ind first loc i it w =
      let ptr = unwrap_or i.operand 0 in indirect_to (pointed ptr it.st) ptr first loc it w

  -- The end of a round: on to the next instruction, inside PRG space.
  unfoldable pub advance : List Insn → Insn → Item → World → Option Cursor × World
  advance recent i it w =
      let next = (it.pc + i.len) % 2 ^ 16 in
      let moved = record it { pc = next; regs = update i it.regs rom m it.st } in
      if ltb next 0x8000
      then (none, w)
      else (some (record { it = moved; recent = keep_eight (recent ++ (i ∷ [])) }), w)

  -- What an instruction does to the flow.
  unfoldable pub flow : Bool → List Insn → RomLoc → Insn → Item → World → Option Cursor × World
  flow first recent loc i it w =
      if i.illegal
      then (none, w)
      else if is_branch i
      then advance recent i it (on_branch loc i it w)
      else if is_jsr i
      then (let called = on_jsr first loc i it w in advance recent i called.0 called.1)
      else if is_jmp_abs i
      then (none, on_jmp first loc i it w)
      else if is_jmp_ind i
      then (none, on_jmp_ind first loc i it w)
      else if is_return i || is_brk i
      then (none, on_return first recent loc i it w)
      else advance recent i it w
