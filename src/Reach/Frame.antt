-- ===== src/Reach/Frame.antt =====
-- reach.rs: what the records on the VRAM leave as it is, the list of instructions.
use Prim.Native.String.{String}
use decomps_agent.Prelude.{
  ℕ, zero, suc, ◌+◌, ◌%◌, ◌^◌, ◌≡◌, ◌∙◌, refl, inl, inr, Bool, true, false, leb, Bool-cases,
  Option-cases, Option, none, some, List,
}
use decomps_agent.Ines.{Rom}
use decomps_agent.Mapper.State.{BankState}
use decomps_agent.Mapper.Chip.{Mapper}
use decomps_agent.Mapper.Address.{cpu_to_rom}
use decomps_agent.Cpu.Insn.{Insn}
use decomps_agent.Cpu.Flow.{is_jsr, is_jmp_abs}
use decomps_agent.Render.{hex4}
use decomps_agent.Sim.{Regs, stored, update}
use decomps_agent.Sim.Describe.{describe}
use decomps_agent.Vram.{Vram, Queue, Event, addr_set, data_write, data_read, step}
use decomps_agent.Vram.Notes.{origin_name}
use decomps_agent.Cpu.Registers.{hw_register}
use decomps_agent.Mapper.State.{RomLoc}
use decomps_agent.Reach.State.{Trace, Item}
use decomps_agent.Reach.Record.{record_vram, has_write, render_call}
use decomps_agent.Reach.Targets.{insn_at}
use decomps_agent.Reach.Replay.{
  Nested, stops, bank_store, write_known, record_event, enter_at, enter, unwrap_or, replay_loop,
  replay_vram,
}
use decomps_agent.Reach.World.{note_hw}

pub record_vram-insns :
    (ev : Event) (off pc bank : ℕ) (routine : String) (via : Option ℕ) (caller : Option String)
    (t : Trace)
    → (record_vram ev off pc bank routine via caller t).insns ≡ t.insns
unfolding record_vram
record_vram-insns (addr_set addr) off pc bank routine via caller t = refl
record_vram-insns (data_read addr) off pc bank routine via caller t = refl
record_vram-insns (data_write addr value origin queue) off pc bank routine via caller t =
    elim (Bool-cases
      (has_write off addr (describe value (origin_name origin)) (render_call via) t.vram_writes)) [
        | inl old ↦ rw old refl
        | inr fresh ↦ rw fresh refl
      ]

record_event-insns :
    (o : Option Event) (off pc bank : ℕ) (callee : String) (site : ℕ) (caller : String) (t : Trace)
    → (record_event o off pc bank callee site caller t).insns ≡ t.insns
record_event-insns none off pc bank callee site caller t = refl
record_event-insns (some ev) off pc bank callee site caller t =
    record_vram-insns ev off pc bank callee (some site) (some caller) t

-- A nested replay that leaves the instructions as they are.
abbrev Leaves : Nested → Type 0
Leaves nested =
    (tgt : ℕ) (r : Regs) (s : BankState) (v : Vram) (pc : ℕ) (t : Trace)
    → (nested tgt r s v pc t).1.insns ≡ t.insns

enter_at-insns :
    (nested : Nested)
    → Leaves nested
    → (o : Option ℕ) (r : Regs) (s : BankState) (v : Vram) (pc : ℕ) (t : Trace)
    → (enter_at nested o r s v pc t).1.insns ≡ t.insns
enter_at-insns nested keeps none r s v pc t = refl
enter_at-insns nested keeps (some tgt) r s v pc t = elim (Bool-cases (leb 0x8000 tgt)) [
  | inl inside ↦ rw inside (keeps tgt r s v pc t)
  | inr outside ↦ rw outside refl
]

enter-insns :
    (nested : Nested)
    → Leaves nested
    → (i : Insn) (r : Regs) (s : BankState) (v : Vram) (pc : ℕ) (t : Trace)
    → (enter nested i r s v pc t).1.insns ≡ t.insns
enter-insns nested keeps i r s v pc t = elim (Bool-cases (is_jsr i)) [
  | inl call ↦ rw call (enter_at-insns nested keeps i.operand r s v pc t)
  | inr other ↦ rw other refl
]

module _ (rom : Rom) (m : Mapper) where
  replay_loop-insns :
      (nested : Nested)
      → Leaves nested
      → (queues : List Queue) (callee : String) (site : ℕ) (caller : String) (left pc : ℕ)
        (regs : Regs) (st : BankState) (v : Vram) (t : Trace)
      → (replay_loop rom m nested queues callee site caller left pc regs st v t).1.insns ≡ t.insns
  unfolding replay_loop
  replay_loop-insns nested keeps queues callee site caller zero pc regs st v t = refl
  replay_loop-insns nested keeps queues callee site caller (suc left) pc regs st v t =
      elim (Option-cases (cpu_to_rom m rom pc st)) [
        | inl out ↦ rw (out, replay_loop) refl
        | inr (loc, at) ↦
            let i = insn_at rom.prg loc.file_offset in
            elim (Bool-cases (stops i)) [
              | inl halt ↦ rw (at, halt, replay_loop) refl
              | inr on ↦
                  let after = write_known m (bank_store m i) (stored i regs).v st in
                  let stepped = step i regs v queues in
                  let seen =
                    record_event stepped.1 loc.file_offset pc loc.bank callee site caller t in
                  let inner = enter nested i regs after stepped.0 pc seen in
                  let kept : inner.1.insns ≡ t.insns =
                    enter-insns nested keeps i regs after stepped.0 pc seen
                    ∙ record_event-insns stepped.1 loc.file_offset pc loc.bank callee site caller
                        t in
                  elim (Bool-cases (is_jmp_abs i)) [
                    | inl jump ↦
                        rw (at, on, jump, replay_loop)
                          (replay_loop-insns nested keeps queues callee site caller left
                              (unwrap_or i.operand pc) regs after inner.0 inner.1
                            ∙ kept)
                    | inr forward ↦
                        rw (at, on, forward, replay_loop)
                          (replay_loop-insns nested keeps queues callee site caller left
                              ((pc + i.len) % 2 ^ 16) (update i regs rom m after) after inner.0
                              inner.1
                            ∙ kept)
                  ]
            ]
      ]

  pub replay_vram-insns :
      (deeper : ℕ) (queues : List Queue) (entry : ℕ) (regs : Regs) (st : BankState) (v : Vram)
      (callee : String) (site : ℕ) (caller : String) (t : Trace)
      → (replay_vram rom m deeper queues entry regs st v callee site caller t).1.insns ≡ t.insns
  unfolding replay_vram
  replay_vram-insns zero queues entry regs st v callee site caller t =
      replay_loop-insns _ (λ tgt r s w pc u. refl) queues callee site caller 160 entry regs st v t
  replay_vram-insns (suc deeper) queues entry regs st v callee site caller t =
      replay_loop-insns _
        (λ tgt r s w pc u. replay_vram-insns deeper queues tgt r s w (hex4 tgt) pc caller u) queues
        callee site caller 160 entry regs st v t

pub note_hw-insns :
    (first : Bool) (o : Option ℕ) (loc : RomLoc) (it : Item) (i : Insn) (t : Trace)
    → (note_hw first o loc it i t).insns ≡ t.insns
unfolding note_hw
note_hw-insns first none loc it i t = refl
note_hw-insns false (some op) loc it i t = refl
note_hw-insns true (some op) loc it i t = elim (Option-cases (hw_register op)) [
  | inl unnamed ↦ rw unnamed refl
  | inr (reg, named) ↦ rw named refl
]
