-- ===== src/Reach/Replay.antt =====
-- reach.rs: `replay_vram`, and the straight-line replay that `replay_helpers` makes of a callee.
use Prim.Native.String.{String}
use decomps_agent.Prelude.{
  ℕ, zero, suc, ◌+◌, ◌%◌, ◌^◌, Bool, true, false, not, ◌&&◌, ◌||◌, leb, if◌then◌else◌, List, [],
  ◌∷◌, ◌++◌, Option, none, some,
}
use decomps_agent.Ines.{Rom}
use decomps_agent.Mapper.State.{BankState, BankSwitch, Description}
use decomps_agent.Mapper.Chip.{Mapper, on_write, is_mapper_reg}
use decomps_agent.Mapper.Address.{cpu_to_rom}
use decomps_agent.Cpu.Insn.{Insn}
use decomps_agent.Cpu.Flow.{
  is_jsr, is_jmp_abs, is_jmp_ind, is_return, is_brk, is_store, indexed, mem_operand,
}
use decomps_agent.Render.{hex4}
use decomps_agent.Sim.{Regs, stored, update}
use decomps_agent.Vram.{Vram, Queue, Event, step}
use decomps_agent.Reach.State.{Trace}
use decomps_agent.Reach.Record.{record_vram}
use decomps_agent.Reach.Targets.{insn_at}

-- Where a replay ends.
abbrev pub stops : Insn → Bool
stops i = i.illegal || is_return i || is_brk i || is_jmp_ind i

-- A store at a known address to a register of the mapper.
abbrev pub bank_store_at : Mapper → Insn → Option ℕ → Option ℕ
bank_store_at m i none = none
bank_store_at m i (some op) =
    if is_store i && not (indexed i) && leb 0x8000 op && is_mapper_reg m op then some op else none

abbrev pub bank_store : Mapper → Insn → Option ℕ
bank_store m i = bank_store_at m i (mem_operand i)

abbrev pub write_known : Mapper → Option ℕ → Option ℕ → BankState → BankState
write_known m (some op) (some value) st = (on_write m op value st).0
write_known m _ _ st = st

abbrev pub unwrap_or : Option ℕ → ℕ → ℕ
unwrap_or none other = other
unwrap_or (some n) other = n

abbrev pub record_event : Option Event → ℕ → ℕ → ℕ → String → ℕ → String → Trace → Trace
record_event none off pc bank callee call_site caller t = t
record_event (some ev) off pc bank callee call_site caller t =
    record_vram ev off pc bank callee (some call_site) (some caller) t

-- A nested replay: entry, registers, bank state, VRAM state, call site, trace.
abbrev pub Nested : Type 0
Nested = ℕ → Regs → BankState → Vram → ℕ → Trace → Vram × Trace

abbrev pub enter_at : Nested → Option ℕ → Regs → BankState → Vram → ℕ → Trace → Vram × Trace
enter_at nested none regs st v pc t = (v, t)
enter_at nested (some tgt) regs st v pc t =
    if leb 0x8000 tgt then nested tgt regs st v pc t else (v, t)

abbrev pub enter : Nested → Insn → Regs → BankState → Vram → ℕ → Trace → Vram × Trace
enter nested i regs st v pc t =
    if is_jsr i then enter_at nested i.operand regs st v pc t else (v, t)

module _ (rom : Rom) (m : Mapper) where
  -- The loop, with `left` of its 160 rounds to go.
  unfoldable pub replay_loop :
      Nested
      → List Queue
      → String
      → ℕ
      → String
      → ℕ
      → ℕ
      → Regs
      → BankState
      → Vram
      → Trace
      → Vram × Trace
  replay_loop nested queues callee call_site caller zero pc regs st v t = (v, t)
  replay_loop nested queues callee call_site caller (suc left) pc regs st v t =
      elim (cpu_to_rom m rom pc st) [
        | none ↦ (v, t)
        | some loc ↦
            let i = insn_at rom.prg loc.file_offset in
            elim (stops i) [
              | true ↦ (v, t)
              | false ↦
                  let after = write_known m (bank_store m i) (stored i regs).v st in
                  let stepped = step i regs v queues in
                  let seen =
                    record_event stepped.1 loc.file_offset pc loc.bank callee call_site caller t in
                  let inner = enter nested i regs after stepped.0 pc seen in
                  elim (is_jmp_abs i) [
                    | true ↦
                        replay_loop nested queues callee call_site caller left
                          (unwrap_or i.operand pc) regs after inner.0 inner.1
                    | false ↦
                        replay_loop nested queues callee call_site caller left
                          ((pc + i.len) % 2 ^ 16) (update i regs rom m after) after inner.0 inner.1
                  ]
            ]
      ]

  -- `replay_vram`, with `deeper` for `3 - depth`: at the depth 3 calls are not entered.
  unfoldable pub replay_vram :
      ℕ → List Queue → ℕ → Regs → BankState → Vram → String → ℕ → String → Trace → Vram × Trace
  replay_vram zero queues entry regs st v callee call_site caller t =
      replay_loop (λ tgt r s w pc u. (w, u)) queues callee call_site caller 160 entry regs st v t
  replay_vram (suc deeper) queues entry regs st v callee call_site caller t =
      replay_loop (λ tgt r s w pc u. replay_vram deeper queues tgt r s w (hex4 tgt) pc caller u)
        queues callee call_site caller 160 entry regs st v t

  abbrev pub add_description : Option BankSwitch → List Description → List Description
  add_description none resolved = resolved
  add_description (some sw) resolved =
      if sw.changed then resolved ++ (sw.description ∷ []) else resolved

  -- The loop of `replay_helpers`, with `left` of its 256 rounds to go: the bank state and the
  -- descriptions of the switches at its end. A store of an unknown value ends it.
  unfoldable pub helper_loop :
      ℕ → ℕ → Regs → BankState → List Description → BankState × List Description
  helper_loop zero pc regs st resolved = (st, resolved)
  helper_loop (suc left) pc regs st resolved = elim (cpu_to_rom m rom pc st) [
    | none ↦ (st, resolved)
    | some loc ↦
        let i = insn_at rom.prg loc.file_offset in
        let go : BankState → List Description → BankState × List Description = λ after told.
          elim (is_jmp_abs i) [
            | true ↦ helper_loop left (unwrap_or i.operand pc) regs after told
            | false ↦
                helper_loop left ((pc + i.len) % 2 ^ 16) (update i regs rom m after) after told
          ] in
        elim (stops i) [
          | true ↦ (st, resolved)
          | false ↦ elim (bank_store m i) [
            | none ↦ go st resolved
            | some op ↦ elim (stored i regs).v [
              | none ↦ (st, resolved)
              | some value ↦
                  let written = on_write m op value st in
                  go written.0 (add_description written.1 resolved)
            ]
          ]
        ]
  ]
