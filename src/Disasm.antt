-- ===== src/Disasm.antt =====
-- tools/nesrom/src/disasm.rs: a line of a listing, the linear listing, and the labels. The texts that
-- render an instruction are the instruction itself.
pub mod Labels
pub mod Linear
use Prim.Native.Char.{Char}
use Prim.Native.String.{String}
use decomps_agent.Prelude.{
  ℕ, suc, zero, ◌+◌, ◌/◌, ◌%◌, ◌^◌, Bool, true, false, not, ◌&&◌, ◌||◌, ltb, leb, if◌then◌else◌,
  List, [], ◌∷◌, Option, none, some,
}
use decomps_agent.Errors.{Result, err, ok}
use decomps_agent.Ines.{Rom}
use decomps_agent.Mapper.State.{BankState, RomLoc}
use decomps_agent.Mapper.Chip.{Mapper, state_for_bank}
use decomps_agent.Mapper.Address.{cpu_to_rom, resolve}
use decomps_agent.Mapper.Notes.{Note, write_note}
use decomps_agent.Cpu.Insn.{Insn}
use decomps_agent.Cpu.Flow.{is_jsr, is_jmp_abs, is_return, is_store, mem_operand, target}
use decomps_agent.Cpu.Registers.{Register, hw_register}
use decomps_agent.Compress.Decoded.{usize_max}
use decomps_agent.Render.{hex4, hex_digit}
use decomps_agent.Sim.{Regs, update}
use decomps_agent.Vram.{Vram, Event, step}
use decomps_agent.Vram.Notes.{note_for}
use decomps_agent.Reach.Maps.{lookup, or_insert, adjust}
use decomps_agent.Reach.State.{no_regs, no_vram}
use decomps_agent.Reach.Targets.{insn_at}

pub data PlainNote : Type 0 where
  register_note : Register → PlainNote
  mapper_note : Note → PlainNote

-- A note, or what `merge_note` makes of one: its text up to the first colon, `VRAM-QUEUE` where there is
-- none, and the note on the VRAM.
pub data LineNote : Type 0 where
  plain : PlainNote → LineNote
  with_vram : Option PlainNote → String → LineNote

-- `loc` and `sub`, the first parts of a label; its second is the address of the line.
pub data LabelKind : Type 0 where
  loc_label sub_label : LabelKind

pub record Line : Type 0 where
  pub addr : String
  pub bank : ℕ
  pub file_offset : ℕ
  pub insn : Insn
  pub target : Option String
  pub label : Option (LabelKind × ℕ)
  pub note : Option LineNote
  pub sub : Option String
  pub addr_num : ℕ
  pub target_num : Option ℕ
  pub is_jsr : Bool

abbrev plain_mapper : Option Note → Option LineNote
plain_mapper none = none
plain_mapper (some n) = some (plain (mapper_note n))

abbrev note_at : Option Register → Insn → ℕ → Mapper → Option LineNote
note_at (some r) i op m = some (plain (register_note r))
note_at none i op m = if is_store i && leb 0x8000 op then plain_mapper (write_note m op) else none

abbrev note_of_operand : Option ℕ → Insn → Mapper → Option LineNote
note_of_operand none i m = none
note_of_operand (some op) i m = note_at (hw_register op) i op m

unfoldable pub line_note : Insn → Mapper → Option LineNote
line_note i m = note_of_operand (mem_operand i) i m

abbrev hex4_of : Option ℕ → Option String
hex4_of none = none
hex4_of (some t) = some (hex4 t)

unfoldable pub line : Insn → RomLoc → Mapper → Line
line i loc m = record {
  addr = hex4 loc.cpu_addr;
  bank = loc.bank;
  file_offset = loc.file_offset;
  insn = i;
  target = hex4_of (target i loc.cpu_addr);
  label = none;
  note = line_note i m;
  sub = none;
  addr_num = loc.cpu_addr;
  target_num = target i loc.cpu_addr;
  is_jsr = is_jsr i;
}

abbrev merged : Option LineNote → String → LineNote
merged none text = with_vram none text
merged (some (plain p)) text = with_vram (some p) text
merged (some (with_vram p old)) text = with_vram p text

abbrev pub merge_note : String → Line → Line
merge_note text l = record l { note = some (merged l.note text) }

-- `if let Some(ev) = vram::step(…)`
abbrev pub merge_event : Option Event → Line → Line
merge_event none l = l
merge_event (some ev) l = merge_note (note_for ev) l

-- One line's part in the first loop of `apply_labels`.
abbrev pub label_target : Option ℕ → Bool → List (ℕ × LabelKind) → List (ℕ × LabelKind)
label_target none jsr labels = labels
label_target (some t) false labels = or_insert t loc_label labels
label_target (some t) true labels = adjust t (λ k. sub_label) (or_insert t loc_label labels)

unfoldable pub label_targets : List Line → List (ℕ × LabelKind) → List (ℕ × LabelKind)
label_targets [] labels = labels
label_targets (l ∷ ls) labels = label_targets ls (label_target l.target_num l.is_jsr labels)

abbrev pub set_label : Option LabelKind → Line → Line
set_label none l = l
set_label (some k) l = record l { label = some (k, l.addr_num) }

unfoldable pub put_labels : List (ℕ × LabelKind) → List Line → List Line
put_labels labels [] = []
put_labels labels (l ∷ ls) = set_label (lookup l.addr_num labels) l ∷ put_labels labels ls

unfoldable pub apply_labels : List Line → List Line
apply_labels ls = put_labels (label_targets ls []) ls

-- The tests of the loop: `n < limit`, and `pc > e` for an end `e`.
abbrev is_past : Option ℕ → ℕ → Bool
is_past none pc = false
is_past (some e) pc = ltb e pc

abbrev limit_by : Option ℕ → ℕ → ℕ
limit_by none count = count
limit_by (some e) count = usize_max

abbrev pub goes_on : Option ℕ → ℕ → ℕ → ℕ → Bool
goes_on end count pc n = ltb n (limit_by end count) && not (is_past end pc)

-- A return or a jump forgets what is known of the registers and the VRAM.
abbrev forgets : Insn → Bool
forgets i = is_return i || is_jmp_abs i

abbrev pub cons_line : Line → Option (List Line) → Option (List Line)
cons_line l none = none
cons_line l (some ls) = some (l ∷ ls)

module _ (rom : Rom) (m : Mapper) (end : Option ℕ) (count : ℕ) (st : BankState) where
  -- The `while` loop; `none` is the end of the fuel.
  unfoldable pub linear_loop : ℕ → ℕ → ℕ → Regs → Vram → Option (List Line)
  linear_loop zero pc n regs vs = none
  linear_loop (suc fuel) pc n regs vs = elim (goes_on end count pc n) [
    | false ↦ some []
    | true ↦ elim (cpu_to_rom m rom pc st) [
      | none ↦ some []
      | some loc ↦
          let i = insn_at rom.prg loc.file_offset in
          let (vs', ev) = step i regs vs [] in
          let l = merge_event ev (line i loc m) in
          let next = (pc + i.len) % 2 ^ 16 in
          elim (ltb next pc) [
            | true ↦ some (l ∷ [])
            | false ↦ cons_line l (
                linear_loop fuel next (n + 1)
                  (if forgets i then no_regs else update i regs rom m st)
                  (if forgets i then no_vram else vs'))
          ]
    ]
  ]

abbrev pub with_bank : Mapper → ℕ → Option ℕ → BankState → BankState
with_bank m start none st = st
with_bank m start (some b) st = state_for_bank m b start st

abbrev labelled : Option (List Line) → Option (Result (List Line))
labelled none = none
labelled (some ls) = some (ok (apply_labels ls))

-- The addresses of the lines ascend, so that there are at most 2 ^ 16 rounds and the last test.
unfoldable pub linear :
    Rom → Mapper → ℕ → Option ℕ → Option ℕ → ℕ → BankState → Option (Result (List Line))
linear rom m start bank end count st = elim (resolve m rom start bank st) [
  | err e ↦ some (err e)
  | ok first ↦
      labelled (
        linear_loop rom m end count (with_bank m start bank st) (2 ^ 16 + 1) start 0 no_regs
          no_vram)
]
