-- ===== src/Reach/Queues.antt =====
-- vram.rs: `detect_queues`, the routines that take writes from parallel arrays to the PPU. A queue is its
-- three arrays, without the texts of their addresses and of the routine.
use decomps_agent.Prelude.{
  ℕ, Bool, true, false, ◌&&◌, ◌||◌, ltb, ◌==◌, if◌then◌else◌, List, [], ◌∷◌, ◌++◌, Option, none,
  some,
}
use decomps_agent.Cpu.Table.{Mode, abs, abx, aby, Mnemonic, lda, sta}
use decomps_agent.Cpu.Insn.{Insn}
use decomps_agent.Cpu.Flow.{is_load, is_store}
use decomps_agent.Vram.{Queue}
use decomps_agent.Reach.Maps.{values}
use decomps_agent.Reach.State.{TraceInsn, Sub, Trace}
use decomps_agent.Reach.Record.{same_number}

-- `insns_of_sub`; the instructions come in the order of their file offsets.
unfoldable pub insns_in : ℕ → List TraceInsn → List Insn
insns_in sub_off [] = []
insns_in sub_off (ti ∷ tis) =
    let rest = insns_in sub_off tis in
    if same_number ti.sub (some sub_off) then ti.insn ∷ rest else rest

abbrev indexed_lda_by : Mnemonic → Mode → Bool
indexed_lda_by lda abx = true
indexed_lda_by lda aby = true
indexed_lda_by _ _ = false

abbrev in_ram : Option ℕ → Option ℕ
in_ram none = none
in_ram (some o) = if ltb o 0x2000 then some o else none

-- The array that an instruction loads from, for an indexed `LDA` from RAM.
abbrev pub array_load : Insn → Option ℕ
array_load i = if indexed_lda_by i.mnemonic i.mode then in_ram i.operand else none

abbrev is_abs_sta : Mnemonic → Mode → Bool
is_abs_sta sta abs = true
is_abs_sta _ _ = false

abbrev ppu_port : Option ℕ → Option ℕ
ppu_port none = none
ppu_port (some o) = if o == 0x2006 || o == 0x2007 then some o else none

-- The register of the PPU that an instruction stores to.
abbrev pub port_store : Insn → Option ℕ
port_store i = if is_abs_sta i.mnemonic i.mode then ppu_port i.operand else none

abbrev pair_of : Option ℕ → ℕ → List (ℕ × ℕ)
pair_of none port = []
pair_of (some src) port = (src, port) ∷ []

-- The loop over the instructions: each pair of an array and the register that takes its value.
unfoldable pub pairs_from : Option ℕ → List Insn → List (ℕ × ℕ)
pairs_from last_load [] = []
pairs_from last_load (i ∷ is) = elim (array_load i) [
  | some o ↦ pairs_from (some o) is
  | none ↦ elim (port_store i) [
    | some port ↦ pair_of last_load port ++ pairs_from none is
    | none ↦ pairs_from (if is_load i || is_store i then none else last_load) is
  ]
]

unfoldable pub has_queue : Queue → List Queue → Bool
has_queue q [] = false
has_queue q (x ∷ xs) = x.hi_n == q.hi_n && x.lo_n == q.lo_n && x.val_n == q.val_n || has_queue q xs

unfoldable pub add_queue : Queue → List Queue → List Queue
add_queue q out = if has_queue q out then out else out ++ (q ∷ [])

abbrev add_window : ℕ × ℕ → ℕ × ℕ → ℕ × ℕ → List Queue → List Queue
add_window (hi, a) (lo, b) (val, c) out =
    if a == 0x2006 && b == 0x2006 && c == 0x2007
    then add_queue (record { hi_n = hi; lo_n = lo; val_n = val }) out
    else out

-- `windows(3)`
unfoldable pub add_windows : List (ℕ × ℕ) → List Queue → List Queue
add_windows [] out = out
add_windows (x ∷ []) out = out
add_windows (x ∷ y ∷ []) out = out
add_windows (x ∷ y ∷ z ∷ pairs) out = add_windows (y ∷ z ∷ pairs) (add_window x y z out)

unfoldable pub queues_of : List (ℕ × Sub) → List TraceInsn → List Queue → List Queue
queues_of [] tis out = out
queues_of ((sub_off, s) ∷ subs) tis out =
    queues_of subs tis (add_windows (pairs_from none (insns_in sub_off tis)) out)

unfoldable pub detect_queues : Trace → List Queue
detect_queues t = queues_of t.subs (values t.insns) []
