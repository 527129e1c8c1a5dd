-- ===== src/Reach/Targets.antt =====
-- reach.rs: instructions at a file offset, and the targets of indirect jumps.
use decomps_agent.Prelude.{
  ℕ, zero, suc, ◌+◌, ◌*◌, ◌%◌, ◌^◌, bit_or, Bool, true, false, not, ◌&&◌, ◌||◌, leb, ltb, ◌==◌,
  if◌then◌else◌, List, [], ◌∷◌, ◌++◌, Option, none, some, length, get_or, take, drop,
}
use decomps_agent.Ines.{Rom}
use decomps_agent.Mapper.State.{BankState, RomLoc}
use decomps_agent.Mapper.Chip.{Mapper}
use decomps_agent.Mapper.Address.{cpu_to_rom}
use decomps_agent.Cpu.Table.{Mode, imm, abx, aby, Mnemonic, sta, lda}
use decomps_agent.Cpu.Insn.{Insn, decode}
use decomps_agent.Cpu.Flow.{indexed, mem_operand}
use decomps_agent.Reach.Maps.{values}
use decomps_agent.Reach.State.{TraceInsn, EdgeKind, indirect_immediate, indirect_table, Trace}
use decomps_agent.Reach.Record.{edge_rank}

-- `decode` of the three bytes at `off`, or of those that are left; `off` lies inside the ROM.
unfoldable pub insn_at : List ℕ → ℕ → Insn
insn_at prg off = decode (get_or prg off 0) (take 2 (drop (off + 1) prg))

-- `((hi as u16) << 8 | lo as u16).wrapping_add(plus)`
abbrev pub table_word : ℕ → ℕ → ℕ → ℕ
table_word hi lo plus = (bit_or (hi * 2 ^ 8) lo + plus) % 2 ^ 16

-- The loop over the entries, with `left` of its 96 rounds to go.
unfoldable pub table_entries : ℕ → List ℕ → ℕ → ℕ → ℕ → ℕ → EdgeKind → List (ℕ × EdgeKind)
table_entries zero prg lo_off hi_off stride plus kind = []
table_entries (suc left) prg lo_off hi_off stride plus kind =
    let tgt = table_word (get_or prg hi_off 0) (get_or prg lo_off 0) plus in
    let rest = table_entries left prg (lo_off + stride) (hi_off + stride) stride plus kind in
    if leb (length prg) lo_off || leb (length prg) hi_off
    then []
    else if ltb tgt 0x8000
    then []
    else (tgt, kind) ∷ rest

abbrev pub table_at :
    Option RomLoc → Option RomLoc → List ℕ → ℕ → ℕ → EdgeKind → List (ℕ × EdgeKind)
table_at (some ll) (some hl) prg stride plus kind =
    table_entries 96 prg ll.file_offset hl.file_offset stride plus kind
table_at _ _ prg stride plus kind = []

-- The targets that are added to `targets`.
unfoldable pub table_targets : Rom → Mapper → ℕ → ℕ → BankState → ℕ → EdgeKind → List (ℕ × EdgeKind)
table_targets rom m lo hi st plus kind =
    let stride = if hi == (lo + 1) % 2 ^ 16 then 2 else 1 in
    table_at (cpu_to_rom m rom lo st) (cpu_to_rom m rom hi st) rom.prg stride plus kind

abbrev pub is_sta : Mnemonic → Bool
is_sta sta = true
is_sta _ = false

abbrev pub is_lda : Mnemonic → Bool
is_lda lda = true
is_lda _ = false

abbrev pub at_pointer : Option ℕ → ℕ → ℕ → Option Bool
at_pointer none lo_addr hi_addr = none
at_pointer (some op) lo_addr hi_addr =
    if op == lo_addr || op == hi_addr then some (op == hi_addr) else none

-- Whether an instruction stores the pointer's high byte, its low byte, or nothing of it.
unfoldable pub fills_pointer : ℕ → Insn → Option Bool
fills_pointer ptr i =
    if is_sta i.mnemonic && not (indexed i)
    then at_pointer (mem_operand i) ptr ((ptr + 1) % 2 ^ 16)
    else none

-- `range(..off).rev().take(6).find(…)`: the six instructions before `off`, the nearest first.
unfoldable pub before : ℕ → List TraceInsn → List TraceInsn → List TraceInsn
before off near [] = take 6 near
before off near (ti ∷ tis) = elim (ltb ti.file_offset off) [
  | true ↦ before off (ti ∷ near) tis
  | false ↦ take 6 near
]

unfoldable pub find_lda : List TraceInsn → Option Insn
find_lda [] = none
find_lda (ti ∷ tis) =
    let rest = find_lda tis in if is_lda ti.insn.mnemonic then some ti.insn else rest

-- `imm_lo`, `imm_hi`, `tab_lo` and `tab_hi`.
pub record Sources : Type 0 where
  pub imm_lo : List ℕ
  pub imm_hi : List ℕ
  pub tab_lo : List ℕ
  pub tab_hi : List ℕ

abbrev pub add_imm : Bool → ℕ → Sources → Sources
add_imm true v s = record s { imm_hi = s.imm_hi ++ (v % 256 ∷ []) }
add_imm false v s = record s { imm_lo = s.imm_lo ++ (v % 256 ∷ []) }

abbrev pub add_table : Bool → ℕ → Sources → Sources
add_table true tbl s = if leb 0x8000 tbl then record s { tab_hi = s.tab_hi ++ (tbl ∷ []) } else s
add_table false tbl s = if leb 0x8000 tbl then record s { tab_lo = s.tab_lo ++ (tbl ∷ []) } else s

abbrev pub add_load : Mode → Option ℕ → Bool → Sources → Sources
add_load imm (some v) is_hi s = add_imm is_hi v s
add_load abx (some tbl) is_hi s = add_table is_hi tbl s
add_load aby (some tbl) is_hi s = add_table is_hi tbl s
add_load _ _ is_hi s = s

abbrev pub add_source : Option Insn → Bool → Sources → Sources
add_source none is_hi s = s
add_source (some ld) is_hi s = add_load ld.mode ld.operand is_hi s

abbrev pub add_store : Option Bool → ℕ → List TraceInsn → Sources → Sources
add_store none off tis s = s
add_store (some is_hi) off tis s = add_source (find_lda (before off [] tis)) is_hi s

-- The loop over the stores, which are those among `left`.
unfoldable pub gather : ℕ → List TraceInsn → List TraceInsn → Sources → Sources
gather ptr tis [] s = s
gather ptr tis (ti ∷ left) s =
    gather ptr tis left (add_store (fills_pointer ptr ti.insn) ti.file_offset tis s)

unfoldable pub imm_row : ℕ → List ℕ → List (ℕ × EdgeKind)
imm_row l [] = []
imm_row l (h ∷ hs) = (bit_or (h * 2 ^ 8) l, indirect_immediate) ∷ imm_row l hs

unfoldable pub imm_pairs : List ℕ → List ℕ → List (ℕ × EdgeKind)
imm_pairs [] his = []
imm_pairs (l ∷ los) his = imm_row l his ++ imm_pairs los his

unfoldable pub table_row : Rom → Mapper → BankState → ℕ → List ℕ → List (ℕ × EdgeKind)
table_row rom m st tl [] = []
table_row rom m st tl (th ∷ hs) =
    table_targets rom m tl th st 0 indirect_table ++ table_row rom m st tl hs

unfoldable pub table_pairs : Rom → Mapper → BankState → List ℕ → List ℕ → List (ℕ × EdgeKind)
table_pairs rom m st [] his = []
table_pairs rom m st (tl ∷ los) his = table_row rom m st tl his ++ table_pairs rom m st los his

unfoldable pub pointer_targets : Rom → Mapper → Trace → ℕ → BankState → List (ℕ × EdgeKind)
pointer_targets rom m t ptr st =
    let tis = values t.insns in
    let s = gather ptr tis tis (record { imm_lo = []; imm_hi = []; tab_lo = []; tab_hi = [] }) in
    imm_pairs s.imm_lo s.imm_hi ++ table_pairs rom m st s.tab_lo s.tab_hi

-- The order of the pairs: by target, then by the text of the kind. The three kinds of indirect
-- targets have the texts `indirect_immediate`, `indirect_table` and `rts_table`.
abbrev pub kind_rank : EdgeKind → ℕ
kind_rank indirect_immediate = 0
kind_rank indirect_table = 1
kind_rank _ = 2

abbrev pub target_before : ℕ × EdgeKind → ℕ × EdgeKind → Bool
target_before (a, k) (b, j) = ltb a b || a == b && leb (kind_rank k) (kind_rank j)

unfoldable pub insert_target : ℕ × EdgeKind → List (ℕ × EdgeKind) → List (ℕ × EdgeKind)
insert_target x [] = x ∷ []
insert_target x (y ∷ ys) =
    let rest = insert_target x ys in if target_before x y then x ∷ y ∷ ys else y ∷ rest

-- `sort`
unfoldable pub sort_targets : List (ℕ × EdgeKind) → List (ℕ × EdgeKind)
sort_targets [] = []
sort_targets (x ∷ xs) = insert_target x (sort_targets xs)

abbrev pub same_target : ℕ × EdgeKind → ℕ × EdgeKind → Bool
same_target (a, k) (b, j) = a == b && edge_rank k == edge_rank j

abbrev pub add_new : ℕ × EdgeKind → List (ℕ × EdgeKind) → List (ℕ × EdgeKind)
add_new x [] = x ∷ []
add_new x (y ∷ ys) = if same_target x y then y ∷ ys else x ∷ y ∷ ys

-- `dedup`
unfoldable pub dedup_targets : List (ℕ × EdgeKind) → List (ℕ × EdgeKind)
dedup_targets [] = []
dedup_targets (x ∷ xs) = add_new x (dedup_targets xs)
