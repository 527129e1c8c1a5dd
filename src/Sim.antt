-- ===== src/Sim.antt =====
-- tools/nesrom/src/sim.rs: constant propagation for A, X, Y, the stack and the zero page.
pub mod Machine
pub mod Values
pub mod Sound
pub mod Describe
use decomps_agent.Prelude.{
  ℕ, zero, suc, ◌+◌, ◌-◌, ◌*◌, ◌/◌, ◌%◌, ◌^◌, bit_and, bit_or, bit_xor, Bool, true, false, ◌==◌,
  leb, ltb, length, if◌then◌else◌, Option, none, some, ◌>>=◌, List, [], ◌∷◌, take, get_or,
}
use decomps_agent.Ines.{Rom}
use decomps_agent.Mapper.State.{BankState}
use decomps_agent.Mapper.Chip.{Mapper}
use decomps_agent.Mapper.Address.{cpu_to_rom}
use decomps_agent.Cpu.Table.{
  Mode, imp, acc, imm, zp, zpx, zpy, abs, abx, aby, ind, izx, izy, rel, Mnemonic, lda, ldx, ldy,
  sta, stx, sty, tax, tay, txa, tya, tsx, pha, pla, php, plp, adc, sbc, inx, dex, iny, dey, and,
  ora, eor, lsr, asl, rol, ror, inc, dec, jsr,
}
use decomps_agent.Cpu.Insn.{Insn}

-- Where a value comes from.
pub data Src : Type 0 where
  unknown_src immediate : Src
  table : ℕ → Src
  ptr : ℕ → Src
  memory : ℕ → Src
  on_stack reg : Src

pub record Val : Type 0 where
  pub v : Option ℕ
  pub src : Src

abbrev pub unknown : Val
unknown = record { v = none; src = unknown_src }

abbrev pub imm_val : ℕ → Val
imm_val n = record { v = some n; src = immediate }

-- `Val::map`
abbrev pub map_option : (ℕ → ℕ) → Option ℕ → Option ℕ
map_option f none = none
map_option f (some n) = some (f n)

abbrev src_if_known : Option ℕ → Src → Src → Src
src_if_known none known lost = lost
src_if_known (some n) known lost = known

abbrev pub map_val : (ℕ → ℕ) → Val → Val
map_val f value = record {
  v = map_option f value.v;
  src = src_if_known value.v value.src unknown_src;
}

-- The stack's head is its top; the map of the zero page is a function.
pub record Regs : Type 0 where
  pub a : Val
  pub x : Val
  pub y : Val
  pub stack : List Val
  pub zp_map : ℕ → Option Val

abbrev pub set_a : Val → Regs → Regs
set_a value r = record { a = value; x = r.x; y = r.y; stack = r.stack; zp_map = r.zp_map }

abbrev pub set_x : Val → Regs → Regs
set_x value r = record { a = r.a; x = value; y = r.y; stack = r.stack; zp_map = r.zp_map }

abbrev pub set_y : Val → Regs → Regs
set_y value r = record { a = r.a; x = r.x; y = value; stack = r.stack; zp_map = r.zp_map }

abbrev pub set_stack : List Val → Regs → Regs
set_stack stack r = record { a = r.a; x = r.x; y = r.y; stack = stack; zp_map = r.zp_map }

-- `r.zp.insert(k, v)` and `r.zp.remove(&k)`, with `none` for the latter.
abbrev pub set_zp : ℕ → Option Val → Regs → Regs
set_zp k value r = record {
  a = r.a;
  x = r.x;
  y = r.y;
  stack = r.stack;
  zp_map = λ j. if j == k then value else r.zp_map j;
}

abbrev pub clear_axy : Regs → Regs
clear_axy r = set_a unknown (set_x unknown (set_y unknown r))

abbrev pub stored_by : Mnemonic → Regs → Val
stored_by sta r = r.a
stored_by stx r = r.x
stored_by _ r = r.y

abbrev pub stored : Insn → Regs → Val
stored i r = stored_by i.mnemonic r

abbrev pub unwrap_or_0 : Option ℕ → ℕ
unwrap_or_0 none = 0
unwrap_or_0 (some n) = n

abbrev pub rom_byte : Mapper → Rom → BankState → ℕ → Option ℕ
rom_byte m rom st addr = cpu_to_rom m rom addr st >>= λ l. some (get_or rom.prg l.file_offset 0)

abbrev pub byte_of : Insn → ℕ
byte_of i = unwrap_or_0 i.operand % 256

abbrev pub or_memory : Option Val → ℕ → Val
or_memory none op = record { v = none; src = memory op }
or_memory (some value) op = value

-- The value read at `base` plus an index, when the index is known and `base` is in PRG space.
abbrev pub indexed_byte : (ℕ → Option ℕ) → Option ℕ → ℕ → Option ℕ
indexed_byte read none base = none
indexed_byte read (some i) base = if leb 0x8000 base then read ((base + i) % 2 ^ 16) else none

abbrev pub load_by : Mode → (ℕ → Option ℕ) → ℕ → Regs → Val
load_by imm read op r = imm_val (op % 256)
load_by zp read op r = or_memory (r.zp_map (op % 256)) op
load_by abs read op r = record { v = if leb 0x8000 op then read op else none; src = memory op }
load_by abx read op r = record { v = indexed_byte read r.x.v op; src = table op }
load_by aby read op r = record { v = indexed_byte read r.y.v op; src = table op }
load_by zpx read op r = record { v = indexed_byte read r.x.v (op % 256); src = table (op % 256) }
load_by zpy read op r = record { v = indexed_byte read r.y.v (op % 256); src = table (op % 256) }
load_by izy read op r = record { v = none; src = ptr (op % 256) }
load_by izx read op r = record { v = none; src = ptr (op % 256) }
load_by _ read op r = unknown

-- `load_value`, with `read` for `rom_byte`.
abbrev pub load_value : (ℕ → Option ℕ) → Insn → Regs → Val
load_value read i r = load_by i.mode read (unwrap_or_0 i.operand) r

abbrev pub is_imm : Mode → Bool
is_imm imm = true
is_imm _ = false

abbrev pub is_zp : Mode → Bool
is_zp zp = true
is_zp _ = false

abbrev pub store : Insn → Regs → Regs
store i r = if is_zp i.mode then set_zp (byte_of i) (some (stored i r)) r else r

-- `remove(0)` takes the bottom of the stack, which is the list's end.
abbrev pub push : Val → Regs → Regs
push value r =
    let pushed = value ∷ r.stack in
    set_stack (if ltb 16 (length pushed) then take (length pushed - 1) pushed else pushed) r

abbrev pub pop : List Val → Regs → Regs
pop [] r = set_a (record { v = none; src = on_stack }) r
pop (value ∷ rest) r =
    set_a (record { v = value.v; src = src_if_known value.v value.src on_stack }) (set_stack rest r)

abbrev pub drop_top : List Val → Regs → Regs
drop_top [] r = r
drop_top (value ∷ rest) r = set_stack rest r

-- `AND`, `ORA` and `EOR`: known for an immediate operand only.
abbrev pub logic : (ℕ → ℕ → ℕ) → Insn → Regs → Regs
logic f i r = set_a (if is_imm i.mode then map_val (λ n. f n (byte_of i)) r.a else unknown) r

-- The read-modify-write mnemonics: `value` is the new accumulator in the accumulator mode.
abbrev pub modify_by : Mode → Val → Insn → Regs → Regs
modify_by acc value i r = set_a value r
modify_by zp value i r = set_zp (byte_of i) none r
modify_by _ value i r = r

abbrev pub count_by : Mode → Insn → Regs → Regs
count_by zp i r = set_zp (byte_of i) none r
count_by _ i r = r

abbrev pub update_by : Mnemonic → (ℕ → Option ℕ) → Insn → Regs → Regs
update_by lda read i r = set_a (load_value read i r) r
update_by ldx read i r = set_x (load_value read i r) r
update_by ldy read i r = set_y (load_value read i r) r
update_by sta read i r = store i r
update_by stx read i r = store i r
update_by sty read i r = store i r
update_by tax read i r = set_x r.a r
update_by tay read i r = set_y r.a r
update_by txa read i r = set_a r.x r
update_by tya read i r = set_a r.y r
update_by tsx read i r = set_x unknown r
update_by pha read i r = push r.a r
update_by pla read i r = pop r.stack r
update_by php read i r = set_stack (unknown ∷ r.stack) r
update_by plp read i r = drop_top r.stack r
update_by adc read i r = set_a unknown r
update_by sbc read i r = set_a unknown r
update_by inx read i r = set_x (map_val (λ n. (n + 1) % 256) r.x) r
update_by dex read i r = set_x (map_val (λ n. (n + 255) % 256) r.x) r
update_by iny read i r = set_y (map_val (λ n. (n + 1) % 256) r.y) r
update_by dey read i r = set_y (map_val (λ n. (n + 255) % 256) r.y) r
update_by and read i r = logic bit_and i r
update_by ora read i r = logic bit_or i r
update_by eor read i r = logic bit_xor i r
update_by lsr read i r = modify_by i.mode (map_val (λ n. n / 2) r.a) i r
update_by asl read i r = modify_by i.mode (map_val (λ n. n * 2 % 256) r.a) i r
update_by rol read i r = modify_by i.mode unknown i r
update_by ror read i r = modify_by i.mode unknown i r
update_by inc read i r = count_by i.mode i r
update_by dec read i r = count_by i.mode i r
update_by jsr read i r = clear_axy r
update_by _ read i r = r

unfoldable pub update : Insn → Regs → Rom → Mapper → BankState → Regs
update i r rom m st = update_by i.mnemonic (rom_byte m rom st) i r
