-- ===== src/Cpu/Table.antt =====
-- tools/nesrom/src/cpu6502.rs: addressing modes, mnemonics and the opcode table.
use decomps_agent.Prelude.{ℕ, Bool, true, false, ◌==◌, if◌then◌else◌, List, [], ◌∷◌}

pub data Mode : Type 0 where
  imp acc imm zp zpx zpy abs abx aby ind izx izy rel : Mode

-- The mnemonic texts of the table, and `.byte`.
pub data Mnemonic : Type 0 where
  adc and asl bcc bcs beq bit bmi bne bpl brk bvc bvs clc cld cli clv cmp cpx cpy dec dex dey eor
        inc inx iny jmp jsr lda ldx ldy lsr nop ora pha php pla plp rol ror rti rts sbc sec sed sei
        sta stx sty tax tay tsx txa txs tya dot_byte :
      Mnemonic

-- `Mode::len`
abbrev pub mode_len : Mode → ℕ
mode_len imp = 1
mode_len acc = 1
mode_len imm = 2
mode_len zp = 2
mode_len zpx = 2
mode_len zpy = 2
mode_len izx = 2
mode_len izy = 2
mode_len rel = 2
mode_len abs = 3
mode_len abx = 3
mode_len aby = 3
mode_len ind = 3

pub record Op : Type 0 where
  pub mnemonic : Mnemonic
  pub mode : Mode
  pub len : ℕ
  pub illegal : Bool

abbrev pub illegal_op : Op
illegal_op = record { mnemonic = dot_byte; mode = imp; len = 1; illegal = true }

-- A row of `LEGAL`.
pub record Legal : Type 0 where
  pub opcode : ℕ
  pub mnemonic : Mnemonic
  pub mode : Mode

abbrev legal_op : ℕ → Mnemonic → Mode → Legal
legal_op opcode mnemonic mode = record { opcode = opcode; mnemonic = mnemonic; mode = mode }

-- The rows of `LEGAL` in the order of the source.
unfoldable pub legal : List Legal
legal =
    legal_op 0x69 adc imm
    ∷ legal_op 0x65 adc zp
    ∷ legal_op 0x75 adc zpx
    ∷ legal_op 0x6D adc abs
    ∷ legal_op 0x7D adc abx
    ∷ legal_op 0x79 adc aby
    ∷ legal_op 0x61 adc izx
    ∷ legal_op 0x71 adc izy
    ∷ legal_op 0x29 and imm
    ∷ legal_op 0x25 and zp
    ∷ legal_op 0x35 and zpx
    ∷ legal_op 0x2D and abs
    ∷ legal_op 0x3D and abx
    ∷ legal_op 0x39 and aby
    ∷ legal_op 0x21 and izx
    ∷ legal_op 0x31 and izy
    ∷ legal_op 0x0A asl acc
    ∷ legal_op 0x06 asl zp
    ∷ legal_op 0x16 asl zpx
    ∷ legal_op 0x0E asl abs
    ∷ legal_op 0x1E asl abx
    ∷ legal_op 0x90 bcc rel
    ∷ legal_op 0xB0 bcs rel
    ∷ legal_op 0xF0 beq rel
    ∷ legal_op 0x30 bmi rel
    ∷ legal_op 0xD0 bne rel
    ∷ legal_op 0x10 bpl rel
    ∷ legal_op 0x50 bvc rel
    ∷ legal_op 0x70 bvs rel
    ∷ legal_op 0x24 bit zp
    ∷ legal_op 0x2C bit abs
    ∷ legal_op 0x00 brk imp
    ∷ legal_op 0x18 clc imp
    ∷ legal_op 0xD8 cld imp
    ∷ legal_op 0x58 cli imp
    ∷ legal_op 0xB8 clv imp
    ∷ legal_op 0x38 sec imp
    ∷ legal_op 0xF8 sed imp
    ∷ legal_op 0x78 sei imp
    ∷ legal_op 0xEA nop imp
    ∷ legal_op 0xC9 cmp imm
    ∷ legal_op 0xC5 cmp zp
    ∷ legal_op 0xD5 cmp zpx
    ∷ legal_op 0xCD cmp abs
    ∷ legal_op 0xDD cmp abx
    ∷ legal_op 0xD9 cmp aby
    ∷ legal_op 0xC1 cmp izx
    ∷ legal_op 0xD1 cmp izy
    ∷ legal_op 0xE0 cpx imm
    ∷ legal_op 0xE4 cpx zp
    ∷ legal_op 0xEC cpx abs
    ∷ legal_op 0xC0 cpy imm
    ∷ legal_op 0xC4 cpy zp
    ∷ legal_op 0xCC cpy abs
    ∷ legal_op 0xC6 dec zp
    ∷ legal_op 0xD6 dec zpx
    ∷ legal_op 0xCE dec abs
    ∷ legal_op 0xDE dec abx
    ∷ legal_op 0xCA dex imp
    ∷ legal_op 0x88 dey imp
    ∷ legal_op 0xE8 inx imp
    ∷ legal_op 0xC8 iny imp
    ∷ legal_op 0x49 eor imm
    ∷ legal_op 0x45 eor zp
    ∷ legal_op 0x55 eor zpx
    ∷ legal_op 0x4D eor abs
    ∷ legal_op 0x5D eor abx
    ∷ legal_op 0x59 eor aby
    ∷ legal_op 0x41 eor izx
    ∷ legal_op 0x51 eor izy
    ∷ legal_op 0xE6 inc zp
    ∷ legal_op 0xF6 inc zpx
    ∷ legal_op 0xEE inc abs
    ∷ legal_op 0xFE inc abx
    ∷ legal_op 0x4C jmp abs
    ∷ legal_op 0x6C jmp ind
    ∷ legal_op 0x20 jsr abs
    ∷ legal_op 0xA9 lda imm
    ∷ legal_op 0xA5 lda zp
    ∷ legal_op 0xB5 lda zpx
    ∷ legal_op 0xAD lda abs
    ∷ legal_op 0xBD lda abx
    ∷ legal_op 0xB9 lda aby
    ∷ legal_op 0xA1 lda izx
    ∷ legal_op 0xB1 lda izy
    ∷ legal_op 0xA2 ldx imm
    ∷ legal_op 0xA6 ldx zp
    ∷ legal_op 0xB6 ldx zpy
    ∷ legal_op 0xAE ldx abs
    ∷ legal_op 0xBE ldx aby
    ∷ legal_op 0xA0 ldy imm
    ∷ legal_op 0xA4 ldy zp
    ∷ legal_op 0xB4 ldy zpx
    ∷ legal_op 0xAC ldy abs
    ∷ legal_op 0xBC ldy abx
    ∷ legal_op 0x4A lsr acc
    ∷ legal_op 0x46 lsr zp
    ∷ legal_op 0x56 lsr zpx
    ∷ legal_op 0x4E lsr abs
    ∷ legal_op 0x5E lsr abx
    ∷ legal_op 0x09 ora imm
    ∷ legal_op 0x05 ora zp
    ∷ legal_op 0x15 ora zpx
    ∷ legal_op 0x0D ora abs
    ∷ legal_op 0x1D ora abx
    ∷ legal_op 0x19 ora aby
    ∷ legal_op 0x01 ora izx
    ∷ legal_op 0x11 ora izy
    ∷ legal_op 0x48 pha imp
    ∷ legal_op 0x08 php imp
    ∷ legal_op 0x68 pla imp
    ∷ legal_op 0x28 plp imp
    ∷ legal_op 0x2A rol acc
    ∷ legal_op 0x26 rol zp
    ∷ legal_op 0x36 rol zpx
    ∷ legal_op 0x2E rol abs
    ∷ legal_op 0x3E rol abx
    ∷ legal_op 0x6A ror acc
    ∷ legal_op 0x66 ror zp
    ∷ legal_op 0x76 ror zpx
    ∷ legal_op 0x6E ror abs
    ∷ legal_op 0x7E ror abx
    ∷ legal_op 0x40 rti imp
    ∷ legal_op 0x60 rts imp
    ∷ legal_op 0xE9 sbc imm
    ∷ legal_op 0xE5 sbc zp
    ∷ legal_op 0xF5 sbc zpx
    ∷ legal_op 0xED sbc abs
    ∷ legal_op 0xFD sbc abx
    ∷ legal_op 0xF9 sbc aby
    ∷ legal_op 0xE1 sbc izx
    ∷ legal_op 0xF1 sbc izy
    ∷ legal_op 0x85 sta zp
    ∷ legal_op 0x95 sta zpx
    ∷ legal_op 0x8D sta abs
    ∷ legal_op 0x9D sta abx
    ∷ legal_op 0x99 sta aby
    ∷ legal_op 0x81 sta izx
    ∷ legal_op 0x91 sta izy
    ∷ legal_op 0x86 stx zp
    ∷ legal_op 0x96 stx zpy
    ∷ legal_op 0x8E stx abs
    ∷ legal_op 0x84 sty zp
    ∷ legal_op 0x94 sty zpx
    ∷ legal_op 0x8C sty abs
    ∷ legal_op 0xAA tax imp
    ∷ legal_op 0xA8 tay imp
    ∷ legal_op 0xBA tsx imp
    ∷ legal_op 0x8A txa imp
    ∷ legal_op 0x9A txs imp
    ∷ legal_op 0x98 tya imp
    ∷ []

-- The table entry that a row writes.
abbrev pub entry : Legal → Op
entry r = record { mnemonic = r.mnemonic; mode = r.mode; len = mode_len r.mode; illegal = false }

-- What index `byte` of the table holds after the rows: a later row overwrites an earlier one.
unfoldable pub table_from : List Legal → ℕ → Op → Op
table_from [] byte current = current
table_from (r ∷ rows) byte current =
    table_from rows byte (if r.opcode == byte then entry r else current)

unfoldable pub op : ℕ → Op
unfolding legal table_from
op byte = table_from legal byte illegal_op
