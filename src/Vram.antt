-- ===== src/Vram.antt =====
-- tools/nesrom/src/vram.rs: the address latch, the data port and the write queues along a trace, and the
-- names of VRAM addresses.
pub mod Bounds
pub mod Stream
pub mod Regions
pub mod Sites
pub mod Notes
use decomps_agent.Prelude.{
  ℕ, zero, suc, ◌+◌, ◌-◌, ◌*◌, ◌/◌, ◌%◌, ◌^◌, bit_and, bit_or, Bool, true, false, ◌==◌, ◌!=◌, ◌||◌,
  leb, ltb, if◌then◌else◌, Option, none, some, ◌>>=◌, List, [], ◌∷◌,
}
use decomps_agent.Cpu.Table.{Mode, abs, abx, aby, Mnemonic, sta, stx, sty, bit, cmp}
use decomps_agent.Cpu.Insn.{Insn}
use decomps_agent.Cpu.Flow.{is_store, is_load}
use decomps_agent.Sim.{Val, Regs, stored}

-- The three parallel arrays of a deferred write queue; the texts of the source's record are renderings.
pub record Queue : Type 0 where
  pub hi_n : ℕ
  pub lo_n : ℕ
  pub val_n : ℕ

-- The parts of a queued write that are there: `[Option<Val>; 3]`.
pub record Parts : Type 0 where
  pub hi_part : Option Val
  pub lo_part : Option Val
  pub val_part : Option Val

pub record Vram : Type 0 where
  pub expect_lo : Bool
  pub hi : Option ℕ
  pub addr : Option ℕ
  pub inc : Option ℕ
  pub pending : ℕ → Option Parts

-- The register of a write: `A`, `X`, `Y` or `queue`.
pub data Origin : Type 0 where
  from_a from_x from_y from_queue : Origin

pub data Event : Type 0 where
  addr_set : ℕ → Event
  data_write : ℕ → Val → Origin → Option ℕ → Event
  data_read : ℕ → Event

abbrev mem_target_by : Mode → Option ℕ → Option ℕ
mem_target_by abs operand = operand
mem_target_by abx operand = operand
mem_target_by aby operand = operand
mem_target_by _ operand = none

abbrev pub mem_target : Insn → Option ℕ
mem_target i = mem_target_by i.mode i.operand

abbrev pub origin_by : Mnemonic → Origin
origin_by sta = from_a
origin_by stx = from_x
origin_by _ = from_y

abbrev pub set_addr : Option ℕ → Vram → Vram
set_addr addr v = record {
  expect_lo = v.expect_lo;
  hi = v.hi;
  addr = addr;
  inc = v.inc;
  pending = v.pending;
}

-- `v.pending.insert(qi, e)` and `v.pending.remove(&qi)`, with `none` for the latter.
abbrev pub set_pending : ℕ → Option Parts → Vram → Vram
set_pending qi parts v = record {
  expect_lo = v.expect_lo;
  hi = v.hi;
  addr = v.addr;
  inc = v.inc;
  pending = λ j. if j == qi then parts else v.pending j;
}

-- A store to `$2000`.
abbrev pub control : Option ℕ → Vram → Vram
control none v = v
control (some c) v = record {
  expect_lo = v.expect_lo;
  hi = v.hi;
  addr = v.addr;
  inc = some (if bit_and c 0x04 != 0 then 32 else 1);
  pending = v.pending;
}

-- `((h as u16) << 8 | l as u16) & 0x3FFF`
abbrev pub vram_addr : ℕ → ℕ → ℕ
vram_addr h l = bit_and (bit_or (h * 2 ^ 8) l) 0x3FFF

abbrev pub joined : Option ℕ → Option ℕ → Option ℕ
joined (some h) (some l) = some (vram_addr h l)
joined _ _ = none

abbrev pub addr_event : Option ℕ → Option Event
addr_event none = none
addr_event (some a) = some (addr_set a)

-- A store to `$2006`: the first of the two bytes, then the second.
abbrev pub latch : Option ℕ → Vram → Vram × Option Event
latch n v =
    if v.expect_lo
    then (
      record {
        expect_lo = false;
        hi = v.hi;
        addr = joined v.hi n;
        inc = v.inc;
        pending = v.pending;
      },
      addr_event (joined v.hi n),
    )
    else (record { expect_lo = true; hi = n; addr = none; inc = v.inc; pending = v.pending }, none)

abbrev pub unwrap_or_1 : Option ℕ → ℕ
unwrap_or_1 none = 1
unwrap_or_1 (some n) = n

-- `(a + v.inc.unwrap_or(1)) & 0x3FFF`
abbrev pub next_addr : ℕ → Option ℕ → ℕ
next_addr a inc = bit_and (a + unwrap_or_1 inc) 0x3FFF

-- An access to `$2007` at a known address moves the address on.
abbrev pub access : Option ℕ → (ℕ → Event) → Vram → Vram × Option Event
access none event v = (v, none)
access (some a) event v = (set_addr (some (next_addr a v.inc)) v, some (event a))

abbrev pub parts_at : Option Parts → Parts
parts_at none = record { hi_part = none; lo_part = none; val_part = none }
parts_at (some parts) = parts

abbrev pub queued : ℕ → Option ℕ → Option ℕ → Val → Option Event
queued qi (some h) (some l) d = some (data_write (vram_addr h l) d from_queue (some qi))
queued qi _ _ d = none

-- A part was put in: a queue entry that is complete leaves the map.
abbrev pub complete : ℕ → Parts → Option Val → Option Val → Option Val → Vram → Vram × Option Event
complete qi parts (some h) (some l) (some d) v = (set_pending qi none v, queued qi h.v l.v d)
complete qi parts _ _ _ v = (set_pending qi (some parts) v, none)

abbrev pub put_part : ℕ → Parts → Vram → Vram × Option Event
put_part qi parts v = complete qi parts parts.hi_part parts.lo_part parts.val_part v

-- The loop over the queues from index `qi` on: the first queue that has an array at `op`.
unfoldable pub enqueue : List Queue → ℕ → ℕ → Val → Vram → Vram × Option Event
enqueue [] qi op value v = (v, none)
enqueue (q ∷ queues) qi op value v =
    let e = parts_at (v.pending qi) in
    let more = enqueue queues (qi + 1) op value v in
    if op == q.hi_n
    then put_part qi (record { hi_part = some value; lo_part = e.lo_part; val_part = e.val_part }) v
    else if op == q.lo_n
    then put_part qi (record { hi_part = e.hi_part; lo_part = some value; val_part = e.val_part }) v
    else if op == q.val_n
    then put_part qi (record { hi_part = e.hi_part; lo_part = e.lo_part; val_part = some value }) v
    else more

unfoldable pub step_store : ℕ → Val → Origin → Vram → List Queue → Vram × Option Event
step_store op value reg v queues =
    if op == 0x2000
    then (control value.v v, none)
    else if op == 0x2006
    then latch value.v v
    else if op == 0x2007
    then access v.addr (λ a. data_write a value reg none) v
    else enqueue queues 0 op value v

abbrev pub reset_latch : Vram → Vram
reset_latch v = record {
  expect_lo = false;
  hi = none;
  addr = v.addr;
  inc = v.inc;
  pending = v.pending;
}

unfoldable pub step_read : ℕ → Vram → Vram × Option Event
step_read op v =
    if op == 0x2002
    then (reset_latch v, none)
    else if op == 0x2007
    then access v.addr data_read v
    else (v, none)

abbrev pub reads_by : Mnemonic → Bool
reads_by bit = true
reads_by cmp = true
reads_by _ = false

abbrev pub step_at : Option ℕ → Insn → Regs → Vram → List Queue → Vram × Option Event
step_at none i r v queues = (v, none)
step_at (some op) i r v queues =
    if is_store i
    then step_store op (stored i r) (origin_by i.mnemonic) v queues
    else if is_load i || reads_by i.mnemonic
    then step_read op v
    else (v, none)

-- One instruction, with the registers as they were before it.
unfoldable pub step : Insn → Regs → Vram → List Queue → Vram × Option Event
step i r v queues = step_at (mem_target i) i r v queues

-- What `region` names; the source renders it.
pub data Region : Type 0 where
  pattern_table : ℕ → Region
  attribute_table : ℕ → ℕ → Region
  nametable : ℕ → ℕ → ℕ → Region
  palette_bg : ℕ → Region
  palette_sprite : ℕ → Region
  unknown_region : Region

abbrev pub nametable_region : ℕ → ℕ → Region
nametable_region k w =
    if leb 0x3C0 w then attribute_table k (w - 0x3C0) else nametable k (w / 32) (w % 32)

-- The tests of `region`, on the address `a` within the PPU's space and on `p`, its five lowest bits.
abbrev pub region_of : ℕ → ℕ → Region
region_of a p =
    let o = (a - 0x2000) % 0x1000 in
    if leb a 0x0FFF
    then pattern_table 0
    else if leb a 0x1FFF
    then pattern_table 1
    else if leb a 0x3EFF
    then nametable_region (o / 0x400) (o % 0x400)
    else if leb a 0x3FFF
    then (if ltb p 0x10 then palette_bg p else palette_sprite (p - 0x10))
    else unknown_region

unfoldable pub region : ℕ → Region
region addr = let a = bit_and addr 0x3FFF in region_of a (bit_and a 0x1F)
