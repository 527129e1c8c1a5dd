-- ===== src/Reach/State.antt =====
-- reach.rs: the records of the trace and of the engine. The addresses rendered by `hex4` are texts as in
-- the source; kinds are constructors, and the texts in `detail` and `role` are left out.
use Prim.Native.String.{String}
use decomps_agent.Prelude.{ℕ, false, List, [], Option, none}
use decomps_agent.Mapper.State.{BankState, Description}
use decomps_agent.Mapper.Notes.{Note}
use decomps_agent.Cpu.Insn.{Insn}
use decomps_agent.Cpu.Registers.{Register}
use decomps_agent.Sim.{Regs, unknown}
use decomps_agent.Vram.{Queue, Vram}
use decomps_agent.Vram.Sites.{VramWrite}

pub record TraceInsn : Type 0 where
  pub cpu_addr : ℕ
  pub bank : ℕ
  pub file_offset : ℕ
  pub insn : Insn
  pub sub : Option ℕ

pub data SubKind : Type 0 where
  vector entry_point subroutine indirect_target : SubKind

pub record Sub : Type 0 where
  pub cpu_addr : ℕ
  pub bank : ℕ
  pub file_offset : ℕ
  pub kind : SubKind
  pub callers : List ℕ
  pub calls : List ℕ

pub data EdgeKind : Type 0 where
  dynamic_edge cross_bank : EdgeKind
  branch_edge jsr_edge jmp_edge rts_table indirect_immediate indirect_table : EdgeKind

pub record Edge : Type 0 where
  pub from : String
  pub from_bank : ℕ
  pub to : String
  pub to_bank : ℕ
  pub kind : EdgeKind
  pub bank_value : Option ℕ
  pub from_off : ℕ
  pub to_off : ℕ

pub data Access : Type 0 where
  write_access rmw_access read_access : Access

pub record HwHit : Type 0 where
  pub addr : String
  pub register : Register
  pub access : Access
  pub from : String
  pub from_bank : ℕ
  pub routine : Option String
  pub vram_target : Option String
  pub vram_region : Option String
  pub vram_value : Option String
  pub from_off : ℕ
  pub addr_num : ℕ

-- The JSON of `resolved_value`: a byte, the word `dynamic`, or the registers at a call of a helper
-- with the slots that it leaves.
pub data Resolved : Type 0 where
  by_value : ℕ → Resolved
  dynamic_value : Resolved
  by_helper : Option ℕ → Option ℕ → Option ℕ → List ℕ → Resolved

-- The description of a switch, before it is rendered.
pub data SwitchText : Type 0 where
  of_switch : Description → SwitchText
  of_note : Option Note → SwitchText
  of_helper : String → List Description → SwitchText

pub record SwitchSite : Type 0 where
  pub addr : String
  pub bank : ℕ
  pub register : String
  pub resolved_value : Resolved
  pub description : SwitchText

pub data UnresolvedKind : Type 0 where
  entry_outside_rom flow_outside_rom jsr_outside_rom jmp_outside_rom : UnresolvedKind
  indirect_jump rts_jump_table : UnresolvedKind

pub record Unresolved : Type 0 where
  pub addr : String
  pub bank : ℕ
  pub kind : UnresolvedKind

pub record Entry : Type 0 where
  pub name : String
  pub addr : String
  pub bank : ℕ
  pub off : ℕ

pub record Trace : Type 0 where
  pub insns : List (ℕ × TraceInsn)
  pub subs : List (ℕ × Sub)
  pub edges : List Edge
  pub hw : List HwHit
  pub switches : List SwitchSite
  pub unresolved : List Unresolved
  pub entries : List Entry
  pub notes : List (ℕ × String)
  pub vram_writes : List VramWrite
  pub queues : List Queue
  pub seq : ℕ

-- `Trace::default()`
abbrev pub no_trace : Trace
no_trace = record {
  insns = [];
  subs = [];
  edges = [];
  hw = [];
  switches = [];
  unresolved = [];
  entries = [];
  notes = [];
  vram_writes = [];
  queues = [];
  seq = 0;
}

-- `Regs::default()`
abbrev pub no_regs : Regs
no_regs = record { a = unknown; x = unknown; y = unknown; stack = []; zp_map = λ k. none }

-- `Vram::default()`
abbrev pub no_vram : Vram
no_vram = record { expect_lo = false; hi = none; addr = none; inc = none; pending = λ qi. none }

pub record Item : Type 0 where
  pub pc : ℕ
  pub st : BankState
  pub regs : Regs
  pub sub : Option ℕ
  pub vram : Vram

pub record CallSite : Type 0 where
  pub jsr_pc : ℕ
  pub jsr_off : ℕ
  pub jsr_bank : ℕ
  pub callee_off : ℕ
  pub callee_pc : ℕ
  pub regs : Regs
  pub st : BankState
  pub sub : Option ℕ

pub data IndKind : Type 0 where
  pointer : ℕ → IndKind
  rts_table_at : ℕ → ℕ → IndKind

pub record Indirect : Type 0 where
  pub pc : ℕ
  pub off : ℕ
  pub bank : ℕ
  pub kind : IndKind
  pub st : BankState

-- The key of `processed_sites`.
pub record SiteKey : Type 0 where
  pub jsr_off : ℕ
  pub slots : List ℕ
  pub a : Option ℕ
  pub x : Option ℕ
  pub y : Option ℕ

-- The sets of the engine are lists without an order, but for `helper_subs`.
pub record Engine : Type 0 where
  pub work : List Item
  pub visited : List (ℕ × List ℕ)
  pub call_sites : List CallSite
  pub helper_subs : List ℕ
  pub processed_sites : List SiteKey
  pub indirects : List Indirect
  pub processed_indirects : List (ℕ × List ℕ)
  pub queues : List Queue
  pub steps : ℕ

-- What the methods of the engine change: the engine and the trace.
pub record World : Type 0 where
  pub eng : Engine
  pub trace : Trace
