-- ===== src/Reach/Record.antt =====
-- reach.rs: what the methods of `Trace` record.
use Prim.Native.String.{String}
use text.Mathlib.Text.{◌==◌ as ◌===◌}
use decomps_agent.Prelude.{
  ℕ, ◌+◌, Bool, true, false, not, ◌&&◌, ◌||◌, leb, ◌==◌, ◌!=◌, if◌then◌else◌, List, [], ◌∷◌, ◌++◌,
  Option, none, some,
}
use decomps_agent.Mapper.State.{BankState, RomLoc, Window, Kind, fixed, switchable, same_slots}
use decomps_agent.Mapper.Chip.{Mapper, windows}
use decomps_agent.Cpu.Insn.{Insn}
use decomps_agent.Cpu.Flow.{is_store, is_rmw}
use decomps_agent.Render.{hex4, ◌⊕◌}
use decomps_agent.Sim.{Val}
use decomps_agent.Sim.Describe.{describe, source_kind}
use decomps_agent.Vram.{Event, addr_set, data_write, data_read, Origin}
use decomps_agent.Vram.Notes.{note_for, region_text, origin_name}
use decomps_agent.Vram.Sites.{VramWrite}
use decomps_agent.Reach.Maps.{or_insert, adjust}
use decomps_agent.Reach.State.{
  Sub, SubKind, subroutine, Edge, EdgeKind, dynamic_edge, cross_bank, branch_edge, jsr_edge,
  jmp_edge, rts_table, indirect_immediate, indirect_table, Access, write_access, rmw_access,
  read_access, HwHit, Resolved, by_value, dynamic_value, by_helper, SwitchSite, Trace,
}

unfoldable pub access_kind : Insn → Access
access_kind i = if is_store i then write_access else if is_rmw i then rmw_access else read_access

abbrev is_subroutine : SubKind → Bool
is_subroutine subroutine = true
is_subroutine _ = false

abbrev new_sub : RomLoc → SubKind → Sub
new_sub loc kind = record {
  cpu_addr = loc.cpu_addr;
  bank = loc.bank;
  file_offset = loc.file_offset;
  kind = kind;
  callers = [];
  calls = [];
}

-- A subroutine that turns out to be an entry takes that kind.
abbrev set_kind : SubKind → Sub → Sub
set_kind kind s =
    if is_subroutine s.kind && not (is_subroutine kind) then record s { kind = kind } else s

unfoldable pub add_sub : RomLoc → SubKind → Trace → Trace
add_sub loc kind t = record t {
  subs =
      adjust loc.file_offset (set_kind kind) (or_insert loc.file_offset (new_sub loc kind) t.subs);
}

abbrev is_switchable : Kind → Bool
is_switchable switchable = true
is_switchable fixed = false

-- `windows().iter().any(…)`
unfoldable pub in_switchable : ℕ → List Window → Bool
in_switchable addr [] = false
in_switchable addr (w ∷ ws) =
    is_switchable w.kind && leb w.start addr && leb addr w.last || in_switchable addr ws

unfoldable pub edge_kind : RomLoc → RomLoc → BankState → Mapper → EdgeKind → EdgeKind × Option ℕ
edge_kind from to st m base =
    if st.dynamic && in_switchable to.cpu_addr (windows m) && from.bank != to.bank
    then (dynamic_edge, none)
    else if from.bank != to.bank
    then (cross_bank, some to.bank)
    else (base, none)

unfoldable pub edge : RomLoc → RomLoc → BankState → Mapper → EdgeKind → Trace → Trace
edge from to st m base t =
    let kind = edge_kind from to st m base in
    record t {
      edges =
          t.edges
          ++ (record {
            from = hex4 from.cpu_addr;
            from_bank = from.bank;
            to = hex4 to.cpu_addr;
            to_bank = to.bank;
            kind = kind.0;
            bank_value = kind.1;
            from_off = from.file_offset;
            to_off = to.file_offset;
          }
              ∷ []);
    }

abbrev pub same_text : Option String → Option String → Bool
same_text none none = true
same_text none (some b) = false
same_text (some a) none = false
same_text (some a) (some b) = a === b

unfoldable pub has_write : ℕ → ℕ → String → Option String → List VramWrite → Bool
has_write off addr desc via [] = false
has_write off addr desc via (w ∷ ws) =
    w.off == off && w.vram_n == addr && (w.value_desc === desc) && same_text w.via_call via
    || has_write off addr desc via ws

abbrev no_target : Option String → Bool
no_target none = true
no_target (some target) = false

-- The VRAM fields of a hit that has none.
abbrev pub fill_hit : String → String → String → HwHit → HwHit
fill_hit target region value h =
    if no_target h.vram_target
    then record h { vram_target = some target; vram_region = some region; vram_value = some value }
    else h

unfoldable pub has_hit : ℕ → List HwHit → Bool
has_hit off [] = false
has_hit off (h ∷ hits) = h.from_off == off || has_hit off hits

-- `iter_mut().rev().find(…)`: the last hit at `off` is changed.
unfoldable pub change_last_hit : ℕ → (HwHit → HwHit) → List HwHit → List HwHit
change_last_hit off f [] = []
change_last_hit off f (h ∷ hits) =
    let rest = change_last_hit off f hits in
    if has_hit off hits then h ∷ rest else if h.from_off == off then f h ∷ hits else h ∷ hits

abbrev source_of : Val → Option ℕ → String
source_of value none = source_kind value
source_of value (some qi) = "queue " ⊕ source_kind value

abbrev pub render_call : Option ℕ → Option String
render_call none = none
render_call (some pc) = some (hex4 pc)

-- The part of `record_vram` on a write.
abbrev log_write :
    ℕ → Val → Origin → Option ℕ → ℕ → ℕ → ℕ → String → Option ℕ → Option String → Trace → Trace
log_write addr value origin queue off pc bank routine via_call caller t =
    let desc = describe value (origin_name origin) in
    let via = render_call via_call in
    let written : VramWrite = record {
      addr = hex4 pc;
      bank = bank;
      routine = routine;
      caller = caller;
      vram = hex4 addr;
      region = region_text addr;
      value = value.v;
      value_desc = desc;
      source = source_of value queue;
      via_call = via;
      off = off;
      vram_n = addr;
      seq = t.seq + 1;
    } in
    if has_write off addr desc via t.vram_writes then t else record t {
      seq = t.seq + 1;
      vram_writes = t.vram_writes ++ (written ∷ []);
      hw = change_last_hit off (fill_hit (hex4 addr) (region_text addr) desc) t.hw;
    }

abbrev log_event : Event → ℕ → ℕ → ℕ → String → Option ℕ → Option String → Trace → Trace
log_event (data_write addr value origin queue) off pc bank routine via_call caller t =
    log_write addr value origin queue off pc bank routine via_call caller t
log_event (addr_set addr) off pc bank routine via_call caller t = t
log_event (data_read addr) off pc bank routine via_call caller t = t

unfoldable pub record_vram : Event → ℕ → ℕ → ℕ → String → Option ℕ → Option String → Trace → Trace
record_vram ev off pc bank routine via_call caller t =
    log_event ev off pc bank routine via_call caller
      (record t { notes = or_insert off (note_for ev) t.notes })

-- The kinds are texts in the source and are compared.
abbrev pub edge_rank : EdgeKind → ℕ
edge_rank dynamic_edge = 0
edge_rank cross_bank = 1
edge_rank branch_edge = 2
edge_rank jsr_edge = 3
edge_rank jmp_edge = 4
edge_rank rts_table = 5
edge_rank indirect_immediate = 6
edge_rank indirect_table = 7

abbrev pub same_number : Option ℕ → Option ℕ → Bool
same_number none none = true
same_number none (some b) = false
same_number (some a) none = false
same_number (some a) (some b) = a == b

unfoldable pub same_edge : Edge → Edge → Bool
same_edge d e =
    d.from_off == e.from_off
    && d.to_off == e.to_off
    && edge_rank d.kind == edge_rank e.kind
    && same_number d.bank_value e.bank_value

abbrev same_resolved : Resolved → Resolved → Bool
same_resolved (by_value v) (by_value w) = v == w
same_resolved (by_value v) _ = false
same_resolved dynamic_value dynamic_value = true
same_resolved dynamic_value _ = false
same_resolved (by_helper a x y slots) (by_helper b i j others) =
    same_number a b && same_number x i && same_number y j && same_slots slots others
same_resolved (by_helper a x y slots) _ = false

unfoldable pub same_switch : SwitchSite → SwitchSite → Bool
same_switch s r =
    (s.addr === r.addr)
    && s.bank == r.bank
    && (s.register === r.register)
    && same_resolved s.resolved_value r.resolved_value

module _ {ℓ} {A : Type ℓ} (same : A → A → Bool) where
  unfoldable pub has_same : A → List A → Bool
  has_same x [] = false
  has_same x (y ∷ ys) = same x y || has_same x ys

  -- `retain(|e| seen.insert(…))`: the first of each key is kept.
  unfoldable pub retain_new : List A → List A → List A
  retain_new seen [] = []
  retain_new seen (x ∷ xs) = elim (has_same x seen) [
    | true ↦ retain_new seen xs
    | false ↦ x ∷ retain_new (x ∷ seen) xs
  ]

unfoldable pub dedupe_edges : Trace → Trace
dedupe_edges t = record t {
  edges = retain_new same_edge [] t.edges;
  switches = retain_new same_switch [] t.switches;
}

-- `by_off.get(…)` with the writes collected in order: the last write at `off`.
unfoldable pub last_write : ℕ → List VramWrite → Option VramWrite
last_write off [] = none
last_write off (w ∷ ws) = elim (last_write off ws) [
  | none ↦ if w.off == off then some w else none
  | some later ↦ some later
]

abbrev fill_from : Option VramWrite → HwHit → HwHit
fill_from none h = h
fill_from (some w) h = fill_hit w.vram w.region w.value_desc h

unfoldable pub fill_hits : List VramWrite → List HwHit → List HwHit
fill_hits ws [] = []
fill_hits ws (h ∷ hits) = fill_from (last_write h.from_off ws) h ∷ fill_hits ws hits

unfoldable pub fill_hw_vram : Trace → Trace
fill_hw_vram t = record t { hw = fill_hits t.vram_writes t.hw }
