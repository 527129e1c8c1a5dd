-- ===== src/Reach/Resolve.antt =====
-- reach.rs: `replay_helpers` and `resolve_indirects`, the two passes that find more work.
use Prim.Native.String.{String}
use text.Mathlib.Text.{◌==◌ as ◌===◌}
use decomps_agent.Prelude.{
  ℕ, ◌+◌, ◌%◌, ◌^◌, Bool, true, false, not, ◌&&◌, ◌||◌, ◌==◌, if◌then◌else◌, List, [], ◌∷◌, Option,
  none, some,
}
use decomps_agent.Ines.{Rom}
use decomps_agent.Mapper.State.{BankState, RomLoc, Description, same_slots}
use decomps_agent.Mapper.Chip.{Mapper}
use decomps_agent.Mapper.Address.{cpu_to_rom}
use decomps_agent.Render.{hex4, ◌⊕◌}
use decomps_agent.Reach.Maps.{set_has}
use decomps_agent.Reach.State.{
  indirect_target, EdgeKind, rts_table, by_helper, of_helper, UnresolvedKind, indirect_jump,
  rts_jump_table, Unresolved, Trace, no_regs, no_vram, Item, CallSite, IndKind, pointer,
  rts_table_at, Indirect, SiteKey, World,
}
use decomps_agent.Reach.Record.{add_sub, edge, same_number}
use decomps_agent.Reach.Targets.{pointer_targets, table_targets, sort_targets, dedup_targets}
use decomps_agent.Reach.Replay.{helper_loop}
use decomps_agent.Reach.World.{on_trace, push_work, push_switch, has_visit, routine, or_empty}

abbrev pub site_key : CallSite → SiteKey
site_key cs = record {
  jsr_off = cs.jsr_off;
  slots = cs.st.prg8k;
  a = cs.regs.a.v;
  x = cs.regs.x.v;
  y = cs.regs.y.v;
}

unfoldable pub same_key : SiteKey → SiteKey → Bool
same_key k j =
    k.jsr_off == j.jsr_off
    && same_slots k.slots j.slots
    && same_number k.a j.a
    && same_number k.x j.x
    && same_number k.y j.y

unfoldable pub has_site : SiteKey → List SiteKey → Bool
has_site k [] = false
has_site k (j ∷ keys) = same_key k j || has_site k keys

abbrev pub is_none : Option ℕ → Bool
is_none none = true
is_none (some v) = false

abbrev pub all_unknown : CallSite → Bool
all_unknown cs = is_none cs.regs.a.v && is_none cs.regs.x.v && is_none cs.regs.y.v

abbrev pub mark_site : SiteKey → World → World
mark_site key w = record {
  eng = record w.eng { processed_sites = key ∷ w.eng.processed_sites };
  trace = w.trace;
}

-- The item behind the call, under the bank state that the helper leaves.
abbrev pub resumed : CallSite → BankState → Item
resumed cs st = record {
  pc = (cs.jsr_pc + 3) % 2 ^ 16;
  st = record st { dynamic = false };
  regs = no_regs;
  sub = cs.sub;
  vram = no_vram;
}

abbrev pub push_resumed : CallSite → BankState × List Description → World → World
push_resumed cs (st, resolved) w =
    let callee = or_empty (routine (some cs.callee_off) w.trace) in
    push_work (resumed cs st) (
      push_switch
        (record {
          addr = hex4 cs.jsr_pc;
          bank = cs.jsr_bank;
          register = "helper " ⊕ callee;
          resolved_value = by_helper cs.regs.a.v cs.regs.x.v cs.regs.y.v st.prg8k;
          description = of_helper callee resolved;
        })
        w)

module _ (rom : Rom) (m : Mapper) where
  -- The replay of one call of a helper, and whether it added work.
  unfoldable pub replay_site : CallSite → World → Bool × World
  replay_site cs w =
      let left = helper_loop rom m 256 cs.callee_pc cs.regs cs.st [] in
      if same_slots left.0.prg8k cs.st.prg8k then (false, w) else (true, push_resumed cs left w)

  -- One call site: a call of a helper that was not replayed with these registers, one of them known.
  unfoldable pub helper_site : CallSite → World → Bool × World
  helper_site cs w =
      if not (set_has cs.callee_off w.eng.helper_subs)
      then (false, w)
      else if has_site (site_key cs) w.eng.processed_sites
      then (false, w)
      else if all_unknown cs
      then (false, mark_site (site_key cs) w)
      else replay_site cs (mark_site (site_key cs) w)

  unfoldable pub helper_sites : List CallSite → World → Bool × World
  helper_sites [] w = (false, w)
  helper_sites (cs ∷ sites) w =
      let first = helper_site cs w in
      let rest = helper_sites sites first.1 in (first.0 || rest.0, rest.1)

  unfoldable pub replay_helpers : World → Bool × World
  replay_helpers w = helper_sites w.eng.call_sites w

  abbrev pub targets_of : IndKind → BankState → Trace → List (ℕ × EdgeKind)
  targets_of (pointer ptr) st t = pointer_targets rom m t ptr st
  targets_of (rts_table_at lo hi) st t = table_targets rom m lo hi st 1 rts_table

  abbrev pub from_of : Indirect → RomLoc
  from_of ind = record { cpu_addr = ind.pc; bank = ind.bank; offset = 0; file_offset = ind.off }

  abbrev pub target_item : Indirect → ℕ → RomLoc → Item
  target_item ind tgt tl = record {
    pc = tgt;
    st = ind.st;
    regs = no_regs;
    sub = some tl.file_offset;
    vram = no_vram;
  }

  abbrev pub link_target : Indirect → EdgeKind → RomLoc → World → World
  link_target ind kind tl w =
      on_trace (λ t. edge (from_of ind) tl ind.st m kind (add_sub tl indirect_target t)) w

  -- One target: whether it has a place in the ROM, and whether it added work.
  abbrev pub resolve_to : Indirect → ℕ × EdgeKind → Option RomLoc → World → Bool × Bool × World
  resolve_to ind (tgt, kind) none w = (false, false, w)
  resolve_to ind (tgt, kind) (some tl) w =
      let linked = link_target ind kind tl w in
      if has_visit tl.file_offset ind.st.prg8k w.eng.visited
      then (true, false, linked)
      else (true, true, push_work (target_item ind tgt tl) linked)

  unfoldable pub resolve_targets : Indirect → List (ℕ × EdgeKind) → World → Bool × Bool × World
  resolve_targets ind [] w = (false, false, w)
  resolve_targets ind (x ∷ targets) w =
      let first = resolve_to ind x (cpu_to_rom m rom x.0 ind.st) w in
      let rest = resolve_targets ind targets first.2 in
      (first.0 || rest.0, first.1 || rest.1, rest.2)

  abbrev pub of_indirect : UnresolvedKind → Bool
  of_indirect indirect_jump = true
  of_indirect rts_jump_table = true
  of_indirect _ = false

  -- `retain`, without the indirect jumps at `addr`.
  unfoldable pub drop_resolved : String → List Unresolved → List Unresolved
  drop_resolved addr [] = []
  drop_resolved addr (u ∷ us) =
      let rest = drop_resolved addr us in
      if of_indirect u.kind && (u.addr === addr) then rest else u ∷ rest

  abbrev pub mark_indirect : Indirect → World → World
  mark_indirect ind w = record {
    eng = record w.eng {
      processed_indirects = (ind.off, ind.st.prg8k) ∷ w.eng.processed_indirects;
    };
    trace = w.trace;
  }

  abbrev pub clear_unresolved : Bool → ℕ → World → World
  clear_unresolved resolved pc w =
      if resolved
      then on_trace (λ t. record t { unresolved = drop_resolved (hex4 pc) t.unresolved }) w
      else w

  unfoldable pub resolve_one : Indirect → World → Bool × World
  resolve_one ind w =
      let targets = dedup_targets (sort_targets (targets_of ind.kind ind.st w.trace)) in
      let done = resolve_targets ind targets (mark_indirect ind w) in
      (done.1, clear_unresolved done.0 ind.pc done.2)

  unfoldable pub resolve_pending : List Indirect → World → Bool × World
  resolve_pending [] w = (false, w)
  resolve_pending (ind ∷ pending) w =
      let first =
        if has_visit ind.off ind.st.prg8k w.eng.processed_indirects
        then (false, w)
        else resolve_one ind w in
      let rest = resolve_pending pending first.1 in (first.0 || rest.0, rest.1)

  unfoldable pub resolve_indirects : World → Bool × World
  resolve_indirects w = resolve_pending w.eng.indirects w
