-- ===== src/Reach/World.antt =====
-- reach.rs: what the rounds of the trace write down.
use Prim.Native.String.{String}
use decomps_agent.Prelude.{
  ℕ, Bool, false, ◌&&◌, ◌||◌, ◌==◌, if◌then◌else◌, List, [], ◌∷◌, ◌++◌, Option, none, some, ◌>>=◌,
}
use decomps_agent.Mapper.State.{RomLoc, BankSwitch, same_slots}
use decomps_agent.Cpu.Insn.{Insn}
use decomps_agent.Cpu.Registers.{Register, hw_register}
use decomps_agent.Render.{hex4}
use decomps_agent.Reach.Maps.{lookup, set_insert}
use decomps_agent.Reach.State.{
  Sub, by_value, of_switch, SwitchSite, UnresolvedKind, Trace, Item, Indirect, World,
}
use decomps_agent.Reach.Record.{access_kind}

-- An item on its way, with the last instructions, at most eight.
pub record Cursor : Type 0 where
  pub it : Item
  pub recent : List Insn

abbrev pub start : Item → Cursor
start it = record { it = it; recent = [] }

abbrev pub on_trace : (Trace → Trace) → World → World
on_trace f w = record { eng = w.eng; trace = f w.trace }

abbrev pub push_work : Item → World → World
push_work it w = record { eng = record w.eng { work = w.eng.work ++ (it ∷ []) }; trace = w.trace }

abbrev pub push_unresolved : ℕ → ℕ → UnresolvedKind → World → World
push_unresolved pc bank kind w =
    on_trace
      (λ t. record t {
        unresolved = t.unresolved ++ (record { addr = hex4 pc; bank = bank; kind = kind } ∷ []);
      })
      w

abbrev pub push_indirect : Indirect → World → World
push_indirect ind w = record {
  eng = record w.eng { indirects = w.eng.indirects ++ (ind ∷ []) };
  trace = w.trace;
}

unfoldable pub has_visit : ℕ → List ℕ → List (ℕ × List ℕ) → Bool
has_visit off slots [] = false
has_visit off slots ((o, s) ∷ visited) =
    off == o && same_slots slots s || has_visit off slots visited

-- The text of the subroutine that an item is in.
abbrev pub address_of : Option Sub → Option String
address_of none = none
address_of (some s) = some (hex4 s.cpu_addr)

abbrev pub routine : Option ℕ → Trace → Option String
routine sub t = sub >>= λ s. address_of (lookup s t.subs)

abbrev pub or_empty : Option String → String
or_empty none = ""
or_empty (some text) = text

abbrev pub push_hit : Option Register → ℕ → RomLoc → Item → Insn → Trace → Trace
push_hit none op loc it i t = t
push_hit (some reg) op loc it i t = record t {
  hw =
      t.hw
      ++ (record {
        addr = hex4 op;
        register = reg;
        access = access_kind i;
        from = hex4 it.pc;
        from_bank = loc.bank;
        routine = routine it.sub t;
        vram_target = none;
        vram_region = none;
        vram_value = none;
        from_off = loc.file_offset;
        addr_num = op;
      }
          ∷ []);
}

-- An access to a register of the hardware, on the first visit.
unfoldable pub note_hw : Bool → Option ℕ → RomLoc → Item → Insn → Trace → Trace
note_hw first none loc it i t = t
note_hw first (some op) loc it i t = if first then push_hit (hw_register op) op loc it i t else t

abbrev pub push_switch : SwitchSite → World → World
push_switch site w = on_trace (λ t. record t { switches = t.switches ++ (site ∷ []) }) w

abbrev pub add_helper : Option ℕ → World → World
add_helper none w = w
add_helper (some s) w = record {
  eng = record w.eng { helper_subs = set_insert s w.eng.helper_subs };
  trace = w.trace;
}

abbrev pub push_switched : Option BankSwitch → ℕ → ℕ → RomLoc → Item → World → World
push_switched none op value loc it w = w
push_switched (some sw) op value loc it w =
    push_switch
      (record {
        addr = hex4 it.pc;
        bank = loc.bank;
        register = hex4 op;
        resolved_value = by_value value;
        description = of_switch sw.description;
      })
      w
