-- ===== src/Reach/Pass.antt =====
-- reach.rs: `trace_pass`, from the entries to the finished trace.
use Prim.Native.String.{String}
use text.Mathlib.Text.{starts_with}
use decomps_agent.Prelude.{
  ℕ, zero, suc, ◌+◌, Bool, true, false, ◌||◌, if◌then◌else◌, List, [], ◌∷◌, ◌++◌, Option, none,
  some,
}
use decomps_agent.Ines.{Rom}
use decomps_agent.Mapper.State.{BankState, RomLoc}
use decomps_agent.Mapper.Chip.{Mapper}
use decomps_agent.Mapper.Address.{cpu_to_rom}
use decomps_agent.Render.{hex4}
use decomps_agent.Vram.{Queue}
use decomps_agent.Reach.State.{
  vector, entry_point, entry_outside_rom, Trace, no_trace, no_regs, no_vram, Item, World,
}
use decomps_agent.Reach.Record.{add_sub, dedupe_edges, fill_hw_vram}
use decomps_agent.Reach.World.{on_trace, push_work, push_unresolved}
use decomps_agent.Reach.Drain.{drain}
use decomps_agent.Reach.Resolve.{replay_helpers, resolve_indirects}

-- A name, an address and the bank state there.
pub record Start : Type 0 where
  pub name : String
  pub addr : ℕ
  pub st : BankState

abbrev pub new_world : List Queue → World
new_world queues = record {
  eng = record {
    work = [];
    visited = [];
    call_sites = [];
    helper_subs = [];
    processed_sites = [];
    indirects = [];
    processed_indirects = [];
    queues = queues;
    steps = 0;
  };
  trace = no_trace;
}

abbrev pub entry_item : Start → RomLoc → Item
entry_item e loc = record {
  pc = e.addr;
  st = e.st;
  regs = no_regs;
  sub = some loc.file_offset;
  vram = no_vram;
}

-- An entry with a place in the ROM, or without.
abbrev pub enter_at : Start → Option RomLoc → World → World
enter_at e none w = push_unresolved e.addr 0 entry_outside_rom w
enter_at e (some loc) w = push_work (entry_item e loc) (
    on_trace
      (λ t. add_sub loc (if starts_with e.name "entry" then entry_point else vector) (record t {
        entries =
            t.entries
            ++ (record { name = e.name; addr = hex4 e.addr; bank = loc.bank; off = loc.file_offset }
                ∷ []);
      }))
      w)

module _ (rom : Rom) (m : Mapper) where
  unfoldable pub enter_all : List Start → World → World
  enter_all [] w = w
  enter_all (e ∷ entries) w = enter_all entries (enter_at e (cpu_to_rom m rom e.addr e.st) w)

  -- One round of the outer loop: whether it found more work, and what it leaves.
  unfoldable pub pass_round : ℕ → World → Bool × World
  pass_round limit w =
      let helped = replay_helpers rom m (drain rom m limit w) in
      let resolved = resolve_indirects rom m helped.1 in (helped.0 || resolved.0, resolved.1)

  -- The outer loop; `none` is the end of the fuel.
  unfoldable pub pass_loop : ℕ → ℕ → World → Option World
  pass_loop limit zero w = none
  pass_loop limit (suc fuel) w =
      let next = pass_round limit w in
      elim next.0 [ true ↦ pass_loop limit fuel next.1 | false ↦ some next.1 ]

  abbrev pub finished : Option World → Option Trace
  finished none = none
  finished (some w) = some (fill_hw_vram (dedupe_edges w.trace))

  -- `trace_pass`, with `limit` for the 6,000,000 steps of the source.
  unfoldable pub trace_pass : ℕ → List Start → List Queue → Option Trace
  trace_pass limit entries queues =
      finished (pass_loop limit (limit + 1) (enter_all entries (new_world queues)))
