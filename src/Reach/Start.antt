-- ===== src/Reach/Start.antt =====
-- reach.rs: `trace`, from the vectors and the extra entries, and `trace_from_with_queues`, which traces a
-- second time when there are queues.
pub mod Total
use Prim.Native.String.{String}
use decomps_agent.Prelude.{
  ℕ, zero, suc, ◌+◌, Bool, true, false, if◌then◌else◌, List, [], ◌∷◌, ◌++◌, Option, none, some,
  ◌>>=◌,
}
use decomps_agent.Ines.{Rom}
use decomps_agent.Mapper.State.{BankState}
use decomps_agent.Mapper.Chip.{Mapper, reset_state, state_for_bank}
use decomps_agent.Mapper.Address.{cpu_to_rom, read_u16}
use decomps_agent.Render.{decimal, ◌⊕◌}
use decomps_agent.Vram.{Queue}
use decomps_agent.Reach.State.{Trace}
use decomps_agent.Reach.Queues.{has_queue, detect_queues}
use decomps_agent.Reach.Pass.{Start, trace_pass}

abbrev vector_start : String → BankState → Option ℕ → List Start
vector_start name st none = []
vector_start name st (some t) = record { name = name; addr = t; st = st } ∷ []

-- The target of a vector, where the vector lies in the ROM.
abbrev pub vector_at : Rom → Mapper → ℕ → BankState → Option ℕ
vector_at rom m vec st = cpu_to_rom m rom vec st >>= λ loc. read_u16 rom.prg loc.file_offset

unfoldable pub vectors : Rom → Mapper → BankState → List Start
vectors rom m st =
    vector_start "reset" st (vector_at rom m 0xFFFC st)
    ++ vector_start "nmi" st (vector_at rom m 0xFFFA st)
    ++ vector_start "irq" st (vector_at rom m 0xFFFE st)

abbrev extra_state : Mapper → ℕ → Option ℕ → BankState → BankState
extra_state m addr none st = st
extra_state m addr (some b) st = state_for_bank m b addr st

-- The extra entries, numbered from `i` on.
unfoldable pub extra_starts : Mapper → BankState → ℕ → List (ℕ × Option ℕ) → List Start
extra_starts m st i [] = []
extra_starts m st i ((addr, bank) ∷ extra) =
    record { name = "entry" ⊕ decimal i; addr = addr; st = extra_state m addr bank st }
    ∷ extra_starts m st (i + 1) extra

abbrev pub starts : Rom → Mapper → List (ℕ × Option ℕ) → Bool → List Start
starts rom m extra include_vectors =
    let st = reset_state m in
    (if include_vectors then vectors rom m st else []) ++ extra_starts m st 0 extra

-- The known queues that were not found.
unfoldable pub add_known : List Queue → List Queue → List Queue
add_known [] queues = queues
add_known (k ∷ known) queues =
    add_known known (if has_queue k queues then queues else queues ++ (k ∷ []))

abbrev with_queues : List Queue → Option Trace → Option Trace
with_queues queues none = none
with_queues queues (some second) = some (record second { queues = queues })

module _ (rom : Rom) (m : Mapper) (limit : ℕ) (entries : List Start) where
  abbrev pub retrace : List Queue → Trace → Option Trace
  retrace [] first = some first
  retrace (q ∷ queues) first =
      with_queues (q ∷ queues) (trace_pass rom m limit entries (q ∷ queues))

  -- `limit` is the 6,000,000 steps of the source.
  unfoldable pub trace_from_with_queues : List Queue → Option Trace
  trace_from_with_queues known = trace_pass rom m limit entries known >>= λ first.
      retrace (add_known known (detect_queues first)) first

abbrev pub step_limit : ℕ
step_limit = 6000000

unfoldable pub trace : Rom → Mapper → List (ℕ × Option ℕ) → Bool → Option Trace
trace rom m extra include_vectors =
    trace_from_with_queues rom m step_limit (starts rom m extra include_vectors) []
