-- ===== src/Sim/Describe.antt =====
-- tools/nesrom/src/sim.rs: the texts on a value and on where it comes from.
use Prim.Native.String.{String}
use decomps_agent.Prelude.{ℕ, ltb, if◌then◌else◌, Option, none, some}
use decomps_agent.Render.{hex2, hex4, ◌⊕◌}
use decomps_agent.Sim.{Src, immediate, table, ptr, memory, on_stack, Val}

abbrev describe_src : Src → String → String
describe_src (table t) name = "table " ⊕ hex4 t ⊕ ",idx"
describe_src (ptr z) name = "(" ⊕ hex2 z ⊕ "),Y"
describe_src (memory a) name = if ltb a 0x100 then hex2 a else hex4 a
describe_src on_stack name = "stack"
describe_src _ name = name

abbrev describe_known : Option ℕ → Src → String → String
describe_known (some v) src name = "#" ⊕ hex2 v
describe_known none src name = describe_src src name

-- `name` is the register that holds the value.
unfoldable pub describe : Val → String → String
describe value name = describe_known value.v value.src name

abbrev kind_of_src : Src → String
kind_of_src immediate = "immediate"
kind_of_src (table t) = "table " ⊕ hex4 t
kind_of_src (ptr z) = "pointer"
kind_of_src (memory a) = "memory " ⊕ hex4 a
kind_of_src on_stack = "stack"
kind_of_src _ = "unknown"

unfoldable pub source_kind : Val → String
source_kind value = kind_of_src value.src
