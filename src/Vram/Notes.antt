-- ===== src/Vram/Notes.antt =====
-- tools/nesrom/src/vram.rs: the text of a region and the annotation of an event.
use Prim.Native.String.{String}
use decomps_agent.Prelude.{ℕ, Option, none, some}
use decomps_agent.Render.{hex4, decimal, ◌⊕◌}
use decomps_agent.Sim.Describe.{describe}
use decomps_agent.Vram.{
  Region, pattern_table, attribute_table, nametable, palette_bg, palette_sprite, unknown_region,
  region, Origin, from_a, from_x, from_y, from_queue, Event, addr_set, data_write, data_read,
}

abbrev pub region_name : Region → String
region_name (pattern_table k) = "pattern table " ⊕ decimal k
region_name (attribute_table k n) = "attribute table " ⊕ decimal k ⊕ " byte " ⊕ decimal n
region_name (nametable k row col) =
    "nametable " ⊕ decimal k ⊕ " row " ⊕ decimal row ⊕ " col " ⊕ decimal col
region_name (palette_bg p) = "palette bg " ⊕ decimal p
region_name (palette_sprite p) = "palette sprite " ⊕ decimal p
region_name unknown_region = "unknown"

-- `region(addr)` as a text.
unfoldable pub region_text : ℕ → String
region_text addr = region_name (region addr)

abbrev pub origin_name : Origin → String
origin_name from_a = "A"
origin_name from_x = "X"
origin_name from_y = "Y"
origin_name from_queue = "queue"

abbrev via_queue : Option ℕ → String
via_queue none = ""
via_queue (some qi) = " via queue"

unfoldable pub note_for : Event → String
note_for (addr_set addr) = "VRAM address = " ⊕ hex4 addr ⊕ " (" ⊕ region_text addr ⊕ ")"
note_for (data_write addr value origin queue) =
    "VRAM["
    ⊕ hex4 addr
    ⊕ "] <= "
    ⊕ describe value (origin_name origin)
    ⊕ via_queue queue
    ⊕ " ("
    ⊕ region_text addr
    ⊕ ")"
note_for (data_read addr) = "VRAM[" ⊕ hex4 addr ⊕ "] read (" ⊕ region_text addr ⊕ ")"
