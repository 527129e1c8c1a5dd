-- ===== src/Reach/Ranges.antt =====
-- reach.rs: `code_ranges` and `data_ranges`.
pub mod Cover
use Prim.Native.String.{String}
use decomps_agent.Prelude.{
  ℕ, zero, suc, ◌+◌, ◌-◌, ◌*◌, ◌/◌, ◌%◌, ◌^◌, min, max, Bool, true, false, ◌&&◌, ltb, ◌==◌,
  if◌then◌else◌, List, [], ◌∷◌, ◌++◌, length,
}
use decomps_agent.Ines.{Rom}
use decomps_agent.Mapper.Chip.{Mapper, prg_bank_size}
use decomps_agent.Mapper.Address.{file_offset_to_default_cpu}
use decomps_agent.Render.{hex4}
use decomps_agent.Reach.Maps.{values}
use decomps_agent.Reach.State.{TraceInsn, Trace}

pub record Range : Type 0 where
  pub bank : ℕ
  pub start : String
  pub end : String
  pub len : ℕ
  pub file_start : ℕ
  pub file_end : ℕ

-- `ti.cpu_addr + ti.insn.len as u16 - 1` in the release build
abbrev pub last_addr : TraceInsn → ℕ
last_addr ti = ((ti.cpu_addr + ti.insn.len) % 2 ^ 16 + 2 ^ 16 - 1) % 2 ^ 16

abbrev pub end_off : TraceInsn → ℕ
end_off ti = ti.file_offset + ti.insn.len

abbrev pub range_of : TraceInsn → Range
range_of ti = record {
  bank = ti.bank;
  start = hex4 ti.cpu_addr;
  end = hex4 (last_addr ti);
  len = ti.insn.len;
  file_start = ti.file_offset;
  file_end = end_off ti;
}

abbrev pub extend : Range → TraceInsn → Range
extend last ti = record last {
  file_end = end_off ti;
  end = hex4 (last_addr ti);
  len = end_off ti - last.file_start;
}

-- Whether an instruction goes on where the last range ends.
abbrev pub adjoins : Range → TraceInsn → Bool
adjoins last ti = last.file_end == ti.file_offset && last.bank == ti.bank

-- The loop, with `last` the last range that was put out.
unfoldable pub grow : Range → List TraceInsn → List Range
grow last [] = last ∷ []
grow last (ti ∷ tis) = elim (adjoins last ti) [
  | true ↦ grow (extend last ti) tis
  | false ↦ last ∷ grow (range_of ti) tis
]

unfoldable pub ranges_of : List TraceInsn → List Range
ranges_of [] = []
ranges_of (ti ∷ tis) = grow (range_of ti) tis

unfoldable pub code_ranges : Trace → List Range
code_ranges t = ranges_of (values t.insns)

-- The ranges of the bytes from `a` up to `e`, split where a bank ends; a round leaves fewer bytes.
unfoldable pub push_ranges : ℕ → Mapper → ℕ → ℕ → List Range
push_ranges zero m a e = []
push_ranges (suc rounds) m a e =
    let size = prg_bank_size m in
    let b = min e ((a / size + 1) * size) in
    let cpu = file_offset_to_default_cpu m a in
    let rest = push_ranges rounds m b e in
    if ltb a e
    then record {
      bank = a / size;
      start = hex4 cpu;
      end = hex4 ((cpu + (b - a - 1) % 2 ^ 16) % 2 ^ 16);
      len = b - a;
      file_start = a;
      file_end = b;
    }
      ∷ rest
    else []

abbrev pub push : Mapper → ℕ → ℕ → List Range
push m s e = push_ranges (e - s) m s e

-- The loop over the code ranges from `pos` on, and the rest of the ROM.
unfoldable pub gaps : Mapper → ℕ → List Range → ℕ → List Range
gaps m pos [] total = if ltb pos total then push m pos total else []
gaps m pos (r ∷ code) total =
    (if ltb pos r.file_start then push m pos r.file_start else [])
    ++ gaps m (max pos r.file_end) code total

unfoldable pub data_ranges : Rom → Mapper → Trace → List Range
data_ranges rom m t = gaps m 0 (code_ranges t) (length rom.prg)
