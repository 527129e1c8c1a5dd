-- ===== src/Tests/Tracing.antt =====
-- reach.rs and what it draws on: a small program of NROM size zero, with a call, a branch and data.
use decomps_agent.Prelude.{
  ℕ, ◌+◌, ◌≡◌, ◌↔◌, ◌⊎◌, refl, arith, true, false, not, ◌&&◌, ltb, some, none, Option, List, [],
  ◌∷◌, length,
}
use decomps_agent.Ines.{Rom, vertical}
use decomps_agent.Mapper.Chip.{nrom}
use decomps_agent.Reach.Maps.{values, set_has}
use decomps_agent.Reach.State.{Trace, no_trace, Sub, subroutine}
use decomps_agent.Reach.Ranges.{data_ranges}
use decomps_agent.Reach.Ranges.Cover.{one_if, count_ranges, in_insns}
use decomps_agent.Reach.Pass.{trace_pass}
use decomps_agent.Reach.Start.{starts, trace}
use decomps_agent.Reach.Start.Total.{IsTrace, trace-Genuine, trace-data_ranges}
use decomps_agent.Reach.Closure.{closure}
use decomps_agent.Reach.Closure.Exact.{Reached, closure-Reached}
use decomps_agent.Reach.Ends.Passes.{trace_pass_ends}
use decomps_agent.Render.{hex4}
use mathlib.Core.List.{map}
use decomps_agent.Errors.{Error, err, ok}
use decomps_agent.Mapper.Chip.{reset_state}
use decomps_agent.Mapper.Address.{resolve}
use decomps_agent.Reach.Targets.{insn_at}
use decomps_agent.Disasm.{Line, line, set_label, with_bank, apply_labels, linear}
use decomps_agent.Disasm.Labels.{label_of, apply_labels-label_of}
use decomps_agent.Disasm.Linear.{IsListing, linear-IsListing}
use decomps_agent.Render.Parse.{
  codes, parse_addr, trim_start, trim_end, parse_trimmed, digits_from, from_str_radix,
  is_whitespace, to_digit, parse_addr-hex4,
}

-- `JSR $8006`, `BNE $8000`, `RTS`, then `LDA #$05`, `RTS` and three bytes of data.
abbrev program : List ℕ
program = 0x20 ∷ 0x06 ∷ 0x80 ∷ 0xD0 ∷ 0xFB ∷ 0x60 ∷ 0xA9 ∷ 0x05 ∷ 0x60 ∷ 0x01 ∷ 0x02 ∷ 0x03 ∷ []

abbrev program_rom : Rom
program_rom = record {
  path = "rom.nes";
  header = record {
    mapper = 0;
    submapper = 0;
    nes2 = false;
    prg_size = 12;
    chr_size = 0;
    chr_ram = true;
    chr_ram_size = 8192;
    prg_ram_size = 0;
    prg_nvram_size = 0;
    mirroring = vertical;
    battery = false;
    trainer = false;
  };
  prg = program;
  chr = [];
  sha256 = "0";
  prg_file_base = 16;
}

abbrev entry_points : List (ℕ × Option ℕ)
entry_points = (0x8000, none) ∷ []

traced : Option Trace
traced = trace program_rom (nrom 12 0) entry_points false

trace-Genuine_example :
    (t : Trace) × (trace program_rom (nrom 12 0) entry_points false ≡ some t)
    × IsTrace program_rom (nrom 12 0) (starts program_rom (nrom 12 0) entry_points false) t
trace-Genuine_example = trace-Genuine program_rom (nrom 12 0) entry_points false

trace-data_ranges_example :
    (t : Trace) × (trace program_rom (nrom 12 0) entry_points false ≡ some t)
    × (count_ranges 10 (data_ranges program_rom (nrom 12 0) t)
        ≡ one_if (ltb 10 (length program) && not (in_insns 10 (values t.insns))))
trace-data_ranges_example = trace-data_ranges program_rom (nrom 12 0) entry_points false 10

trace_pass_ends_example :
    (t : Trace) × (trace_pass program_rom
        (nrom 12 0)
        100
        (starts program_rom (nrom 12 0) entry_points false)
        []
      ≡ some t)
trace_pass_ends_example =
    trace_pass_ends program_rom (nrom 12 0) 100 (starts program_rom (nrom 12 0) entry_points false)
      []

-- Three subroutines, of which the first calls the second.
abbrev called_trace : Trace
called_trace = record no_trace {
  subs = (0, sub_at 0 (6 ∷ [])) ∷ (6, sub_at 6 []) ∷ (9, sub_at 9 []) ∷ [];
}
  where
    sub_at : ℕ → List ℕ → Sub
    sub_at off calls = record {
      cpu_addr = 0x8000 + off;
      bank = 0;
      file_offset = off;
      kind = subroutine;
      callers = [];
      calls = calls;
    }

closure-Reached_example :
    (found : List ℕ) × (closure called_trace (0 ∷ []) ≡ some found)
    × ((set_has 6 found ≡ true) ↔ Reached called_trace.subs (0 ∷ []) 6)
closure-Reached_example = closure-Reached called_trace (0 ∷ []) 6

parse_addr-hex4_example : parse_addr (codes (hex4 0xC0F3)) ≡ some 0xC0F3
parse_addr-hex4_example = parse_addr-hex4 0xC0F3 (omega arith)

listing : parse_addr (codes " 0xc000 ") ≡ some 0xC000
unfolding parse_addr trim_start trim_end parse_trimmed digits_from from_str_radix is_whitespace
    to_digit
listing = refl

-- The first three lines of a listing of the program from its start, in bank 0.
linear-IsListing_example :
    ((e : Error) × (resolve (nrom 12 0) program_rom 0x8000 (some 0) (reset_state (nrom 12 0))
        ≡ err e)
      × (linear program_rom (nrom 12 0) 0x8000 (some 0) none 3 (reset_state (nrom 12 0))
          ≡ some (err e)))
    ⊎ ((ls : List Line) × (linear program_rom
            (nrom 12 0)
            0x8000
            (some 0)
            none
            3
            (reset_state (nrom 12 0))
          ≡ some (ok (apply_labels ls)))
        × IsListing program_rom
            (nrom 12 0)
            none
            3
            (with_bank (nrom 12 0) 0x8000 (some 0) (reset_state (nrom 12 0)))
            0x8000
            0
            ls)
linear-IsListing_example =
    linear-IsListing program_rom (nrom 12 0) 0x8000 (some 0) none 3 (reset_state (nrom 12 0))
      (ground arith) (omega arith)

-- The call at $8000 and the line that it leads to.
abbrev call_lines : List Line
call_lines = line_at 0 ∷ line_at 6 ∷ []
  where
    line_at : ℕ → Line
    line_at off =
        line (insn_at program off)
          (record { cpu_addr = 0x8000 + off; bank = 0; offset = off; file_offset = off })
          (nrom 12 0)

apply_labels-label_of_example :
    apply_labels call_lines ≡ map (λ l. set_label (label_of call_lines l.addr_num) l) call_lines
apply_labels-label_of_example = apply_labels-label_of call_lines
