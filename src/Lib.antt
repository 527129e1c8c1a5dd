-- ===== src/Lib.antt =====
-- Verification of nesrom, the tool in tools/nesrom that reads NES ROM files: it parses the file, maps
-- CPU addresses through the bank-switching chip, decodes and traces 6502 code, and unpacks data.
--
-- The parts and their files (sources under tools/nesrom/src):
--   Errors          the error messages as values, results with `do`; `panic` stands for an index or a
--                   slice out of range.
--   Ines            ines.rs: `Header`, `Rom`, `parse_header`, `Rom::parse`, where each index and slice can
--                   panic. Ines/Declared says what the bytes of a header declare, Ines/Size bounds the
--                   sizes, Ines/Layout says what is cut out of the file, Ines/Fields reads images back.
--   Mapper/State    mapper/mod.rs: `BankState`, `Window`, `BankSwitch`.
--   Mapper/Nrom, Uxrom, Cnrom, Mmc1, Mmc3   the five files mapper/*.rs; the child `Slots` of each is
--                   about `IsMapped`, that every 8 KB slot is inside the PRG ROM.
--   Mapper/Chip     the trait `Mapper` as a data type of the five chips with dispatch by clauses,
--                   `for_rom`, `is_supported`, `state_for_bank`.
--   Mapper/Address  `cpu_to_rom`, `resolve`, `file_offset_to_cpu`; Mapper/Writes runs lists of writes;
--                   Mapper/Windows compares the reported windows with the reset state; Mapper/Notes
--                   has `write_note`.
--   Cpu/Table, Insn, Flow, Registers, Legal   cpu6502.rs: the opcode table, `decode`, the predicates,
--                   targets and operands, the hardware registers.
--   Cpu/Sweep       stats.rs: the linear sweep of `code_plausibility`, without the ratio.
--   Compress/Decoded, Rle, Lz, Pb53   compress/*.rs: the decoders, and the encoder of rle.rs;
--                   Compress/Lz/Encode is the greedy encoder of lz.rs (its children: the search for a
--                   match, the flag byte, the copy of a match, the places of a group), Compress/Dispatch
--                   chooses a decoder by its name.
--   Sim             sim.rs: `Val`, `Regs`, `load_value`, `update`. Sim/Machine is the 6502 that it has to
--                   follow, written from the instruction set and not from the source.
--   Sim/Describe    sim.rs: the texts of `describe` and `source_kind`.
--   Vram            vram.rs: `Vram`, `step`, `region`; Vram/Sites groups the writes as `sites` does, up to
--                   the removal of duplicates; Vram/Notes is `note_for`.
--   Render          `hex4` of reach.rs and the `{:02X}` and decimal formats as lists of characters; Render/Parse is
--                   `parse_addr` of mapper/mod.rs.
--   Reach           reach.rs. Reach/State has `Trace` and the working state, Record the bookkeeping of
--                   an instruction, Maps the ordered maps, Ranges `code_ranges` and `data_ranges`, Closure
--                   the subroutines that calls reach, Targets the jump tables, Replay the second walk
--                   of a helper from a call, World what a round writes down, Effects the writes of an
--                   instruction, Flow its successors, Drain the work list, Resolve the indirect jumps,
--                   Pass the rounds of a pass, Start the vectors and the whole trace; Queues is
--                   `detect_queues` of vram.rs on a trace.
--                   Relation has the step relation of the program counter that a trace has to follow,
--                   with the words that returns and indirect jumps may lead to;
--                   Invariant, Frame, Stores, Handlers, Sound and its children, and Start/Total relate
--                   traces to it; Ends and its children are about the number of rounds, Ranges/Cover
--                   about the bytes, and the children of Closure about its fuel and its result.
--   Disasm          disasm.rs: `line`, `linear` and `apply_labels`; Disasm/Linear and Disasm/Labels are
--                   about the lines and the labels of a listing.
--   Chr             chr.rs: `tiles_to_gray`.
--   Prelude, Tests  shared names and lemmas; concrete inputs for the theorems.
--
-- How they meet: `Rom` of Ines is what Mapper/Chip and Mapper/Address work on; Sim reads the ROM through
-- `cpu_to_rom`; Vram takes the registers of Sim and the instructions of Cpu/Insn. Reach joins all of
-- these: a work item carries the banks of Mapper, the registers of Sim and the state of Vram.
--
-- Conventions. Numbers are the natural numbers; a byte is a number below 256, and a theorem that needs
-- it has `IsByte` as a hypothesis. Arithmetic on u8 and u16 wraps where the source wraps; arithmetic on
-- usize wraps at 64 bits where it can leave them, as in the release build that the scripts make. A
-- mutable argument is passed and returned. A cursor into an input is the list of the bytes left beside
-- the position. Loops that do not shrink a list are recursion on fuel, started with one more than the
-- length of the input, which is enough since each round takes a byte at least; the LZ encoder starts with
-- the length of its input for the same reason. The work list of a trace is drained with the step limit
-- of the source, 6,000,000, as fuel; the rounds of a pass have one more than that, the closure has the
-- roots and all recorded calls, and a gap between two instructions has its length. A linear listing has
-- one round more than there are addresses. In ines.rs, compress/lz.rs,
-- compress/pb53.rs and chr.rs an index out of range is a result of its own. Texts (notes, names,
-- descriptions) are data types or left out.
--
-- Not modelled: the renderings as JSON and text (`to_json` and the detail strings of reach.rs and
-- vram.rs, text.rs), main.rs (the command line), `follow` and
-- `render_text` of disasm.rs, extract.rs, xrefs.rs, apu.rs and lint.rs
-- (reports made from a trace), the dumps of chr.rs other than `tiles_to_gray`, the floating-point parts
-- of stats.rs and compress/script.rs (a third-party script engine). `script::decode` is a parameter of
-- the dispatch, SHA-256 of `parse`.
mod Prelude
mod Tests
pub mod Errors
pub mod Ines
pub mod Mapper
pub mod Cpu
pub mod Compress
pub mod Sim
pub mod Vram
pub mod Chr
pub mod Render
pub mod Reach
pub mod Disasm
