-- ===== src/Reach/Start/Total.antt =====
-- reach.rs: what every trace is.
use decomps_agent.Prelude.{
  ℕ, suc, ◌≤◌, ◌≡◌, refl, arith, Bool, not, ◌&&◌, ltb, List, [], ◌∷◌, Option, some, length,
}
use decomps_agent.Ines.{Rom}
use decomps_agent.Mapper.Chip.{Mapper}
use decomps_agent.Vram.{Queue}
use decomps_agent.Reach.Maps.{values, Ascends, Holds}
use decomps_agent.Reach.State.{TraceInsn, Trace}
use decomps_agent.Reach.Ranges.{data_ranges}
use decomps_agent.Reach.Ranges.Cover.{one_if, in_insns, count_ranges, InOrder, count-data_ranges}
use decomps_agent.Reach.Pass.{Start, trace_pass}
use decomps_agent.Reach.Invariant.{Genuine}
use decomps_agent.Reach.Sound.Traces.{trace_pass-Genuine}
use decomps_agent.Reach.Ends.Passes.{trace_pass_ends}
use decomps_agent.Reach.Queues.{detect_queues}
use decomps_agent.Reach.Start.{
  starts, step_limit, add_known, retrace, trace_from_with_queues, trace,
}

-- A trace that lists its instructions in order, each of them genuine.
abbrev pub IsTrace : Rom → Mapper → List Start → Trace → Type 0
IsTrace rom m entries t = Ascends 0 t.insns × Holds (Genuine rom m entries) t.insns

module _ (rom : Rom) (m : Mapper) (limit : ℕ) (entries : List Start) where
  pass :
      (queues : List Queue)
      → (t : Trace) × (trace_pass rom m limit entries queues ≡ some t) × IsTrace rom m entries t
  pass queues =
      let ends = trace_pass_ends rom m limit entries queues in
      (ends.0, ends.1, trace_pass-Genuine rom m limit entries queues ends.0 ends.1)

  retraced :
      (queues : List Queue) (t : Trace)
      → IsTrace rom m entries t
      → (u : Trace) × (retrace rom m limit entries queues t ≡ some u) × IsTrace rom m entries u
  retraced [] t ok = (t, refl, ok)
  retraced (q ∷ queues) t ok =
      let second = pass (q ∷ queues) in
      (record second.0 { queues = q ∷ queues }, rw (second.1) refl, second.2)

  traced :
      (known : List Queue)
      → (t : Trace) × (trace_from_with_queues rom m limit entries known ≡ some t)
        × IsTrace rom m entries t
  unfolding trace_from_with_queues
  traced known =
      let first = pass known in
      let last = retraced (add_known known (detect_queues first.0)) first.0 first.2 in
      (last.0, rw (first.1) (last.1), last.2)

-- Tracing ends on any ROM, from the vectors and any extra entries. The trace lists its instructions in the
-- order of their file offsets; each is the one that the ROM holds at its offset, and the flow of control
-- reaches it from an entry, at an address that shows this offset. The flow goes on behind an instruction
-- unless it is illegal, a `JMP`, a return or a `BRK`; an indirect jump leads through its pointer in the ROM
-- or to words that reached loads and stores put there, an `RTS` only to words, plus one, of two tables that
-- reached loads read.
pub trace-Genuine :
    (rom : Rom) (m : Mapper) (extra : List (ℕ × Option ℕ)) (include_vectors : Bool)
    → (t : Trace) × (trace rom m extra include_vectors ≡ some t)
      × IsTrace rom m (starts rom m extra include_vectors) t
unfolding trace
trace-Genuine rom m extra include_vectors =
    traced rom m step_limit (starts rom m extra include_vectors) []

Genuine-InOrder :
    (rom : Rom) (m : Mapper) (entries : List Start) (start low : ℕ) (insns : List (ℕ × TraceInsn))
    → start ≤ low
    → Ascends low insns
    → Holds (Genuine rom m entries) insns
    → InOrder start (length rom.prg) (values insns)
unfolding Ascends Holds values InOrder Genuine
Genuine-InOrder rom m entries start low [] le a h = tt
Genuine-InOrder rom m entries start low ((k, ti) ∷ insns) le (at, a) (g, h) = (
  omega (arith, g.0),
  omega (arith, g.0, g.1),
  Genuine-InOrder rom m entries ti.file_offset (suc k) insns (omega (arith, g.0)) a h,
)

-- Tracing ends, and the trace and its data ranges share out the ROM: every byte that belongs to no
-- instruction of the trace is in exactly one data range, and no data range holds a byte of an instruction or
-- a byte outside the ROM.
pub trace-data_ranges :
    (rom : Rom) (m : Mapper) (extra : List (ℕ × Option ℕ)) (include_vectors : Bool) (x : ℕ)
    → (t : Trace) × (trace rom m extra include_vectors ≡ some t)
      × (count_ranges x (data_ranges rom m t)
          ≡ one_if (ltb x (length rom.prg) && not (in_insns x (values t.insns))))
trace-data_ranges rom m extra include_vectors x =
    let whole = trace-Genuine rom m extra include_vectors in
    (
      whole.0,
      whole.1,
      count-data_ranges rom m whole.0 x (
          Genuine-InOrder rom m (starts rom m extra include_vectors) 0 0 whole.0.insns (omega arith)
            whole.2.0 whole.2.1),
    )
