-- ===== src/Reach/Invariant.antt =====
-- reach.rs: the invariant of the trace, and the steps that keep it.
use decomps_agent.Prelude.{
  ℕ, ◌+◌, ◌*◌, ◌⊎◌, bit_or, ◌%◌, ◌^◌, ◌<◌, ◌≡◌, sym, subst, List, [], ◌∷◌, Option, none, some,
  length, All, All-append, Bool, true, false, if◌then◌else◌,
}
use decomps_agent.Ines.{Rom}
use decomps_agent.Mapper.State.{BankState, RomLoc}
use decomps_agent.Mapper.Chip.{Mapper}
use decomps_agent.Mapper.Address.{cpu_to_rom}
use decomps_agent.Cpu.Insn.{Insn}
use decomps_agent.Sim.{Regs}
use decomps_agent.Reach.Maps.{Ascends, Holds}
use decomps_agent.Reach.State.{
  TraceInsn, Trace, Item, CallSite, IndKind, pointer, rts_table_at, Indirect, World, UnresolvedKind,
}
use decomps_agent.Reach.Targets.{insn_at}
use decomps_agent.Reach.Replay.{helper_loop}
use decomps_agent.Reach.World.{Cursor, push_work, push_unresolved, push_indirect}
use decomps_agent.Reach.Pass.{Start}
use decomps_agent.Reach.Relation.{Reaches, Shown, Puts, PutsFrom, InTables}

module _ (rom : Rom) (m : Mapper) (entries : List Start) where
  -- The instruction that is recorded at a file offset is the one that the ROM holds there, and an
  -- address that the flow reaches shows it.
  unfoldable pub Genuine : ℕ → TraceInsn → Type 0
  Genuine k ti =
      (ti.file_offset ≡ k)
      × (k < length rom.prg)
      × (ti.insn ≡ insn_at rom.prg k)
      × ((st : BankState) × (loc : RomLoc) × Reaches rom m entries ti.cpu_addr st
          × (cpu_to_rom m rom ti.cpu_addr st ≡ some loc)
          × (loc.file_offset ≡ k))

  abbrev pub IsReached : Item → Type 0
  IsReached it = Reaches rom m entries it.pc it.st

  -- The place behind a call, whatever the registers are.
  abbrev pub SiteOk : CallSite → Type 0
  SiteOk cs =
      (regs : Regs)
      → Reaches rom m entries ((cs.jsr_pc + 3) % 2 ^ 16)
          (record (helper_loop rom m 256 cs.callee_pc regs cs.st []).0 { dynamic = false })

  -- What a pending jump may lead to.
  abbrev pub LeadsTo : IndKind → BankState → ℕ → Type 0
  LeadsTo (pointer ptr) st tgt =
      ((l : ℕ) × (h : ℕ) × Puts rom m entries ptr l
        × Puts rom m entries ((ptr + 1) % 2 ^ 16) h
        × (tgt ≡ bit_or (h * 2 ^ 8) l))
      ⊎ ((lo : ℕ) × (hi : ℕ) × PutsFrom rom m entries ptr lo
          × PutsFrom rom m entries ((ptr + 1) % 2 ^ 16) hi
          × InTables rom m lo hi st 0 tgt)
  LeadsTo (rts_table_at lo hi) st tgt = InTables rom m lo hi st 1 tgt

  abbrev pub IndirectOk : Indirect → Type 0
  IndirectOk ind = (tgt : ℕ) → LeadsTo ind.kind ind.st tgt → Reaches rom m entries tgt ind.st

  abbrev pub AreShown : List Insn → Type 0
  AreShown is = All (Shown rom m entries) is

  pub record Sound (w : World) : Type 0 where
    pub ordered : Ascends 0 w.trace.insns
    pub genuine : Holds Genuine w.trace.insns
    pub work_ok : All IsReached w.eng.work
    pub sites_ok : All SiteOk w.eng.call_sites
    pub indirects_ok : All IndirectOk w.eng.indirects

  abbrev pub CursorOk : Option Cursor → Type 0
  CursorOk none = Unit {0}
  CursorOk (some cur) = IsReached cur.it × AreShown cur.recent

  abbrev pub Ok : Option Cursor × World → Type 0
  Ok (o, w) = CursorOk o × Sound w

  -- A change of the trace that leaves the instructions as they are.
  pub retraced-Sound :
      (w : World) (t : Trace)
      → t.insns ≡ w.trace.insns
      → Sound w
      → Sound (record { eng = w.eng; trace = t })
  retraced-Sound w t same s = record {
    ordered = subst (λ xs. Ascends 0 xs) (sym same) s.ordered;
    genuine = subst (λ xs. Holds Genuine xs) (sym same) s.genuine;
    work_ok = s.work_ok;
    sites_ok = s.sites_ok;
    indirects_ok = s.indirects_ok;
  }

  pub push_work-Sound : (it : Item) (w : World) → IsReached it → Sound w → Sound (push_work it w)
  push_work-Sound it w h s = record {
    ordered = s.ordered;
    genuine = s.genuine;
    work_ok = All-append IsReached w.eng.work (it ∷ []) s.work_ok (h, tt);
    sites_ok = s.sites_ok;
    indirects_ok = s.indirects_ok;
  }

  pub push_indirect-Sound :
      (ind : Indirect) (w : World) → IndirectOk ind → Sound w → Sound (push_indirect ind w)
  push_indirect-Sound ind w h s = record {
    ordered = s.ordered;
    genuine = s.genuine;
    work_ok = s.work_ok;
    sites_ok = s.sites_ok;
    indirects_ok = All-append IndirectOk w.eng.indirects (ind ∷ []) s.indirects_ok (h, tt);
  }

  pub push_unresolved-Sound :
      (pc bank : ℕ) (kind : UnresolvedKind) (w : World)
      → Sound w
      → Sound (push_unresolved pc bank kind w)
  push_unresolved-Sound pc bank kind w s = record {
    ordered = s.ordered;
    genuine = s.genuine;
    work_ok = s.work_ok;
    sites_ok = s.sites_ok;
    indirects_ok = s.indirects_ok;
  }

  -- The optional note of an unresolved jump.
  pub note_first-Sound :
      (first : Bool) (pc bank : ℕ) (kind : UnresolvedKind) (w : World)
      → Sound w
      → Sound (if first then push_unresolved pc bank kind w else w)
  note_first-Sound true pc bank kind w s = push_unresolved-Sound pc bank kind w s
  note_first-Sound false pc bank kind w s = s
