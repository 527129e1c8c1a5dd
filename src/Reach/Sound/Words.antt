-- ===== src/Reach/Sound/Words.antt =====
-- reach.rs: the targets of a pending jump are words that the flow puts together.
use decomps_agent.Prelude.{
  ℕ, zero, suc, ◌+◌, ◌%◌, ◌^◌, ◌≡◌, ◌∙◌, refl, sym, ap, subst, inl, inr, arith, Bool, true, false,
  not, ◌&&◌, leb, ltb, Bool-cases, Option-cases, List, [], ◌∷◌, Option, none, some, take, All,
  All-append,
}
use decomps_agent.Ines.{Rom}
use decomps_agent.Mapper.State.{BankState}
use decomps_agent.Mapper.Chip.{Mapper}
use decomps_agent.Cpu.Table.{Mode, imm, abx, aby}
use decomps_agent.Cpu.Insn.{Insn}
use decomps_agent.Cpu.Flow.{indexed, mem_operand}
use decomps_agent.Sim.{is_imm}
use decomps_agent.Reach.Maps.{Holds, values}
use decomps_agent.Reach.State.{
  TraceInsn, Trace, IndKind, pointer, rts_table_at, rts_table, indirect_table,
}
use decomps_agent.Reach.Targets.{
  insn_at, table_targets, is_sta, is_lda, fills_pointer, at_pointer, before, find_lda, Sources,
  add_imm, add_table, add_load, add_source, gather, imm_row, imm_pairs, table_row, table_pairs,
  pointer_targets, sort_targets, dedup_targets,
}
use decomps_agent.Reach.Flow.{loads_indexed}
use decomps_agent.Reach.Pass.{Start}
use decomps_agent.Reach.Resolve.{targets_of}
use decomps_agent.Reach.Relation.{Shown, shown, Puts, puts, PutsFrom, puts_from, StoresAt, InTables}
use decomps_agent.Reach.Invariant.{Genuine, LeadsTo}
use decomps_agent.Reach.Sound.Tables.{
  AllTargets, sort-AllTargets, dedup-AllTargets, weaken, append-AllTargets, table_targets-InTables,
}

module _ (rom : Rom) (m : Mapper) where
  module _ (entries : List Start) where
    Seen : List TraceInsn → Type 0
    Seen tis = All (λ ti. Shown rom m entries ti.insn) tis

    values-Seen :
        (insns : List (ℕ × TraceInsn)) → Holds (Genuine rom m entries) insns → Seen (values insns)
    unfolding Holds values Genuine Seen
    values-Seen [] h = tt
    values-Seen ((k, ti) ∷ insns) ((off, inside, same, (st, loc, r, at, place)), hs) =
        let here : insn_at rom.prg loc.file_offset ≡ ti.insn =
          ap (insn_at rom.prg) place ∙ sym same in
        (
          subst (λ i. Shown rom m entries i) here (shown ti.cpu_addr st loc r at),
          values-Seen insns hs,
        )

    take-Seen : (n : ℕ) (tis : List TraceInsn) → Seen tis → Seen (take n tis)
    unfolding Seen
    take-Seen zero tis h = tt
    take-Seen (suc n) [] h = tt
    take-Seen (suc n) (ti ∷ tis) (h, hs) = (h, take-Seen n tis hs)

    before-Seen :
        (off : ℕ) (near tis : List TraceInsn) → Seen near → Seen tis → Seen (before off near tis)
    unfolding before Seen
    before-Seen off near [] hn h = take-Seen 6 near hn
    before-Seen off near (ti ∷ tis) hn (h, hs) = elim (Bool-cases (ltb ti.file_offset off)) [
      | inl earlier ↦ rw (earlier, before) (before-Seen off (ti ∷ near) tis (h, hn) hs)
      | inr later ↦ rw (later, before) (take-Seen 6 near hn)
    ]

    -- A load that was found is an `LDA` that the flow reaches.
    IsLoad : Option Insn → Type 0
    IsLoad none = Unit
    IsLoad (some i) = Shown rom m entries i × (is_lda i.mnemonic ≡ true)

    find_lda-IsLoad : (tis : List TraceInsn) → Seen tis → IsLoad (find_lda tis)
    unfolding find_lda Seen IsLoad
    find_lda-IsLoad [] h = tt
    find_lda-IsLoad (ti ∷ tis) (h, hs) = elim (Bool-cases (is_lda ti.insn.mnemonic)) [
      | inl load ↦ rw load (h, load)
      | inr other ↦ rw other (find_lda-IsLoad tis hs)
    ]

    half : ℕ → Bool → ℕ
    half ptr false = ptr
    half ptr true = (ptr + 1) % 2 ^ 16

    fills_pointer-StoresAt :
        (ptr : ℕ) (i : Insn) (is_hi : Bool)
        → fills_pointer ptr i ≡ some is_hi
        → StoresAt i (half ptr is_hi)
    unfolding fills_pointer half
    fills_pointer-StoresAt ptr i is_hi e =
        elim (Bool-cases (is_sta i.mnemonic && not (indexed i))) [
          | inl store ↦
              (store, stored (mem_operand i) is_hi (let f = e in ground (arith, f, store)))
          | inr other ↦ absurd (ground (arith, e, other))
        ]
      where
        stored :
            (o : Option ℕ) (b : Bool)
            → at_pointer o ptr ((ptr + 1) % 2 ^ 16) ≡ some b
            → o ≡ some (half ptr b)
        stored none b e = absurd (cc)
        stored (some op) true e = let at : op ≡ (ptr + 1) % 2 ^ 16 = ground arith in ap some at
        stored (some op) false e = let at : op ≡ ptr = ground arith in ap some at

    record SourcesOk (ptr : ℕ) (s : Sources) : Type 0 where
      words_lo : All (Puts rom m entries (half ptr false)) s.imm_lo
      words_hi : All (Puts rom m entries (half ptr true)) s.imm_hi
      tables_lo : All (PutsFrom rom m entries (half ptr false)) s.tab_lo
      tables_hi : All (PutsFrom rom m entries (half ptr true)) s.tab_hi

    add_imm-Ok :
        (ptr v : ℕ) (is_hi : Bool) (s : Sources)
        → Puts rom m entries (half ptr is_hi) (v % 256)
        → SourcesOk ptr s
        → SourcesOk ptr (add_imm is_hi v s)
    add_imm-Ok ptr v true s p ok = record {
      words_lo = ok.words_lo;
      words_hi = All-append (Puts rom m entries (half ptr true)) s.imm_hi _ ok.words_hi (p, tt);
      tables_lo = ok.tables_lo;
      tables_hi = ok.tables_hi;
    }
    add_imm-Ok ptr v false s p ok = record {
      words_lo = All-append (Puts rom m entries (half ptr false)) s.imm_lo _ ok.words_lo (p, tt);
      words_hi = ok.words_hi;
      tables_lo = ok.tables_lo;
      tables_hi = ok.tables_hi;
    }

    add_table-Ok :
        (ptr table : ℕ) (is_hi : Bool) (s : Sources)
        → PutsFrom rom m entries (half ptr is_hi) table
        → SourcesOk ptr s
        → SourcesOk ptr (add_table is_hi table s)
    add_table-Ok ptr table true s p ok = elim (Bool-cases (leb 0x8000 table)) [
      | inl prg ↦ rw prg (record {
        words_lo = ok.words_lo;
        words_hi = ok.words_hi;
        tables_lo = ok.tables_lo;
        tables_hi =
            All-append (PutsFrom rom m entries (half ptr true)) s.tab_hi _ ok.tables_hi (p, tt);
      })
      | inr low ↦ rw low ok
    ]
    add_table-Ok ptr table false s p ok = elim (Bool-cases (leb 0x8000 table)) [
      | inl prg ↦ rw prg (record {
        words_lo = ok.words_lo;
        words_hi = ok.words_hi;
        tables_lo =
            All-append (PutsFrom rom m entries (half ptr false)) s.tab_lo _ ok.tables_lo (p, tt);
        tables_hi = ok.tables_hi;
      })
      | inr low ↦ rw low ok
    ]

    add_load-Ok :
        (ptr : ℕ) (load store : Insn) (mode : Mode) (o : Option ℕ) (is_hi : Bool) (s : Sources)
        → load.mode ≡ mode
        → load.operand ≡ o
        → Shown rom m entries load
        → is_lda load.mnemonic ≡ true
        → Shown rom m entries store
        → StoresAt store (half ptr is_hi)
        → SourcesOk ptr s
        → SourcesOk ptr (add_load mode o is_hi s)
    add_load-Ok ptr load store imm (some v) is_hi s e f sl lda ss at ok =
        let form : (is_lda load.mnemonic && is_imm load.mode) ≡ true = rw (e, lda) refl in
        add_imm-Ok ptr v is_hi s (puts _ load store v sl ss form f at) ok
    add_load-Ok ptr load store abx (some v) is_hi s e f sl lda ss at ok =
        let form : loads_indexed load ≡ true = rw (e, lda) refl in
        add_table-Ok ptr v is_hi s (puts_from _ load store v sl ss form f at) ok
    add_load-Ok ptr load store aby (some v) is_hi s e f sl lda ss at ok =
        let form : loads_indexed load ≡ true = rw (e, lda) refl in
        add_table-Ok ptr v is_hi s (puts_from _ load store v sl ss form f at) ok
    add_load-Ok ptr load store _ _ is_hi s e f sl lda ss at ok = ok

    add_source-Ok :
        (ptr : ℕ) (store : Insn) (o : Option Insn) (is_hi : Bool) (s : Sources)
        → IsLoad o
        → Shown rom m entries store
        → StoresAt store (half ptr is_hi)
        → SourcesOk ptr s
        → SourcesOk ptr (add_source o is_hi s)
    unfolding IsLoad
    add_source-Ok ptr store none is_hi s l ss at ok = ok
    add_source-Ok ptr store (some ld) is_hi s (sl, lda) ss at ok =
        add_load-Ok ptr ld store ld.mode ld.operand is_hi s refl refl sl lda ss at ok

    gather-Ok :
        (ptr : ℕ) (tis left : List TraceInsn) (s : Sources)
        → Seen tis
        → Seen left
        → SourcesOk ptr s
        → SourcesOk ptr (gather ptr tis left s)
    unfolding gather Seen
    gather-Ok ptr tis [] s seen h ok = ok
    gather-Ok ptr tis (ti ∷ left) s seen (h, hs) ok =
        gather-Ok ptr tis left _ seen hs (elim (Option-cases (fills_pointer ptr ti.insn)) [
          | inl other ↦ rw other ok
          | inr (is_hi, fills) ↦
              let load = find_lda-IsLoad _ (before-Seen ti.file_offset [] tis tt seen) in
              rw fills (
                add_source-Ok ptr ti.insn _ is_hi s load h
                  (fills_pointer-StoresAt ptr ti.insn is_hi fills) ok)
        ])

    module _ (ptr : ℕ) (st : BankState) where
      Leads : ℕ → Type 0
      Leads = LeadsTo rom m entries (pointer ptr) st

      imm_row-Leads :
          (l : ℕ) (his : List ℕ)
          → Puts rom m entries (half ptr false) l
          → All (Puts rom m entries (half ptr true)) his
          → AllTargets Leads (imm_row l his)
      unfolding imm_row half Leads
      imm_row-Leads l [] p h = tt
      imm_row-Leads l (x ∷ his) p (q, h) = (inl (l, x, p, q, refl), imm_row-Leads l his p h)

      imm_pairs-Leads :
          (los his : List ℕ)
          → All (Puts rom m entries (half ptr false)) los
          → All (Puts rom m entries (half ptr true)) his
          → AllTargets Leads (imm_pairs los his)
      unfolding imm_pairs
      imm_pairs-Leads [] his p h = tt
      imm_pairs-Leads (l ∷ los) his (p, ps) h =
          append-AllTargets Leads (imm_row l his) _ (imm_row-Leads l his p h)
            (imm_pairs-Leads los his ps h)

      table_row-Leads :
          (lo : ℕ) (his : List ℕ)
          → PutsFrom rom m entries (half ptr false) lo
          → All (PutsFrom rom m entries (half ptr true)) his
          → AllTargets Leads (table_row rom m st lo his)
      unfolding table_row half Leads
      table_row-Leads lo [] p h = tt
      table_row-Leads lo (hi ∷ his) p (q, h) =
          append-AllTargets Leads (table_targets rom m lo hi st 0 indirect_table) _
            (weaken (InTables rom m lo hi st 0) Leads _ (λ tgt entry. inr (lo, hi, p, q, entry))
              (table_targets-InTables rom m lo hi st 0 indirect_table))
            (table_row-Leads lo his p h)

      table_pairs-Leads :
          (los his : List ℕ)
          → All (PutsFrom rom m entries (half ptr false)) los
          → All (PutsFrom rom m entries (half ptr true)) his
          → AllTargets Leads (table_pairs rom m st los his)
      unfolding table_pairs
      table_pairs-Leads [] his p h = tt
      table_pairs-Leads (lo ∷ los) his (p, ps) h =
          append-AllTargets Leads (table_row rom m st lo his) _ (table_row-Leads lo his p h)
            (table_pairs-Leads los his ps h)

      pointer_targets-Leads :
          (t : Trace)
          → Holds (Genuine rom m entries) t.insns
          → AllTargets Leads (pointer_targets rom m t ptr st)
      unfolding pointer_targets
      pointer_targets-Leads t genuine =
          let seen = values-Seen t.insns genuine in
          let ok =
            gather-Ok ptr (values t.insns) (values t.insns) _ seen seen
              (record { words_lo = tt; words_hi = tt; tables_lo = tt; tables_hi = tt }) in
          append-AllTargets Leads _ _ (imm_pairs-Leads _ _ ok.words_lo ok.words_hi)
            (table_pairs-Leads _ _ ok.tables_lo ok.tables_hi)

    targets-Leads :
        (kind : IndKind) (st : BankState) (t : Trace)
        → Holds (Genuine rom m entries) t.insns
        → AllTargets (LeadsTo rom m entries kind st) (targets_of rom m kind st t)
    unfolding Leads
    targets-Leads (pointer ptr) st t genuine = pointer_targets-Leads ptr st t genuine
    targets-Leads (rts_table_at lo hi) st t genuine =
        table_targets-InTables rom m lo hi st 1 rts_table

    -- All targets of a pending jump are words that it may lead to.
    pub sorted_targets-Leads :
        (kind : IndKind) (st : BankState) (t : Trace)
        → Holds (Genuine rom m entries) t.insns
        → AllTargets
            (LeadsTo rom m entries kind st)
            (dedup_targets (sort_targets (targets_of rom m kind st t)))
    sorted_targets-Leads kind st t genuine =
        dedup-AllTargets _ _ (sort-AllTargets _ _ (targets-Leads kind st t genuine))
