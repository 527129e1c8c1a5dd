-- ===== src/Reach/Handlers.antt =====
-- reach.rs: branches, calls, jumps and returns keep the invariant.
use decomps_agent.Prelude.{
  ℕ, ◌≡◌, ◌∙◌, refl, sym, inl, inr, arith, Bool, true, ◌&&◌, leb, ltb, ◌==◌, Bool-cases,
  Option-cases, List, [], ◌∷◌, Option, none, some, length, drop, All-append, All-drop, ◌-◌, ap,
  subst,
}
use decomps_agent.Ines.{Rom}
use decomps_agent.Mapper.State.{BankState, RomLoc}
use decomps_agent.Mapper.Chip.{Mapper}
use decomps_agent.Mapper.Address.{cpu_to_rom, read_u16}
use decomps_agent.Cpu.Insn.{Insn}
use decomps_agent.Cpu.Flow.{is_branch, is_jsr, is_jmp_abs, is_jmp_ind, target}
use decomps_agent.Render.{hex4}
use decomps_agent.Reach.State.{
  Item, World, jsr_outside_rom, jmp_outside_rom, indirect_jump, rts_jump_table, pointer,
}
use decomps_agent.Reach.Record.{edge, add_sub}
use decomps_agent.Reach.Replay.{unwrap_or}
use decomps_agent.Reach.Flow.{
  follow, push_site, call_site, branch_at, link_call, enter_call, call_at, jump_at, pointed,
  indirect_to, dispatch, rts_trick, loads_indexed, is_pha, both, keep_eight, on_return,
}
use decomps_agent.Reach.Pass.{Start}
use decomps_agent.Reach.Frame.{replay_vram-insns}
use decomps_agent.Reach.Relation.{Goes, Reaches, Shown}
use decomps_agent.Reach.Invariant.{
  Sound, LeadsTo, AreShown, retraced-Sound, push_work-Sound, push_indirect-Sound, note_first-Sound,
}

module _ (rom : Rom) (m : Mapper) (entries : List Start) where
  -- Wherever the instruction leads from here is reached.
  abbrev pub Here : Insn → Item → Type 0
  Here i it =
      (pc' : ℕ) (st' : BankState)
      → Goes rom m entries i it.pc it.st pc' st'
      → Reaches rom m entries pc' st'

  pub branch_at-Sound :
      (o : Option ℕ) (loc : RomLoc) (i : Insn) (it : Item) (w : World)
      → target i it.pc ≡ o
      → is_branch i ≡ true
      → Here i it
      → Sound rom m entries w
      → Sound rom m entries (branch_at rom m o loc it w)
  unfolding edge
  branch_at-Sound none loc i it w e b h s = s
  branch_at-Sound (some tgt) loc i it w e b h s = elim (Option-cases (cpu_to_rom m rom tgt it.st)) [
    | inl out ↦ rw out s
    | inr (tl, at) ↦ rw at (
        push_work-Sound rom m entries (follow tgt it) _ (h tgt it.st (Goes.branch tgt b e))
          (retraced-Sound rom m entries w _ refl s))
  ]

  push_site-Sound :
      (tgt : ℕ) (loc tl : RomLoc) (i : Insn) (it : Item) (w : World)
      → is_jsr i ≡ true
      → i.operand ≡ some tgt
      → Here i it
      → Sound rom m entries w
      → Sound rom m entries (push_site (call_site tgt loc tl it) w)
  push_site-Sound tgt loc tl i it w j e h s = record {
    ordered = s.ordered;
    genuine = s.genuine;
    work_ok = s.work_ok;
    sites_ok =
        All-append _ w.eng.call_sites _ s.sites_ok
          (λ regs. h _ _ (Goes.behind_call tgt regs j e), tt);
    indirects_ok = s.indirects_ok;
  }

  enter_call-Sound :
      (tgt : ℕ) (loc tl : RomLoc) (i : Insn) (it : Item) (w : World)
      → is_jsr i ≡ true
      → i.operand ≡ some tgt
      → Here i it
      → Sound rom m entries w
      → Sound rom m entries (enter_call rom m tgt loc tl it w).1
  unfolding enter_call link_call edge add_sub
  enter_call-Sound tgt loc tl i it w j e h s =
      let linked = retraced-Sound rom m entries w (link_call rom m loc tl it w.trace) refl s in
      let sited = push_site-Sound tgt loc tl i it _ j e h linked in
      let queued =
        push_work-Sound rom m entries (record it { pc = tgt; sub = some tl.file_offset }) _
          (h tgt it.st (Goes.call tgt j e)) sited in
      retraced-Sound rom m entries _ _
        (replay_vram-insns rom m 3 _ tgt it.regs it.st it.vram (hex4 tgt) it.pc _ _) queued

  pub call_at-Sound :
      (o : Option ℕ) (first : Bool) (loc : RomLoc) (i : Insn) (it : Item) (w : World)
      → is_jsr i ≡ true
      → i.operand ≡ o
      → Here i it
      → Sound rom m entries w
      → Sound rom m entries (call_at rom m o first loc it w).1
  call_at-Sound none first loc i it w j e h s = s
  call_at-Sound (some tgt) first loc i it w j e h s =
      elim (Option-cases (cpu_to_rom m rom tgt it.st)) [
        | inl out ↦ rw out (note_first-Sound rom m entries first it.pc loc.bank jsr_outside_rom w s)
        | inr (tl, at) ↦ rw at (enter_call-Sound tgt loc tl i it w j e h s)
      ]

  -- A call leaves the item at its place: only its VRAM state changes.
  pub call_at-place :
      (o : Option ℕ) (first : Bool) (loc : RomLoc) (it : Item) (w : World)
      → ((call_at rom m o first loc it w).0.pc ≡ it.pc)
        × ((call_at rom m o first loc it w).0.st ≡ it.st)
  unfolding enter_call
  call_at-place none first loc it w = (refl, refl)
  call_at-place (some tgt) first loc it w = elim (Option-cases (cpu_to_rom m rom tgt it.st)) [
    | inl out ↦ rw out (refl, refl)
    | inr (tl, at) ↦ rw at (refl, refl)
  ]

  pub jump_at-Sound :
      (o : Option ℕ) (first : Bool) (loc : RomLoc) (i : Insn) (it : Item) (w : World)
      → is_jmp_abs i ≡ true
      → i.operand ≡ o
      → Here i it
      → Sound rom m entries w
      → Sound rom m entries (jump_at rom m o first loc it w)
  unfolding edge
  jump_at-Sound none first loc i it w j e h s = s
  jump_at-Sound (some tgt) first loc i it w j e h s =
      elim (Option-cases (cpu_to_rom m rom tgt it.st)) [
        | inl out ↦ rw out (note_first-Sound rom m entries first it.pc loc.bank jmp_outside_rom w s)
        | inr (tl, at) ↦ rw at (
            push_work-Sound rom m entries (follow tgt it) _ (h tgt it.st (Goes.jump tgt j e))
              (retraced-Sound rom m entries w _ refl s))
      ]

  -- The pointer in the ROM that `pointed` reads.
  pointed-Goes :
      (i : Insn) (it : Item) (tgt : ℕ) (tl : RomLoc)
      → is_jmp_ind i ≡ true
      → pointed rom m (unwrap_or i.operand 0) it.st ≡ some (tgt, tl)
      → Goes rom m entries i it.pc it.st tgt it.st
  pointed-Goes i it tgt tl j e =
      elim (Option-cases (cpu_to_rom m rom (unwrap_or i.operand 0) it.st)) [
        | inl none_there ↦ absurd (ground (arith, none_there))
        | inr (pl, at) ↦ elim (Option-cases (read_u16 rom.prg pl.file_offset)) [
          | inl short ↦ absurd (ground (arith, at, short))
          | inr (word, read) ↦ elim (Option-cases (cpu_to_rom m rom word it.st)) [
            | inl out ↦ absurd (ground (arith, at, read, out))
            | inr (there, found) ↦
                let same : word ≡ tgt = ground (arith, at, read, found) in
                Goes.jump_through pl tgt j at (read ∙ ap some same)
          ]
        ]
      ]

  pub indirect_to-Sound :
      (o : Option (ℕ × RomLoc)) (first : Bool) (loc : RomLoc) (i : Insn) (it : Item) (w : World)
      → pointed rom m (unwrap_or i.operand 0) it.st ≡ o
      → is_jmp_ind i ≡ true
      → Here i it
      → Sound rom m entries w
      → Sound rom m entries (indirect_to rom m o (unwrap_or i.operand 0) first loc it w)
  unfolding edge
  indirect_to-Sound (some (tgt, tl)) first loc i it w e j h s =
      push_work-Sound rom m entries (follow tgt it) _ (h tgt it.st (pointed-Goes i it tgt tl j e))
        (retraced-Sound rom m entries w _ refl s)
  indirect_to-Sound none first loc i it w e j h s =
      note_first-Sound rom m entries first it.pc loc.bank indirect_jump _
        (push_indirect-Sound rom m entries _ w (leads j h) s)
    where
      leads :
          is_jmp_ind i ≡ true
          → Here i it
          → (tgt : ℕ) → LeadsTo rom m entries (pointer (unwrap_or i.operand 0)) it.st tgt
          → Reaches rom m entries tgt it.st
      leads jumps here tgt (inl (l, h, put_l, put_h, same)) =
          subst (λ t. Reaches rom m entries t it.st) (sym same)
            (here _ it.st (Goes.stored_word l h jumps put_l put_h))
      leads jumps here tgt (inr (lo, hi, from_lo, from_hi, entry)) =
          here tgt it.st (Goes.stored_table lo hi tgt jumps from_lo from_hi entry)

  -- The two loads of the trick, the high table's before the low one's.
  abbrev Loads : ℕ → ℕ → Type 0
  Loads lo hi =
      (high : Insn) × (low : Insn) × Shown rom m entries high
      × Shown rom m entries low
      × ((loads_indexed high && loads_indexed low) ≡ true)
      × (high.operand ≡ some hi)
      × (low.operand ≡ some lo)

  both-some :
      (o p : Option ℕ) (lo hi : ℕ) → both o p ≡ some (lo, hi) → (o ≡ some hi) × (p ≡ some lo)
  both-some none none lo hi e = absurd (cc)
  both-some none (some y) lo hi e = absurd (cc)
  both-some (some x) none lo hi e = absurd (cc)
  both-some (some x) (some y) lo hi e = (cc, cc)

  rts_trick-Loads :
      (is : List Insn) (lo hi : ℕ)
      → AreShown rom m entries is
      → rts_trick is ≡ some (lo, hi)
      → Loads lo hi
  unfolding rts_trick
  rts_trick-Loads [] lo hi ok e = absurd (cc)
  rts_trick-Loads (a ∷ []) lo hi ok e = absurd (cc)
  rts_trick-Loads (a ∷ b ∷ []) lo hi ok e = absurd (cc)
  rts_trick-Loads (a ∷ b ∷ c ∷ []) lo hi ok e = absurd (cc)
  rts_trick-Loads (a ∷ b ∷ c ∷ d ∷ x ∷ rest) lo hi ok e = absurd (cc)
  rts_trick-Loads (a ∷ b ∷ c ∷ d ∷ []) lo hi (ok_a, (ok_b, (ok_c, ok))) e =
      elim (Bool-cases
        (loads_indexed a && is_pha b.mnemonic && loads_indexed c && is_pha d.mnemonic)) [
          | inl trick ↦
              let (at_hi, at_lo) = both-some a.operand c.operand lo hi (ground (arith, e)) in
              (a, c, ok_a, ok_c, ground (arith, trick), at_hi, at_lo)
          | inr other ↦ absurd (ground (arith, e))
        ]

  dispatch-Sound :
      (o : Option (ℕ × ℕ)) (first : Bool) (loc : RomLoc) (i : Insn) (it : Item) (w : World)
      → ((lo hi : ℕ) → o ≡ some (lo, hi) → Loads lo hi)
      → (i.opcode == 0x60) ≡ true
      → Here i it
      → Sound rom m entries w
      → Sound rom m entries (dispatch o first loc it w)
  dispatch-Sound none first loc i it w loads j h s = s
  dispatch-Sound (some (lo, hi)) first loc i it w loads j h s =
      let (high, low, show_hi, show_lo, indexed_loads, at_hi, at_lo) = loads lo hi refl in
      note_first-Sound rom m entries first it.pc loc.bank rts_jump_table _ (
        push_indirect-Sound rom m entries _ w
          (λ tgt entry. h tgt it.st (
            Goes.pushed_table high low lo hi tgt j show_hi show_lo indexed_loads at_hi at_lo entry))
          s)

  pub on_return-Sound :
      (first : Bool) (recent : List Insn) (loc : RomLoc) (i : Insn) (it : Item) (w : World)
      → AreShown rom m entries recent
      → Here i it
      → Sound rom m entries w
      → Sound rom m entries (on_return first recent loc i it w)
  unfolding on_return
  on_return-Sound first recent loc i it w seen h s =
      elim (Bool-cases (i.opcode == 0x60 && leb 4 (length recent))) [
        | inl trick ↦
            let last = drop (length recent - 4) recent in
            let ok = All-drop (Shown rom m entries) (length recent - 4) recent seen in
            rw trick (
              dispatch-Sound (rts_trick last) first loc i it w
                (λ lo hi e. rts_trick-Loads last lo hi ok e) (ground (arith, trick)) h s)
        | inr other ↦ rw other s
      ]

  pub keep_eight-AreShown :
      (recent : List Insn)
      → AreShown rom m entries recent
      → AreShown rom m entries (keep_eight recent)
  keep_eight-AreShown recent ok = elim (Bool-cases (ltb 8 (length recent))) [
    | inl long ↦ rw long (All-drop (Shown rom m entries) 1 recent ok)
    | inr short ↦ rw short ok
  ]
