-- ===== src/Disasm/Linear.antt =====
-- disasm.rs: the lines of a linear listing.
use decomps_agent.Prelude.{
  ℕ, zero, suc, ◌+◌, ◌%◌, ◌^◌, ◌≤◌, ◌<◌, ◌≡◌, ◌⊎◌, refl, sym, inl, inr, arith, true, false, ltb,
  Bool-cases, List, [], ◌∷◌, Option, none, some, get_or, IsByte, All, All-get_or, subst,
  Option-cases,
}
use decomps_agent.Errors.{Error, Result, err, ok}
use decomps_agent.Ines.{Rom}
use decomps_agent.Mapper.State.{BankState, RomLoc}
use decomps_agent.Mapper.Chip.{Mapper}
use decomps_agent.Mapper.Address.{cpu_to_rom, resolve}
use decomps_agent.Cpu.Insn.Lengths.{decode-prefix}
use decomps_agent.Sim.{Regs}
use decomps_agent.Vram.{Vram, Event, step}
use decomps_agent.Reach.State.{no_regs, no_vram}
use decomps_agent.Reach.Targets.{insn_at}
use decomps_agent.Disasm.{
  Line, line, merge_event, cons_line, goes_on, linear_loop, with_bank, apply_labels, linear,
}

-- The line at `pc`, behind `n` others, is asked for, or lies behind what is: with an end, which is an
-- address, by the address alone, and without one by the number of lines.
abbrev pub IsWanted : Option ℕ → ℕ → ℕ → ℕ → Type 0
IsWanted none count pc n = n < count
IsWanted (some e) count pc n = pc ≤ e

abbrev pub IsBehind : Option ℕ → ℕ → ℕ → ℕ → Type 0
IsBehind none count pc n = count ≤ n
IsBehind (some e) count pc n = e < pc

goes_on-IsWanted :
    (end : Option ℕ) (count pc n : ℕ) → goes_on end count pc n ≡ true → IsWanted end count pc n
goes_on-IsWanted none count pc n h = ground arith
goes_on-IsWanted (some e) count pc n h = ground arith

goes_on-IsBehind :
    (end : Option ℕ) (count pc n : ℕ)
    → n ≤ pc
    → pc < 2 ^ 16
    → goes_on end count pc n ≡ false
    → IsBehind end count pc n
goes_on-IsBehind none count pc n le lt h = ground arith
goes_on-IsBehind (some e) count pc n le lt h = ground arith

module _ (rom : Rom) (m : Mapper) (end : Option ℕ) (count : ℕ) (st : BankState) where
  -- The line of the instruction that the ROM shows at `pc`.
  abbrev pub Describes : ℕ → RomLoc → Line → Type 0
  Describes pc loc l =
      (cpu_to_rom m rom pc st ≡ some loc)
      × (l.addr_num ≡ pc)
      × (l.file_offset ≡ loc.file_offset)
      × (l.bank ≡ loc.bank)
      × (l.insn ≡ insn_at rom.prg loc.file_offset)

  -- Lines from `pc` on, each behind the one before, behind `n` others: up to the number or the end that
  -- was asked for, to what is no ROM, or to the end of the addresses.
  unfoldable pub IsListing : ℕ → ℕ → List Line → Type 0
  IsListing pc n [] = IsBehind end count pc n ⊎ ((cpu_to_rom m rom pc st ≡ none) ⊎ (2 ^ 16 ≤ pc))
  IsListing pc n (l ∷ ls) =
      IsWanted end count pc n
      × ((loc : RomLoc) × Describes pc loc l)
      × IsListing (pc + l.insn.len) (n + 1) ls

  Lists : ℕ → ℕ → Option (List Line) → Type 0
  Lists pc n result = (ls : List Line) × (result ≡ some ls) × IsListing pc n ls

  merge_event-Describes :
      (pc : ℕ) (loc : RomLoc) (ev : Option Event) (l : Line)
      → Describes pc loc l
      → Describes pc loc (merge_event ev l)
  merge_event-Describes pc loc none l d = d
  merge_event-Describes pc loc (some ev) l d = d

  cpu_addr : (pc : ℕ) (loc : RomLoc) → cpu_to_rom m rom pc st ≡ some loc → loc.cpu_addr ≡ pc
  unfolding cpu_to_rom
  cpu_addr pc loc e = ground arith

  line-Describes :
      (pc : ℕ) (loc : RomLoc)
      → cpu_to_rom m rom pc st ≡ some loc
      → Describes pc loc (line (insn_at rom.prg loc.file_offset) loc m)
  unfolding line
  line-Describes pc loc e = (e, cpu_addr pc loc e, refl, refl, refl)

  Lists-at :
      (pc pc' n : ℕ) (result : Option (List Line))
      → pc ≡ pc'
      → Lists pc n result
      → Lists pc' n result
  Lists-at pc pc' n result same = subst (λ k. Lists k n result) same

  cons_line-Lists :
      (pc n : ℕ) (loc : RomLoc) (l : Line) (rest : Option (List Line))
      → IsWanted end count pc n
      → Describes pc loc l
      → Lists (pc + (insn_at rom.prg loc.file_offset).len) (n + 1) rest
      → Lists pc n (cons_line l rest)
  unfolding Lists IsListing
  cons_line-Lists pc n loc l rest more d (ls, e, listed) =
      let (shown, addr, offset, bank, same) = d in
      (
        l ∷ ls,
        rw e refl,
        (more, (loc, d), subst (λ i. IsListing (pc + i.len) (n + 1) ls) (sym same) listed),
      )

  module _ (bytes : All IsByte rom.prg) where
    insn_at_len : (off : ℕ) → let i = insn_at rom.prg off in (1 ≤ i.len) × (i.len ≤ 3)
    unfolding insn_at
    insn_at_len off =
        let p =
          decode-prefix (get_or rom.prg off 0) _
            (All-get_or IsByte rom.prg off 0 (omega arith) bytes) in
        (p.0, p.1)

    linear_loop-Lists :
        (fuel pc n : ℕ) (regs : Regs) (vs : Vram)
        → n ≤ pc
        → pc < 2 ^ 16
        → 2 ^ 16 < fuel + pc
        → Lists pc n (linear_loop rom m end count st fuel pc n regs vs)
    unfolding linear_loop Lists IsListing
    linear_loop-Lists zero pc n regs vs le h enough = absurd (omega arith)
    linear_loop-Lists (suc fuel) pc n regs vs le h enough =
        elim (Bool-cases (goes_on end count pc n)) [
          | inr stop ↦
              rw (stop, linear_loop) ([], refl, inl (goes_on-IsBehind end count pc n le h stop))
          | inl goes ↦
              let more = goes_on-IsWanted end count pc n goes in
              elim (Option-cases (cpu_to_rom m rom pc st)) [
                | inl gone ↦ rw (goes, gone, linear_loop) ([], refl, inr (inl gone))
                | inr (loc, found) ↦
                    let i = insn_at rom.prg loc.file_offset in
                    let len = insn_at_len loc.file_offset in
                    let next = (pc + i.len) % 2 ^ 16 in
                    let ev = (step i regs vs []).1 in
                    let l = merge_event ev (line i loc m) in
                    let d =
                      merge_event-Describes pc loc ev (line i loc m)
                        (line-Describes pc loc found) in
                    elim (Bool-cases (ltb next pc)) [
                      | inl wrapped ↦
                          rw (goes, found, wrapped, linear_loop)
                            (cons_line-Lists pc n loc l (some []) more d
                              ([], refl, inr (inr (ground arith))))
                      | inr ahead ↦
                          let at : next ≡ pc + i.len = ground arith in
                          rw (goes, found, ahead, linear_loop)
                            (cons_line-Lists pc n loc l _ more d (
                              Lists-at next (pc + i.len) (n + 1) _ at (
                                linear_loop-Lists fuel next (n + 1) _ _ (omega (arith, len))
                                  (omega arith) (omega (arith, len)))))
                    ]
              ]
        ]

-- A linear listing ends: with the error of its first address, or with lines that follow each other and
-- each show what the ROM has at their address. With an end each line begins at or before it, and without
-- one there are no more than the number of lines asked for; the listing is no shorter than that, unless
-- it comes to what is no ROM or to the end of the addresses. The labels are put on the lines at last.
-- The ROM is made of bytes and the start has 16 bits.
pub linear-IsListing :
    (rom : Rom) (m : Mapper) (start : ℕ) (bank end : Option ℕ) (count : ℕ) (st : BankState)
    → All IsByte rom.prg
    → start < 2 ^ 16
    → ((e : Error) × (resolve m rom start bank st ≡ err e)
        × (linear rom m start bank end count st ≡ some (err e)))
      ⊎ ((ls : List Line) × (linear rom m start bank end count st ≡ some (ok (apply_labels ls)))
          × IsListing rom m end count (with_bank m start bank st) start 0 ls)
unfolding linear Lists
linear-IsListing rom m start bank end count st bytes h =
    elim (result_cases (resolve m rom start bank st)) [
      | inl (e, refused) ↦ inl (e, refused, rw (refused, linear) refl)
      | inr (first, found) ↦
          let (ls, e, listed) =
            linear_loop-Lists rom m end count (with_bank m start bank st) bytes (2 ^ 16 + 1) start 0
              no_regs no_vram (omega arith) h (omega arith) in
          inr (ls, rw (found, linear, e) refl, listed)
    ]
  where
    result_cases :
        (r : Result RomLoc) → ((e : Error) × (r ≡ err e)) ⊎ ((loc : RomLoc) × (r ≡ ok loc))
    result_cases (err e) = inl (e, refl)
    result_cases (ok loc) = inr (loc, refl)
