-- ===== src/Reach/Stores.antt =====
-- reach.rs: the effects of one instruction keep the invariant.
use decomps_agent.Prelude.{
  ℕ, ◌≡◌, refl, inl, inr, Bool, true, false, ◌&&◌, leb, Bool-cases, Option-cases, List, Option,
  none, some,
}
use decomps_agent.Ines.{Rom}
use decomps_agent.Mapper.State.{RomLoc}
use decomps_agent.Mapper.Chip.{Mapper, on_write, is_mapper_reg}
use decomps_agent.Cpu.Insn.{Insn}
use decomps_agent.Cpu.Flow.{is_store, indexed, mem_operand}
use decomps_agent.Sim.{stored}
use decomps_agent.Vram.{Event}
use decomps_agent.Reach.State.{Item, World}
use decomps_agent.Reach.World.{add_helper}
use decomps_agent.Reach.Effects.{bank_effect, bank_step, record_step, vram_step}
use decomps_agent.Reach.Pass.{Start}
use decomps_agent.Reach.Frame.{record_vram-insns}
use decomps_agent.Reach.Relation.{Effect, unchanged, written, written_unknown}
use decomps_agent.Reach.Invariant.{Sound, retraced-Sound}

module _ (rom : Rom) (m : Mapper) (entries : List Start) where
  add_helper-Sound :
      (o : Option ℕ) (w : World) → Sound rom m entries w → Sound rom m entries (add_helper o w)
  add_helper-Sound none w s = s
  add_helper-Sound (some sub) w s = record {
    ordered = s.ordered;
    genuine = s.genuine;
    work_ok = s.work_ok;
    sites_ok = s.sites_ok;
    indirects_ok = s.indirects_ok;
  }

  -- What a store to a register of the mapper does is an effect, and the program counter stays.
  abbrev pub Affects : Insn → Item → Item × World → Type 0
  Affects i it (after, w) = Effect m i it.st after.st × (after.pc ≡ it.pc) × Sound rom m entries w

  bank_effect-Affects :
      (value : Option ℕ) (is_indexed : Bool) (op : ℕ) (loc : RomLoc) (i : Insn) (it : Item)
      (w : World)
      → mem_operand i ≡ some op
      → (is_store i && leb 0x8000 op && is_mapper_reg m op) ≡ true
      → Sound rom m entries w
      → Affects i it (bank_effect m value is_indexed op loc it w)
  unfolding bank_effect
  bank_effect-Affects none is_indexed op loc i it w e h s =
      (written_unknown op e h, refl, retraced-Sound rom m entries w _ refl s)
  bank_effect-Affects (some value) true op loc i it w e h s =
      (written_unknown op e h, refl, retraced-Sound rom m entries w _ refl s)
  bank_effect-Affects (some value) false op loc i it w e h s =
      elim (Option-cases (on_write m op value it.st).1) [
        | inl quiet ↦ rw quiet (written op value e h, refl, s)
        | inr (sw, switched) ↦
            rw switched (written op value e h, refl, retraced-Sound rom m entries w _ refl s)
      ]

  pub bank_step-Affects :
      (o : Option ℕ) (loc : RomLoc) (i : Insn) (it : Item) (w : World)
      → mem_operand i ≡ o
      → Sound rom m entries w
      → Affects i it (bank_step m o loc i it w)
  unfolding bank_step
  bank_step-Affects none loc i it w e s = (unchanged, refl, s)
  bank_step-Affects (some op) loc i it w e s =
      elim (Bool-cases (is_store i && leb 0x8000 op && is_mapper_reg m op)) [
        | inl h ↦ rw h (
            bank_effect-Affects (stored i it.regs).v (indexed i) op loc i it (add_helper it.sub w) e
              h (add_helper-Sound it.sub w s))
        | inr other ↦ rw other (unchanged, refl, s)
      ]

  record_step-Sound :
      (o : Option Event) (loc : RomLoc) (it : Item) (w : World)
      → Sound rom m entries w
      → Sound rom m entries (record_step o loc it w)
  record_step-Sound none loc it w s = s
  record_step-Sound (some ev) loc it w s =
      retraced-Sound rom m entries w _ (record_vram-insns ev _ _ _ _ _ _ w.trace) s

  pub vram_step-Sound :
      (loc : RomLoc) (i : Insn) (it : Item) (w : World)
      → Sound rom m entries w
      → Sound rom m entries (vram_step loc i it w).1
  unfolding vram_step
  vram_step-Sound loc i it w s = record_step-Sound _ loc it w s
