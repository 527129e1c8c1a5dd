-- ===== src/Vram/Bounds.antt =====
-- vram.rs: the address and the increment over a step.
use decomps_agent.Prelude.{
  ℕ, ◌+◌, ◌*◌, ◌^◌, ◌<◌, ◌≡◌, ◌⊎◌, inl, inr, refl, arith, bit_and, bit_or, ◌==◌, ◌!=◌, ◌||◌,
  Bool-cases, Option, none, some, List, [], ◌∷◌,
}
use decomps_agent.Prelude.Masks.{bit_and-mask}
use decomps_agent.Cpu.Insn.{Insn}
use decomps_agent.Cpu.Flow.{is_store, is_load}
use decomps_agent.Sim.{Val, Regs, stored}
use decomps_agent.Vram.{
  Queue, Parts, Vram, Origin, Event, addr_set, data_write, data_read, mem_target, origin_by,
  control, joined, addr_event, latch, access, parts_at, queued, complete, put_part, enqueue,
  step_store, step_read, reads_by, step_at, step,
}

abbrev pub IsAddr : Option ℕ → Type 0
IsAddr none = Unit
IsAddr (some a) = a < 0x4000

abbrev pub IsIncrement : Option ℕ → Type 0
IsIncrement none = Unit
IsIncrement (some n) = (n ≡ 1) ⊎ (n ≡ 32)

abbrev pub IsVram : Vram → Type 0
IsVram v = IsAddr v.addr × IsIncrement v.inc

abbrev pub IsEvent : Option Event → Type 0
IsEvent none = Unit
IsEvent (some (addr_set a)) = a < 0x4000
IsEvent (some (data_write a value reg queue)) = a < 0x4000
IsEvent (some (data_read a)) = a < 0x4000

abbrev pub IsStep : Vram × Option Event → Type 0
IsStep (v, event) = IsVram v × IsEvent event

mask-lt : (a : ℕ) → bit_and a 0x3FFF < 0x4000
mask-lt a = omega (arith, bit_and-mask 14 a)

control-IsStep : (n : Option ℕ) (v : Vram) → IsVram v → IsStep (control n v, none)
control-IsStep none v h = (h, tt)
control-IsStep (some c) v (ha, hi) = elim (Bool-cases (bit_and c 0x04 != 0)) [
  | inl down ↦ rw down ((ha, inr refl), tt)
  | inr across ↦ rw across ((ha, inl refl), tt)
]

joined-IsAddr : (h l : Option ℕ) → IsAddr (joined h l)
joined-IsAddr (some h) (some l) = mask-lt (bit_or (h * 2 ^ 8) l)
joined-IsAddr (some h) none = tt
joined-IsAddr none _ = tt

addr_event-IsEvent : (a : Option ℕ) → IsAddr a → IsEvent (addr_event a)
addr_event-IsEvent none h = h
addr_event-IsEvent (some a) h = h

latch-IsStep : (n : Option ℕ) (v : Vram) → IsVram v → IsStep (latch n v)
latch-IsStep n v (ha, hi) = elim (Bool-cases v.expect_lo) [
  | inl second ↦
      rw second
        ((joined-IsAddr v.hi n, hi), addr_event-IsEvent (joined v.hi n) (joined-IsAddr v.hi n))
  | inr first ↦ rw first ((tt, hi), tt)
]

access_write-IsStep :
    (a : Option ℕ) (value : Val) (reg : Origin) (v : Vram)
    → IsAddr a
    → IsVram v
    → IsStep (access a (λ n. data_write n value reg none) v)
access_write-IsStep none value reg v h k = (k, tt)
access_write-IsStep (some a) value reg v h k = ((mask-lt _, k.1), h)

access_read-IsStep : (a : Option ℕ) (v : Vram) → IsAddr a → IsVram v → IsStep (access a data_read v)
access_read-IsStep none v h k = (k, tt)
access_read-IsStep (some a) v h k = ((mask-lt _, k.1), h)

queued-IsEvent : (qi : ℕ) (h l : Option ℕ) (d : Val) → IsEvent (queued qi h l d)
queued-IsEvent qi (some h) (some l) d = mask-lt (bit_or (h * 2 ^ 8) l)
queued-IsEvent qi (some h) none d = tt
queued-IsEvent qi none _ d = tt

complete-IsStep :
    (qi : ℕ) (parts : Parts) (h l d : Option Val) (v : Vram)
    → IsVram v
    → IsStep (complete qi parts h l d v)
complete-IsStep qi parts (some h) (some l) (some d) v k = (k, queued-IsEvent qi h.v l.v d)
complete-IsStep qi parts (some h) (some l) none v k = (k, tt)
complete-IsStep qi parts (some h) none _ v k = (k, tt)
complete-IsStep qi parts none _ _ v k = (k, tt)

put_part-IsStep : (qi : ℕ) (parts : Parts) (v : Vram) → IsVram v → IsStep (put_part qi parts v)
put_part-IsStep qi parts v = complete-IsStep qi parts parts.hi_part parts.lo_part parts.val_part v

enqueue-IsStep :
    (queues : List Queue) (qi op : ℕ) (value : Val) (v : Vram)
    → IsVram v
    → IsStep (enqueue queues qi op value v)
unfolding enqueue
enqueue-IsStep [] qi op value v h = (h, tt)
enqueue-IsStep (q ∷ queues) qi op value v h = elim (Bool-cases (op == q.hi_n)) [
  | inl a ↦
      rw (a, enqueue)
        (let e = parts_at (v.pending qi) in
          put_part-IsStep qi
            (record { hi_part = some value; lo_part = e.lo_part; val_part = e.val_part }) v h)
  | inr a ↦ elim (Bool-cases (op == q.lo_n)) [
    | inl b ↦
        rw (a, b, enqueue)
          (let e = parts_at (v.pending qi) in
            put_part-IsStep qi
              (record { hi_part = e.hi_part; lo_part = some value; val_part = e.val_part }) v h)
    | inr b ↦ elim (Bool-cases (op == q.val_n)) [
      | inl c ↦
          rw (a, b, c, enqueue)
            (let e = parts_at (v.pending qi) in
              put_part-IsStep qi
                (record { hi_part = e.hi_part; lo_part = e.lo_part; val_part = some value }) v h)
      | inr c ↦ rw (a, b, c, enqueue) (enqueue-IsStep queues (qi + 1) op value v h)
    ]
  ]
]

step_store-IsStep :
    (op : ℕ) (value : Val) (reg : Origin) (v : Vram) (queues : List Queue)
    → IsVram v
    → IsStep (step_store op value reg v queues)
unfolding step_store
step_store-IsStep op value reg v queues h = elim (Bool-cases (op == 0x2000)) [
  | inl a ↦ rw (a, step_store) (control-IsStep value.v v h)
  | inr a ↦ elim (Bool-cases (op == 0x2006)) [
    | inl b ↦ rw (a, b, step_store) (latch-IsStep value.v v h)
    | inr b ↦ elim (Bool-cases (op == 0x2007)) [
      | inl c ↦ rw (a, b, c, step_store) (access_write-IsStep v.addr value reg v h.0 h)
      | inr c ↦ rw (a, b, c, step_store) (enqueue-IsStep queues 0 op value v h)
    ]
  ]
]

step_read-IsStep : (op : ℕ) (v : Vram) → IsVram v → IsStep (step_read op v)
unfolding step_read
step_read-IsStep op v h = elim (Bool-cases (op == 0x2002)) [
  | inl a ↦ rw (a, step_read) (h, tt)
  | inr a ↦ elim (Bool-cases (op == 0x2007)) [
    | inl b ↦ rw (a, b, step_read) (access_read-IsStep v.addr v h.0 h)
    | inr b ↦ rw (a, b, step_read) (h, tt)
  ]
]

step_at-IsStep :
    (target : Option ℕ) (i : Insn) (r : Regs) (v : Vram) (queues : List Queue)
    → IsVram v
    → IsStep (step_at target i r v queues)
step_at-IsStep none i r v queues h = (h, tt)
step_at-IsStep (some op) i r v queues h = elim (Bool-cases (is_store i)) [
  | inl a ↦ rw a (step_store-IsStep op (stored i r) (origin_by i.mnemonic) v queues h)
  | inr a ↦ elim (Bool-cases (is_load i || reads_by i.mnemonic)) [
    | inl b ↦ rw (a, b) (step_read-IsStep op v h)
    | inr b ↦ rw (a, b) (h, tt)
  ]
]

-- Whatever the instruction, the registers and the queues are, a step keeps the tracked address inside
-- the 16 KB of VRAM and the increment 1 or 32, and every event it reports is at an address there.
pub step-IsStep :
    (i : Insn) (r : Regs) (v : Vram) (queues : List Queue) → IsVram v → IsStep (step i r v queues)
unfolding step
step-IsStep i r v queues = step_at-IsStep (mem_target i) i r v queues
