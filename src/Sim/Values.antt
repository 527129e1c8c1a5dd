-- ===== src/Sim/Values.antt =====
-- sim.rs: when the known values are those of the machine.
use decomps_agent.Prelude.{
  ℕ, zero, suc, ◌+◌, ◌%◌, ◌^◌, ◌≤◌, ◌<◌, ◌≡◌, inl, inr, refl, ap, arith, Bool, true, false, ◌==◌,
  leb, ltb, if◌then◌else◌, Bool-cases, Option, none, some, List, [], ◌∷◌, take,
}
use decomps_agent.Cpu.Table.{
  Mode, imp, acc, imm, zp, zpx, zpy, abs, abx, aby, ind, izx, izy, rel, Mnemonic, sta, stx, sty,
  lsr, asl, rol, ror, inc, dec,
}
use decomps_agent.Sim.{Val, Regs, map_option, or_memory, indexed_byte, load_by}
use decomps_agent.Sim.Machine.{Machine, fetch_by, write}

-- A value that is known is the machine's.
abbrev pub Holds : Option ℕ → ℕ → Type 0
Holds none n = Unit
Holds (some k) n = n ≡ k

abbrev pub HoldsAt : Option Val → ℕ → Type 0
HoldsAt none n = Unit
HoldsAt (some value) n = Holds value.v n

abbrev pub StackAgrees : List Val → List ℕ → Type 0
StackAgrees [] bytes = Unit
StackAgrees (value ∷ rest) [] = ⊥
StackAgrees (value ∷ rest) (n ∷ bytes) = Holds value.v n × StackAgrees rest bytes

-- What is known of the zero page.
abbrev pub PageAgrees : (ℕ → Option Val) → (ℕ → ℕ) → Type 0
PageAgrees page mem = (j : ℕ) → HoldsAt (page (j % 256)) (mem (j % 256))

abbrev pub Agrees : Regs → Machine → Type 0
Agrees r s =
    Holds r.a.v s.a
    × Holds r.x.v s.x
    × Holds r.y.v s.y
    × StackAgrees r.stack s.pushed
    × PageAgrees r.zp_map s.mem

-- What the ROM image gives for an address is what the machine reads there.
abbrev pub RomAgrees : (ℕ → Option ℕ) → (ℕ → ℕ) → Type 0
RomAgrees read mem = (addr : ℕ) → Holds (read addr) (mem addr)

abbrev pub writes_far : Mode → ℕ → Bool
writes_far zp addr = true
writes_far _ addr = leb 512 addr

abbrev pub modifies_far : Mode → ℕ → Bool
modifies_far acc addr = true
modifies_far mode addr = writes_far mode addr

-- The writes that the simulation follows: in the mode `zp`, or neither to the zero page nor to the page of
-- the stack behind it.
abbrev pub follows_by : Mnemonic → Mode → ℕ → Bool
follows_by sta mode addr = writes_far mode addr
follows_by stx mode addr = writes_far mode addr
follows_by sty mode addr = writes_far mode addr
follows_by inc mode addr = writes_far mode addr
follows_by dec mode addr = writes_far mode addr
follows_by lsr mode addr = modifies_far mode addr
follows_by asl mode addr = modifies_far mode addr
follows_by rol mode addr = modifies_far mode addr
follows_by ror mode addr = modifies_far mode addr
follows_by _ mode addr = true

pub Holds-map : (f : ℕ → ℕ) (o : Option ℕ) (n : ℕ) → Holds o n → Holds (map_option f o) (f n)
Holds-map f none n h = tt
Holds-map f (some k) n h = ap f h

HoldsAt-or_memory : (o : Option Val) (op n : ℕ) → HoldsAt o n → Holds (or_memory o op).v n
HoldsAt-or_memory none op n h = tt
HoldsAt-or_memory (some value) op n h = h

Holds-if : (test : Bool) (o : Option ℕ) (n : ℕ) → Holds o n → Holds (if test then o else none) n
Holds-if true o n h = h
Holds-if false o n h = tt

indexed-Holds :
    (read : ℕ → Option ℕ) (mem : ℕ → ℕ) (o : Option ℕ) (x base : ℕ)
    → RomAgrees read mem
    → Holds o x
    → Holds (indexed_byte read o base) (mem ((base + x) % 2 ^ 16))
indexed-Holds read mem none x base rom h = tt
indexed-Holds read mem (some k) x base rom h =
    rw h (Holds-if (leb 0x8000 base) (read ((base + k) % 2 ^ 16)) _ (rom ((base + k) % 2 ^ 16)))

indexed-low :
    (read : ℕ → Option ℕ) (o : Option ℕ) (base n : ℕ)
    → base < 256
    → Holds (indexed_byte read o base) n
indexed-low read none base n h = tt
indexed-low read (some k) base n h = let low : leb 0x8000 base ≡ false = ground arith in rw low tt

-- A load yields what the machine reads, or nothing.
pub load-Holds :
    (mode : Mode) (read : ℕ → Option ℕ) (op : ℕ) (r : Regs) (s : Machine)
    → RomAgrees read s.mem
    → Agrees r s
    → Holds (load_by mode read op r).v (fetch_by mode op s)
load-Holds imm read op r s rom h = refl
load-Holds zp read op r s rom (ha, hx, hy, hs, hz) =
    HoldsAt-or_memory (r.zp_map (op % 256)) op _ (hz op)
load-Holds abs read op r s rom h = Holds-if (leb 0x8000 op) (read op) _ (rom op)
load-Holds abx read op r s rom (ha, hx, hy, hs, hz) = indexed-Holds read s.mem r.x.v s.x op rom hx
load-Holds aby read op r s rom (ha, hx, hy, hs, hz) = indexed-Holds read s.mem r.y.v s.y op rom hy
load-Holds zpx read op r s rom h = indexed-low read r.x.v (op % 256) _ (omega arith)
load-Holds zpy read op r s rom h = indexed-low read r.y.v (op % 256) _ (omega arith)
load-Holds izx read op r s rom h = tt
load-Holds izy read op r s rom h = tt
load-Holds imp read op r s rom h = tt
load-Holds acc read op r s rom h = tt
load-Holds ind read op r s rom h = tt
load-Holds rel read op r s rom h = tt

pub take-StackAgrees :
    (n : ℕ) (values : List Val) (bytes : List ℕ)
    → StackAgrees values bytes
    → StackAgrees (take n values) bytes
take-StackAgrees zero values bytes h = tt
take-StackAgrees (suc n) [] bytes h = tt
take-StackAgrees (suc n) (value ∷ values) [] h = h
take-StackAgrees (suc n) (value ∷ values) (b ∷ bytes) h = (h.0, take-StackAgrees n values bytes h.1)

page_if :
    (test : Bool) (value old : Option Val) (n m : ℕ)
    → HoldsAt value n
    → HoldsAt old m
    → HoldsAt (if test then value else old) (if test then n else m)
page_if true value old n m h k = h
page_if false value old n m h k = k

-- A write into the zero page that is recorded, or forgotten.
pub write_page-Agrees :
    (page : ℕ → Option Val) (s : Machine) (value : Option Val) (op n : ℕ)
    → PageAgrees page s.mem
    → HoldsAt value n
    → PageAgrees (λ j. if j == op % 256 then value else page j) (write (op % 256) n s).mem
write_page-Agrees page s value op n h k j =
    let low : ltb (op % 256) 0x8000 ≡ true = ground arith in
    rw low (page_if (j % 256 == op % 256) value (page (j % 256)) n (s.mem (j % 256)) k (h j))

-- A write behind the zero page leaves it alone.
pub write_far-Agrees :
    (page : ℕ → Option Val) (s : Machine) (addr n : ℕ)
    → PageAgrees page s.mem
    → 256 ≤ addr
    → PageAgrees page (write addr n s).mem
write_far-Agrees page s addr n h far j =
    let other : (j % 256 == addr) ≡ false = ground arith in
    elim (Bool-cases (ltb addr 0x8000)) [ inl ram ↦ rw (ram, other) (h j) | inr prg ↦ rw prg (h j) ]
