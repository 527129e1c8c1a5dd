-- ===== src/Cpu/Insn/Lengths.antt =====
-- cpu6502.rs: the bytes and the fields of a decoded instruction.
use decomps_agent.Prelude.{
  ℕ, zero, suc, ◌+◌, ◌-◌, ◌*◌, ◌/◌, ◌%◌, ◌^◌, ◌≤◌, ◌<◌, ◌≡◌, refl, ap, ◌∙◌, arith, Bool, true, ◌&&◌,
  ltb, leb, ◌==◌, ==_iff, if◌then◌else◌, List, [], ◌∷◌, Option, none, some, inl, inr, Bool-cases,
  length, take, All, IsByte, bit_or,
}
use decomps_agent.Prelude.Bits.{all_below, all_below_sound}
use decomps_agent.Cpu.Table
use decomps_agent.Cpu.Insn.{Insn, operand_of, decode}

length_fits : ℕ → Bool
length_fits b = leb 1 (Table.op b).len && leb (Table.op b).len 3

length_table : all_below 256 length_fits ≡ true
unfolding all_below length_fits Table.op
length_table = refl

-- Every entry of the table is one, two or three bytes long.
pub op_len : (b : ℕ) → b < 256 → (1 ≤ (Table.op b).len) × ((Table.op b).len ≤ 3)
unfolding length_fits
op_len b h =
    let fits : length_fits b ≡ true = all_below_sound 256 length_fits b length_table h in
    ground arith

-- The decoder takes one to three bytes, never more than there are, and reports exactly those.
pub decode-prefix :
    (b : ℕ) (rest : List ℕ)
    → b < 256
    → let i = decode b rest in
      (1 ≤ i.len) × (i.len ≤ 3) × (i.len ≤ length (b ∷ rest)) × (i.bytes ≡ take i.len (b ∷ rest))
unfolding decode
decode-prefix b rest h =
    let bounds = op_len b h in
    elim (Bool-cases (ltb (length (b ∷ rest)) (Table.op b).len)) [
      | inl short ↦ rw short (omega arith, omega arith, omega arith, refl)
      | inr whole ↦ rw whole (bounds.0, bounds.1, ground arith, refl)
    ]

abbrev two_bytes : ℕ → ℕ → Bool
two_bytes lo hi = bit_or lo (hi * 2 ^ 8) == lo + hi * 256

two_bytes_table : all_below 256 (λ lo. all_below 256 (two_bytes lo)) ≡ true
unfolding all_below
two_bytes_table = refl

pub word_of_bytes : (lo hi : ℕ) → lo < 256 → hi < 256 → bit_or lo (hi * 2 ^ 8) ≡ lo + hi * 256
word_of_bytes lo hi h k = (==_iff (bit_or lo (hi * 2 ^ 8)) (lo + hi * 256)).0 (
    all_below_sound 256 (two_bytes lo) hi
      (all_below_sound 256 (λ x. all_below 256 (two_bytes x)) lo two_bytes_table h) k)

-- The bytes that the fields of an instruction stand for: the opcode and the operand, low byte first.
abbrev pub assemble_operand : ℕ → Option ℕ → List ℕ
assemble_operand len none = []
assemble_operand len (some v) = if len == 2 then v ∷ [] else (v % 256) ∷ (v / 256) ∷ []

abbrev pub assemble : Insn → List ℕ
assemble i = i.opcode ∷ assemble_operand i.len i.operand

ap2_cons : (w x y : ℕ) → w % 256 ≡ x → w / 256 ≡ y → (w % 256) ∷ (w / 256) ∷ [] ≡ x ∷ y ∷ []
ap2_cons w x y e f = rw (e, f) refl

operand_bytes :
    (len : ℕ) (rest : List ℕ)
    → 1 ≤ len
    → len ≤ 3
    → len ≤ length rest + 1
    → All IsByte rest
    → assemble_operand len (operand_of len rest) ≡ take (len - 1) rest
operand_bytes zero rest lo hi fits bytes = absurd (omega arith)
operand_bytes (suc zero) rest lo hi fits bytes = refl
operand_bytes (suc (suc zero)) [] lo hi fits bytes = absurd (omega arith)
operand_bytes (suc (suc zero)) (x ∷ rest) lo hi fits bytes = refl
operand_bytes (suc (suc (suc zero))) [] lo hi fits bytes = absurd (omega arith)
operand_bytes (suc (suc (suc zero))) (x ∷ []) lo hi fits bytes = absurd (omega arith)
operand_bytes (suc (suc (suc zero))) (x ∷ y ∷ rest) lo hi fits (a, (b, c)) =
    let joined : bit_or x (y * 2 ^ 8) ≡ x + y * 256 = word_of_bytes x y a b in
    rw joined (ap2_cons (x + y * 256) x y (omega arith) (omega arith))
operand_bytes (suc (suc (suc (suc n)))) rest lo hi fits bytes = absurd (omega arith)

-- Opcode and operand lose nothing: put together again they are the bytes that were read.
pub assemble-decode :
    (b : ℕ) (rest : List ℕ)
    → b < 256
    → All IsByte rest
    → assemble (decode b rest) ≡ (decode b rest).bytes
unfolding decode
assemble-decode b rest h bytes =
    let bounds = op_len b h in
    elim (Bool-cases (ltb (length (b ∷ rest)) (Table.op b).len)) [
      | inl short ↦ rw short refl
      | inr whole ↦ rw whole (
          ap (λ t. b ∷ t)
            (operand_bytes (Table.op b).len rest bounds.0 bounds.1 (ground arith) bytes)
          ∙ take_cons (Table.op b).len bounds.0)
    ]
  where
    take_cons : (n : ℕ) → 1 ≤ n → b ∷ take (n - 1) rest ≡ take n (b ∷ rest)
    take_cons zero k = absurd (omega arith)
    take_cons (suc n) k = let e : suc n - 1 ≡ n = omega arith in rw e refl
