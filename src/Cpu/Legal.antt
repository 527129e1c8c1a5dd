-- ===== src/Cpu/Legal.antt =====
-- cpu6502.rs: the table and the rows of `LEGAL`.
use decomps_agent.Prelude.{
  ℕ, zero, suc, ◌≡◌, refl, subst, arith, Bool, true, false, not, ◌&&◌, ◌==◌, ==_self, if◌then◌else◌,
  List, [], ◌∷◌, some, get_elem?,
}
use decomps_agent.Cpu.Table.{Legal, Op, illegal_op, entry, legal, mode_len}
use decomps_agent.Cpu.Table

-- No row has this opcode.
abbrev pub is_absent : List Legal → ℕ → Bool
is_absent [] byte = true
is_absent (r ∷ rows) byte = not (r.opcode == byte) && is_absent rows byte

abbrev distinct : List Legal → Bool
distinct [] = true
distinct (r ∷ rows) = is_absent rows r.opcode && distinct rows

table_from_absent :
    (rows : List Legal) (byte : ℕ) (current : Op)
    → is_absent rows byte ≡ true
    → Table.table_from rows byte current ≡ current
unfolding Table.table_from
table_from_absent [] byte current h = refl
table_from_absent (r ∷ rows) byte current h =
    let miss : (r.opcode == byte) ≡ false = ground arith in
    rw miss (table_from_absent rows byte current (ground arith))

-- With distinct opcodes no row is overwritten.
table_from_row :
    (rows : List Legal) (k : ℕ) (r : Legal) (current : Op)
    → distinct rows ≡ true
    → get_elem? rows k ≡ some r
    → Table.table_from rows r.opcode current ≡ entry r
unfolding Table.table_from
table_from_row [] k r current d e = absurd (cc)
table_from_row (r' ∷ rows) zero r current d e =
    let same : r' ≡ r = cc in
    let last : is_absent rows r'.opcode ≡ true = ground arith in
    rw (same, ==_self r.opcode)
      (table_from_absent rows r.opcode (entry r)
        (subst (λ q. is_absent rows q.opcode ≡ true) same last))
table_from_row (r' ∷ rows) (suc k) r current d e =
    table_from_row rows k r (if r'.opcode == r.opcode then entry r' else current) (ground arith) e

legal-distinct : distinct Table.legal ≡ true
unfolding Table.legal
legal-distinct = refl

-- Each row of `LEGAL` is what the table says of its opcode.
pub op-legal_row :
    (k : ℕ) (r : Legal) → get_elem? Table.legal k ≡ some r → Table.op r.opcode ≡ entry r
unfolding Table.op
op-legal_row k r = table_from_row Table.legal k r illegal_op legal-distinct

-- A byte that no row of `LEGAL` has decodes as the illegal entry.
pub op-illegal : (byte : ℕ) → is_absent Table.legal byte ≡ true → Table.op byte ≡ illegal_op
unfolding Table.op
op-illegal byte = table_from_absent Table.legal byte illegal_op
