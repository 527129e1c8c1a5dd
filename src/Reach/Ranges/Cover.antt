-- ===== src/Reach/Ranges/Cover.antt =====
-- reach.rs: which bytes of the ROM the code and the data ranges hold.
use decomps_agent.Prelude.{
  ℕ, zero, suc, ◌+◌, ◌-◌, ◌*◌, ◌/◌, ◌≤◌, ◌<◌, ◌≡◌, ◌∙◌, inl, inr, refl, arith, min, max, Bool, true,
  false, not, ◌&&◌, ◌||◌, leb, ltb, if◌then◌else◌, Bool-cases, List, [], ◌∷◌, ◌++◌, length,
}
use decomps_agent.Ines.{Rom}
use decomps_agent.Mapper.Chip.{Mapper, nrom, mmc1, uxrom, cnrom, mmc3, prg_bank_size}
use decomps_agent.Reach.Maps.{values}
use decomps_agent.Reach.State.{TraceInsn, Trace}
use decomps_agent.Reach.Ranges.{
  Range, end_off, range_of, extend, adjoins, grow, ranges_of, code_ranges, push_ranges, push, gaps,
  data_ranges,
}

abbrev pub within : ℕ → ℕ → ℕ → Bool
within a x e = leb a x && ltb x e

-- Whether some range holds the byte, and how many do.
unfoldable pub in_ranges : ℕ → List Range → Bool
in_ranges x [] = false
in_ranges x (r ∷ rs) = within r.file_start x r.file_end || in_ranges x rs

abbrev pub one_if : Bool → ℕ
one_if true = 1
one_if false = 0

unfoldable pub count_ranges : ℕ → List Range → ℕ
count_ranges x [] = 0
count_ranges x (r ∷ rs) = one_if (within r.file_start x r.file_end) + count_ranges x rs

-- Whether the byte belongs to an instruction.
unfoldable pub in_insns : ℕ → List TraceInsn → Bool
in_insns x [] = false
in_insns x (ti ∷ tis) = within ti.file_offset x (end_off ti) || in_insns x tis

in_ranges-grow :
    (x : ℕ) (last : Range) (tis : List TraceInsn)
    → last.file_start ≤ last.file_end
    → in_ranges x (grow last tis) ≡ (within last.file_start x last.file_end || in_insns x tis)
unfolding in_ranges grow in_insns
in_ranges-grow x last [] h = refl
in_ranges-grow x last (ti ∷ tis) h = elim (Bool-cases (adjoins last ti)) [
  | inl joined ↦
      rw (joined, grow)
        (let at : last.file_end ≡ ti.file_offset = ground arith in
          in_ranges-grow x (extend last ti) tis (omega arith) ∙ ground arith)
  | inr apart ↦ rw (apart, grow) (rw (in_ranges-grow x (range_of ti) tis (omega arith)) refl)
]

pub in_ranges-ranges_of :
    (x : ℕ) (tis : List TraceInsn) → in_ranges x (ranges_of tis) ≡ in_insns x tis
unfolding in_ranges ranges_of in_insns
in_ranges-ranges_of x [] = refl
in_ranges-ranges_of x (ti ∷ tis) = in_ranges-grow x (range_of ti) tis (omega arith)

count-append :
    (x : ℕ) (rs ss : List Range) → count_ranges x (rs ++ ss) ≡ count_ranges x rs + count_ranges x ss
unfolding count_ranges
count-append x [] ss = omega arith
count-append x (r ∷ rs) ss = omega (arith, count-append x rs ss)

bank_end : (m : Mapper) (a : ℕ) → a < (a / prg_bank_size m + 1) * prg_bank_size m
bank_end (nrom prg chr) a = omega arith
bank_end (mmc1 prg chr) a = omega arith
bank_end (uxrom prg chr) a = omega arith
bank_end (cnrom prg chr) a = omega arith
bank_end (mmc3 prg chr) a = omega arith

count-push :
    (x rounds : ℕ) (m : Mapper) (a e : ℕ)
    → e - a ≤ rounds
    → count_ranges x (push_ranges rounds m a e) ≡ one_if (within a x e)
unfolding count_ranges push_ranges
count-push x zero m a e h = ground arith
count-push x (suc rounds) m a e h = elim (Bool-cases (ltb a e)) [
  | inl more ↦
      let b = min e ((a / prg_bank_size m + 1) * prg_bank_size m) in
      let lt : a < e = ground arith in
      let above : a < b = omega (arith, bank_end m a) in
      let upto : b ≤ e = omega arith in
      rw (more, count-push x rounds m b e (omega arith)) (ground arith)
  | inr done ↦ rw done (ground arith)
]

-- The starts ascend from `low` on and lie below `total`.
unfoldable pub InOrder : ℕ → ℕ → List TraceInsn → Type 0
InOrder low total [] = Unit {0}
InOrder low total (ti ∷ tis) =
    (low ≤ ti.file_offset) × (ti.file_offset < total) × InOrder ti.file_offset total tis

Starts : ℕ → ℕ → List Range → Type 0
Starts low total [] = Unit {0}
Starts low total (r ∷ rs) =
    (low ≤ r.file_start)
    × (r.file_start < total)
    × (r.file_start ≤ r.file_end)
    × Starts r.file_start total rs

grow-Starts :
    (low total : ℕ) (last : Range) (at : ℕ) (tis : List TraceInsn)
    → low ≤ last.file_start
    → last.file_start < total
    → last.file_start ≤ at
    → last.file_start ≤ last.file_end
    → InOrder at total tis
    → Starts low total (grow last tis)
unfolding InOrder Starts grow
grow-Starts low total last at [] a b c f o = (a, b, f, tt)
grow-Starts low total last at (ti ∷ tis) a b c f (d, e, o) = elim (Bool-cases (adjoins last ti)) [
  | inl joined ↦
      rw (joined, grow)
        (grow-Starts low total (extend last ti) ti.file_offset tis a b (omega arith) (omega arith)
          o)
  | inr apart ↦
      rw (apart, grow)
        (
          a,
          b,
          f,
          grow-Starts last.file_start total (range_of ti) ti.file_offset tis (omega arith) e
              (omega arith) (omega arith) o,
        )
]

ranges_of-Starts :
    (total : ℕ) (tis : List TraceInsn) → InOrder 0 total tis → Starts 0 total (ranges_of tis)
unfolding ranges_of Starts InOrder
ranges_of-Starts total [] o = tt
ranges_of-Starts total (ti ∷ tis) (a, b, o) =
    grow-Starts 0 total (range_of ti) ti.file_offset tis a b (omega arith) (omega arith) o

-- A byte before the first start is in no range.
in_ranges-before :
    (low total x : ℕ) (rs : List Range) → Starts low total rs → x < low → in_ranges x rs ≡ false
unfolding Starts in_ranges
in_ranges-before low total x [] s h = refl
in_ranges-before low total x (r ∷ rs) (a, b, c, s) h =
    let outside : within r.file_start x r.file_end ≡ false = ground arith in
    rw (outside, in_ranges-before r.file_start total x rs s (omega arith)) refl

count-push_if :
    (x : ℕ) (m : Mapper) (pos e : ℕ)
    → count_ranges x (if ltb pos e then push m pos e else []) ≡ one_if (within pos x e)
count-push_if x m pos e = elim (Bool-cases (ltb pos e)) [
  | inl some_left ↦ rw some_left (count-push x (e - pos) m pos e (omega arith))
  | inr none_left ↦ rw none_left (unfold count_ranges in ground arith)
]

-- A byte before the start of a range, behind it, or in it.
split_at :
    (x pos start end total : ℕ) (later : Bool)
    → start < total
    → start ≤ end
    → (x < start → later ≡ false)
    → one_if (within pos x start) + one_if (within (max pos end) x total && not later)
      ≡ one_if (within pos x total && not (within start x end || later))
split_at x pos start end total later h order none_later = elim (Bool-cases (ltb x start)) [
  | inl before ↦ rw (none_later (ground arith)) (ground arith)
  | inr behind ↦ elim (Bool-cases later) [
    | inl covered ↦ rw covered (ground arith)
    | inr open_byte ↦ rw open_byte (ground arith)
  ]
]

count-gaps :
    (x : ℕ) (m : Mapper) (low pos total : ℕ) (code : List Range)
    → Starts low total code
    → count_ranges x (gaps m pos code total) ≡ one_if (within pos x total && not (in_ranges x code))
unfolding gaps Starts in_ranges
count-gaps x m low pos total [] s = count-push_if x m pos total ∙ ground arith
count-gaps x m low pos total (r ∷ code) (a, b, c, s) =
    let rest = gaps m (max pos r.file_end) code total in
    count-append x (if ltb pos r.file_start then push m pos r.file_start else []) rest
    ∙ rw
        (
          count-push_if x m pos r.file_start,
          count-gaps x m r.file_start (max pos r.file_end) total code s,
        )
        (split_at x pos r.file_start r.file_end total (in_ranges x code) b c
          (in_ranges-before r.file_start total x code s))

-- Every byte of the ROM that belongs to no instruction is in exactly one data range, and a byte that
-- belongs to an instruction, or lies outside the ROM, is in none; given that the instructions are listed
-- by their offsets, which ascend inside the ROM.
pub count-data_ranges :
    (rom : Rom) (m : Mapper) (t : Trace) (x : ℕ)
    → InOrder 0 (length rom.prg) (values t.insns)
    → count_ranges x (data_ranges rom m t)
      ≡ one_if (ltb x (length rom.prg) && not (in_insns x (values t.insns)))
unfolding data_ranges code_ranges
count-data_ranges rom m t x o =
    let code = ranges_of (values t.insns) in
    count-gaps x m 0 0 (length rom.prg) code (ranges_of-Starts (length rom.prg) (values t.insns) o)
    ∙ rw (in_ranges-ranges_of x (values t.insns)) (ground arith)
