-- ===== src/Reach/Sound/Tables.antt =====
-- reach.rs: the entries of two tables, and properties of lists of targets.
use decomps_agent.Prelude.{
  ℕ, zero, suc, ◌+◌, ◌*◌, ◌%◌, ◌^◌, ◌≤◌, ◌≡◌, refl, sym, subst, inl, inr, arith, ◌||◌, leb, ltb,
  ◌==◌, if◌then◌else◌, Bool-cases, List, [], ◌∷◌, ◌++◌, Option, none, some, length, get_or, All,
  All-append,
}
use decomps_agent.Ines.{Rom}
use decomps_agent.Mapper.State.{BankState, RomLoc}
use decomps_agent.Mapper.Chip.{Mapper}
use decomps_agent.Mapper.Address.{cpu_to_rom}
use decomps_agent.Reach.State.{EdgeKind}
use decomps_agent.Reach.Targets.{
  table_entries, table_at, table_targets, table_word, target_before, insert_target, sort_targets,
  same_target, add_new, dedup_targets,
}
use decomps_agent.Reach.Relation.{IsEntry, InTables}

-- Every target has the property.
abbrev pub AllTargets : (ℕ → Type 0) → List (ℕ × EdgeKind) → Type 0
AllTargets P xs = All (λ x. P x.0) xs

insert-AllTargets :
    (P : ℕ → Type 0) (x : ℕ × EdgeKind) (xs : List (ℕ × EdgeKind))
    → P x.0
    → AllTargets P xs
    → AllTargets P (insert_target x xs)
unfolding insert_target
insert-AllTargets P x [] h hs = (h, tt)
insert-AllTargets P x (y ∷ ys) h (k, hs) = elim (Bool-cases (target_before x y)) [
  | inl first ↦ rw first (h, (k, hs))
  | inr later ↦ rw later (k, insert-AllTargets P x ys h hs)
]

pub sort-AllTargets :
    (P : ℕ → Type 0) (xs : List (ℕ × EdgeKind)) → AllTargets P xs → AllTargets P (sort_targets xs)
unfolding sort_targets
sort-AllTargets P [] h = tt
sort-AllTargets P (x ∷ xs) (h, hs) = insert-AllTargets P x _ h (sort-AllTargets P xs hs)

add_new-AllTargets :
    (P : ℕ → Type 0) (x : ℕ × EdgeKind) (xs : List (ℕ × EdgeKind))
    → P x.0
    → AllTargets P xs
    → AllTargets P (add_new x xs)
add_new-AllTargets P x [] h hs = (h, tt)
add_new-AllTargets P x (y ∷ ys) h hs = elim (Bool-cases (same_target x y)) [
  | inl same ↦ rw same hs
  | inr other ↦ rw other (h, hs)
]

pub dedup-AllTargets :
    (P : ℕ → Type 0) (xs : List (ℕ × EdgeKind)) → AllTargets P xs → AllTargets P (dedup_targets xs)
unfolding dedup_targets
dedup-AllTargets P [] h = tt
dedup-AllTargets P (x ∷ xs) (h, hs) = add_new-AllTargets P x _ h (dedup-AllTargets P xs hs)

-- The entries of two tables, from the one at `k` on.
table_entries-IsEntry :
    (left k lo hi stride plus : ℕ) (prg : List ℕ) (kind : EdgeKind)
    → k + left ≤ 96
    → AllTargets
        (λ tgt. (j : ℕ) × IsEntry prg lo hi stride plus j tgt)
        (table_entries left prg (lo + k * stride) (hi + k * stride) stride plus kind)
unfolding table_entries
table_entries-IsEntry zero k lo hi stride plus prg kind h = tt
table_entries-IsEntry (suc left) k lo hi stride plus prg kind h =
    let at = lo + k * stride in
    let at' = hi + k * stride in
    let tgt = table_word (get_or prg at' 0) (get_or prg at 0) plus in
    let step : suc k * stride ≡ k * stride + stride = suc_times k stride in
    let next : lo + suc k * stride ≡ at + stride = omega (arith, step) in
    let next' : hi + suc k * stride ≡ at' + stride = omega (arith, step) in
    elim (Bool-cases (leb (length prg) at || leb (length prg) at')) [
      | inl outside ↦ rw outside tt
      | inr inside ↦ elim (Bool-cases (ltb tgt 0x8000)) [
        | inl low ↦ rw (inside, low) tt
        | inr high ↦
            rw (inside, high)
              (
                (
                  k,
                  (
                    omega arith,
                    ground (arith, inside),
                    ground (arith, inside),
                    refl,
                    ground (arith, high),
                  ),
                ),
                rw (← next, ← next')
                    (table_entries-IsEntry left (suc k) lo hi stride plus prg kind (omega arith)),
              )
      ]
    ]
  where
    suc_times : (n s : ℕ) → suc n * s ≡ n * s + s
    suc_times n s = grind arith

pub weaken :
    (P Q : ℕ → Type 0) (xs : List (ℕ × EdgeKind))
    → ((n : ℕ) → P n → Q n)
    → AllTargets P xs
    → AllTargets Q xs
weaken P Q [] f h = tt
weaken P Q (x ∷ xs) f (h, hs) = (f x.0 h, weaken P Q xs f hs)

pub append-AllTargets :
    (P : ℕ → Type 0) (xs ys : List (ℕ × EdgeKind))
    → AllTargets P xs
    → AllTargets P ys
    → AllTargets P (xs ++ ys)
append-AllTargets P xs ys = All-append (λ x. P x.0) xs ys

module _ (rom : Rom) (m : Mapper) where
  -- What the two tables, whose places in the ROM are `o` and `p`, hold.
  table_at-InTables :
      (lo hi : ℕ) (st : BankState) (plus stride : ℕ) (kind : EdgeKind) (o p : Option RomLoc)
      → cpu_to_rom m rom lo st ≡ o
      → cpu_to_rom m rom hi st ≡ p
      → (if hi == (lo + 1) % 2 ^ 16 then 2 else 1) ≡ stride
      → AllTargets (InTables rom m lo hi st plus) (table_at o p rom.prg stride plus kind)
  table_at-InTables lo hi st plus stride kind none p e f g = tt
  table_at-InTables lo hi st plus stride kind (some ll) none e f g = tt
  table_at-InTables lo hi st plus stride kind (some ll) (some hl) e f g =
      let entry : ℕ → Type 0 =
        λ tgt. (j : ℕ) × IsEntry rom.prg ll.file_offset hl.file_offset stride plus j tgt in
      let at : ll.file_offset + 0 * stride ≡ ll.file_offset = omega arith in
      let at' : hl.file_offset + 0 * stride ≡ hl.file_offset = omega arith in
      let found =
        table_entries-IsEntry 96 0 ll.file_offset hl.file_offset stride plus rom.prg kind
          (omega arith) in
      weaken entry (InTables rom m lo hi st plus) _
        (λ tgt (j, is_entry). (
          ll,
          hl,
          j,
          e,
          f,
          subst (λ n. IsEntry rom.prg ll.file_offset hl.file_offset n plus j tgt) (sym g) is_entry,
        ))
        (subst (λ n. AllTargets entry (table_entries 96 rom.prg n hl.file_offset stride plus kind))
          at
          (subst
            (λ n.
              AllTargets entry
                (table_entries 96 rom.prg (ll.file_offset + 0 * stride) n stride plus kind))
            at' found))

  pub table_targets-InTables :
      (lo hi : ℕ) (st : BankState) (plus : ℕ) (kind : EdgeKind)
      → AllTargets (InTables rom m lo hi st plus) (table_targets rom m lo hi st plus kind)
  unfolding table_targets
  table_targets-InTables lo hi st plus kind =
      table_at-InTables lo hi st plus _ kind (cpu_to_rom m rom lo st) (cpu_to_rom m rom hi st) refl
        refl refl
