-- ===== src/Reach/Maps.antt =====
-- The standard library's ordered maps and sets with numbers as keys, as lists in the order of the keys.
use decomps_agent.Prelude.{
  ℕ, suc, ◌≤◌, ◌≡◌, inl, inr, refl, subst, arith, Bool, true, false, ltb, ◌==◌, if◌then◌else◌, List,
  [], ◌∷◌, ◌++◌, Option, none, some, Bool-cases, ◌||◌,
}

module _ {ℓ} {V : Type ℓ} where
  -- `get`
  unfoldable pub lookup : ℕ → List (ℕ × V) → Option V
  lookup k [] = none
  lookup k ((j, w) ∷ m) = let rest = lookup k m in if k == j then some w else rest

  -- `contains_key`
  unfoldable pub has_key : ℕ → List (ℕ × V) → Bool
  has_key k [] = false
  has_key k ((j, w) ∷ m) = let rest = has_key k m in if k == j then true else rest

  -- `entry(k).or_insert(v)`
  unfoldable pub or_insert : ℕ → V → List (ℕ × V) → List (ℕ × V)
  or_insert k v [] = (k, v) ∷ []
  or_insert k v ((j, w) ∷ m) =
      let rest = or_insert k v m in
      if k == j then (j, w) ∷ m else if ltb k j then (k, v) ∷ (j, w) ∷ m else (j, w) ∷ rest

  -- `get_mut`, with the change made there.
  unfoldable pub adjust : ℕ → (V → V) → List (ℕ × V) → List (ℕ × V)
  adjust k f [] = []
  adjust k f ((j, w) ∷ m) =
      let rest = adjust k f m in if k == j then (j, f w) ∷ m else (j, w) ∷ rest

  -- `values()`
  unfoldable pub values : List (ℕ × V) → List V
  values [] = []
  values ((j, w) ∷ m) = w ∷ values m

  -- The keys ascend from `low` on.
  unfoldable pub Ascends : ℕ → List (ℕ × V) → Type 0
  Ascends low [] = Unit {0}
  Ascends low ((k, v) ∷ m) = (low ≤ k) × Ascends (suc k) m

  pub or_insert-Ascends :
      (k low : ℕ) (v : V) (m : List (ℕ × V))
      → low ≤ k
      → Ascends low m
      → Ascends low (or_insert k v m)
  unfolding Ascends or_insert
  or_insert-Ascends k low v [] h a = (h, tt)
  or_insert-Ascends k low v ((j, w) ∷ m) h (first, a) = elim (Bool-cases (k == j)) [
    | inl same ↦ rw same (first, a)
    | inr other ↦ elim (Bool-cases (ltb k j)) [
      | inl before ↦ rw (other, before) (h, (ground arith, a))
      | inr behind ↦ rw (other, behind) (first, or_insert-Ascends k (suc j) v m (ground arith) a)
    ]
  ]

  pub adjust-Ascends :
      (k low : ℕ) (f : V → V) (m : List (ℕ × V)) → Ascends low m → Ascends low (adjust k f m)
  unfolding Ascends adjust
  adjust-Ascends k low f [] a = tt
  adjust-Ascends k low f ((j, w) ∷ m) (first, a) = elim (Bool-cases (k == j)) [
    | inl same ↦ rw same (first, a)
    | inr other ↦ rw other (first, adjust-Ascends k (suc j) f m a)
  ]

  -- A property of key and value.
  unfoldable pub Holds {κ} : (ℕ → V → Type κ) → List (ℕ × V) → Type κ
  Holds P [] = Unit
  Holds P ((k, v) ∷ m) = P k v × Holds P m

  pub or_insert-Holds {κ} :
      (P : ℕ → V → Type κ) (k : ℕ) (v : V) (m : List (ℕ × V))
      → P k v
      → Holds P m
      → Holds P (or_insert k v m)
  unfolding Holds or_insert
  or_insert-Holds P k v [] h a = (h, tt)
  or_insert-Holds P k v ((j, w) ∷ m) h (first, a) = elim (Bool-cases (k == j)) [
    | inl same ↦ rw same (first, a)
    | inr other ↦ elim (Bool-cases (ltb k j)) [
      | inl before ↦ rw (other, before) (h, (first, a))
      | inr behind ↦ rw (other, behind) (first, or_insert-Holds P k v m h a)
    ]
  ]

  pub adjust-Holds {κ} :
      (P : ℕ → V → Type κ) (k : ℕ) (f : V → V) (m : List (ℕ × V))
      → ((j : ℕ) (w : V) → P j w → P j (f w))
      → Holds P m
      → Holds P (adjust k f m)
  unfolding Holds adjust
  adjust-Holds P k f [] keep a = tt
  adjust-Holds P k f ((j, w) ∷ m) keep (first, a) = elim (Bool-cases (k == j)) [
    | inl same ↦ rw same (keep j w first, a)
    | inr other ↦ rw other (first, adjust-Holds P k f m keep a)
  ]

  pub lookup-Holds {κ} :
      (P : ℕ → V → Type κ) (k : ℕ) (m : List (ℕ × V)) (v : V)
      → Holds P m
      → lookup k m ≡ some v
      → P k v
  unfolding Holds lookup
  lookup-Holds P k [] v a e = absurd (cc)
  lookup-Holds P k ((j, w) ∷ m) v (first, a) e = elim (Bool-cases (k == j)) [
    | inl same ↦
        let key : j ≡ k = ground arith in
        let value : w ≡ v = ground arith in subst (λ t. P k t) value (subst (λ t. P t w) key first)
    | inr other ↦ lookup-Holds P k m v a (ground arith)
  ]

  -- `unwrap_or`, as an option again.
  abbrev pub or_else : Option V → V → Option V
  or_else none v = some v
  or_else (some w) v = some w

  abbrev pub changed : (V → V) → Option V → Option V
  changed f none = none
  changed f (some w) = some (f w)

  lookup-below : (k low : ℕ) (m : List (ℕ × V)) → suc k ≤ low → Ascends low m → lookup k m ≡ none
  unfolding Ascends lookup
  lookup-below k low [] h a = refl
  lookup-below k low ((j, w) ∷ m) h (first, a) =
      let other : (k == j) ≡ false = ground arith in
      rw other (lookup-below k (suc j) m (omega arith) a)

  pub lookup-or_insert :
      (i k low : ℕ) (v : V) (m : List (ℕ × V))
      → Ascends low m
      → lookup i (or_insert k v m) ≡ (if i == k then or_else (lookup i m) v else lookup i m)
  unfolding Ascends lookup or_insert
  lookup-or_insert i k low v [] a = refl
  lookup-or_insert i k low v ((j, w) ∷ m) (first, a) = elim (Bool-cases (k == j)) [
    | inl same ↦ elim (Bool-cases (i == j)) [
      | inl here ↦ let at : (i == k) ≡ true = ground arith in rw (same, here, at, lookup) refl
      | inr there ↦ let at : (i == k) ≡ false = ground arith in rw (same, there, at, lookup) refl
    ]
    | inr other ↦ elim (Bool-cases (ltb k j)) [
      | inl before ↦ elim (Bool-cases (i == k)) [
        | inl here ↦
            let behind : (i == j) ≡ false = ground arith in
            let gone = lookup-below i (suc j) m (ground arith) a in
            rw (other, before, here, behind, gone, lookup) refl
        | inr there ↦ rw (other, before, there, lookup) refl
      ]
      | inr after ↦ elim (Bool-cases (i == j)) [
        | inl here ↦
            let at : (i == k) ≡ false = ground arith in rw (other, after, here, at, lookup) refl
        | inr there ↦ rw (other, after, there, lookup) (lookup-or_insert i k (suc j) v m a)
      ]
    ]
  ]

  pub lookup-adjust :
      (i k : ℕ) (f : V → V) (m : List (ℕ × V))
      → lookup i (adjust k f m) ≡ (if i == k then changed f (lookup i m) else lookup i m)
  unfolding lookup adjust
  lookup-adjust i k f [] = ground arith
  lookup-adjust i k f ((j, w) ∷ m) = elim (Bool-cases (k == j)) [
    | inl same ↦ elim (Bool-cases (i == j)) [
      | inl here ↦ let at : (i == k) ≡ true = ground arith in rw (same, here, at, lookup) refl
      | inr there ↦ let at : (i == k) ≡ false = ground arith in rw (same, there, at, lookup) refl
    ]
    | inr other ↦ elim (Bool-cases (i == j)) [
      | inl here ↦ let at : (i == k) ≡ false = ground arith in rw (other, here, at, lookup) refl
      | inr there ↦ rw (other, there, lookup) (lookup-adjust i k f m)
    ]
  ]

-- `insert` into an ordered set
unfoldable pub set_insert : ℕ → List ℕ → List ℕ
set_insert k [] = k ∷ []
set_insert k (j ∷ s) =
    let rest = set_insert k s in if k == j then j ∷ s else if ltb k j then k ∷ j ∷ s else j ∷ rest

unfoldable pub set_has : ℕ → List ℕ → Bool
set_has k [] = false
set_has k (j ∷ s) = let rest = set_has k s in if k == j then true else rest

pub set_has-set_insert :
    (x k : ℕ) (s : List ℕ) → set_has x (set_insert k s) ≡ (x == k || set_has x s)
unfolding set_has set_insert
set_has-set_insert x k [] = ground arith
set_has-set_insert x k (j ∷ s) = elim (Bool-cases (k == j)) [
  | inl same ↦ rw (same, set_has) (ground arith)
  | inr other ↦ elim (Bool-cases (ltb k j)) [
    | inl before ↦ rw (other, before, set_has) (ground arith)
    | inr behind ↦ rw (other, behind, set_has, set_has-set_insert x k s) (ground arith)
  ]
]

pub set_has-append : (x : ℕ) (s r : List ℕ) → set_has x (s ++ r) ≡ (set_has x s || set_has x r)
unfolding set_has
set_has-append x [] r = refl
set_has-append x (j ∷ s) r = rw (set_has-append x s r) (ground arith)
