-- ===== src/Vram/Sites/Groups.antt =====
-- vram.rs: what the sites of a grouping say of the writes.
use text.Mathlib.Text.{◌==◌ as ◌===◌}
use text.Mathlib.TextEquality.{eq_iff}
use decomps_agent.Prelude.{
  ℕ, ◌-◌, ◌<◌, ◌≡◌, inl, inr, refl, sym, ap, ◌∙◌, subst, arith, Bool, true, false, ◌&&◌, leb, ltb,
  ◌==◌, Bool-cases, Option, none, some, List, [], ◌∷◌, ◌++◌, length, All,
}
use decomps_agent.Vram.Sites.{
  VramWrite, Site, sort_by_seq, context_of, delta_of, fits, add_value, extended, one_value,
  new_site, place_write, place_all, group_sites,
}
use decomps_agent.Vram.Sites.Runs.{IsSteps, IsWord, AreWords, IsSteps-next, sort-AreWords}
use decomps_agent.Vram.Sites.Order.{IsSorted, sort-IsSorted}

abbrev pub addresses : List VramWrite → List ℕ
addresses [] = []
addresses (w ∷ ws) = w.vram_n ∷ addresses ws

abbrev pub with_value : Option ℕ → Option (List ℕ) → Option (List ℕ)
with_value (some n) (some values) = some (n ∷ values)
with_value _ _ = none

-- The values of all writes, if all are known.
abbrev pub values_of : List VramWrite → Option (List ℕ)
values_of [] = some []
values_of (w ∷ ws) = with_value w.value (values_of ws)

abbrev pub oldest : VramWrite → List VramWrite → VramWrite
oldest w [] = w
oldest w (v ∷ ws) = oldest v ws

-- What a site takes over from its first write.
abbrev pub BeginsWith : Site → VramWrite → Type 0
BeginsWith s w =
    (s.addr ≡ w.addr)
    × (s.bank ≡ w.bank)
    × (s.routine ≡ w.routine)
    × (s.caller ≡ w.caller)
    × (s.vram_start ≡ w.vram)
    × (s.vram_region ≡ w.region)
    × (s.via_call ≡ w.via_call)
    × (s.vram_n ≡ w.vram_n)

-- The context and the source of a site are those of all its writes.
abbrev pub Shares : Site → VramWrite → Type 0
Shares s w = (s.context ≡ context_of w) × (s.source ≡ w.source)

-- A site is the run of the writes `w ∷ ws`, the newest first.
abbrev pub Summarizes : Site → List VramWrite → Type 0
Summarizes s [] = ⊥
Summarizes s (w ∷ ws) =
    (s.count ≡ length (w ∷ ws))
    × (s.addrs ≡ addresses (w ∷ ws))
    × (s.values ≡ values_of (w ∷ ws))
    × BeginsWith s (oldest w ws)
    × All (Shares s) (w ∷ ws)
    × IsSteps s.stride s.vram_n s.addrs
    × All IsWord s.addrs

-- A write continues a run if it has the context and the source of the newest write and lies above it: by
-- 32 at most behind a single write, else by as much as that one lies above the one before.
abbrev pub same_place : VramWrite → VramWrite → Bool
same_place w v = (context_of v === context_of w) && (v.source === w.source)

abbrev pub continues : VramWrite → List VramWrite → Bool
continues w [] = false
continues w (v ∷ []) = same_place w v && (ltb v.vram_n w.vram_n && leb (w.vram_n - v.vram_n) 32)
continues w (v ∷ u ∷ ws) =
    same_place w v && (ltb v.vram_n w.vram_n && (w.vram_n - v.vram_n == v.vram_n - u.vram_n))

-- The first write of a group does not continue the group before it.
abbrev pub IsApart : List VramWrite → List (List VramWrite) → Type 0
IsApart [] groups = ⊥
IsApart (w ∷ ws) [] = Unit {0}
IsApart (w ∷ ws) (group ∷ groups) = continues (oldest w ws) group ≡ false

abbrev pub IsGrouping : List Site → List (List VramWrite) → Type 0
IsGrouping [] [] = Unit {0}
IsGrouping (s ∷ sites) (group ∷ groups) =
    Summarizes s group × IsApart group groups × IsGrouping sites groups
IsGrouping _ _ = ⊥

abbrev pub joined : List (List VramWrite) → List VramWrite
joined [] = []
joined (group ∷ groups) = group ++ joined groups

abbrev pub reversed : List VramWrite → List VramWrite → List VramWrite
reversed [] done = done
reversed (w ∷ ws) done = reversed ws (w ∷ done)

-- The difference of two addresses without the wrap.
delta_up : (n prev : ℕ) → IsWord n → prev < n → delta_of n prev ≡ n - prev
delta_up n prev h lt = omega arith

single-fits :
    (n prev : ℕ) (c d : Bool)
    → IsWord n
    → (c && d && (leb 1 (delta_of n prev) && leb (delta_of n prev) 32) && ltb prev n)
      ≡ ((c && d) && (ltb prev n && leb (n - prev) 32))
single-fits n prev false d h = refl
single-fits n prev true false h = refl
single-fits n prev true true h = elim (Bool-cases (ltb prev n)) [
  | inl up ↦ rw (up, delta_up n prev h (ground arith)) (ground arith)
  | inr down ↦ rw down (ground arith)
]

next-fits :
    (n prev stride : ℕ) (c d : Bool)
    → IsWord n
    → (c && d && (delta_of n prev == stride) && ltb prev n)
      ≡ ((c && d) && (ltb prev n && (n - prev == stride)))
next-fits n prev stride false d h = refl
next-fits n prev stride true false h = refl
next-fits n prev stride true true h = elim (Bool-cases (ltb prev n)) [
  | inl up ↦ rw (up, delta_up n prev h (ground arith)) (ground arith)
  | inr down ↦ rw down (ground arith)
]

fits-continues :
    (w : VramWrite) (s : Site) (group : List VramWrite)
    → IsWord w.vram_n
    → Summarizes s group
    → fits w s ≡ continues w group
fits-continues w s [] h k = absurd k
fits-continues w s (v ∷ []) h (count, addrs, values, begins, ((ctx, src), shares), steps, words) =
    rw (count, addrs, ctx, src)
      (single-fits w.vram_n v.vram_n (context_of v === context_of w) (v.source === w.source) h)
fits-continues w s (v ∷ u ∷ ws) h
      (count, addrs, values, begins, ((ctx, src), shares), steps, words) =
    let two : (s.count == 1) ≡ false = ground (arith, count) in
    let apart = (subst (λ l. IsSteps s.stride s.vram_n l) addrs steps).0 in
    let stride : v.vram_n - u.vram_n ≡ s.stride = omega (arith, apart) in
    rw (two, addrs, ctx, src, stride)
      (next-fits w.vram_n v.vram_n s.stride (context_of v === context_of w) (v.source === w.source)
        h)

-- Placing a write.
add_value-with_value :
    (values : Option (List ℕ)) (n : Option ℕ) → add_value values n ≡ with_value n values
add_value-with_value none none = refl
add_value-with_value none (some n) = refl
add_value-with_value (some values) none = refl
add_value-with_value (some values) (some n) = refl

one_value-with_value : (n : Option ℕ) → one_value n ≡ with_value n (some [])
one_value-with_value none = refl
one_value-with_value (some n) = refl

new_site-Summarizes : (w : VramWrite) → IsWord w.vram_n → Summarizes (new_site w) (w ∷ [])
new_site-Summarizes w h = (
  refl,
  refl,
  one_value-with_value w.value,
  (refl, refl, refl, refl, refl, refl, refl, refl),
  ((refl, refl), tt),
  refl,
  (h, tt),
)

extended-Shares :
    (w : VramWrite) (s : Site) (ws : List VramWrite)
    → All (Shares s) ws
    → All (Shares (extended w s)) ws
extended-Shares w s [] h = tt
extended-Shares w s (v ∷ ws) (h, hs) = (h, extended-Shares w s ws hs)

extended-Summarizes :
    (w : VramWrite) (s : Site) (group : List VramWrite)
    → IsWord w.vram_n
    → fits w s ≡ true
    → Summarizes s group
    → Summarizes (extended w s) (w ∷ group)
extended-Summarizes w s [] h ok k = absurd k
extended-Summarizes w s (v ∷ ws) h ok (count, addrs, values, begins, shares, steps, words) =
    let ctx : (s.context === context_of w) ≡ true = ground arith in
    let src : (s.source === w.source) ≡ true = ground arith in
    let sized : s.count ≡ length s.addrs =
      count ∙ addresses-length (v ∷ ws) ∙ ap (λ l. length l) (sym addrs) in
    (
      omega (arith, count),
      ap (λ l. w.vram_n ∷ l) addrs,
      add_value-with_value s.values w.value ∙ ap (with_value w.value) values,
      begins,
      (((eq_iff _ _).0 ctx, (eq_iff _ _).0 src), extended-Shares w s (v ∷ ws) shares),
      IsSteps-next (s.count == 1) s.count s.stride s.vram_n w.vram_n s.addrs refl sized steps words
          h (ground arith) (ground arith),
      (h, words),
    )
  where
    addresses-length : (us : List VramWrite) → length us ≡ length (addresses us)
    addresses-length [] = refl
    addresses-length (u ∷ us) = omega (arith, addresses-length us)

IsApart-longer :
    (w : VramWrite) (group : List VramWrite) (groups : List (List VramWrite))
    → IsApart group groups
    → IsApart (w ∷ group) groups
IsApart-longer w [] groups h = absurd h
IsApart-longer w (v ∷ ws) [] h = tt
IsApart-longer w (v ∷ ws) (group ∷ groups) h = h

-- A grouping of the sites, whose groups joined are the writes, newest first.
abbrev Grouped : List Site → List VramWrite → Type 0
Grouped sites ws = (groups : List (List VramWrite)) × (joined groups ≡ ws) × IsGrouping sites groups

place_write-Grouped :
    (w : VramWrite) (sites : List Site) (groups : List (List VramWrite))
    → IsWord w.vram_n
    → IsGrouping sites groups
    → Grouped (place_write w sites) (w ∷ joined groups)
place_write-Grouped w [] [] h k = ((w ∷ []) ∷ [], refl, (new_site-Summarizes w h, tt, tt))
place_write-Grouped w [] (group ∷ groups) h k = absurd k
place_write-Grouped w (s ∷ sites) [] h k = absurd k
place_write-Grouped w (s ∷ sites) (group ∷ groups) h (this, apart, rest) =
    elim (Bool-cases (fits w s)) [
      | inl joins ↦ rw joins (
        (w ∷ group) ∷ groups,
        refl,
        (extended-Summarizes w s group h joins this, IsApart-longer w group groups apart, rest),
      )
      | inr alone ↦ rw alone (
        (w ∷ []) ∷ group ∷ groups,
        refl,
        (
          new_site-Summarizes w h,
          sym (fits-continues w s group h this) ∙ alone,
          (this, apart, rest),
        ),
      )
    ]

place_all-Grouped :
    (ws : List VramWrite) (sites : List Site) (groups : List (List VramWrite))
    → AreWords ws
    → IsGrouping sites groups
    → Grouped (place_all ws sites) (reversed ws (joined groups))
place_all-Grouped [] sites groups words k = (groups, refl, k)
place_all-Grouped (w ∷ ws) sites groups (h, words) k =
    let (placed, writes, grouping) = place_write-Grouped w sites groups h k in
    let (all, whole, final) = place_all-Grouped ws (place_write w sites) placed words grouping in
    (all, whole ∙ ap (reversed ws) writes, final)

-- Grouping writes to 16-bit addresses: the writes in the order of their sequence numbers, those with one
-- number in the order they had, are cut into groups, of which each site is the summary. It has the fields
-- of the first write of its group, the context and the source of all of them, their number, their
-- addresses, each a stride behind the one before, and their values if all are known. No group could have
-- been continued by the first write of the next one.
pub group_sites-IsGrouping :
    (ws : List VramWrite)
    → AreWords ws
    → (sorted : List VramWrite) × (groups : List (List VramWrite)) × IsSorted ws sorted
      × (joined groups ≡ reversed sorted [])
      × IsGrouping (group_sites ws) groups
group_sites-IsGrouping ws h =
    let (groups, whole, grouping) =
      place_all-Grouped (sort_by_seq ws) [] [] (sort-AreWords ws h) tt in
    (sort_by_seq ws, groups, sort-IsSorted ws, whole, grouping)
