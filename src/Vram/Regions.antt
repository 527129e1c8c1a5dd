-- ===== src/Vram/Regions.antt =====
-- vram.rs: the names of VRAM addresses.
use decomps_agent.Prelude.{
  ℕ, ◌+◌, ◌*◌, ◌/◌, ◌%◌, ◌≤◌, ◌<◌, ◌≡◌, inl, inr, sym, arith, bit_and, true, leb, ltb, Bool-cases,
}
use decomps_agent.Prelude.Masks.{bit_and-mask}
use decomps_agent.Vram.{
  Region, pattern_table, attribute_table, nametable, palette_bg, palette_sprite, unknown_region,
  nametable_region, region_of, region,
}

-- The address that a region's numbers stand for, less the mirrors.
abbrev pub Locates : ℕ → Region → Type 0
Locates a (pattern_table k) = (k < 2) × (a / 0x1000 ≡ k)
Locates a (attribute_table k n) =
    (k < 4) × (n < 64) × (0x2000 ≤ a) × (a < 0x3F00) × (a % 0x1000 ≡ k * 0x400 + 0x3C0 + n)
Locates a (nametable k row col) =
    (k < 4)
    × (row < 30)
    × (col < 32)
    × (0x2000 ≤ a)
    × (a < 0x3F00)
    × (a % 0x1000 ≡ k * 0x400 + row * 32 + col)
Locates a (palette_bg p) = (p < 16) × (0x3F00 ≤ a) × (a % 32 ≡ p)
Locates a (palette_sprite p) = (p < 16) × (0x3F00 ≤ a) × (a % 32 ≡ 16 + p)
Locates a unknown_region = ⊥

nametable-Locates :
    (a k w : ℕ)
    → k < 4
    → w < 0x400
    → 0x2000 ≤ a
    → a < 0x3F00
    → a % 0x1000 ≡ k * 0x400 + w
    → Locates a (nametable_region k w)
nametable-Locates a k w hk hw low high e = elim (Bool-cases (leb 0x3C0 w)) [
  | inl table ↦ rw table (hk, ground arith, low, high, ground arith)
  | inr name ↦ rw name (hk, ground arith, ground arith, low, high, ground arith)
]

region_of-Locates : (a p : ℕ) → a < 0x4000 → p ≡ a % 32 → Locates a (region_of a p)
region_of-Locates a p h e = elim (Bool-cases (leb a 0x0FFF)) [
  | inl first ↦ rw first (omega arith, ground arith)
  | inr f ↦ elim (Bool-cases (leb a 0x1FFF)) [
    | inl second ↦ rw (f, second) (omega arith, ground arith)
    | inr g ↦ elim (Bool-cases (leb a 0x3EFF)) [
      | inl name ↦
          rw (f, g, name)
            (nametable-Locates a _ _ (omega arith) (omega arith) (ground arith) (ground arith)
              (ground arith))
      | inr above ↦
          let top : leb a 0x3FFF ≡ true = ground arith in
          elim (Bool-cases (ltb p 0x10)) [
            | inl bg ↦ rw (f, g, above, top, bg) (ground arith, ground arith, omega arith)
            | inr sprite ↦ rw (f, g, above, top, sprite) (ground arith, ground arith, ground arith)
          ]
    ]
  ]
]

-- Every address of the PPU has a region with a name: the pattern tables below $2000, the nametables and
-- their attributes from there up to $3EFF and the palettes from $3F00 on. The numbers of the name, each in
-- its range, give the address back up to the mirrors: row and column for the tiles, the byte for the
-- attributes.
pub region-Locates : (addr : ℕ) → Locates (addr % 0x4000) (region addr)
unfolding region
region-Locates addr = rw (sym (bit_and-mask 14 addr)) (
    region_of-Locates (bit_and addr 0x3FFF) (bit_and (bit_and addr 0x3FFF) 0x1F)
      (omega (arith, bit_and-mask 14 addr)) (bit_and-mask 5 (bit_and addr 0x3FFF)))
