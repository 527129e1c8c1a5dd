-- ===== src/Vram/Sites.antt =====
-- vram.rs: `sites`, the grouping of writes, up to the removal of duplicates, whose keys are rendered
-- texts. The lists that the source grows at their end grow at their head here.
pub mod Runs
pub mod Order
pub mod Groups
use Prim.Native.String.{String}
use text.Mathlib.Text.{◌==◌ as ◌===◌}
use decomps_agent.Prelude.{
  ℕ, suc, ◌+◌, ◌-◌, ◌%◌, ◌^◌, Bool, true, false, ◌&&◌, leb, ltb, ◌==◌, if◌then◌else◌, Option, none,
  some, List, [], ◌∷◌,
}

pub record VramWrite : Type 0 where
  pub addr : String
  pub bank : ℕ
  pub routine : String
  pub caller : Option String
  pub vram : String
  pub region : String
  pub value : Option ℕ
  pub value_desc : String
  pub source : String
  pub via_call : Option String
  pub off : ℕ
  pub vram_n : ℕ
  pub seq : ℕ

-- The values are the bytes that the source renders.
pub record Site : Type 0 where
  pub addr : String
  pub bank : ℕ
  pub routine : String
  pub caller : Option String
  pub vram_start : String
  pub vram_region : String
  pub count : ℕ
  pub stride : ℕ
  pub values : Option (List ℕ)
  pub source : String
  pub via_call : Option String
  pub vram_n : ℕ
  pub addrs : List ℕ
  pub context : String

-- `sort_by_key(|w| w.seq)`, a stable sort.
abbrev pub insert_by_seq : VramWrite → List VramWrite → List VramWrite
insert_by_seq w [] = w ∷ []
insert_by_seq w (first ∷ rest) =
    let more = insert_by_seq w rest in
    if leb w.seq first.seq then w ∷ first ∷ rest else first ∷ more

abbrev pub sort_by_seq : List VramWrite → List VramWrite
sort_by_seq [] = []
sort_by_seq (w ∷ ws) = insert_by_seq w (sort_by_seq ws)

abbrev unwrap_or : Option String → String → String
unwrap_or none other = other
unwrap_or (some text) other = text

abbrev pub context_of : VramWrite → String
context_of w = unwrap_or w.caller w.routine

abbrev pub newest : List ℕ → ℕ
newest [] = 0
newest (a ∷ rest) = a

-- `w.vram_n.wrapping_sub(prev)`
abbrev pub delta_of : ℕ → ℕ → ℕ
delta_of n prev = (n + 2 ^ 16 - prev) % 2 ^ 16

abbrev pub fits : VramWrite → Site → Bool
fits w last =
    let prev = newest last.addrs in
    let delta = delta_of w.vram_n prev in
    let ok_stride = if last.count == 1 then leb 1 delta && leb delta 32 else delta == last.stride in
    (last.context === context_of w) && (last.source === w.source) && ok_stride && ltb prev w.vram_n

abbrev pub add_value : Option (List ℕ) → Option ℕ → Option (List ℕ)
add_value (some values) (some n) = some (n ∷ values)
add_value _ _ = none

abbrev pub extended : VramWrite → Site → Site
extended w last = record last {
  stride = if last.count == 1 then delta_of w.vram_n (newest last.addrs) else last.stride;
  count = last.count + 1;
  addrs = w.vram_n ∷ last.addrs;
  values = add_value last.values w.value;
}

abbrev one_value : Option ℕ → Option (List ℕ)
one_value none = none
one_value (some n) = some (n ∷ [])

abbrev pub new_site : VramWrite → Site
new_site w = record {
  addr = w.addr;
  bank = w.bank;
  routine = w.routine;
  caller = w.caller;
  vram_start = w.vram;
  vram_region = w.region;
  count = 1;
  stride = 1;
  values = one_value w.value;
  source = w.source;
  via_call = w.via_call;
  vram_n = w.vram_n;
  addrs = w.vram_n ∷ [];
  context = context_of w;
}

-- One round of the loop.
abbrev pub place_write : VramWrite → List Site → List Site
place_write w [] = new_site w ∷ []
place_write w (last ∷ out) = if fits w last then extended w last ∷ out else new_site w ∷ last ∷ out

abbrev pub place_all : List VramWrite → List Site → List Site
place_all [] out = out
place_all (w ∷ ws) out = place_all ws (place_write w out)

abbrev pub group_sites : List VramWrite → List Site
group_sites writes = place_all (sort_by_seq writes) []
