-- ===== src/Vram/Stream.antt =====
-- vram.rs: an upload, two bytes to the latch and then data to the port.
use decomps_agent.Prelude.{
  ℕ, ◌+◌, ◌*◌, ◌%◌, ◌^◌, ◌<◌, ◌≡◌, refl, ap, ◌∙◌, arith, bit_or, Bool, true, false, ◌==◌, ==_iff,
  Option, none, some, List, [], ◌∷◌,
}
use decomps_agent.Prelude.Bits.{all_below, all_below_sound}
use decomps_agent.Prelude.Masks.{bit_and-mask}
use decomps_agent.Sim.{Val}
use decomps_agent.Vram.{
  Queue, Vram, Origin, Event, data_write, vram_addr, next_addr, unwrap_or_1, step_store, set_addr,
  joined,
}

abbrev high_low : ℕ → ℕ → Bool
high_low h l = bit_or (h * 2 ^ 8) l == h * 256 + l

high_low_table : all_below 256 (λ h. all_below 256 (high_low h)) ≡ true
unfolding all_below
high_low_table = refl

vram_addr_lem : (h l : ℕ) → h < 256 → l < 256 → vram_addr h l ≡ (h * 256 + l) % 0x4000
vram_addr_lem h l hh hl =
    let word : bit_or (h * 2 ^ 8) l ≡ h * 256 + l =
      (==_iff (bit_or (h * 2 ^ 8) l) (h * 256 + l)).0 (
        all_below_sound 256 (high_low h) l
          (all_below_sound 256 (λ x. all_below 256 (high_low x)) h high_low_table hh) hl) in
    rw word (bit_and-mask 14 (h * 256 + l))

-- The events of the stores of `values` to `$2007`, one after the other.
abbrev pub upload : List Val → Origin → Vram → List Queue → List (Option Event)
upload [] reg v queues = []
upload (value ∷ values) reg v queues =
    let (v', event) = step_store 0x2007 value reg v queues in event ∷ upload values reg v' queues

-- Writes from `a` on with a stride, around the end of the 16 KB.
abbrev pub writes_from : ℕ → ℕ → List Val → Origin → List (Option Event)
writes_from a stride [] reg = []
writes_from a stride (value ∷ values) reg =
    some (data_write (a % 0x4000) value reg none) ∷ writes_from (a + stride) stride values reg

writes_from_mod :
    (a b stride : ℕ) (values : List Val) (reg : Origin)
    → a % 0x4000 ≡ b % 0x4000
    → writes_from a stride values reg ≡ writes_from b stride values reg
writes_from_mod a b stride [] reg e = refl
writes_from_mod a b stride (value ∷ values) reg e =
    rw (e, writes_from_mod (a + stride) (b + stride) stride values reg (omega arith)) refl

upload_at :
    (values : List Val) (reg : Origin) (v : Vram) (queues : List Queue) (a : ℕ)
    → v.addr ≡ some a
    → a < 0x4000
    → upload values reg v queues ≡ writes_from a (unwrap_or_1 v.inc) values reg
unfolding step_store
upload_at [] reg v queues a e h = refl
upload_at (value ∷ values) reg v queues a e h =
    let small : a % 0x4000 ≡ a = omega arith in
    let next = next_addr a v.inc in
    let masked = bit_and-mask 14 (a + unwrap_or_1 v.inc) in
    let rest =
      upload_at values reg (set_addr (some next) v) queues next refl (omega (arith, masked))
      ∙ writes_from_mod next (a + unwrap_or_1 v.inc) (unwrap_or_1 v.inc) values reg
          (omega (arith, masked)) in
    rw (e, small) (ap (λ t. some (data_write a value reg none) ∷ t) rest)

-- Two known bytes stored to `$2006`, with the latch at its first byte, and values stored to `$2007`:
-- the events are the values in order, from the address of the two bytes on, each as far behind the one
-- before as the increment says, which is 1 when it is not known.
pub upload-latched :
    (h l : ℕ) (high low : Val) (values : List Val) (reg : Origin) (v : Vram) (queues : List Queue)
    → high.v ≡ some h
    → low.v ≡ some l
    → h < 256
    → l < 256
    → v.expect_lo ≡ false
    → let after_high = (step_store 0x2006 high reg v queues).0 in
      let after_low = (step_store 0x2006 low reg after_high queues).0 in
      upload values reg after_low queues ≡ writes_from (h * 256 + l) (unwrap_or_1 v.inc) values reg
unfolding step_store
upload-latched h l high low values reg v queues eh el hh hl first =
    let latched : Vram = record {
      expect_lo = false;
      hi = high.v;
      addr = joined high.v low.v;
      inc = v.inc;
      pending = v.pending;
    } in
    let place = vram_addr_lem h l hh hl in
    rw first (
      upload_at values reg latched queues (vram_addr h l) (rw (eh, el) refl) (omega (arith, place))
      ∙ writes_from_mod (vram_addr h l) (h * 256 + l) (unwrap_or_1 v.inc) values reg
          (omega (arith, place)))
