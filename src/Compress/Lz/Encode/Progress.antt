-- ===== src/Compress/Lz/Encode/Progress.antt =====
-- compress/lz.rs: the places and the flags of a group.
use decomps_agent.Prelude.{
  ℕ, zero, suc, ◌+◌, ◌/◌, ◌%◌, ◌^◌, ◌≤◌, ◌<◌, ◌≡◌, ◌∙◌, refl, sym, ap, inl, inr, arith, List, [],
  ◌∷◌, length, drop, length-drop, leb, bit_or, Bool-cases, min,
}
use decomps_agent.Compress.Lz.Encode.{best_match, Group, encode_items}
use decomps_agent.Compress.Lz.Encode.Match.{Agree, best_match-IsMatch}
use decomps_agent.Compress.Lz.Encode.Flags.{set_bit, Room-of, halve}

pub Agree-fits : (n : ℕ) (xs ys : List ℕ) → Agree n xs ys → n ≤ length ys
unfolding Agree
Agree-fits zero xs ys a = omega arith
Agree-fits (suc n) [] ys a = absurd a
Agree-fits (suc n) (x ∷ xs) [] a = absurd a
Agree-fits (suc n) (x ∷ xs) (y ∷ ys) (same, a) = omega (arith, Agree-fits n xs ys a)

-- What a group keeps: its place in the input, and the flags above its bits.
pub record Progress (bit flags i : ℕ) (input : List ℕ) (g : Group) : Type 0 where
  pub forward : min (i + min bit 1) (length input) ≤ g.next
  pub inside : g.next ≤ length input
  pub small : g.flags < 256
  pub high : g.flags / 2 ^ bit ≡ flags / 2 ^ bit

pub progress :
    (bit flags : ℕ) (input : List ℕ) (i : ℕ)
    → bit ≤ 8
    → flags < 256
    → flags % 2 ^ bit ≡ 0
    → i ≤ length input
    → Progress bit flags i input (encode_items bit flags input i)
unfolding encode_items
progress zero flags input i hb hf clear h = record {
  forward = omega arith;
  inside = h;
  small = hf;
  high = refl;
}
progress (suc bit) flags input i hb hf clear h = elim (Bool-cases (leb (length input) i)) [
  | inl end ↦
      rw (end, encode_items)
        (record { forward = ground arith; inside = h; small = hf; high = refl })
  | inr more ↦
      let clear' : flags % 2 ^ (bit + 1) ≡ 0 =
        let e : bit + 1 ≡ suc bit = omega arith in ap (λ n. flags % 2 ^ n) e ∙ clear in
      let room = Room-of flags bit hf (omega arith) clear' in
      let best = best_match input i in
      let found = best_match-IsMatch input i in
      elim (Bool-cases (leb 3 best.1)) [
        | inl long ↦
            let fits = Agree-fits best.1 _ (drop i input) found.agree in
            let enough : 3 ≤ best.1 = ground arith in
            let p =
              progress bit flags input (i + best.1) (omega arith) hf room.low_clear
                (omega (arith, fits, length-drop i input)) in
            rw (more, long, encode_items)
              (record {
                forward = omega (arith, p.forward, enough);
                inside = p.inside;
                small = p.small;
                high = up bit _ flags p.small hf (omega arith) p.high;
              })
        | inr short ↦
            let put = set_bit flags bit hf (omega arith) clear' in
            let small : bit_or flags (2 ^ bit) < 256 = omega (arith, put, room.put_small) in
            let p =
              progress bit (bit_or flags (2 ^ bit)) input (i + 1) (omega arith) small
                (ap (λ n. n % 2 ^ bit) put ∙ room.put_low) (ground arith) in
            let s : suc bit ≡ bit + 1 = omega arith in
            rw (more, short, encode_items)
              (record {
                forward = omega (arith, p.forward);
                inside = p.inside;
                small = p.small;
                high =
                    up bit _ (bit_or flags (2 ^ bit)) p.small small (omega arith) p.high
                    ∙ ap (λ n. n / 2 ^ suc bit) put
                    ∙ ap (λ n. (flags + 2 ^ bit) / 2 ^ n) s
                    ∙ room.put_high
                    ∙ ap (λ n. flags / 2 ^ n) (sym s);
              })
      ]
]
  where
    up :
        (k a b : ℕ)
        → a < 256
        → b < 256
        → k < 8
        → a / 2 ^ k ≡ b / 2 ^ k
        → a / 2 ^ suc k ≡ b / 2 ^ suc k
    up k a b ha hb hk e =
        let s : suc k ≡ k + 1 = omega arith in
        ap (λ n. a / 2 ^ n) s
        ∙ sym (halve a k ha hk)
        ∙ ap (λ n. n / 2) e
        ∙ halve b k hb hk
        ∙ ap (λ n. b / 2 ^ n) (sym s)
