-- ===== src/Compress/Rle/RoundTrip.antt =====
-- compress/rle.rs: the encoder and the decoder together.
use decomps_agent.Prelude.{ℕ, ◌≤◌, ◌≡◌, arith, Option, some, List, All, length, take, take_all}
use decomps_agent.Compress.Decoded.{limit_of, reached}
use decomps_agent.Compress.Rle.{encode, decode}
use decomps_agent.Compress.Rle.Packets.{Packet, IsPacket, expand, render}
use decomps_agent.Compress.Rle.Stream.{decode-render}
use decomps_agent.Compress.Rle.Encoder.{encode-IsEncoding}

-- The encoder returns a code `e` for every input, and decoding `e` gives the first bytes of the
-- input, as many as the limit allows; `is_ok` says whether a requested size was reached.
pub decode-encode-take :
    (input : List ℕ) (m : Option ℕ)
    → (e : List ℕ) × (consumed : ℕ) × (encode input ≡ some e)
      × (decode e m
          ≡ some (record {
            data_out = take (limit_of m) input;
            consumed = consumed;
            is_ok = reached m (take (limit_of m) input);
          }))
      × (length input ≤ limit_of m → consumed ≡ length e)
decode-encode-take input m =
    let r = encode-IsEncoding input in
    let d = decode-render r.packets m r.valid in
    let e = r.stands_for in
    (
      render r.packets,
      d.consumed,
      r.returns,
      rw e at d.returns,
      λ h. omega (arith, d.complete (rw e h)),
    )

-- The encoder returns a code for every input, and decoding that code, under a limit that leaves
-- room for the input, gives the input back and consumes the whole code. With no limit `is_ok` is
-- set; with a limit it says whether the input is as long as the limit.
pub decode-encode :
    (input : List ℕ) (m : Option ℕ)
    → length input ≤ limit_of m
    → (e : List ℕ) × (encode input ≡ some e)
      × (decode e m
          ≡ some (record { data_out = input; consumed = length e; is_ok = reached m input }))
decode-encode input m h =
    let (e, consumed, returns, decodes, whole) = decode-encode-take input m in
    (e, returns, rw (take_all (limit_of m) input h, whole h) at decodes)

-- Any stream of packets, each of 1 to 128 bytes, whether or not the encoder would write it, decodes to
-- what the packets stand for and is consumed whole, when the limit leaves room for that.
pub decode-render_whole :
    (ps : List Packet) (m : Option ℕ)
    → All IsPacket ps
    → length (expand ps) ≤ limit_of m
    → decode (render ps) m
      ≡ some (record {
        data_out = expand ps;
        consumed = length (render ps);
        is_ok = reached m (expand ps);
      })
decode-render_whole ps m valid h =
    let d = decode-render ps m valid in
    let whole : d.consumed ≡ length (render ps) = omega (arith, d.complete h) in
    rw (take_all (limit_of m) (expand ps) h, whole) at d.returns
