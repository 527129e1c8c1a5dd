-- ===== src/Tests/Codecs.antt =====
-- compress/ and chr.rs on short inputs, good and bad.
use decomps_agent.Prelude.{
  ℕ, ◌≡◌, refl, arith, true, false, none, some, Option, List, [], ◌∷◌, length, replicate,
}
use decomps_agent.Chr.{tiles_to_gray}
use decomps_agent.Chr.Bounds.{Draws, tiles_to_gray-Draws}
use decomps_agent.Compress.Decoded.{reached, finished}
use decomps_agent.Compress.Rle
use decomps_agent.Compress.Rle.Packets.{Packet, repeated, literal, render, expand}
use decomps_agent.Compress.Rle.RoundTrip.{decode-encode, decode-render_whole}
use decomps_agent.Compress.Rle.Safety.{decode_literal_short}
use decomps_agent.Compress.Lz
use decomps_agent.Compress.Lz.Safety.{EndsInBounds, decode-EndsInBounds}
use decomps_agent.Compress.Lz.Encode.{encode}
use decomps_agent.Compress.Lz.Encode.RoundTrip.{decode-encode_whole}
use decomps_agent.Compress.Lz.Window.{Repeats, copy_back-Repeats}
use decomps_agent.Compress.Pb53
use Prim.Native.String.{String}
use decomps_agent.Compress.Dispatch.{Outcome, unknown_decoder, is_known}
use decomps_agent.Compress.Dispatch
use decomps_agent.Compress.Dispatch.Bounds.{RunsInBounds, decode-RunsInBounds}
use decomps_agent.Compress.Pb53.Safety.{EndsInTiles, decode-EndsInTiles}

abbrev runs_and_bytes : List ℕ
runs_and_bytes = 7 ∷ 7 ∷ 7 ∷ 7 ∷ 1 ∷ 2 ∷ 2 ∷ 9 ∷ []

decode-encode_example :
    (e : List ℕ) × (Rle.encode runs_and_bytes ≡ some e)
    × (Rle.decode e (some 8)
        ≡ some (record {
          data_out = runs_and_bytes;
          consumed = length e;
          is_ok = reached (some 8) runs_and_bytes;
        }))
decode-encode_example = decode-encode runs_and_bytes (some 8) (omega arith)

-- A run of two, which the encoder would write as a literal.
abbrev packets : List Packet
packets = repeated 2 5 ∷ literal (1 ∷ 1 ∷ 1 ∷ []) ∷ repeated 128 0 ∷ []

decode-render_whole_example :
    Rle.decode (render packets) none
    ≡ some (record {
      data_out = expand packets;
      consumed = length (render packets);
      is_ok = reached none (expand packets);
    })
decode-render_whole_example = decode-render_whole packets none (ground arith) (omega arith)

decode_literal_short_example :
    Rle.decode (3 ∷ 10 ∷ 11 ∷ 12 ∷ []) (some 3)
    ≡ some (record { data_out = 10 ∷ 11 ∷ 12 ∷ []; consumed = 4; is_ok = false })
decode_literal_short_example = decode_literal_short 3 10 (11 ∷ 12 ∷ []) (omega arith) (omega arith)

-- A literal, a reference to it, and one that reaches before the output.
abbrev lz_input : List ℕ
lz_input = 0x80 ∷ 65 ∷ 0 ∷ 2 ∷ 255 ∷ 0 ∷ []

decode-EndsInBounds_example : EndsInBounds 4 6 (Lz.decode lz_input (some 4))
decode-EndsInBounds_example = decode-EndsInBounds lz_input (some 4)

-- A reference that overlaps itself, behind the literals it repeats.
abbrev periodic : List ℕ
periodic = 1 ∷ 2 ∷ 1 ∷ 2 ∷ 1 ∷ 2 ∷ 1 ∷ 9 ∷ []

decode-encode_whole_example :
    Lz.decode (encode periodic) none
    ≡ finished (record { data_out = periodic; consumed = length (encode periodic); is_ok = true })
decode-encode_whole_example = decode-encode_whole periodic (omega arith)

abbrev doubled : List ℕ
doubled = 1 ∷ 2 ∷ 3 ∷ 2 ∷ 3 ∷ 2 ∷ 3 ∷ []

overlapping : Lz.copy_back 4 100 1 (1 ∷ 2 ∷ 3 ∷ []) ≡ some doubled
unfolding Lz.copy_back
overlapping = refl

copy_back-Repeats_example :
    (result : List ℕ) × (Lz.copy_back 4 100 1 (1 ∷ 2 ∷ 3 ∷ []) ≡ some result)
    × Repeats 4 100 1 (1 ∷ 2 ∷ 3 ∷ []) result
copy_back-Repeats_example = copy_back-Repeats 4 100 1 (1 ∷ 2 ∷ 3 ∷ []) (omega arith) (omega arith)

decode-EndsInTiles_example : EndsInTiles 32 3 (Pb53.decode (0x85 ∷ 0x82 ∷ 0x83 ∷ []) (some 2))
decode-EndsInTiles_example = decode-EndsInTiles (0x85 ∷ 0x82 ∷ 0x83 ∷ []) (some 2)

-- Two tiles and a part of a third.
tiles_to_gray-Draws_example : Draws 1024 (tiles_to_gray (replicate 40 0xA5))
tiles_to_gray-Draws_example = tiles_to_gray-Draws (replicate 40 0xA5)

-- An engine that refuses every script.
abbrev no_scripts : String → List ℕ → Option ℕ → Outcome
no_scripts path input max_out = unknown_decoder path

decode-RunsInBounds_example :
    RunsInBounds 40 6 (Dispatch.decode no_scripts "pb53" lz_input (some 40))
unfolding is_known
decode-RunsInBounds_example =
    decode-RunsInBounds no_scripts "pb53" lz_input 40 refl refl (omega arith)
