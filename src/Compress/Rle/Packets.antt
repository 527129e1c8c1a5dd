-- ===== src/Compress/Rle/Packets.antt =====
-- The stream format that the head of compress/rle.rs describes: packets, their bytes and what
-- they stand for.
use decomps_agent.Prelude.{
  ℕ, ◌+◌, ◌-◌, ◌≤◌, ◌≡◌, Option, some, List, [], ◌∷◌, ◌++◌, length, take, replicate,
}
use decomps_agent.Compress.Decoded.{Decoded, limit_of, reached}

pub data Packet : Type 0 where
  repeated : ℕ → ℕ → Packet
  literal : List ℕ → Packet

abbrev pub IsPacket : Packet → Type 0
IsPacket (repeated count b) = (1 ≤ count) × (count ≤ 128)
IsPacket (literal bytes) = (1 ≤ length bytes) × (length bytes ≤ 128)

-- The bytes of a stream of packets.
abbrev pub render : List Packet → List ℕ
render [] = []
render (repeated count b ∷ ps) = (128 + (count - 1)) ∷ b ∷ render ps
render (literal bytes ∷ ps) = (length bytes - 1) ∷ (bytes ++ render ps)

-- What the stream stands for.
abbrev pub expand : List Packet → List ℕ
expand [] = []
expand (repeated count b ∷ ps) = replicate count b ++ expand ps
expand (literal bytes ∷ ps) = bytes ++ expand ps

-- What the loop returns on a stream of packets: the expansion cut at the limit, and the whole
-- stream consumed if the limit leaves room for all of it.
pub record IsExpansion (m : Option ℕ) (full : List ℕ) (start size : ℕ) (result : Option Decoded)
    : Type 0 where
  pub consumed : ℕ
  pub returns :
      result
      ≡ some (record {
        data_out = take (limit_of m) full;
        consumed = consumed;
        is_ok = reached m (take (limit_of m) full);
      })
  pub within : (start ≤ consumed) × (consumed ≤ start + size)
  pub complete : length full ≤ limit_of m → consumed ≡ start + size
