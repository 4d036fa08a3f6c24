-- ===== src/Tests/TdsWitnesses.antt =====
-- The theorems on src/tds/parser.py and src/tds/rpc_parse.py at concrete bytes.
use sqlum_ai.Common.{ℕ, ◌≡◌, refl, inl, List, [], ◌∷◌, ◌++◌, arith}
use sqlum_ai.Common.Text.{codes}
use sqlum_ai.Tds.Utf16.{Bytes, encode_ignore}
use sqlum_ai.Tds.Parser.{Packet, iter_packets}
use sqlum_ai.Tds.Parser.Packets.{frames, iter_packets-frames}

abbrev letter_and_pair : Bytes
letter_and_pair = 0x41 ∷ 0 ∷ 0x3d ∷ 0xd8 ∷ 0x00 ∷ 0xde ∷ []

abbrev batch_packet : Packet
batch_packet = record {
  typ = 1;
  status = 1;
  length = 10;
  spid = 51;
  packet = 1;
  payload = 0x41 ∷ 0 ∷ [];
}

abbrev two_packets : List (Packet × ℕ)
two_packets = (batch_packet, 0) ∷ (batch_packet, 7) ∷ []

iter_packets-frames_example :
    iter_packets (frames two_packets ++ 1 ∷ 2 ∷ []) ≡ batch_packet ∷ batch_packet ∷ []
iter_packets-frames_example =
    iter_packets-frames two_packets (1 ∷ 2 ∷ [])
      (record { fits = refl }, (record { fits = refl }, tt)) (inl (omega arith))

abbrev rpc_bytes : Bytes
rpc_bytes = encode_ignore (codes "dbo.Save @Phone='070', @Age=5")
