-- ===== src/Proxy/Packed.antt =====
-- The packets that the proxy writes, read again.
use sqlum_ai.Common.{
  ℕ, ◌+◌, ◌*◌, ◌/◌, ◌%◌, ◌<◌, ◌≡◌, refl, sym, ap, ap₂, ◌∙◌, List, [], ◌∷◌, append-nil, arith,
  length, some,
}
use sqlum_ai.Common.{inl}
use sqlum_ai.Tds.Utf16.{Bytes}
use sqlum_ai.Tds.Parser.{Header, Packet, parse_header, iter_packets}
use sqlum_ai.Tds.Parser.Packets.{frame, frames, iter_packets-frames}
use sqlum_ai.Proxy.State.{packed}

abbrev pub written_header : ℕ → ℕ → ℕ → Header
written_header typ length spid = record {
  typ = typ;
  status = 1;
  length = length;
  spid = spid;
  packet = 1;
  window = 0;
}

-- The length field of a written packet is the packet's length modulo 65536.
pub parse_header-packed :
    (typ spid : ℕ) (payload : Bytes)
    → spid < 65536
    → parse_header (packed typ spid payload)
      ≡ some (written_header typ ((8 + length payload) % 65536) spid)
unfolding parse_header packed
parse_header-packed typ spid payload h =
    ap₂ (λ n k. some (written_header typ n k)) (length_field (8 + length payload)) (omega arith)
  where
    length_field : (n : ℕ) → (n / 256 % 256) * 256 + n % 256 ≡ n % 65536
    length_field n = omega arith

abbrev pub written_packet : ℕ → ℕ → Bytes → Packet
written_packet typ spid payload = record {
  typ = typ;
  status = 1;
  length = 8 + length payload;
  spid = spid;
  packet = 1;
  payload = payload;
}

packed-frame :
    (typ spid : ℕ) (payload : Bytes)
    → spid < 65536
    → 8 + length payload < 65536
    → packed typ spid payload ≡ frame (written_packet typ spid payload) 0
unfolding packed
packed-frame typ spid payload h k = ground arith

-- A written packet of less than 65536 bytes is read by `iter_packets` as the one packet it is.
pub iter_packets-packed :
    (typ spid : ℕ) (payload : Bytes)
    → spid < 65536
    → 8 + length payload < 65536
    → iter_packets (packed typ spid payload) ≡ written_packet typ spid payload ∷ []
iter_packets-packed typ spid payload h k =
    let qs : List (Packet × ℕ) = (written_packet typ spid payload, 0) ∷ [] in
    ap iter_packets (
      packed-frame typ spid payload h k
      ∙ (sym (append-nil (frame (written_packet typ spid payload) 0))
          ∙ sym (append-nil (frames qs))))
    ∙ iter_packets-frames qs [] (record { fits = refl }, tt) (inl (omega arith))
