-- ===== src/Tds/Parser.antt =====
-- src/tds/parser.py: packet headers, the packets of a buffer, and the text of a batch. Bytes are
-- numbers below 256, so `(a << 8) | b` is `a * 256 + b`.
pub mod Packets
use sqlum_ai.Common.{
  ℕ, zero, suc, ◌+◌, ◌*◌, Bool, Option, none, some, List, [], ◌∷◌, ◌||◌, length, take, drop, concat,
  ltb, ◌==◌, if◌then◌else◌,
}
use sqlum_ai.Common.Text.{Text, codes}
use sqlum_ai.Tds.Utf16.{Bytes, decode, decode_latin1}

pub record Header : Type 0 where
  pub typ : ℕ
  pub status : ℕ
  pub length : ℕ
  pub spid : ℕ
  pub packet : ℕ
  pub window : ℕ

unfoldable pub parse_header : Bytes → Option Header
parse_header (b0 ∷ (b1 ∷ (b2 ∷ (b3 ∷ (b4 ∷ (b5 ∷ (b6 ∷ (b7 ∷ rest)))))))) = some (record {
  typ = b0;
  status = b1;
  length = b2 * 256 + b3;
  spid = b4 * 256 + b5;
  packet = b6;
  window = b7;
})
parse_header _ = none

-- `TDS_TYPES.get(typ)`; `none` is printed as `Unknown(0x…)`
unfoldable pub type_name : ℕ → Option Text
type_name t =
    if t == 0x01
    then some (codes "SQL Batch")
    else if t == 0x02
    then some (codes "Pre-TDS Login")
    else if t == 0x03
    then some (codes "RPC")
    else if t == 0x04
    then some (codes "Tabular Result")
    else if t == 0x12
    then some (codes "Login7")
    else if t == 0x07
    then some (codes "Attention")
    else if t == 0x0E
    then some (codes "Transaction Manager")
    else none

abbrev pub eom : ℕ
eom = 0x01

pub record Packet : Type 0 where
  pub typ : ℕ
  pub status : ℕ
  pub length : ℕ
  pub spid : ℕ
  pub packet : ℕ
  pub payload : Bytes

abbrev pub packet_of : Header → Bytes → Packet
packet_of h rest = record {
  typ = h.typ;
  status = h.status;
  length = h.length;
  spid = h.spid;
  packet = h.packet;
  payload = drop 8 (take h.length rest);
}

-- The loop of `iter_packets`, on what stands at `off`. A round takes eight bytes at least, so as
-- many rounds as there are bytes are enough.
unfoldable pub iter_loop : ℕ → Bytes → List Packet
unfolding parse_header
iter_loop zero rest = []
iter_loop (suc fuel) rest = elim (parse_header (take 8 rest)) [
  | none ↦ []
  | some h ↦
      let more = iter_loop fuel (drop h.length rest) in
      if ltb h.length 8 || ltb (length rest) h.length then [] else packet_of h rest ∷ more
]

unfoldable pub iter_packets : Bytes → List Packet
unfolding iter_loop
iter_packets buf = iter_loop (length buf) buf

-- `extract_sqlbatch_text`: Latin-1 takes every byte, so the last `return None` is never reached.
unfoldable pub extract_sqlbatch_text : List Bytes → Option Text
unfolding decode
extract_sqlbatch_text [] = none
extract_sqlbatch_text (c ∷ cs) = elim (decode (concat (c ∷ cs))) [
  | some s ↦ some s
  | none ↦ some (decode_latin1 (concat (c ∷ cs)))
]
