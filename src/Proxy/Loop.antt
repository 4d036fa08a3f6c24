-- ===== src/Proxy/Loop.antt =====
-- The loop over the packets of a buffer.
pub mod Cut
pub mod Ends
use sqlum_ai.Common.{
  ℕ, zero, suc, ◌+◌, ◌==◌, Bool, Option, none, some, List, [], ◌∷◌, ◌++◌, take, drop, length, ltb,
  if◌then◌else◌,
}
use sqlum_ai.Tds.Utf16.{Bytes}
use sqlum_ai.Tds.Parser.{Header, parse_header}
use sqlum_ai.Proxy.State.{Settings, World, Conn, Session, Step, went, raised}
use sqlum_ai.Proxy.Batch.{handle_batch}
use sqlum_ai.Proxy.Rpc.{handle_rpc, sends}

-- A packet: its header, and its bytes, header included.
unfoldable pub handle_packet : Settings → Header → Bytes → Session → Step
handle_packet p h raw s =
    if h.typ == 0x01
    then handle_batch p h.spid h.status (drop 8 raw) s
    else if h.typ == 0x03
    then handle_rpc p h.spid h.status raw (drop 8 raw) s
    else went (sends raw s)

-- How the loop ends: at bytes that are no whole packet, or at an exception.
pub data End : Type 0 where
  waits : Bytes → Session → End
  fails : Session → End

-- `none`: the loop has not ended within the rounds.
unfoldable pub tds_loop : Settings → ℕ → Bytes → Session → Option End
unfolding handle_packet parse_header
tds_loop p zero buf s = none
tds_loop p (suc fuel) buf s = elim (parse_header (take 8 buf)) [
  | none ↦ some (waits buf s)
  | some h ↦
      if ltb (length buf) h.length
      then some (waits buf s)
      else elim (handle_packet p h (take h.length buf) s) [
        | raised s' ↦ some (fails s')
        | went s' ↦ tds_loop p fuel (drop h.length buf) s'
      ]
]
