-- ===== src/Proxy/Server.antt =====
-- The connections of the proxy over the files that they share. A round has no `await` before it writes, so
-- the rounds of the connections come one after the other, in any order.
pub mod Reached
use sqlum_ai.Common.{ℕ, ◌≡◌, Bool, true, false, some, List, [], ◌∷◌, ◌++◌, All, if◌then◌else◌}
use sqlum_ai.Common.Text.{codes}
use sqlum_ai.Tds.Utf16.{Bytes, IsByte}
use sqlum_ai.Proxy.State.{Settings, World, Conn, count}
use sqlum_ai.Proxy.Pipe.{Round, tds_round, sniff_round}

pub record Server : Type 0 where
  pub conns : List Conn
  pub world : World

-- `counter: dict = {}`
abbrev pub new_conn : Conn
new_conn = record { sql_chunks = []; rpc_chunks = []; c2s_buf = []; sent = 0 }

abbrev pub server : List Conn → Conn → List Conn → World → Server
server before c after w = record { conns = before ++ c ∷ after; world = w }

-- The server's direction forwards what it reads, and counts a round that took too long.
unfoldable pub answer : Bool → World → World
answer late w = if late then count (codes "rewrite_skipped_budget") w else w

-- What may happen next.
pub data Turn (p : Settings) : Server → Server → Type 0 where
  -- a client connects
  opens : (s : Server) → Turn p s (record s { conns = s.conns ++ new_conn ∷ [] })
  -- a round of one connection, the packet parser being on
  reads :
      (before after : List Conn) (c : Conn) (w : World) (fuel : ℕ) (late : Bool) (bytes : Bytes)
      (r : Round)
      → All IsByte bytes
      → tds_round p fuel late bytes c w ≡ some r
      → Turn p (server before c after w) (server before r.conn after r.world)
  -- a round of one connection, the parser being off and the sniffing on
  sniffs :
      (before after : List Conn) (c : Conn) (w : World) (late : Bool) (bytes : Bytes)
      → (sniff_round p late bytes c w).1 ≡ false
      → Turn p (server before c after w) (
          server before
            (sniff_round p late bytes c w).0.conn
            after
            (sniff_round p late bytes c w).0.world)
  -- the same, where the statement is blocked and the connection closed
  cuts_off :
      (before after : List Conn) (c : Conn) (w : World) (late : Bool) (bytes : Bytes)
      → (sniff_round p late bytes c w).1 ≡ true
      → Turn p
          (server before c after w)
          (record { conns = before ++ after; world = (sniff_round p late bytes c w).0.world })
  -- the server answers on a connection
  answers : (s : Server) (late : Bool) → Turn p s (record s { world = answer late s.world })
  -- a connection ends
  closes :
      (before after : List Conn) (c : Conn) (w : World)
      → Turn p (server before c after w) (record { conns = before ++ after; world = w })

-- Any number of turns.
pub data Runs (p : Settings) : Server → Server → Type 0 where
  stays : {s : Server} → Runs p s s
  turns : {s t u : Server} → Runs p s t → Turn p t u → Runs p s u
