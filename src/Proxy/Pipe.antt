-- ===== src/Proxy/Pipe.antt =====
-- A round of `_pipe`: what has been read from the client, and what is written to the server.
pub mod Written
use sqlum_ai.Common.{
  ℕ, ◌+◌, ◌&&◌, Bool, true, false, Option, none, some, List, [], ◌∷◌, ◌++◌, any, length, ltb,
  if◌then◌else◌,
}
use sqlum_ai.Common.Text.{Text, codes, text_eq, lower, contains}
use sqlum_ai.Policy.Engine.{PolicyDecision, decide}
use sqlum_ai.Tds.Utf16.{Bytes, decode_latin1}
use sqlum_ai.Proxy.State.{Settings, World, Conn, Session, enforces, count}
use sqlum_ai.Proxy.Batch.{statement_event}
use sqlum_ai.Proxy.Loop.{End, waits, fails, tds_loop}

-- What a round does: the state after it, and the bytes written.
pub record Round : Type 0 where
  pub conn : Conn
  pub world : World
  pub written : Bytes

-- `writer.write` and the count of the bytes
unfoldable pub write : Bytes → Conn → World → Round
write bytes c w = record {
  conn = record c { sent = c.sent + length bytes };
  world = w;
  written = bytes;
}

abbrev pub keep_rest : Bytes → Conn → Conn
keep_rest rest c = record c { c2s_buf = rest }

-- What the loop has put together, unless it is more than the limit.
unfoldable pub write_out : Settings → Bytes → Conn → World → Round
unfolding write
write_out p out c w =
    if ltb p.max_rewrite_bytes (length out)
    then write [] c (count (codes "rewrite_skipped_size") w)
    else write out c w

-- The end of a round that forwards what was read; `late` is the test of the time budget.
unfoldable pub write_data : Bool → Bytes → Conn → World → Round
unfolding write
write_data late bytes c w =
    write bytes c (if late then count (codes "rewrite_skipped_budget") w else w)

-- With the loop's end: an exception is passed over, and the round forwards what was read.
unfoldable pub finish : Settings → Bool → Bytes → End → Round
unfolding write_out write_data
finish p late bytes (waits rest s) = write_out p s.out (keep_rest rest s.conn) s.world
finish p late bytes (fails s) = write_data late bytes s.conn s.world

abbrev pub start : Conn → World → Session
start c w = record { conn = c; world = w; out = [] }

-- A round with the packet parser on, its loop within `fuel` turns.
unfoldable pub tds_round : Settings → ℕ → Bool → Bytes → Conn → World → Option Round
unfolding finish
tds_round p fuel late bytes c w = elim (tds_loop p fuel (c.c2s_buf ++ bytes) (start c w)) [
  | none ↦ none
  | some e ↦ some (finish p late bytes e)
]

abbrev pub keywords : List Text
keywords = codes "insert " ∷ codes "update " ∷ codes "delete " ∷ codes "select " ∷ []

-- `any(k in sample.lower() for k in …)`
unfoldable pub is_sql : Text → Bool
unfolding lower contains
is_sql sample = any (λ k. contains (lower sample) k) keywords

-- What the sniffing of a statement counts.
unfoldable pub sniff_counter : PolicyDecision → Text
sniff_counter d =
    if text_eq d.action (codes "block")
    then codes "blocks"
    else if text_eq d.action (codes "autocorrect")
    then codes "autocorrect_suggested"
    else codes "allowed"

-- A round with the parser off and the sniffing on; the flag says that the connection is closed
-- without forwarding.
unfoldable pub sniff_round : Settings → Bool → Bytes → Conn → World → Round × Bool
unfolding is_sql sniff_counter write_data
sniff_round p late bytes c w =
    let sample = decode_latin1 bytes in
    let d = decide p.engine (statement_event sample) in
    let w1 = count (sniff_counter d) w in
    if is_sql sample
    then (if text_eq d.action (codes "block") && enforces p
        then (record { conn = c; world = w1; written = [] }, true)
        else (write_data late bytes c w1, false))
    else (write_data late bytes c w, false)
