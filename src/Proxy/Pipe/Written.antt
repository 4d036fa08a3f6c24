-- ===== src/Proxy/Pipe/Written.antt =====
-- What a round writes to the server.
use sqlum_ai.Common.{
  ℕ, ◌+◌, ◌<◌, ◌≤◌, ◌≡◌, ◌⊎◌, inl, inr, refl, Bool, some, [], ◌++◌, arith, length, ltb, Bool-cases,
}
use sqlum_ai.Tds.Utf16.{Bytes}
use sqlum_ai.Proxy.State.{Settings, World, Conn, Session}
use sqlum_ai.Proxy.Loop.{waits, tds_loop}
use sqlum_ai.Proxy.Pipe.{Round, write, write_out, finish, start, tds_round}

-- What a round has written of what its loop has put together.
abbrev pub Wrote : Settings → Session → Bytes → Round → Type 0
Wrote p s rest r =
    (r.conn.c2s_buf ≡ rest)
    × (r.conn.sent ≡ s.conn.sent + length r.written)
    × (length r.written ≤ p.max_rewrite_bytes)
    × ((r.written ≡ s.out) ⊎ ((r.written ≡ []) × (p.max_rewrite_bytes < length s.out)))

finish-Wrote :
    (p : Settings) (late : Bool) (bytes rest : Bytes) (s : Session)
    → Wrote p s rest (finish p late bytes (waits rest s))
unfolding finish write_out write
finish-Wrote p late bytes rest s = elim (Bool-cases (ltb p.max_rewrite_bytes (length s.out))) [
  | inl over ↦
      let more : p.max_rewrite_bytes < length s.out = ground (arith, over) in
      rw over (refl, refl, omega arith, inr (refl, more))
  | inr within ↦
      let few : length s.out ≤ p.max_rewrite_bytes = ground (arith, within) in
      rw within (refl, refl, few, inl refl)
]

-- A round whose loop waits for more bytes keeps them for the next round, counts the bytes that it
-- writes, and never writes more than the limit: it writes all that the loop has put together, or
-- nothing if that is over the limit.
pub tds_round-Wrote :
    (p : Settings) (fuel : ℕ) (late : Bool) (bytes rest : Bytes) (c : Conn) (w : World)
    (s : Session)
    → tds_loop p fuel (c.c2s_buf ++ bytes) (start c w) ≡ some (waits rest s)
    → (r : Round) × (tds_round p fuel late bytes c w ≡ some r) × Wrote p s rest r
unfolding tds_round
tds_round-Wrote p fuel late bytes rest c w s h =
    (finish p late bytes (waits rest s), rw (tds_round, h), finish-Wrote p late bytes rest s)
