-- ===== src/Proxy/Server/Reached.antt =====
-- What holds however the connections interleave.
use sqlum_ai.Common.{
  ◌+◌, ◌*◌, ◌<◌, ◌≡◌, inl, inr, ap, true, false, some, some-injective, List, [], ◌∷◌, ◌++◌, All,
  All-append, length, arith,
}
use sqlum_ai.Common.Text.{codes}
use sqlum_ai.Tds.Utf16.{Bytes, IsByte}
use sqlum_ai.Tds.Parser.{Header, parse_header}
use sqlum_ai.Proxy.State.{Settings, World, Conn}
use sqlum_ai.Proxy.Evolves.{Evolves, same, counts, Evolves-trans, Grown, Evolves-Grown}
use sqlum_ai.Proxy.Evolves.Rounds.{Waiting, tds_round-Left, sniff_round-Left}
use sqlum_ai.Proxy.Server.{
  Server, new_conn, answer, Turn, Runs, opens, reads, sniffs, cuts_off, answers, closes, stays,
  turns,
}

-- No connection has a whole packet in front of its buffer of bytes that are not cut yet.
abbrev pub AllWait : List Conn → Type 0
AllWait = All (λ c. Waiting c.c2s_buf)

All_split :
    (before after : List Conn) (c : Conn)
    → AllWait (before ++ c ∷ after)
    → AllWait before × Waiting c.c2s_buf × AllWait after
All_split [] after c (h, hs) = (tt, h, hs)
All_split (b ∷ before) after c (hb, h) =
    let (hs, hc, ha) = All_split before after c h in ((hb, hs), hc, ha)

-- The shared files evolve, and no buffer of bytes that are not cut comes to have a whole packet in front.
abbrev pub Safe : Settings → Server → Server → Type 0
Safe p s t = (AllWait s.conns → Evolves p s.world t.world × AllWait t.conns)

joined :
    (before after : List Conn) (c : Conn)
    → AllWait before
    → Waiting c.c2s_buf
    → AllWait after
    → AllWait (before ++ c ∷ after)
joined before after c hb hc ha = All-append (λ c. Waiting c.c2s_buf) before (c ∷ after) hb (hc, ha)

Turn-Safe : (p : Settings) (s t : Server) → Turn p s t → Safe p s t
unfolding answer
Turn-Safe p s t (opens s') h = (same, joined s.conns [] new_conn h ((inl (omega arith)), tt) tt)
Turn-Safe p s t (reads before after c w fuel late bytes r hb e) h =
    let (hs, (i, a), ha) = All_split before after c h in
    let left = tds_round-Left p fuel late bytes c w r (All-append IsByte c.c2s_buf bytes a hb) e in
    (left.world, joined before after r.conn hs (left.waiting (i, a)) ha)
Turn-Safe p s t (sniffs before after c w late bytes e) h =
    let (hs, hc, ha) = All_split before after c h in
    let left = sniff_round-Left p late bytes c w in
    (left.world, joined before after _ hs (left.waiting hc) ha)
Turn-Safe p s t (cuts_off before after c w late bytes e) h =
    let (hs, hc, ha) = All_split before after c h in
    (
      (sniff_round-Left p late bytes c w).world,
      All-append (λ c. Waiting c.c2s_buf) before after hs ha,
    )
Turn-Safe p s t (answers s' true) h = (counts (codes "rewrite_skipped_budget") same, h)
Turn-Safe p s t (answers s' false) h = (same, h)
Turn-Safe p s t (closes before after c w) h =
    let (hs, hc, ha) = All_split before after c h in
    (same, All-append (λ c. Waiting c.c2s_buf) before after hs ha)

Runs-Safe : (p : Settings) (s t : Server) → Runs p s t → Safe p s t
Runs-Safe p s t stays h = (same, h)
Runs-Safe p s t (turns {t = m} run turn) h =
    let (e, hm) = Runs-Safe p s m run h in
    let (e', ht) = Turn-Safe p m t turn hm in (Evolves-trans p e e', ht)

header_length : (b : Bytes) (h : Header) → All IsByte b → parse_header b ≡ some h → h.length < 65536
unfolding parse_header
header_length (b0 ∷ (b1 ∷ (b2 ∷ (b3 ∷ (b4 ∷ (b5 ∷ (b6 ∷ (b7 ∷ more)))))))) h
      (h0, (h1, (h2, (h3, hs)))) e =
    let field : b2 * 256 + b3 ≡ h.length = ap (λ x. x.length) (some-injective _ _ e) in
    omega (arith, field, h2, h3)
header_length [] h a e = cc
header_length b h a e = cc

Waiting-bound : (b : Bytes) → Waiting b → length b < 65536
Waiting-bound b (inl few, a) = omega arith
Waiting-bound b (inr (h, e, more), a) = omega (arith, more, header_length b h a e)

AllWait-bound : (conns : List Conn) → AllWait conns → All (λ c. length c.c2s_buf < 65536) conns
AllWait-bound [] h = tt
AllWait-bound (c ∷ conns) (hc, h) = (Waiting-bound c.c2s_buf hc, AllWait-bound conns h)

-- Whatever the order in which connections open, send, are answered and close, from a proxy without
-- connections on: no counter of the metrics is ever lower than before, no key of them comes to be there
-- twice, the log has all lines that it had, in front; and each connection's buffer of bytes that are not
-- cut into packets yet has no whole packet in front and less than 65536 bytes. The chunks of batches and
-- RPCs that wait for their last packet are apart from this buffer, and are not bounded.
pub Runs-Grown :
    (p : Settings) (w : World) (t : Server)
    → Runs p (record { conns = []; world = w }) t
    → Grown w t.world × AllWait t.conns × All (λ c. length c.c2s_buf < 65536) t.conns
Runs-Grown p w t run =
    let (e, h) = Runs-Safe p (record { conns = []; world = w }) t run tt in
    (Evolves-Grown p w t.world e, h, AllWait-bound t.conns h)
