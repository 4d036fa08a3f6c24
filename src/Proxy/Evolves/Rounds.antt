-- ===== src/Proxy/Evolves/Rounds.antt =====
-- What RPCs, the loop and whole rounds do to the shared files, and the buffer that a round leaves.
use sqlum_ai.Common.{
  ℕ, zero, suc, ◌==◌, ◌≡◌, refl, sym, ◌∙◌, Bool, true, false, ◌&&◌, Option, some, some-injective,
  List, [], ◌∷◌, ◌++◌, take, drop, length, ltb, concat, Bool-cases, Option-cases, inl, inr, subst,
  All, All-drop,
}
use sqlum_ai.Common.Text.{Text, codes, text_eq}
use sqlum_ai.Policy.Engine.{decide}
use sqlum_ai.Tds.Utf16.{Bytes, IsByte, decode_latin1}
use sqlum_ai.Tds.Parser.{Header}
use sqlum_ai.Tds.RpcParse.{extract_proc_and_params}
use sqlum_ai.Proxy.State.{
  Settings, World, Conn, Session, Step, went, raised, enforces, count, is_eom,
}
use sqlum_ai.Proxy.Batch.{statement_event}
use sqlum_ai.Proxy.Rpc.{
  judge_params, rewrite_params, has_params, rewrite_rpc, complete_rpc, handle_rpc, with_rpc_chunks,
  with_world,
}
use sqlum_ai.Proxy.Loop.{End, waits, fails, handle_packet, tds_loop}
use sqlum_ai.Proxy.Loop.Ends.{Incomplete, loop_incomplete, next, loop_packet}
use sqlum_ai.Proxy.Loop.Cut.{front, no_turns}
use sqlum_ai.Proxy.Pipe.{
  Round, write, write_out, write_data, finish, start, tds_round, is_sql, sniff_counter, sniff_round,
}
use sqlum_ai.Proxy.Evolves.{Evolves, same, counts, Evolves-trans}
use sqlum_ai.Proxy.Evolves.Handled.{
  Kept, Kept-trans, session_of, handle_batch-Kept, judge_params-Evolves, rewrite_params-Evolves,
}

rewrite_rpc-Kept :
    (p : Settings) (spid : ℕ) (raw payload : Bytes) (proc : Option Text)
    (params : List (Text × Text)) (s : Session)
    → Kept p s (rewrite_rpc p spid raw payload proc params s)
unfolding rewrite_rpc
rewrite_rpc-Kept p spid raw payload proc params s =
    let r = rewrite_params p spid params s.world payload false in
    let e = rewrite_params-Evolves p spid params s.world payload false in
    elim (Bool-cases r.1.1) [
      | inl new ↦ rw (rewrite_rpc, new) (record { world = e; buffer = refl; sent = refl })
      | inr old ↦ rw (rewrite_rpc, old) (record { world = e; buffer = refl; sent = refl })
    ]

complete_rpc-Kept :
    (p : Settings) (spid : ℕ) (raw payload : Bytes) (s : Session)
    → Kept p s (complete_rpc p spid raw payload s)
unfolding complete_rpc
complete_rpc-Kept p spid raw payload s =
    let found = extract_proc_and_params payload in
    let judged = judge_params p spid found.1 (count (codes "rpc_seen") s.world) in
    let e : Evolves p s.world judged.0 =
      Evolves-trans p (counts (codes "rpc_seen") same) (judge_params-Evolves p spid found.1 _) in
    elim (Bool-cases (judged.1 && enforces p)) [
      | inl block ↦
          rw (complete_rpc, block)
            (record { world = counts (codes "rpc_blocked") e; buffer = refl; sent = refl })
      | inr free ↦ elim (Bool-cases (p.inplace && enforces p && has_params found.1)) [
        | inr plain ↦
            rw (complete_rpc, free, plain) (record { world = e; buffer = refl; sent = refl })
        | inl rewritten ↦
            rw (complete_rpc, free, rewritten)
              (Kept-trans p s (with_world judged.0 s) _
                (record { world = e; buffer = refl; sent = refl })
                (rewrite_rpc-Kept p spid raw payload found.0 found.1 (with_world judged.0 s)))
      ]
    ]

handle_rpc-Kept :
    (p : Settings) (spid status : ℕ) (raw payload : Bytes) (s : Session)
    → Kept p s (session_of (handle_rpc p spid status raw payload s))
unfolding handle_rpc
handle_rpc-Kept p spid status raw payload s = elim (Bool-cases (is_eom status)) [
  | inr e ↦ rw (handle_rpc, e) (record { world = same; buffer = refl; sent = refl })
  | inl e ↦
      rw (handle_rpc, e)
        (Kept-trans p s (with_rpc_chunks [] s) _
          (record { world = same; buffer = refl; sent = refl })
          (complete_rpc-Kept p spid raw (concat (s.conn.rpc_chunks ++ payload ∷ []))
            (with_rpc_chunks [] s)))
]

handle_packet-Kept :
    (p : Settings) (h : Header) (raw : Bytes) (s : Session)
    → Kept p s (session_of (handle_packet p h raw s))
unfolding handle_packet
handle_packet-Kept p h raw s = elim (Bool-cases (h.typ == 0x01)) [
  | inl batch ↦ rw (handle_packet, batch) (handle_batch-Kept p h.spid h.status (drop 8 raw) s)
  | inr other ↦ elim (Bool-cases (h.typ == 0x03)) [
    | inl rpc ↦
        rw (handle_packet, other, rpc) (handle_rpc-Kept p h.spid h.status raw (drop 8 raw) s)
    | inr none' ↦
        rw (handle_packet, other, none') (record { world = same; buffer = refl; sent = refl })
  ]
]

-- Bytes that hold no whole packet.
abbrev pub Waiting : Bytes → Type 0
Waiting b = Incomplete b × All IsByte b

-- How the loop may end: the session is kept, and it waits for more only with no whole packet left.
abbrev Ended : Settings → Session → End → Type 0
Ended p s (waits rest s') = Kept p s s' × Waiting rest
Ended p s (fails s') = Kept p s s'

Ended-trans : (p : Settings) (s t : Session) (e : End) → Kept p s t → Ended p t e → Ended p s e
Ended-trans p s t (waits rest u) k (h, i) = (Kept-trans p s t u k h, i)
Ended-trans p s t (fails u) k h = Kept-trans p s t u k h

next-Ended :
    (p : Settings) (fuel : ℕ) (rest : Bytes) (s : Session) (st : Step) (e : End)
    → Kept p s (session_of st)
    → ((t : Session) → tds_loop p fuel rest t ≡ some e → Ended p t e)
    → next p fuel rest st ≡ some e
    → Ended p s e
next-Ended p fuel rest s (raised t) e k go h = subst (Ended p s) (some-injective _ _ h) k
next-Ended p fuel rest s (went t) e k go h = Ended-trans p s t e k (go t h)

tds_loop-Ended :
    (p : Settings) (fuel : ℕ) (b : Bytes) (s : Session) (e : End)
    → All IsByte b
    → tds_loop p fuel b s ≡ some e
    → Ended p s e
tds_loop-Ended p zero b s e a h = absurd (cc (h, no_turns p b s))
tds_loop-Ended p (suc fuel) b s e a h = elim (front b) [
  | inl i ↦
      subst (Ended p s) (some-injective _ _ (sym (loop_incomplete p fuel b s i) ∙ h))
        (record { world = same; buffer = refl; sent = refl }, (i, a))
  | inr (hd, eq, le) ↦
      next-Ended p fuel (drop hd.length b) s (handle_packet p hd (take hd.length b) s) e
        (handle_packet-Kept p hd (take hd.length b) s)
        (λ t. tds_loop-Ended p fuel (drop hd.length b) t e (All-drop IsByte hd.length b a))
        (sym (loop_packet p fuel b hd s eq le) ∙ h)
]

-- What a round leaves: the shared files have evolved, and the buffer holds no whole packet, if it held
-- none before.
pub record Left (p : Settings) (c : Conn) (w : World) (r : Round) : Type 0 where
  pub world : Evolves p w r.world
  pub waiting : Waiting c.c2s_buf → Waiting r.conn.c2s_buf

finish-Left :
    (p : Settings) (late : Bool) (bytes : Bytes) (c : Conn) (w : World) (e : End)
    → Ended p (start c w) e
    → Left p c w (finish p late bytes e)
unfolding finish write_out write write_data
finish-Left p late bytes c w (waits rest s) (k, i) =
    elim (Bool-cases (ltb p.max_rewrite_bytes (length s.out))) [
      | inl over ↦
          rw (finish, write_out, over)
            (record { world = counts (codes "rewrite_skipped_size") k.world; waiting = λ _. i })
      | inr within ↦ rw (finish, write_out, within) (record { world = k.world; waiting = λ _. i })
    ]
finish-Left p true bytes c w (fails s) k = record {
  world = counts (codes "rewrite_skipped_budget") k.world;
  waiting = λ i. subst Waiting (sym k.buffer) i;
}
finish-Left p false bytes c w (fails s) k = record {
  world = k.world;
  waiting = λ i. subst Waiting (sym k.buffer) i;
}

pub tds_round-Left :
    (p : Settings) (fuel : ℕ) (late : Bool) (bytes : Bytes) (c : Conn) (w : World) (r : Round)
    → All IsByte (c.c2s_buf ++ bytes)
    → tds_round p fuel late bytes c w ≡ some r
    → Left p c w r
unfolding tds_round
tds_round-Left p fuel late bytes c w r a h =
    elim (Option-cases (tds_loop p fuel (c.c2s_buf ++ bytes) (start c w))) [
      | inr stuck ↦ absurd (cc (rw (tds_round, stuck) at h))
      | inl (e, done) ↦ subst (Left p c w) (some-injective _ _ (rw (tds_round, done) at h)) (
          finish-Left p late bytes c w e
            (tds_loop-Ended p fuel (c.c2s_buf ++ bytes) (start c w) e a done))
    ]

pub sniff_round-Left :
    (p : Settings) (late : Bool) (bytes : Bytes) (c : Conn) (w : World)
    → Left p c w (sniff_round p late bytes c w).0
unfolding sniff_round write_data write
sniff_round-Left p late bytes c w =
    let sample = decode_latin1 bytes in
    let d = decide p.engine (statement_event sample) in
    let once : Evolves p w (count (sniff_counter d) w) = counts (sniff_counter d) same in
    elim (Bool-cases (is_sql sample)) [
      | inr other ↦ elim (Bool-cases late) [
        | inl slow ↦
            rw (sniff_round, write_data, other, slow)
              (record { world = counts _ same; waiting = λ i. i })
        | inr quick ↦
            rw (sniff_round, write_data, other, quick) (record { world = same; waiting = λ i. i })
      ]
      | inl sql ↦ elim (Bool-cases (text_eq d.action (codes "block") && enforces p)) [
        | inl block ↦ rw (sniff_round, sql, block) (record { world = once; waiting = λ i. i })
        | inr free ↦ elim (Bool-cases late) [
          | inl slow ↦
              rw (sniff_round, write_data, sql, free, slow)
                (record { world = counts (codes "rewrite_skipped_budget") once; waiting = λ i. i })
          | inr quick ↦
              rw (sniff_round, write_data, sql, free, quick)
                (record { world = once; waiting = λ i. i })
        ]
      ]
    ]
