-- ===== src/Proxy/Loop/Ends.antt =====
-- When the loop ends, and what it has then done.
use sqlum_ai.Common.{
  ℕ, zero, suc, ◌<◌, ◌≤◌, ◌≡◌, ◌≢◌, ◌⊎◌, inl, inr, refl, ap, ◌∙◌, Option, none, some, List, [], ◌∷◌,
  ◌++◌, append_assoc, arith, All, length, take, drop, take-append, drop-append, length-append,
  Option-cases,
}
use sqlum_ai.Tds.Utf16.{Bytes}
use sqlum_ai.Tds.Parser.{Header, parse_header, Packet}
use sqlum_ai.Tds.Parser.Packets.{
  frame, frames, IsPacket, header_of, header_frame, header_take, long,
}
use sqlum_ai.Proxy.State.{Settings, Session, Step, went, raised}
use sqlum_ai.Proxy.Rpc.{sends}
use sqlum_ai.Proxy.Loop.{End, waits, fails, handle_packet, tds_loop}

-- No packet is whole yet.
abbrev pub Incomplete : Bytes → Type 0
Incomplete b = (length b < 8) ⊎ ((h : Header) × (parse_header b ≡ some h) × (length b < h.length))

-- The packets handled one after the other, with `rest` behind them, until one raises.
unfoldable pub handle_all : Settings → Bytes → List (Packet × ℕ) → Session → End
handle_all p rest [] s = waits rest s
handle_all p rest ((q, window) ∷ qs) s =
    elim (handle_packet p (header_of q window) (frame q window) s) [
      | raised s' ↦ fails s'
      | went s' ↦ handle_all p rest qs s'
    ]

pub loop_incomplete :
    (p : Settings) (fuel : ℕ) (b : Bytes) (s : Session)
    → Incomplete b
    → tds_loop p (suc fuel) b s ≡ some (waits b s)
unfolding tds_loop
loop_incomplete p fuel b s (inl few) = elim (Option-cases (parse_header b)) [
  | inl (h, e) ↦ absurd (omega (arith, long b h e))
  | inr e ↦ rw (tds_loop, header_take b, e)
]
loop_incomplete p fuel b s (inr (h, e, more)) = rw (tds_loop, header_take b, e) (ground arith)

-- what is left to do once a packet has been handled
abbrev pub next : Settings → ℕ → Bytes → Step → Option End
next p fuel rest (raised s) = some (fails s)
next p fuel rest (went s) = tds_loop p fuel rest s

-- One turn at a whole packet.
pub loop_packet :
    (p : Settings) (fuel : ℕ) (b : Bytes) (h : Header) (s : Session)
    → parse_header b ≡ some h
    → h.length ≤ length b
    → tds_loop p (suc fuel) b s
      ≡ next p fuel (drop h.length b) (handle_packet p h (take h.length b) s)
unfolding tds_loop
loop_packet p fuel b h s e le = rw (tds_loop, header_take b, e) (ground arith)

after_packet :
    (p : Settings) (fuel : ℕ) (more rest : Bytes) (qs : List (Packet × ℕ)) (st : Step)
    → ((s : Session) → tds_loop p fuel more s ≡ some (handle_all p rest qs s))
    → next p fuel more st ≡ some (elim st [ raised s ↦ fails s | went s ↦ handle_all p rest qs s ])
after_packet p fuel more rest qs (raised s) h = refl
after_packet p fuel more rest qs (went s) h = h s

frame_cut :
    (q : Packet) (w : ℕ) (more : Bytes)
    → IsPacket q
    → (take q.length (frame q w ++ more) ≡ frame q w)
      × (drop q.length (frame q w ++ more) ≡ more)
      × (q.length ≤ length (frame q w ++ more))
frame_cut q w more v =
    let e : q.length ≡ length (frame q w) = omega (arith, v.fits) in
    (
      ap (λ n. take n (frame q w ++ more)) e ∙ take-append (frame q w) more,
      ap (λ n. drop n (frame q w ++ more)) e ∙ drop-append (frame q w) more,
      omega (arith, v.fits, length-append q.payload more),
    )

-- On the bytes of whole packets, with an incomplete one behind them, the loop ends after one turn
-- for each packet and one more: it has handled the packets in order, up to the first that raises,
-- and leaves the incomplete one for the next round.
pub tds_loop-frames :
    (p : Settings) (fuel : ℕ) (qs : List (Packet × ℕ)) (rest : Bytes) (s : Session)
    → All (λ q. IsPacket q.0) qs
    → Incomplete rest
    → length qs < fuel
    → tds_loop p fuel (frames qs ++ rest) s ≡ some (handle_all p rest qs s)
unfolding handle_all
tds_loop-frames p zero qs rest s a i le = absurd (omega arith)
tds_loop-frames p (suc fuel) [] rest s a i le = loop_incomplete p fuel rest s i
tds_loop-frames p (suc fuel) ((q, w) ∷ qs) rest s (v, a) i le =
    let more : Bytes = frames qs ++ rest in
    let (taken, left, fits) = frame_cut q w more v in
    rw append_assoc (
      loop_packet p fuel (frame q w ++ more) (header_of q w) s (header_frame q w more) fits
      ∙ (ap
            (λ b.
              next p fuel b (handle_packet p (header_of q w) (take q.length (frame q w ++ more)) s))
            left
          ∙ (ap (λ b. next p fuel more (handle_packet p (header_of q w) b s)) taken
              ∙ after_packet p fuel more rest qs (handle_packet p (header_of q w) (frame q w) s)
                  (λ s'. tds_loop-frames p fuel qs rest s' a i (omega arith)))))

passed_through :
    (p : Settings) (h : Header) (raw : Bytes) (s : Session)
    → h.typ ≢ 0x01
    → h.typ ≢ 0x03
    → (s' : Session) × (handle_packet p h raw s ≡ went s')
unfolding handle_packet
passed_through p h raw s batch rpc = (sends raw s, ground arith)

-- A header whose length field is zero, on a packet that is neither a batch nor an RPC, keeps the
-- loop from ever ending: no number of turns is enough.
pub tds_loop_zero :
    (p : Settings) (fuel : ℕ) (b : Bytes) (h : Header) (s : Session)
    → parse_header b ≡ some h
    → h.length ≡ 0
    → h.typ ≢ 0x01
    → h.typ ≢ 0x03
    → tds_loop p fuel b s ≡ none
tds_loop_zero p zero b h s e empty batch rpc = unfold tds_loop in refl
tds_loop_zero p (suc fuel) b h s e empty batch rpc =
    let (s', through) = passed_through p h (take h.length b) s batch rpc in
    loop_packet p fuel b h s e (omega arith)
    ∙ (ap (next p fuel (drop h.length b)) through
        ∙ (ap (λ n. tds_loop p fuel (drop n b) s') empty
            ∙ tds_loop_zero p fuel b h s' e empty batch rpc))
