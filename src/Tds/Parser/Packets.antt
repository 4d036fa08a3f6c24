-- ===== src/Tds/Parser/Packets.antt =====
-- `iter_packets` against the layout of a packet on the wire.
use sqlum_ai.Common.{
  ℕ, zero, suc, ◌+◌, ◌/◌, ◌%◌, ◌<◌, ◌≤◌, ◌≡◌, ◌⊎◌, inl, inr, refl, ap, ap₂, append_assoc, ◌∙◌, true,
  none, some, List, [], ◌∷◌, ◌++◌, ◌||◌, arith, length, take, drop, ltb, All, length-append,
  length-take, length-drop, drop-take-append, All-drop, take-append, drop-append, Bool-cases,
  Option-cases,
}
use sqlum_ai.Tds.Utf16.{Bytes, IsByte}
use sqlum_ai.Tds.Parser.{Header, parse_header, Packet, packet_of, iter_loop, iter_packets}

-- The bytes of a packet, with the window byte that the tuple leaves out.
abbrev pub frame : Packet → ℕ → Bytes
frame p w =
    p.typ
    ∷ (p.status
        ∷ ((p.length / 256)
            ∷ ((p.length % 256)
                ∷ ((p.spid / 256) ∷ ((p.spid % 256) ∷ (p.packet ∷ (w ∷ p.payload)))))))

-- No whole packet stands at the front.
abbrev pub Stuck : Bytes → Type 0
Stuck b =
    (length b < 8)
    ⊎ ((h : Header) × (parse_header b ≡ some h) × ((h.length < 8) ⊎ (length b < h.length)))

-- The buffer is the packets, one after the other, and a rest where no whole packet stands.
pub data Splits : Bytes → List Packet → Type 0 where
  rest : {b : Bytes} → Stuck b → Splits b []
  packet :
      {b more : Bytes} {ps : List Packet} (p : Packet) (window : ℕ)
      → p.length ≡ 8 + length p.payload
      → b ≡ frame p window ++ more
      → Splits more ps
      → Splits b (p ∷ ps)

pub header_take : (b : Bytes) → parse_header (take 8 b) ≡ parse_header b
unfolding parse_header
header_take (b0 ∷ (b1 ∷ (b2 ∷ (b3 ∷ (b4 ∷ (b5 ∷ (b6 ∷ (b7 ∷ more)))))))) = refl
header_take [] = refl
header_take b = refl

pub short : (b : Bytes) → parse_header b ≡ none → length b < 8
unfolding parse_header
short (b0 ∷ (b1 ∷ (b2 ∷ (b3 ∷ (b4 ∷ (b5 ∷ (b6 ∷ (b7 ∷ more)))))))) h = cc
short [] h = omega arith
short b h = omega arith

pub long : (b : Bytes) (h : Header) → parse_header b ≡ some h → 8 ≤ length b
unfolding parse_header
long (b0 ∷ (b1 ∷ (b2 ∷ (b3 ∷ (b4 ∷ (b5 ∷ (b6 ∷ (b7 ∷ more)))))))) h e = omega arith
long [] h e = cc
long b h e = cc

-- A whole packet at the front is its frame.
front_frame :
    (b : Bytes) (h : Header)
    → All IsByte b
    → parse_header b ≡ some h
    → 8 ≤ h.length
    → h.length ≤ length b
    → ((packet_of h b).length ≡ 8 + length (packet_of h b).payload)
      × (b ≡ frame (packet_of h b) h.window ++ drop h.length b)
      × All IsByte (drop h.length b)
unfolding parse_header
front_frame (b0 ∷ (b1 ∷ (b2 ∷ (b3 ∷ (b4 ∷ (b5 ∷ (b6 ∷ (b7 ∷ more)))))))) h a e lo hi =
    let b : Bytes = b0 ∷ (b1 ∷ (b2 ∷ (b3 ∷ (b4 ∷ (b5 ∷ (b6 ∷ (b7 ∷ more))))))) in
    (
      omega (arith, length-drop 8 (take h.length b), length-take h.length b),
      rw (drop-take-append 8 h.length b lo) (ground arith),
      All-drop IsByte h.length b a,
    )
front_frame [] h a e lo hi = cc
front_frame b h a e lo hi = cc

-- One round, at a whole packet and at none.
iter_packet :
    (fuel : ℕ) (b : Bytes) (h : Header)
    → parse_header b ≡ some h
    → 8 ≤ h.length
    → h.length ≤ length b
    → iter_loop (suc fuel) b ≡ packet_of h b ∷ iter_loop fuel (drop h.length b)
unfolding iter_loop
iter_packet fuel b h e lo hi = rw (iter_loop, header_take b, e) (ground arith)

iter-Stuck : (fuel : ℕ) (b : Bytes) → Stuck b → iter_loop fuel b ≡ []
unfolding iter_loop
iter-Stuck zero b s = refl
iter-Stuck (suc fuel) b (inl few) = elim (Option-cases (parse_header b)) [
  | inl (h, e) ↦ absurd (omega (arith, long b h e))
  | inr e ↦ rw (iter_loop, header_take b, e)
]
iter-Stuck (suc fuel) b (inr (h, e, bad)) = rw (iter_loop, header_take b, e) (ground arith)

too_short_or_long : (n m : ℕ) → (ltb n 8 || ltb m n) ≡ true → (n < 8) ⊎ (m < n)
too_short_or_long n m h = ground arith

loop-Splits : (fuel : ℕ) (b : Bytes) → length b ≤ fuel → All IsByte b → Splits b (iter_loop fuel b)
loop-Splits zero b le a = unfold iter_loop in rest {b = b} (inl (omega arith))
loop-Splits (suc fuel) b le a = elim (Option-cases (parse_header b)) [
  | inr e ↦ rw (iter-Stuck (suc fuel) b (inl (short b e))) (rest {b = b} (inl (short b e)))
  | inl (h, e) ↦ elim (Bool-cases (ltb h.length 8 || ltb (length b) h.length)) [
    | inl bad ↦
        let s : Stuck b = inr (h, e, too_short_or_long h.length (length b) bad) in
        rw (iter-Stuck (suc fuel) b s) (rest {b = b} s)
    | inr good ↦
        let lo : 8 ≤ h.length = ground arith in
        let hi : h.length ≤ length b = ground arith in
        let (len, split, bytes) = front_frame b h a e lo hi in
        rw (iter_packet fuel b h e lo hi) (
          packet (packet_of h b) h.window len split
            (loop-Splits fuel (drop h.length b) (omega (arith, length-drop h.length b)) bytes))
  ]
]

-- `iter_packets` cuts a buffer into its packets: the buffer is the frames of the packets, in order,
-- and a rest at whose front no whole packet stands.
pub iter_packets-Splits : (buf : Bytes) → All IsByte buf → Splits buf (iter_packets buf)
unfolding iter_packets
iter_packets-Splits buf a = loop-Splits (length buf) buf (omega arith) a

-- A packet whose length is that of its eight bytes of header and its payload.
pub record IsPacket (p : Packet) : Type 0 where
  pub fits : p.length ≡ 8 + length p.payload

abbrev pub frames : List (Packet × ℕ) → Bytes
frames [] = []
frames ((p, w) ∷ ps) = frame p w ++ frames ps

abbrev pub packets : List (Packet × ℕ) → List Packet
packets [] = []
packets ((p, w) ∷ ps) = p ∷ packets ps

abbrev pub header_of : Packet → ℕ → Header
header_of p w = record {
  typ = p.typ;
  status = p.status;
  length = p.length;
  spid = p.spid;
  packet = p.packet;
  window = w;
}

pub header_frame :
    (p : Packet) (w : ℕ) (more : Bytes) → parse_header (frame p w ++ more) ≡ some (header_of p w)
unfolding parse_header
header_frame p w more = ground arith

pub packet_frame :
    (p : Packet) (w : ℕ) (more : Bytes)
    → p.length ≡ 8 + length p.payload
    → (packet_of (header_of p w) (frame p w ++ more) ≡ p)
      × (drop p.length (frame p w ++ more) ≡ more)
packet_frame p w more fits =
    let e : p.length ≡ length (frame p w) = omega arith in
    let taken : take p.length (frame p w ++ more) ≡ frame p w =
      ap (λ n. take n (frame p w ++ more)) e ∙ take-append (frame p w) more in
    (
      ap (λ b. record p { payload = drop 8 b }) taken,
      ap (λ n. drop n (frame p w ++ more)) e ∙ drop-append (frame p w) more,
    )

loop_frames :
    (fuel : ℕ) (ps : List (Packet × ℕ)) (tail : Bytes)
    → All (λ q. IsPacket q.0) ps
    → Stuck tail
    → length (frames ps ++ tail) ≤ fuel
    → iter_loop fuel (frames ps ++ tail) ≡ packets ps
loop_frames fuel [] tail a s le = iter-Stuck fuel tail s
loop_frames zero ((p, w) ∷ ps) tail a s le = absurd (omega arith)
loop_frames (suc fuel) ((p, w) ∷ ps) tail (v, a) s le =
    let more : Bytes = frames ps ++ tail in
    let b : Bytes = frame p w ++ more in
    let le' : length (frame p w ++ more) ≤ suc fuel = rw append_assoc at le in
    let (same, behind) = packet_frame p w more v.fits in
    rw append_assoc (
      iter_packet fuel b (header_of p w) (header_frame p w more) (omega (arith, v.fits))
        (omega (arith, v.fits, length-append p.payload more))
      ∙ ap₂ (λ q l. q ∷ l) same
          (ap (iter_loop fuel) behind
            ∙ loop_frames fuel ps tail a s (omega (arith, v.fits, length-append p.payload more))))

-- Packets put on the wire one after the other, with anything behind them that does not begin with
-- a whole packet, are read back by `iter_packets` one by one.
pub iter_packets-frames :
    (ps : List (Packet × ℕ)) (tail : Bytes)
    → All (λ q. IsPacket q.0) ps
    → Stuck tail
    → iter_packets (frames ps ++ tail) ≡ packets ps
unfolding iter_packets
iter_packets-frames ps tail a s = loop_frames _ ps tail a s (omega arith)
