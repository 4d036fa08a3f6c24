-- ===== src/Proxy/Loop/Cut.antt =====
-- How the client's bytes are cut into reads does not matter to the loop.
use sqlum_ai.Common.{
  ℕ, zero, suc, ◌+◌, ◌≤◌, ◌≡◌, ◌⊎◌, inl, inr, refl, sym, ap, ap₂, ◌∙◌, ◌≢◌, none, some,
  some-injective, [], ◌∷◌, ◌++◌, arith, length, take, drop, length-append, ltb, Bool-cases,
  Option-cases,
}
use sqlum_ai.Tds.Utf16.{Bytes}
use sqlum_ai.Tds.Parser.{Header, parse_header}
use sqlum_ai.Tds.Parser.Packets.{short}
use sqlum_ai.Proxy.State.{Settings, Session, Step, went, raised}
use sqlum_ai.Proxy.Loop.{End, waits, fails, handle_packet, tds_loop}
use sqlum_ai.Proxy.Loop.Ends.{Incomplete, loop_incomplete, next, loop_packet}

-- What a turn meets at the front of a buffer.
pub front :
    (b : Bytes) → Incomplete b ⊎ ((h : Header) × (parse_header b ≡ some h) × (h.length ≤ length b))
front b = elim (Option-cases (parse_header b)) [
  | inr e ↦ inl (inl (short b e))
  | inl (h, e) ↦ elim (Bool-cases (ltb (length b) h.length)) [
    | inl less ↦ inl (inr (h, e, ground arith))
    | inr enough ↦ inr (h, e, ground arith)
  ]
]

header_append :
    (b d : Bytes) (h : Header) → parse_header b ≡ some h → parse_header (b ++ d) ≡ some h
unfolding parse_header
header_append (b0 ∷ (b1 ∷ (b2 ∷ (b3 ∷ (b4 ∷ (b5 ∷ (b6 ∷ (b7 ∷ more)))))))) d h e = e
header_append [] d h e = cc
header_append b d h e = cc

take_within : (n : ℕ) (b d : Bytes) → n ≤ length b → take n (b ++ d) ≡ take n b
take_within zero b d le = refl
take_within (suc n) [] d le = absurd (omega arith)
take_within (suc n) (x ∷ b) d le = ap (λ l. x ∷ l) (take_within n b d (omega arith))

drop_within : (n : ℕ) (b d : Bytes) → n ≤ length b → drop n (b ++ d) ≡ drop n b ++ d
drop_within zero b d le = refl
drop_within (suc n) [] d le = absurd (omega arith)
drop_within (suc n) (x ∷ b) d le = drop_within n b d (omega arith)

next_more :
    (p : Settings) (fuel fuel' : ℕ) (b : Bytes) (st : Step) (e : End)
    → ((s : Session) → tds_loop p fuel b s ≡ some e → tds_loop p fuel' b s ≡ some e)
    → next p fuel b st ≡ some e
    → next p fuel' b st ≡ some e
next_more p fuel fuel' b (raised s) e more h = h
next_more p fuel fuel' b (went s) e more h = more s h

pub no_turns : (p : Settings) (b : Bytes) (s : Session) → tds_loop p zero b s ≡ none
unfolding tds_loop
no_turns p b s = refl

one_more :
    (p : Settings) (f k : ℕ) (b : Bytes) (s : Session)
    → tds_loop p (suc f + k) b s ≡ tds_loop p (suc (f + k)) b s
one_more p f k b s = ap (λ n. tds_loop p n b s) (omega arith)

-- More turns than are enough change nothing.
pub tds_loop_more :
    (p : Settings) (k fuel : ℕ) (b : Bytes) (s : Session) (e : End)
    → tds_loop p fuel b s ≡ some e
    → tds_loop p (fuel + k) b s ≡ some e
tds_loop_more p k zero b s e h = cc (h, no_turns p b s)
tds_loop_more p k (suc fuel) b s e h = elim (front b) [
  | inl i ↦
      one_more p fuel k b s
      ∙ loop_incomplete p (fuel + k) b s i
      ∙ (sym (loop_incomplete p fuel b s i) ∙ h)
  | inr (hd, eq, le) ↦
      one_more p fuel k b s
      ∙ loop_packet p (fuel + k) b hd s eq le
      ∙ next_more p fuel (fuel + k) (drop hd.length b) (handle_packet p hd (take hd.length b) s) e
          (λ s'. tds_loop_more p k fuel (drop hd.length b) s' e)
          (sym (loop_packet p fuel b hd s eq le) ∙ h)
]

-- a packet that is whole before the cut
cut_packet :
    (p : Settings) (f : ℕ) (b d : Bytes) (h : Header) (s : Session)
    → parse_header b ≡ some h
    → h.length ≤ length b
    → tds_loop p (suc f) (b ++ d) s
      ≡ next p f (drop h.length b ++ d) (handle_packet p h (take h.length b) s)
cut_packet p f b d h s eq le =
    loop_packet p f (b ++ d) h s (header_append b d h eq) (omega (arith, length-append b d))
    ∙ ap₂ (λ r t. next p f r (handle_packet p h t s)) (drop_within h.length b d le)
        (take_within h.length b d le)

next_cut :
    (p : Settings) (f g : ℕ) (b c : Bytes) (st : Step) (o e : End)
    → ((s : Session) → tds_loop p f b s ≡ some o → tds_loop p g c s ≡ some e)
    → ((s : Session) → o ≢ fails s)
    → next p f b st ≡ some o
    → next p g c st ≡ some e
next_cut p f g b c (raised s) o e go ok h = absurd (ok s (sym (some-injective _ _ h)))
next_cut p f g b c (went s) o e go ok h = go s h

not_fails : (rest : Bytes) (s s' : Session) → waits rest s ≢ fails s'
not_fails rest s s' e = cc

-- Reading `b` and then `d` ends as reading them at once does: if the loop on `b` waits with some
-- bytes left, and goes on with these and `d` to an end, then the loop on all the bytes has that end,
-- the packets that the cut has split among them.
pub tds_loop-cut :
    (p : Settings) (f g : ℕ) (b d rest : Bytes) (s s1 : Session) (e : End)
    → tds_loop p f b s ≡ some (waits rest s1)
    → tds_loop p g (rest ++ d) s1 ≡ some e
    → tds_loop p (f + g) (b ++ d) s ≡ some e
tds_loop-cut p zero g b d rest s s1 e h k = cc (h, no_turns p b s)
tds_loop-cut p (suc f) g b d rest s s1 e h k = elim (front b) [
  | inl i ↦
      let same : waits b s ≡ waits rest s1 =
        some-injective _ _ (sym (loop_incomplete p f b s i) ∙ h) in
      ap (λ n. tds_loop p n (b ++ d) s) (omega arith)
      ∙ tds_loop_more p (suc f) g (b ++ d) s e
          (ap₂ (λ r t. tds_loop p g (r ++ d) t) (waits_rest same) (waits_session same) ∙ k)
  | inr (hd, eq, le) ↦
      one_more p f g (b ++ d) s
      ∙ cut_packet p (f + g) b d hd s eq le
      ∙ next_cut p f (f + g) (drop hd.length b) (drop hd.length b ++ d)
          (handle_packet p hd (take hd.length b) s) (waits rest s1) e
          (λ s' h'. tds_loop-cut p f g (drop hd.length b) d rest s' s1 e h' k) (not_fails rest s1)
          (sym (loop_packet p f b hd s eq le) ∙ h)
]
  where
    waits_rest : {r r' : Bytes} {t t' : Session} → waits r t ≡ waits r' t' → r ≡ r'
    waits_rest h = cc

    waits_session : {r r' : Bytes} {t t' : Session} → waits r t ≡ waits r' t' → t ≡ t'
    waits_session h = cc
