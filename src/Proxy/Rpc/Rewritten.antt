-- ===== src/Proxy/Rpc/Rewritten.antt =====
-- What becomes of an RPC: its payload when it is rewritten in place, and when it is not.
use sqlum_ai.Common.{
  ℕ, zero, suc, ◌-◌, ◌*◌, ◌/◌, ◌%◌, ◌<◌, ◌≤◌, ◌≡◌, ◌≢◌, ◌⊎◌, inl, inr, refl, sym, ap, ◌∙◌, Bool,
  true, false, none, some, some-injective, List, [], ◌∷◌, ◌++◌, arith, length, take, drop, concat,
  ltb, length-append, length-take, if◌then◌else◌, Bool-cases, Option-cases, take-append-drop,
}
use sqlum_ai.Common.Text.{Text, codes, text_eq, nonempty}
use sqlum_ai.Common.Text.Laws.{text_eq_iff}
use sqlum_ai.Policy.Engine.{decide}
use sqlum_ai.Tds.Utf16.{Bytes, encode_ignore, encode_char}
use sqlum_ai.Proxy.State.{Settings, Suggestion, World, Session, went, enforces, is_eom}
use sqlum_ai.Proxy.Batch.Judged.{not_enforced}
use sqlum_ai.Proxy.Rpc.{
  param_event, fitted, blanks, replace_once, rewrite_param, rewrite_params, complete_rpc,
  handle_rpc, with_rpc_chunks,
}
use sqlum_ai.Proxy.Rpc.Replaced.{Replaces, replace_once-Replaces, replace_once-none}

length-blanks : (n : ℕ) → length (blanks n) ≡ 2 * n
unfolding blanks
length-blanks zero = refl
length-blanks (suc n) = omega (arith, length-blanks n)

pub even-encode_ignore : (s : Text) → length (encode_ignore s) % 2 ≡ 0
unfolding encode_ignore encode_char
even-encode_ignore [] = refl
even-encode_ignore (c ∷ s) = ground (arith, even-encode_ignore s)

-- The new bytes take the room of the old ones.
pub fitted-length :
    (p : Settings) (old new b : Bytes)
    → length old % 2 ≡ 0
    → length new % 2 ≡ 0
    → fitted p old new ≡ some b
    → length b ≡ length old
unfolding fitted
fitted-length p old new b eo en h = elim (Bool-cases (ltb (length old) (length new))) [
  | inl longer ↦ elim (Bool-cases p.truncate) [
    | inl cut ↦
        let e : take (length old) new ≡ b = some-injective _ _ (rw (longer, cut) at h) in
        let lo : length old < length new = ground (arith, longer) in
        ap length (sym e) ∙ omega (arith, length-take (length old) new)
    | inr keeps ↦ absurd (ground (arith, longer, keeps))
  ]
  | inr fits ↦
      let e : new ++ blanks ((length old - length new) / 2) ≡ b =
        some-injective _ _ (rw fits at h) in
      let hi : length new ≤ length old = ground (arith, fits) in
      ap length (sym e)
      ∙ omega (
        arith,
        length-append new (blanks ((length old - length new) / 2)),
        length-blanks ((length old - length new) / 2),
      )
]

-- `new` is `wanted` in the room of `old`: cut, where the settings let it be cut, or with blanks behind it.
abbrev pub FitsIn : Settings → Bytes → Bytes → Bytes → Type 0
FitsIn p old wanted new =
    (length new ≡ length old)
    × (((length wanted ≤ length old) × ((k : ℕ) × (new ≡ wanted ++ blanks k)))
        ⊎ ((length old < length wanted)
            × (p.truncate ≡ true)
            × ((cut : Bytes) × (wanted ≡ new ++ cut))))

fitted-FitsIn :
    (p : Settings) (old wanted new : Bytes)
    → length old % 2 ≡ 0
    → length wanted % 2 ≡ 0
    → fitted p old wanted ≡ some new
    → FitsIn p old wanted new
unfolding fitted
fitted-FitsIn p old wanted new eo en h =
    let len = fitted-length p old wanted new eo en h in
    elim (Bool-cases (ltb (length old) (length wanted))) [
      | inl longer ↦ elim (Bool-cases p.truncate) [
        | inr keeps ↦ absurd (ground (arith, longer, keeps))
        | inl cut ↦
            let e : take (length old) wanted ≡ new = some-injective _ _ (rw (longer, cut) at h) in
            (
              len,
              inr (
                ground (arith, longer),
                cut,
                (
                  drop (length old) wanted,
                  sym (take-append-drop (length old) wanted)
                      ∙ ap (λ r. r ++ drop (length old) wanted) e,
                ),
              ),
            )
      ]
      | inr fits ↦
          let e = some-injective _ _ (rw fits at h) in
          (len, inl (ground (arith, fits), ((length old - length wanted) / 2, sym e)))
    ]

FitsIn-fitted :
    (p : Settings) (old wanted new : Bytes)
    → FitsIn p old wanted new
    → fitted p old wanted ≡ none
    → ⊥
unfolding fitted
FitsIn-fitted p old wanted new (len, inl (le, k)) h =
    let fits : ltb (length old) (length wanted) ≡ false = ground arith in cc (rw fits at h)
FitsIn-fitted p old wanted new (len, inr (lt, cut, rest)) h =
    let longer : ltb (length old) (length wanted) ≡ true = ground arith in
    cc (rw (longer, cut) at h)

-- The decision on the parameter is to autocorrect it, and `new` is its normal form in the room of its value.
pub record Corrects (p : Settings) (name val : Text) (new : Bytes) : Type 0 where
  pub sug : Suggestion
  pub decided : (decide p.engine (param_event name val)).action ≡ codes "autocorrect"
  pub suggested : p.suggest_normalizations val ≡ some sug
  pub filled : nonempty sug.normalized ≡ true
  pub fits : FitsIn p (encode_ignore val) (encode_ignore sug.normalized) new

-- Parameter by parameter: the first place of its value takes the corrected value, or nothing changes since
-- no correction of it has a place in the payload.
pub data Rewritten (p : Settings) : List (Text × Text) → Bytes → Bytes → Type 0 where
  done : {a : Bytes} → Rewritten p [] a a
  kept :
      {name val : Text} {params : List (Text × Text)} {a c : Bytes}
      → ((new x y : Bytes) → Corrects p name val new → a ≡ x ++ (encode_ignore val ++ y) → ⊥)
      → Rewritten p params a c
      → Rewritten p ((name, val) ∷ params) a c
  corrected :
      {name val : Text} {params : List (Text × Text)} {a b c : Bytes} (new : Bytes)
      → Corrects p name val new
      → Replaces (encode_ignore val) new a b
      → Rewritten p params b c
      → Rewritten p ((name, val) ∷ params) a c

-- What a round does if it changes the payload.
abbrev Changes : Settings → Text → Text → Bytes → Bytes → Type 0
Changes p name val a b =
    (new : Bytes) × Corrects p name val new × Replaces (encode_ignore val) new a b

is_autocorrect : (t : Text) → text_eq t (codes "autocorrect") ≡ true → t ≡ codes "autocorrect"
is_autocorrect t h = (text_eq_iff t (codes "autocorrect")).0 h

rewrite_param-Changes :
    (p : Settings) (spid : ℕ) (name val : Text) (w w' : World) (a b : Bytes)
    → rewrite_param p spid name val w a ≡ some (w', b)
    → Changes p name val a b
unfolding rewrite_param
rewrite_param-Changes p spid name val w w' a b h =
    elim (Bool-cases
      (text_eq (decide p.engine (param_event name val)).action (codes "autocorrect"))) [
        | inr other ↦ absurd (ground (arith, other))
        | inl auto ↦ elim (Option-cases (p.suggest_normalizations val)) [
          | inr no_sug ↦ absurd (ground (arith, auto, no_sug))
          | inl (sug, es) ↦ elim (Bool-cases (nonempty sug.normalized)) [
            | inr empty ↦ absurd (ground (arith, auto, es, empty))
            | inl full ↦
                elim (Option-cases (fitted p (encode_ignore val) (encode_ignore sug.normalized))) [
                  | inr no_fit ↦ absurd (ground (arith, auto, es, full, no_fit))
                  | inl (new, ef) ↦ elim (Option-cases (replace_once (encode_ignore val) new a)) [
                    | inr no_place ↦ absurd (ground (arith, auto, es, full, ef, no_place))
                    | inl (c, er) ↦ (
                      new,
                      record {
                        sug = sug;
                        decided = is_autocorrect _ auto;
                        suggested = es;
                        filled = full;
                        fits =
                            fitted-FitsIn p (encode_ignore val) (encode_ignore sug.normalized) new
                              (even-encode_ignore val) (even-encode_ignore sug.normalized) ef;
                      },
                      replace_once-Replaces (encode_ignore val) new a b (
                          er
                          ∙ ap some (
                              ap (λ r. r.1)
                                (some-injective _ _
                                  (rw (rewrite_param, auto, es, full, ef, er) at h)))),
                    )
                  ]
                ]
          ]
        ]
      ]

rewrite_param-none :
    (p : Settings) (spid : ℕ) (name val : Text) (w : World) (a new x y : Bytes)
    → rewrite_param p spid name val w a ≡ none
    → Corrects p name val new
    → a ≡ x ++ (encode_ignore val ++ y)
    → ⊥
unfolding rewrite_param
rewrite_param-none p spid name val w a new x y h c q =
    let auto = (text_eq_iff _ (codes "autocorrect")).1 c.decided in
    elim (Option-cases (fitted p (encode_ignore val) (encode_ignore c.sug.normalized))) [
      | inr no_fit ↦
          FitsIn-fitted p (encode_ignore val) (encode_ignore c.sug.normalized) new c.fits no_fit
      | inl (b, ef) ↦ elim (Option-cases (replace_once (encode_ignore val) b a)) [
        | inr no_place ↦ replace_once-none (encode_ignore val) b a x y no_place q
        | inl (d, er) ↦ cc (rw (rewrite_param, auto, c.suggested, c.filled, ef, er) at h)
      ]
    ]

rewrite_params-from :
    (p : Settings) (spid : ℕ) (params : List (Text × Text)) (w : World) (payload : Bytes)
    (changed : Bool)
    → Rewritten p params payload (rewrite_params p spid params w payload changed).1.0
unfolding rewrite_params
rewrite_params-from p spid [] w payload changed = done
rewrite_params-from p spid ((name, val) ∷ params) w payload changed =
    elim (Option-cases (rewrite_param p spid name val w payload)) [
      | inr e ↦
          rw (rewrite_params, e)
            (kept (λ new x y. rewrite_param-none p spid name val w payload new x y e)
              (rewrite_params-from p spid params w payload changed))
      | inl ((w', b), e) ↦
          let (new, c, there) = rewrite_param-Changes p spid name val w w' payload b e in
          rw (rewrite_params, e)
            (corrected new c there (rewrite_params-from p spid params w' b true))
    ]

Rewritten-length :
    (p : Settings) {params : List (Text × Text)} {a b : Bytes}
    → Rewritten p params a b
    → length b ≡ length a
Rewritten-length p done = refl
Rewritten-length p (kept unfit r) = Rewritten-length p r
Rewritten-length p (corrected {val = val} new c t r) = omega (
  arith,
  Rewritten-length p r,
  ap length t.was,
  ap length t.is_now,
  c.fits.0,
  length-append t.before (encode_ignore val ++ t.after),
  length-append t.before (new ++ t.after),
  length-append (encode_ignore val) t.after,
  length-append new t.after,
)

-- The rewriting in place goes through the parameters: where the decision on one is to autocorrect it and
-- its normal form fits in the room of its value, cut or with blanks behind it, the first place of the
-- value in the payload takes it, and all else of the payload stays; any other parameter, or one whose
-- value is not in the payload, changes nothing. The length of the payload is as it was.
pub rewrite_params-Rewritten :
    (p : Settings) (spid : ℕ) (params : List (Text × Text)) (w : World) (payload : Bytes)
    → Rewritten p params payload (rewrite_params p spid params w payload false).1.0
      × (length (rewrite_params p spid params w payload false).1.0 ≡ length payload)
rewrite_params-Rewritten p spid params w payload =
    let r = rewrite_params-from p spid params w payload false in (r, Rewritten-length p r)

-- Where blocks are not enforced, an RPC of several packets sends on its last packet and no other: a
-- packet before the last is kept with those before it and nothing is sent, and at the last one only its
-- own bytes are sent, whatever has been kept, and nothing stays kept.
pub handle_rpc_log :
    (p : Settings) (spid status : ℕ) (raw payload : Bytes) (s : Session)
    → p.enforcement ≢ codes "enforce"
    → (s' : Session) × (handle_rpc p spid status raw payload s ≡ went s')
      × (s'.out ≡ (if is_eom status then s.out ++ raw else s.out))
      × (s'.conn.rpc_chunks ≡ (if is_eom status then [] else s.conn.rpc_chunks ++ payload ∷ []))
unfolding handle_rpc complete_rpc
handle_rpc_log p spid status raw payload s log =
    let whole = concat (s.conn.rpc_chunks ++ payload ∷ []) in
    elim (Bool-cases (is_eom status)) [
      | inr more ↦
          (with_rpc_chunks (s.conn.rpc_chunks ++ payload ∷ []) s, rw more, rw more, rw more)
      | inl last ↦
          let (sent, forgot) = sends_raw whole (with_rpc_chunks [] s) in
          (
            complete_rpc p spid raw whole (with_rpc_chunks [] s),
            rw last,
            rw last sent,
            rw last forgot,
          )
    ]
  where
    off : enforces p ≡ false
    off = not_enforced p log

    sends_raw :
        (whole : Bytes) (t : Session)
        → ((complete_rpc p spid raw whole t).out ≡ t.out ++ raw)
          × ((complete_rpc p spid raw whole t).conn.rpc_chunks ≡ t.conn.rpc_chunks)
    sends_raw whole t = rw (complete_rpc, off) (ground arith)
