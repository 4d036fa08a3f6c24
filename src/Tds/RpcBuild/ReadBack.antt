-- ===== src/Tds/RpcBuild/ReadBack.antt =====
-- A payload of NVARCHAR, INT, BIT, DATE, UNIQUEIDENTIFIER and VARBINARY parameters, read back.
use sqlum_ai.Common.{
  ℕ, zero, suc, ◌≤◌, ◌⊎◌, ◌≡◌, refl, sym, ap, subst, ◌∙◌, true, Option, some, some-injective, List,
  [], ◌∷◌, ◌++◌, append_assoc, append-nil, map, All, length, length-append, arith, Option-cases,
  inl, inr,
}
use sqlum_ai.Common.Text.{Text, codes, lower}
use sqlum_ai.Common.Text.Laws.{text_eq_iff}
use sqlum_ai.Tds.Utf16.{Bytes}
use sqlum_ai.Tds.RpcBuild.Temporal.{Datetime}
use sqlum_ai.Tds.RpcBuild.Wire.{
  Value, read_short, read_value, read_param, read_params, read_payload, wire, wire_name, wire_value,
  is_simple, IsSimple,
}
use sqlum_ai.Tds.RpcBuild.Wire.Reads.{
  read_value-int, read_value-bit, read_value-nvarchar, read_value-date, read_value-uuid,
  read_value-binary, prefixed-some, read_short-us_varchar,
}
use sqlum_ai.Tds.RpcBuild.{
  us_varchar, typed_bytes, other_bytes, Param, at_name, param_head, build_param, build_params,
  build_rpc_payload,
}

simple_cases :
    (t : Text)
    → is_simple t ≡ true
    → (t ≡ codes "nvarchar")
      ⊎ ((t ≡ codes "int")
          ⊎ ((t ≡ codes "bit")
              ⊎ ((t ≡ codes "date") ⊎ ((t ≡ codes "uniqueidentifier") ⊎ (t ≡ codes "varbinary")))))
simple_cases t h = ground (
  arith,
  text_eq_iff t (codes "nvarchar"),
  text_eq_iff t (codes "int"),
  text_eq_iff t (codes "bit"),
  text_eq_iff t (codes "date"),
  text_eq_iff t (codes "uniqueidentifier"),
  text_eq_iff t (codes "varbinary"),
)

module _ (iso : Text → Option Datetime) where
  read_value-typed :
      (typ value : Text) (b s : Bytes)
      → is_simple (lower typ) ≡ true
      → typed_bytes iso typ value ≡ some b
      → read_value (b ++ s) ≡ some (wire_value (lower typ) value, s)
  unfolding typed_bytes
  read_value-typed typ value b s h e = elim (simple_cases (lower typ) h) [
    | inl t ↦ rw t (read_value-nvarchar value b s (rw (typed_bytes, other_bytes, t) at e))
    | inr (inl t) ↦ rw t (read_value-int value b s (rw (typed_bytes, t) at e))
    | inr (inr (inr (inr (inl t)))) ↦ rw t (
        subst (λ c. read_value (c ++ s) ≡ some (wire_value (codes "uniqueidentifier") value, s))
          (some-injective _ _ (rw (typed_bytes, t) at e)) (read_value-uuid value s))
    | inr (inr (inr (inr (inr t)))) ↦ rw t (read_value-binary value b s (rw (typed_bytes, t) at e))
    | inr (inr (inr (inl t))) ↦
        rw t (read_value-date value b s (rw (typed_bytes, other_bytes, t) at e))
    | inr (inr (inl t)) ↦ rw t (
        subst (λ c. read_value (c ++ s) ≡ some (wire_value (codes "bit") value, s))
          (some-injective _ _ (rw (typed_bytes, t) at e)) (read_value-bit value s))
  ]

  read_param-build_param :
      (p : Param) (b s : Bytes)
      → IsSimple p
      → build_param iso p ≡ some b
      → read_param (b ++ s) ≡ some (wire p, s)
  unfolding build_param param_head read_param
  read_param-build_param (name, value, typ) b s h e =
      let zeros : Bytes = 0 ∷ 0 ∷ 0 ∷ 0 ∷ 0 ∷ 0 ∷ 0 ∷ [] in
      let (w, ew, eb) = prefixed-some (param_head name) (typed_bytes iso typ value) b e in
      let parts : b ++ s ≡ us_varchar (at_name name) ++ (zeros ++ (w ++ s)) = rw eb (
        append_assoc (us_varchar (at_name name) ++ zeros) w s
        ∙ append_assoc (us_varchar (at_name name)) zeros (w ++ s)) in
      rw
        (
          parts,
          read_param,
          read_short-us_varchar (at_name name) (zeros ++ (w ++ s)),
          read_value-typed typ value w s h ew,
        )
        refl

  build_params-cons :
      (p : Param) (params : List Param) (b : Bytes)
      → build_params iso (p ∷ params) ≡ some b
      → (c : Bytes) × (d : Bytes) × (build_param iso p ≡ some c)
        × (build_params iso params ≡ some d)
        × (b ≡ c ++ d)
  unfolding build_params
  build_params-cons p params b h = elim (Option-cases (build_param iso p)) [
    | inr e ↦ absurd (ground (arith, e))
    | inl (c, e) ↦
        let (d, ed, eb) = prefixed-some c (build_params iso params) b (rw (build_params, e) at h) in
        (c, d, e, ed, eb)
  ]

  -- enough fuel for one parameter more than there are bytes in front
  read_params-cons :
      (fuel : ℕ) (b rest : Bytes) (p : Text × Value) (ps : List (Text × Value))
      → read_param b ≡ some (p, rest)
      → read_params fuel rest ≡ some ps
      → (read_params (suc fuel) b ≡ some (p ∷ ps)) × (1 ≤ length b)
  unfolding read_params
  read_params-cons fuel [] rest p ps h k = absurd (nothing h)
    where
      nothing : read_param [] ≡ some (p, rest) → ⊥
      nothing e = cc
  read_params-cons fuel (x ∷ b) rest p ps h k = (rw (read_params, h, k) refl, omega arith)

  read_params-build_params :
      (params : List Param) (b : Bytes)
      → All IsSimple params
      → build_params iso params ≡ some b
      → (fuel : ℕ) → length params ≤ fuel
      → read_params fuel b ≡ some (map wire params)
  unfolding build_params
  read_params-build_params [] b h e fuel le =
      subst (λ c. read_params fuel c ≡ some []) (some-injective _ _ e) (unfold read_params in refl)
  read_params-build_params (p ∷ params) b (hp, hs) e zero le = elim le [ ]
  read_params-build_params (p ∷ params) b (hp, hs) e (suc fuel) le =
      let (c, d, ec, ed, eb) = build_params-cons p params b e in
      rw eb
        (read_params-cons fuel (c ++ d) d (wire p) (map wire params)
          (read_param-build_param p c d hp ec)
          (read_params-build_params params d hs ed fuel (omega arith))).0

  length-build_params :
      (params : List Param) (b : Bytes)
      → All IsSimple params
      → build_params iso params ≡ some b
      → length params ≤ length b
  length-build_params [] b hs e = omega arith
  length-build_params (p ∷ params) b (hp, hs) e =
      let (c, d, ec, ed, eb) = build_params-cons p params b e in
      let one =
        (read_params-cons zero c [] (wire p) []
          (subst (λ x. read_param x ≡ some (wire p, [])) (append-nil c)
            (read_param-build_param p c [] hp ec))
          (unfold read_params in refl)).1 in
      omega (arith, length-build_params params d hs ed, one, ap length eb, length-append c d)

  -- A payload that `build_rpc_payload` builds of parameters whose types are NVARCHAR, INT, BIT, DATE,
  -- UNIQUEIDENTIFIER or VARBINARY is read
  -- back, to its end, as the ASCII characters of the procedure's name and, parameter by parameter, the
  -- ASCII characters of the name behind its `@` (255 of them at most) with the number that `int`
  -- reads (0 where it reads none), the truth of the bit, the days of the date since 0001-01-01 (0 where the value is no date), the number
  -- of the UUID (0 where it is none), the bytes, or the text
  -- without what UTF-16 cannot carry.
  pub read_payload-build_rpc_payload :
      (proc_name : Text) (params : List Param) (b : Bytes)
      → All IsSimple params
      → build_rpc_payload iso proc_name params ≡ some b
      → read_payload b ≡ some (wire_name proc_name, map wire params)
  unfolding build_rpc_payload read_payload
  read_payload-build_rpc_payload proc_name params b h e =
      let (w, ew, eb) =
        prefixed-some (us_varchar proc_name ++ 0 ∷ 0 ∷ []) (build_params iso params) b e in
      let parts : b ≡ us_varchar proc_name ++ 0 ∷ 0 ∷ w =
        eb ∙ append_assoc (us_varchar proc_name) (0 ∷ 0 ∷ []) w in
      let enough : length params ≤ length b = omega (
        arith,
        length-build_params params w h ew,
        ap length parts,
        length-append (us_varchar proc_name) (0 ∷ 0 ∷ w),
      ) in
      let short = read_short-us_varchar proc_name (0 ∷ 0 ∷ w) in
      rw
        (
          read_payload,
          subst (λ x. read_short x ≡ some (wire_name proc_name, 0 ∷ 0 ∷ w)) (sym parts) short,
          read_params-build_params params w h ew (length b) enough,
        )
        refl
