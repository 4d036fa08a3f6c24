-- ===== src/Scripts/ReadXevents/Agree.antt =====
-- The ring buffer's reader against the files' reader.
use sqlum_ai.Common.{
  Option, none, Bool-cases, ◌||◌, if◌then◌else◌, sym, ◌≡◌, ◌↔◌, refl, ap, ◌∙◌, subst, some,
  some-injective, List, [], ◌∷◌, length, arith, Option-cases, inl, inr, ◌≤◌, suc, length,
}
use mathlib.Core.Option
use sqlum_ai.Common.Text.{Text, codes, text_eq}
use sqlum_ai.Common.Dict
use sqlum_ai.Common.Dict.{Dict}
use sqlum_ai.Common.Integers.{ℤ, int_of}
use sqlum_ai.Scripts.ReadXevents.{
  Named, EventElement, Gathered, XeRecord, gather_actions, gather_item, gather_items, int_at,
  no_actions, nothing_gathered, parse_event_xml, Variables, new_variables, ring_actions, ring_int,
  ring_data, yielded, parse_ring_buffer, read_xel_files,
}

-- The variables of the one reader hold what the other gathers.
abbrev held : Variables → Gathered
held v = record {
  statement = v.statement;
  duration = v.duration;
  row_count = v.row_count;
  cpu_time = v.cpu_time;
  error = v.error;
}

same_actions :
    (as' : List Named) (v : Variables)
    → ((ring_actions as' v).action ≡ gather_actions v.action as')
      × (held (ring_actions as' v) ≡ held v)
unfolding ring_actions gather_actions
same_actions [] v = (refl, refl)
same_actions ((none, val) ∷ rest) v = same_actions rest v
same_actions ((some name, val) ∷ rest) v =
    same_actions rest (record v { action = Dict.put name val v.action })

-- the variables with other things gathered
abbrev with_held : Dict (Option Text) → Gathered → Variables
with_held action g = record {
  action = action;
  statement = g.statement;
  duration = g.duration;
  row_count = g.row_count;
  cpu_time = g.cpu_time;
  error = g.error;
}

same_int :
    (val : Option Text) (into : ℤ → Variables) (into' : ℤ → Gathered) (a : Dict (Option Text))
    → ((n : ℤ) → into n ≡ with_held a (into' n))
    → ring_int val into ≡ Option.map (with_held a) (Option.map into' (int_at val))
same_int none into into' a h = refl
same_int (some s) into into' a h = mapped (int_of s)
  where
    mapped : (o : Option ℤ) → Option.map into o ≡ Option.map (with_held a) (Option.map into' o)
    mapped none = refl
    mapped (some n) = ap some (h n)

abbrev ring_next : Text → Option Text → Variables → Option Variables
ring_next dn val v =
    if text_eq dn (codes "statement") || text_eq dn (codes "batch_text")
    then some (record v { statement = val })
    else if text_eq dn (codes "duration")
    then ring_int val (λ n. record v { duration = some n })
    else if text_eq dn (codes "row_count")
    then ring_int val (λ n. record v { row_count = some n })
    else if text_eq dn (codes "cpu_time")
    then ring_int val (λ n. record v { cpu_time = some n })
    else if text_eq dn (codes "error")
    then ring_int val (λ n. record v { error = some n })
    else some v

same_next :
    (dn : Text) (val : Option Text) (v : Variables)
    → ring_next dn val v ≡ Option.map (with_held v.action) (gather_item (some dn, val) (held v))
unfolding gather_item
same_next dn val v =
    elim (Bool-cases (text_eq dn (codes "statement") || text_eq dn (codes "batch_text"))) [
      | inl e ↦ rw (gather_item, e) refl
      | inr e1 ↦ elim (Bool-cases (text_eq dn (codes "duration"))) [
        | inl e ↦ rw (gather_item, e1, e) (same_int val _ _ v.action (λ n. refl))
        | inr e2 ↦ elim (Bool-cases (text_eq dn (codes "row_count"))) [
          | inl e ↦ rw (gather_item, e1, e2, e) (same_int val _ _ v.action (λ n. refl))
          | inr e3 ↦ elim (Bool-cases (text_eq dn (codes "cpu_time"))) [
            | inl e ↦ rw (gather_item, e1, e2, e3, e) (same_int val _ _ v.action (λ n. refl))
            | inr e4 ↦ elim (Bool-cases (text_eq dn (codes "error"))) [
              | inl e ↦ rw (gather_item, e1, e2, e3, e4, e) (same_int val _ _ v.action (λ n. refl))
              | inr e5 ↦ rw (gather_item, e1, e2, e3, e4, e5) refl
            ]
          ]
        ]
      ]
    ]

same_data :
    (ds : List Named) (v : Variables)
    → ring_data ds v ≡ Option.map (with_held v.action) (gather_items ds (held v))
unfolding ring_data gather_items gather_item
same_data [] v = refl
same_data ((none, val) ∷ rest) v = same_data rest v
same_data ((some dn, val) ∷ rest) v =
    let step = same_next dn val v in
    elim (Option-cases (gather_item (some dn, val) (held v))) [
      | inr e ↦ rw (ring_data, gather_items, step, e) refl
      | inl (g, e) ↦ rw (ring_data, gather_items, step, e) (same_data rest (with_held v.action g))
    ]

-- One round of the ring buffer's reader.
abbrev ring_event : EventElement → Option XeRecord
ring_event e = Option.map (yielded e) (ring_data e.items (ring_actions e.actions new_variables))

same_event : (e : EventElement) → ring_event e ≡ parse_event_xml e
unfolding parse_event_xml
same_event e =
    let v = ring_actions e.actions new_variables in
    let (acts, rest) = same_actions e.actions new_variables in
    ap (Option.map (yielded e)) (
      same_data e.items v
      ∙ ap (λ a. Option.map (with_held a) (gather_items e.items (held v))) acts
      ∙ ap
          (λ g.
            Option.map (with_held (gather_actions no_actions e.actions)) (gather_items e.items g))
          rest)
    ∙ map_twice (gather_items e.items nothing_gathered)
  where
    map_twice :
        (o : Option Gathered)
        → Option.map (yielded e) (Option.map (with_held (gather_actions no_actions e.actions)) o)
          ≡ Option.map (λ g. yielded e (with_held (gather_actions no_actions e.actions) g)) o
    map_twice none = refl
    map_twice (some g) = refl

-- an event's record in front of those of the later events, where there is no exception
abbrev joined : Option XeRecord → Option (List XeRecord) → Option (List XeRecord)
joined none rs = none
joined (some r) none = none
joined (some r) (some rs) = some (r ∷ rs)

ring_step :
    (e : EventElement) (es : List EventElement)
    → parse_ring_buffer (e ∷ es) ≡ joined (parse_event_xml e) (parse_ring_buffer es)
unfolding parse_ring_buffer
ring_step e es =
    by_cases (ring_data e.items (ring_actions e.actions new_variables)) (parse_ring_buffer es)
    ∙ ap (λ o. joined o (parse_ring_buffer es)) (same_event e)
  where
    by_cases :
        (o : Option Variables) (rest : Option (List XeRecord))
        → elim o as (λ x. Option (List XeRecord)) [
          | none ↦ none
          | some v ↦ elim rest [ none ↦ none | some rs ↦ some (yielded e v ∷ rs) ]
        ]
          ≡ joined (Option.map (yielded e) o) rest
    by_cases none rest = refl
    by_cases (some v) none = refl
    by_cases (some v) (some rs) = refl

length-read_xel_files : (es : List EventElement) → length (read_xel_files es) ≤ length es
unfolding read_xel_files
length-read_xel_files [] = omega arith
length-read_xel_files (e ∷ es) = ground (arith, length-read_xel_files es)

ring-files :
    (es : List EventElement) (rs : List XeRecord)
    → parse_ring_buffer es ≡ some rs
    → (read_xel_files es ≡ rs) × (length rs ≡ length es)
unfolding read_xel_files
ring-files [] rs h =
    let start : parse_ring_buffer [] ≡ some [] = unfold parse_ring_buffer in refl in
    subst (λ l. ([] ≡ l) × (length l ≡ 0)) (some-injective _ _ (sym start ∙ h)) (refl, refl)
ring-files (e ∷ es) rs h =
    let j : joined (parse_event_xml e) (parse_ring_buffer es) ≡ some rs =
      sym (ring_step e es) ∙ h in
    elim (Option-cases (parse_event_xml e)) [
      | inr n ↦ absurd (cc (rw n at j))
      | inl (r, p) ↦ elim (Option-cases (parse_ring_buffer es)) [
        | inr n ↦ absurd (cc (rw (p, n) at j))
        | inl (rest, q) ↦
            let (same, len) = ring-files es rest q in
            let e' : r ∷ rest ≡ rs = some-injective _ _ (rw (p, q) at j) in
            subst (λ l. (read_xel_files (e ∷ es) ≡ l) × (length l ≡ suc (length es))) e'
              (rw (read_xel_files, p, same) refl, ap suc len)
      ]
    ]

files-ring :
    (es : List EventElement)
    → length (read_xel_files es) ≡ length es
    → parse_ring_buffer es ≡ some (read_xel_files es)
unfolding read_xel_files
files-ring [] h = unfold parse_ring_buffer in refl
files-ring (e ∷ es) h = elim (Option-cases (parse_event_xml e)) [
  | inr n ↦ absurd (ground (arith, n, length-read_xel_files es))
  | inl (r, p) ↦
      let len : length (read_xel_files es) ≡ length es = ground (arith, p, h) in
      ring_step e es ∙ rw (read_xel_files, p, files-ring es len) refl
]

-- The reader of the ring buffer returns records exactly where the reader of files passes over no event,
-- and then both return the same: their two bodies read an event alike.
pub parse_ring_buffer-read_xel_files :
    (es : List EventElement) (rs : List XeRecord)
    → (parse_ring_buffer es ≡ some rs) ↔ ((read_xel_files es ≡ rs) × (length rs ≡ length es))
parse_ring_buffer-read_xel_files es rs =
    (ring-files es rs, λ (same, len). files-ring es (ap length same ∙ len) ∙ ap some same)
