-- ===== src/Api/Insights/Escaped.antt =====
-- No text of a report is markup of the page.
use sqlum_ai.Common.{
  ℕ, ◌≡◌, ◌≢◌, ◌==◌, true, false, ap, length, drop-append, refl, inl, inr, [], ◌∷◌, ◌++◌, All,
  All-append, arith, drop, Bool-cases,
}
use sqlum_ai.Common.Text.{Text, codes, starts_with}
use sqlum_ai.Common.Text.Laws.{starts_with→split, starts_with-append}
use sqlum_ai.Api.Insights.{escape_char, escape, tagged, line_html}

-- No character that opens or closes a tag or an attribute.
abbrev pub IsInert : ℕ → Type 0
IsInert c = (c ≢ b'<') × (c ≢ b'>') × (c ≢ b'"') × (c ≢ b'\'')

escape_char-IsInert : (c : ℕ) → All IsInert (escape_char c)
unfolding escape_char
escape_char-IsInert c = ground arith

pub escape-IsInert : (s : Text) → All IsInert (escape s)
unfolding escape
escape-IsInert [] = tt
escape-IsInert (c ∷ s) =
    All-append IsInert (escape_char c) (escape s) (escape_char-IsInert c) (escape-IsInert s)

-- The text that a browser shows for a piece of HTML without tags: the five entities, and any character
-- but those that they stand for.
pub data Shows : Text → Text → Type 0 where
  ends : Shows [] []
  plain : {s t : Text} (c : ℕ) → IsInert c → c ≢ b'&' → Shows s t → Shows (c ∷ s) (c ∷ t)
  amp : {s t : Text} → Shows s t → Shows (codes "&amp;" ++ s) (b'&' ∷ t)
  lt : {s t : Text} → Shows s t → Shows (codes "&lt;" ++ s) (b'<' ∷ t)
  gt : {s t : Text} → Shows s t → Shows (codes "&gt;" ++ s) (b'>' ∷ t)
  quot : {s t : Text} → Shows s t → Shows (codes "&quot;" ++ s) (b'"' ∷ t)
  apos : {s t : Text} → Shows s t → Shows (codes "&#x27;" ++ s) (b'\'' ∷ t)

escape-Shows : (s : Text) → Shows (escape s) s
unfolding escape escape_char
escape-Shows [] = ends
escape-Shows (c ∷ s) =
    let rest = escape-Shows s in
    elim (Bool-cases (c == b'&')) [
      | inl e ↦ rw (==-eq c b'&' e) (amp rest)
      | inr no_amp ↦ elim (Bool-cases (c == b'<')) [
        | inl e ↦ rw (==-eq c b'<' e) (lt rest)
        | inr no_lt ↦ elim (Bool-cases (c == b'>')) [
          | inl e ↦ rw (==-eq c b'>' e) (gt rest)
          | inr no_gt ↦ elim (Bool-cases (c == b'"')) [
            | inl e ↦ rw (==-eq c b'"' e) (quot rest)
            | inr no_quot ↦ elim (Bool-cases (c == b'\'')) [
              | inl e ↦ rw (==-eq c b'\'' e) (apos rest)
              | inr no_apos ↦
                  rw (no_amp, no_lt, no_gt, no_quot, no_apos)
                    (plain c (ground arith) (ground arith) rest)
            ]
          ]
        ]
      ]
    ]
  where
    ==-eq : (x y : ℕ) → (x == y) ≡ true → x ≡ y
    ==-eq x y h = ground arith

-- The element that a line of the report stands for, and the text in it.
pub data Stands : Text → Text → Text → Type 0 where
  h1 : (s : Text) → Stands (codes "# " ++ s) (codes "h1") s
  h2 : (s : Text) → Stands (codes "## " ++ s) (codes "h2") s
  li : (s : Text) → Stands (codes "- " ++ s) (codes "li") s
  p :
      (s : Text)
      → ((t : Text) → s ≢ codes "# " ++ t)
      → ((t : Text) → s ≢ codes "## " ++ t)
      → ((t : Text) → s ≢ codes "- " ++ t)
      → Stands s (codes "p") s

apart : (s mark : Text) → starts_with s mark ≡ false → (t : Text) → s ≢ mark ++ t
apart s mark h t e = cc (h, ap (λ x. starts_with x mark) e, starts_with-append mark t)

-- The element of the page for a line, and between its tags a content without a character that opens or
-- closes a tag or an attribute, which shows the text of the line.
abbrev pub IsElement : Text → Text → Type 0
IsElement ln out =
    (tag : Text) × (s : Text) × (content : Text) × Stands ln tag s
    × Shows content s
    × All IsInert content
    × (out ≡ b'<' ∷ (tag ++ b'>' ∷ (content ++ codes "</" ++ tag ++ codes ">")))

marked :
    (ln mark tag : Text)
    → ((s : Text) → Stands (mark ++ s) tag s)
    → starts_with ln mark ≡ true
    → IsElement ln (tagged tag (drop (length mark) ln))
marked ln mark tag stands h =
    let (t, e) = starts_with→split ln mark h in
    rw e
      (rw (drop-append mark t) (tag, t, escape t, stands t, escape-Shows t, escape-IsInert t, refl))

-- A line of a report becomes one element: `h1`, `h2` or `li` where it starts with `# `, `## ` or `- `, and
-- `p` otherwise. Between its tags no character opens or closes a tag or an attribute, and what a browser
-- shows there is the line's text behind its mark.
pub line_html-IsInert : (ln : Text) → IsElement ln (line_html ln)
unfolding line_html
line_html-IsInert ln = elim (Bool-cases (starts_with ln (codes "# "))) [
  | inl h ↦ rw (line_html, h) (marked ln (codes "# ") (codes "h1") h1 h)
  | inr no_h1 ↦ elim (Bool-cases (starts_with ln (codes "## "))) [
    | inl h ↦ rw (line_html, no_h1, h) (marked ln (codes "## ") (codes "h2") h2 h)
    | inr no_h2 ↦ elim (Bool-cases (starts_with ln (codes "- "))) [
      | inl h ↦ rw (line_html, no_h1, no_h2, h) (marked ln (codes "- ") (codes "li") li h)
      | inr other ↦
          rw (line_html, no_h1, no_h2, other)
            (
              codes "p",
              ln,
              escape ln,
              p ln (apart ln (codes "# ") no_h1) (apart ln (codes "## ") no_h2)
                  (apart ln (codes "- ") other),
              escape-Shows ln,
              escape-IsInert ln,
              refl,
            )
    ]
  ]
]
