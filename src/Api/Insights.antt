-- ===== src/Api/Insights.antt =====
-- `insights_html`: the latest report as a page, with the part of `html` that it uses.
pub mod Escaped
use sqlum_ai.Common.{
  ℕ, ◌==◌, Bool, ◌||◌, Option, none, some, List, [], ◌∷◌, ◌++◌, map, drop, if◌then◌else◌,
}
use sqlum_ai.Common.Text.{Text, codes, starts_with, join}

-- `html.escape` of a character
unfoldable pub escape_char : ℕ → Text
escape_char c =
    if c == b'&'
    then codes "&amp;"
    else if c == b'<'
    then codes "&lt;"
    else if c == b'>'
    then codes "&gt;"
    else if c == b'"'
    then codes "&quot;"
    else if c == b'\''
    then codes "&#x27;"
    else c ∷ []

-- `html.escape(s)`
unfoldable pub escape : Text → Text
unfolding escape_char
escape [] = []
escape (c ∷ s) = escape_char c ++ escape s

abbrev pub tagged : Text → Text → Text
tagged tag s = b'<' ∷ (tag ++ b'>' ∷ (escape s ++ codes "</" ++ tag ++ codes ">"))

-- One line of the report as HTML.
unfoldable pub line_html : Text → Text
unfolding escape starts_with
line_html ln =
    if starts_with ln (codes "# ")
    then tagged (codes "h1") (drop 2 ln)
    else if starts_with ln (codes "## ")
    then tagged (codes "h2") (drop 3 ln)
    else if starts_with ln (codes "- ")
    then tagged (codes "li") (drop 2 ln)
    else tagged (codes "p") ln

-- The page, of the lines of the latest report if there is one, at a version.
unfoldable pub insights_html : Text → Option (List Text) → Text
unfolding line_html join
insights_html version none = codes "<html><body><h1>No insights yet</h1></body></html>"
insights_html version (some lines) =
    codes "<html><body>"
    ++ join (10 ∷ []) (map line_html lines)
    ++ codes "<hr/><p style=\"color:#666;font-size:12px;\">SQLumAI version "
    ++ version
    ++ codes ". Developed by Johan Caripson.</p><p><a href='/rules'>Rules</a></p></body></html>"
