-- ===== src/Tds/Sql/Rewrite/Kept.antt =====
-- What a rewritten statement keeps of the statement, and what it loses.
use sqlum_ai.Common.{
  ◌≡◌, refl, ap, ◌∙◌, none, some, List, ◌++◌, map, arith, true, false, Option-cases, inl, inr,
  subst,
}
use sqlum_ai.Common.Text.{Text, codes, join}
use sqlum_ai.Common.Regex.{
  Match, Re, rep, any_char, up_to_paren, seq, cap, search_re, group, capture,
}
use sqlum_ai.Common.Regex.Sound.{InLanguage, plain, three_groups, search_re_sound}
use sqlum_ai.Tds.Sql.Rewrite.{
  encode_value, insert_parts, insert_prefix, insert_suffix, reconstruct_insert, update_parts,
  update_prefix, update_suffix, assignments, reconstruct_update,
}

-- The statement is some text, a match of the three patterns and some text; the new statement is
-- what the first and the last have matched, with the new values between.
abbrev pub Rewrites : Re → Re → Re → Text → Text → Text → Type 0
Rewrites a b c sql values new =
    (before : Text) × (p : Text) × (old : Text) × (q : Text) × (after : Text) × (sql
      ≡ before ++ ((p ++ (old ++ q)) ++ after))
    × InLanguage a p
    × InLanguage b old
    × InLanguage c q
    × (new ≡ p ++ (values ++ q))

rewrites :
    (a b c : Re) (sql values : Text) (m : Match)
    → plain a ≡ true
    → plain b ≡ true
    → plain c ≡ true
    → search_re (seq (cap 1 a) (seq (cap 2 b) (cap 3 c))) sql ≡ some m
    → Rewrites a b c sql values (group m 1 ++ (values ++ group m 3))
unfolding group capture
rewrites a b c sql values m pa pb pc h =
    let (split, matched) = search_re_sound _ sql m h in
    let (x, y, z, e, d, la, lb, lc) =
      three_groups a b c m.whole m.after m.captures pa pb pc matched in
    (
      m.before,
      x,
      y,
      z,
      m.after,
      split ∙ ap (λ t. m.before ++ (t ++ m.after)) e,
      la,
      lb,
      lc,
      ap (λ l. capture 1 l ++ (values ++ capture 3 l)) d,
    )

-- A rewritten INSERT is the head of a matched `insert … values (` up to the parenthesis, the
-- encoded values with commas between them, and the matched tail from the parenthesis on. What
-- stands before the match in the statement, and behind it, is in the new statement no more.
pub reconstruct_insert-Rewrites :
    (sql new : Text) (values : List Text)
    → reconstruct_insert sql values ≡ some new
    → Rewrites insert_prefix up_to_paren insert_suffix sql
        (join (codes ", ") (map encode_value values))
        new
unfolding reconstruct_insert
reconstruct_insert-Rewrites sql new values h = elim (Option-cases (search_re insert_parts sql)) [
  | inr e ↦ absurd (ground (arith, e))
  | inl (m, e) ↦
      subst
        (Rewrites insert_prefix up_to_paren insert_suffix sql
          (join (codes ", ") (map encode_value values)))
        (ground (arith, e))
        (rewrites insert_prefix up_to_paren insert_suffix sql
          (join (codes ", ") (map encode_value values)) m refl refl refl e)
]

-- A rewritten UPDATE likewise: the matched head up to the assignments, the new assignments, and the
-- matched tail from the spaces before `where` on.
pub reconstruct_update-Rewrites :
    (sql new : Text) (columns values : List Text)
    → reconstruct_update sql columns values ≡ some new
    → Rewrites update_prefix
        (rep false 1 none any_char)
        update_suffix
        sql
        (join (codes ", ") (assignments columns values))
        new
unfolding reconstruct_update
reconstruct_update-Rewrites sql new columns values h =
    elim (Option-cases (search_re update_parts sql)) [
      | inr e ↦ absurd (ground (arith, e))
      | inl (m, e) ↦
          let vs : Text = join (codes ", ") (assignments columns values) in
          subst (Rewrites update_prefix (rep false 1 none any_char) update_suffix sql vs)
            (ground (arith, e))
            (rewrites update_prefix (rep false 1 none any_char) update_suffix sql vs m refl refl
              refl e)
    ]
