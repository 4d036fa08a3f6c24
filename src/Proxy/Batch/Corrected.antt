-- ===== src/Proxy/Batch/Corrected.antt =====
-- What the autocorrection of a row changes.
use sqlum_ai.Common.{
  ℕ, ◌≡◌, ◌≢◌, ◌⊎◌, inl, inr, refl, sym, true, not, ◌&&◌, some, some-injective, List, [], ◌∷◌,
  arith, length, Bool-cases, Option-cases,
}
use sqlum_ai.Common.Text.{Text, codes, text_eq, nonempty}
use sqlum_ai.Common.Text.Laws.{text_eq_iff}
use sqlum_ai.Common.Dict.{get_or}
use sqlum_ai.Policy.Engine.{decide}
use sqlum_ai.Proxy.State.{Settings, World, Suggestion}
use sqlum_ai.Proxy.Batch.{cell_event, autocorrect_cell, autocorrect_row}

-- A value and what becomes of it: the engine decides `autocorrect` for its column, and the
-- normalizers have another value for it, which is not empty; or it stays.
abbrev pub CellOf : Settings → Text → Text → Text → Text → Text → Type 0
CellOf p sql table col v v' =
    (v' ≡ v)
    ⊎ (((decide p.engine (cell_event sql table col v)).action ≡ codes "autocorrect")
        × (sug : Suggestion) × (p.suggest_normalizations v ≡ some sug)
        × (v' ≡ sug.normalized)
        × (nonempty v' ≡ true)
        × (v' ≢ v))

-- A row, column by column.
pub data RowOf (p : Settings) (sql table : Text) : List Text → List Text → List Text → Type 0 where
  row_end : RowOf p sql table [] [] []
  cell :
      {c v v' : Text} {cs vs vs' : List Text}
      → CellOf p sql table c v v'
      → RowOf p sql table cs vs vs'
      → RowOf p sql table (c ∷ cs) (v ∷ vs) (v' ∷ vs')

cell_new :
    (p : Settings) (spid : ℕ) (sql table col v x : Text) (w : World)
    → (autocorrect_cell p spid sql table col v w).1 ≡ some x
    → CellOf p sql table col v x
unfolding autocorrect_cell
cell_new p spid sql table col v x w h =
    elim (Bool-cases
      (text_eq (decide p.engine (cell_event sql table col v)).action (codes "autocorrect"))) [
        | inr other ↦ absurd (ground (arith, other))
        | inl auto ↦ elim (Option-cases (p.suggest_normalizations v)) [
          | inr no_sug ↦ absurd (ground (arith, auto, no_sug))
          | inl (sug, es) ↦
              elim (Bool-cases (nonempty sug.normalized && not (text_eq sug.normalized v))) [
                | inr kept ↦ absurd (ground (arith, auto, es, kept))
                | inl new ↦
                    let e : sug.normalized ≡ x =
                      some-injective _ _ (rw (autocorrect_cell, auto, es, new) at h) in
                    inr (
                      (text_eq_iff _ _).0 auto,
                      sug,
                      es,
                      sym e,
                      ground (arith, new, e),
                      ground (arith, new, e, text_eq_iff sug.normalized v),
                    )
              ]
        ]
      ]

cell_of :
    (p : Settings) (spid : ℕ) (sql table col v : Text) (w : World)
    → CellOf p sql table col v (get_or v (autocorrect_cell p spid sql table col v w).1)
cell_of p spid sql table col v w =
    elim (Option-cases (autocorrect_cell p spid sql table col v w).1) [
      | inr e ↦ rw e (inl refl)
      | inl (x, e) ↦ rw e (cell_new p spid sql table col v x w e)
    ]

-- The autocorrection of a row with a value for every column keeps the number and the order of the
-- values, and changes a value only where the engine decides `autocorrect` for its column: then to
-- what the normalizers suggest for it.
pub autocorrect_row-RowOf :
    (p : Settings) (spid : ℕ) (sql table : Text) (cols vs : List Text) (w : World)
    → length cols ≡ length vs
    → RowOf p sql table cols vs (autocorrect_row p spid sql table cols vs w).1.0
unfolding autocorrect_row
autocorrect_row-RowOf p spid sql table [] [] w h = row_end
autocorrect_row-RowOf p spid sql table [] (v ∷ vs) w h = absurd (omega arith)
autocorrect_row-RowOf p spid sql table (c ∷ cs) [] w h = absurd (omega arith)
autocorrect_row-RowOf p spid sql table (c ∷ cs) (v ∷ vs) w h =
    cell (cell_of p spid sql table c v w) (
      autocorrect_row-RowOf p spid sql table cs vs (autocorrect_cell p spid sql table c v w).0
        (omega arith))
