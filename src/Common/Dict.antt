-- ===== src/Common/Dict.antt =====
-- Python's `dict` with text keys, in insertion order: an association list whose first entry counts.
use mathlib.Core.Path.{◌≡◌, refl}
use mathlib.Core.Option.{Option, none, some}
use mathlib.Core.List.{List, [], ◌∷◌}
use native.Mathlib.Omega.{arith}
use sqlum_ai.Common.Tests.{if◌then◌else◌}
use sqlum_ai.Common.Text.{Text, text_eq}
use sqlum_ai.Common.Text.Laws.{text_eq_iff}

abbrev pub Dict {ℓ} : Type ℓ → Type ℓ
Dict V = List (Text × V)

module _ {ℓ} {V : Type ℓ} where
  -- `d.get(k)`
  unfoldable pub get : Text → Dict V → Option V
  get k [] = none
  get k ((j, v) ∷ d) = let rest = get k d in if text_eq j k then some v else rest

  -- `d[k] = v`: an existing key keeps its place
  unfoldable pub put : Text → V → Dict V → Dict V
  put k v [] = (k, v) ∷ []
  put k v ((j, w) ∷ d) = let rest = put k v d in if text_eq j k then (j, v) ∷ d else (j, w) ∷ rest

  pub get-put :
      (k j : Text) (v : V) (d : Dict V)
      → get j (put k v d) ≡ (if text_eq k j then some v else get j d)
  unfolding get put
  get-put k j v [] = refl
  get-put k j v ((i, w) ∷ d) =
      ground (arith, text_eq_iff k j, text_eq_iff i k, text_eq_iff i j, get-put k j v d)

abbrev pub get_or {ℓ} : {V : Type ℓ} → V → Option V → V
get_or v none = v
get_or v (some w) = w

pub get-empty {ℓ} : {V : Type ℓ} (k : Text) → get {V = V} k [] ≡ none
unfolding get
get-empty k = refl
