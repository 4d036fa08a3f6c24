-- ===== src/Proxy/Suggested.antt =====
-- The normalizers, as the settings of the proxy hold them.
use sqlum_ai.Common.{Option, none, some}
use sqlum_ai.Common.Text.{Text}
use sqlum_ai.Normalizers.{suggest_normalizations}
use sqlum_ai.Proxy.State.{Suggestion}

-- `suggest_normalizations(value)`, without the hint
unfoldable pub suggested : Text → Option Suggestion
unfolding suggest_normalizations
suggested value = elim (suggest_normalizations value) [
  | none ↦ none
  | some r ↦ some (record { kind = r.1; normalized = r.0 })
]
