-- ===== src/Metrics/Store.antt =====
-- src/metrics/store.py: named counters in a JSON file. A counter is a number; the lock makes each
-- update one step. The Prometheus mirror of `inc` is outside the model.
pub mod Counters
pub mod Bag
use sqlum_ai.Common.{
  ℕ, ◌+◌, Bool, Option, none, some, List, [], ◌∷◌, ◌++◌, drop, length, if◌then◌else◌,
}
use sqlum_ai.Common.Text.{Text, codes, starts_with}
use sqlum_ai.Common.Dict
use sqlum_ai.Common.Dict.{Dict, get_or}

abbrev pub Counters : Type 0
Counters = Dict ℕ

-- The file: not there, not readable as JSON, or the counters.
pub data File : Type 0 where
  missing : File
  unreadable : File
  stored : Counters → File

-- `_read`
unfoldable pub read : File → Counters
read missing = []
read unreadable = []
read (stored d) = d

-- `inc`: `_read`, one entry changed, `_write`
unfoldable pub inc : Text → ℕ → File → File
unfolding read
inc key by f = stored (Dict.put key (get_or 0 (Dict.get key (read f)) + by) (read f))

unfoldable pub get_all : File → Counters
unfolding read
get_all f = read f

-- `f"rule:{rule_id}:"`
unfoldable pub rule_prefix : Text → Text
rule_prefix rule_id = codes "rule:" ++ (rule_id ++ codes ":")

unfoldable pub inc_rule_action : Text → Text → ℕ → File → File
unfolding inc rule_prefix
inc_rule_action rule_id action by f = inc (rule_prefix rule_id ++ action) by f

-- The loop of `get_rule_counters`, with `out` what it has gathered.
unfoldable pub gather : Text → Counters → Counters → Counters
gather prefix [] out = out
gather prefix ((k, v) ∷ d) out =
    gather prefix d (if starts_with k prefix then Dict.put (drop (length prefix) k) v out else out)

unfoldable pub get_rule_counters : Text → File → Counters
unfolding gather rule_prefix read
get_rule_counters rule_id f = gather (rule_prefix rule_id) (read f) []
