-- ===== src/Runtime/Secrets.antt =====
-- src/runtime/secrets.py: `get_secret`, over the environment and the files.
pub mod Modes
use sqlum_ai.Common.{
  Bool, true, false, ◌||◌, Option, none, some, List, [], ◌∷◌, ◌++◌, if◌then◌else◌,
}
use sqlum_ai.Common.Text.{Text, codes, text_eq, nonempty, lower, strip, starts_with}
use sqlum_ai.Common.Dict.{get_or}
use sqlum_ai.Policy.Engine.{or_empty}

-- What is at a path.
pub data AtPath : Type 0 where
  missing : AtPath
  unreadable : AtPath
  content : Text → AtPath

pub record System : Type 0 where
  pub getenv : Text → Option Text
  pub at_path : Text → AtPath

-- The secret, or which of the three exceptions is raised.
pub data Secret : Type 0 where
  value : Option Text → Secret
  no_path : Secret
  not_found : Text → Secret
  failed_reading : Text → Secret

-- `x or y` of optional texts
abbrev pub or_path : Option Text → Option Text → Option Text
or_path none b = b
or_path (some []) b = b
or_path (some (c ∷ s)) b = some (c ∷ s)

unfoldable pub looks_like_path : Text → Bool
unfolding starts_with
looks_like_path s =
    starts_with s (codes "/") || starts_with s (codes "./") || starts_with s (codes "../")

-- The path of the file, if one is given.
unfoldable pub secret_path : System → Text → Option Text
unfolding looks_like_path
secret_path sys name =
    let inline = sys.getenv name in
    or_path (sys.getenv (name ++ codes "_FILE"))
      (if looks_like_path (or_empty inline) then inline else none)

unfoldable pub provider : System → Text
unfolding lower
provider sys = lower (get_or (codes "env") (sys.getenv (codes "SECRET_PROVIDER")))

unfoldable pub is_strict : System → Bool
unfolding lower
is_strict sys =
    text_eq (lower (get_or (codes "permissive") (sys.getenv (codes "SECRET_PROVIDER_MODE"))))
      (codes "strict")

-- `os.getenv(name, default)`
abbrev pub env_value : System → Text → Option Text → Option Text
env_value sys name default = elim (sys.getenv name) [ none ↦ default | some s ↦ some s ]

abbrev pub from_env : System → Text → Option Text → Secret
from_env sys name default = value (env_value sys name default)

abbrev pub or_raise : Bool → Secret → Secret → Secret
or_raise strict e v = if strict then e else v

unfoldable pub from_file : System → Text → Option Text → Option Text → Secret
unfolding is_strict strip
from_file sys name default none = or_raise (is_strict sys) no_path (from_env sys name default)
from_file sys name default (some []) = or_raise (is_strict sys) no_path (from_env sys name default)
from_file sys name default (some (c ∷ s)) = elim (sys.at_path (c ∷ s)) [
  | content t ↦ value (some (strip t))
  | unreadable ↦ or_raise (is_strict sys) (failed_reading (c ∷ s)) (from_env sys name default)
  | missing ↦ or_raise (is_strict sys) (not_found (c ∷ s)) (from_env sys name default)
]

unfoldable pub get_secret : System → Text → Option Text → Secret
unfolding provider secret_path from_file
get_secret sys name default =
    if text_eq (provider sys) (codes "file")
    then from_file sys name default (secret_path sys name)
    else from_env sys name default
