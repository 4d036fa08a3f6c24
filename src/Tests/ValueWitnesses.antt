-- ===== src/Tests/ValueWitnesses.antt =====
-- The theorems on agents/normalizers.py and src/runtime/secrets.py at concrete values.
use sqlum_ai.Common.{◌≡◌, refl, true, none, some, Option, if◌then◌else◌}
use sqlum_ai.Common.Text.{Text, codes, text_eq, strip, lower}
use sqlum_ai.Runtime.Secrets.{System, content, value, provider, is_strict, get_secret}

abbrev file_variables : Text → Option Text
file_variables name =
    if text_eq name (codes "SECRET_PROVIDER")
    then some (codes "file")
    else if text_eq name (codes "SECRET_PROVIDER_MODE")
    then some (codes "strict")
    else if text_eq name (codes "K_FILE")
    then some (codes "/k")
    else none

abbrev file_system : System
file_system = record { getenv = file_variables; at_path = λ path. content (codes " s3cret ") }

file_provider : provider file_system ≡ codes "file"
unfolding provider text_eq lower
file_provider = refl

file_strict : is_strict file_system ≡ true
unfolding is_strict text_eq lower
file_strict = refl

file_secret : get_secret file_system (codes "K") none ≡ value (some (codes "s3cret"))
unfolding get_secret text_eq lower strip
file_secret = refl
