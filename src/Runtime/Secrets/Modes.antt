-- ===== src/Runtime/Secrets/Modes.antt =====
-- What the two modes of `get_secret` guarantee.
use sqlum_ai.Common.{
  ◌≡◌, inl, inr, refl, true, false, Option, none, some, [], ◌∷◌, arith, Bool-cases,
}
use sqlum_ai.Common.Text.{Text, codes, text_eq, strip}
use sqlum_ai.Common.Text.Laws.{text_eq_iff}
use sqlum_ai.Runtime.Secrets.{
  AtPath, missing, unreadable, content, System, value, secret_path, provider, is_strict, env_value,
  from_file, get_secret,
}

from_file-content :
    (sys : System) (name : Text) (default path v : Option Text)
    → is_strict sys ≡ true
    → from_file sys name default path ≡ value v
    → (at : Text) × (t : Text) × (path ≡ some at)
      × (sys.at_path at ≡ content t)
      × (v ≡ some (strip t))
unfolding from_file
from_file-content sys name default none v strict h = absurd (ground (arith, strict))
from_file-content sys name default (some []) v strict h = absurd (ground (arith, strict))
from_file-content sys name default (some (c ∷ s)) v strict h = at_of (sys.at_path (c ∷ s)) refl
  where
    at_of :
        (a : AtPath)
        → sys.at_path (c ∷ s) ≡ a
        → (at : Text) × (t : Text) × (some (c ∷ s) ≡ some at)
          × (sys.at_path at ≡ content t)
          × (v ≡ some (strip t))
    at_of (content t) e = (c ∷ s, t, refl, e, ground (arith, e))
    at_of unreadable e = absurd (ground (arith, e, strict))
    at_of missing e = absurd (ground (arith, e, strict))

-- With the file provider in strict mode a secret that is returned is the stripped content of the
-- file at the given path: the environment's value and the default are never returned.
pub get_secret_strict :
    (sys : System) (name : Text) (default v : Option Text)
    → provider sys ≡ codes "file"
    → is_strict sys ≡ true
    → get_secret sys name default ≡ value v
    → (at : Text) × (t : Text) × (secret_path sys name ≡ some at)
      × (sys.at_path at ≡ content t)
      × (v ≡ some (strip t))
unfolding get_secret
get_secret_strict sys name default v file strict h =
    from_file-content sys name default (secret_path sys name) v strict
      (rw ((text_eq_iff _ _).1 file) at h)

from_file-value :
    (sys : System) (name : Text) (default path : Option Text)
    → is_strict sys ≡ false
    → (v : Option Text) × (from_file sys name default path ≡ value v)
unfolding from_file
from_file-value sys name default none lax = (env_value sys name default, rw lax)
from_file-value sys name default (some []) lax = (env_value sys name default, rw lax)
from_file-value sys name default (some (c ∷ s)) lax = at_of (sys.at_path (c ∷ s)) refl
  where
    at_of :
        (a : AtPath)
        → sys.at_path (c ∷ s) ≡ a
        → (v : Option Text) × (from_file sys name default (some (c ∷ s)) ≡ value v)
    at_of (content t) e = (some (strip t), rw (from_file, e))
    at_of unreadable e = (env_value sys name default, rw (from_file, e, lax))
    at_of missing e = (env_value sys name default, rw (from_file, e, lax))

-- In permissive mode no exception is raised, whatever the provider and the files are.
pub get_secret_permissive :
    (sys : System) (name : Text) (default : Option Text)
    → is_strict sys ≡ false
    → (v : Option Text) × (get_secret sys name default ≡ value v)
unfolding get_secret
get_secret_permissive sys name default lax =
    elim (Bool-cases (text_eq (provider sys) (codes "file"))) [
      | inl file ↦
          let (v, e) = from_file-value sys name default (secret_path sys name) lax in (v, rw file e)
      | inr env ↦ (env_value sys name default, rw env)
    ]
