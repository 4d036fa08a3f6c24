-- ===== src/Api/Suggest.antt =====
-- `rules_suggest`: a rule from a sentence.
use sqlum_ai.Common.{
  ℕ, ◌==◌, ◌≡◌, refl, ◌⊎◌, inl, inr, Bool, true, false, ◌&&◌, ◌||◌, none, some, List, [], ◌∷◌, any,
  map, take, leb, if◌then◌else◌, Bool-cases,
}
use sqlum_ai.Common.Text.{Text, codes, lower, contains, text_eq}
use sqlum_ai.Policy.Engine.{Number, Rule}
use sqlum_ai.Policy.Loader.{RawRule, object, text, lowered, load_entry}

abbrev pub tenths : ℕ → Number
tenths n = record { negative = false; units = n; scale = 1 }

-- `{…, "enabled": True}`
abbrev pub suggestion : Text → Text → Text → Text → Text → ℕ → Rule
suggestion id target selector action reason confidence = record {
  id = id;
  target = target;
  selector = selector;
  action = action;
  reason = reason;
  confidence = tenths confidence;
  enabled = true;
  apply_in_envs = none;
  min_hits_to_enforce = none;
}

-- `any(k in t for k in words)`
abbrev pub mentions : Text → List Text → Bool
mentions t = any (contains t)

unfoldable pub default_suggestion : Rule
default_suggestion =
    suggestion (codes "suggest-1") (codes "pattern") (codes "INSERT INTO") (codes "block")
      (codes "Suggested from natural language") 7

unfoldable pub phone_suggestion : Rule
phone_suggestion =
    suggestion (codes "phone-autocorrect") (codes "column") (codes "Phone") (codes "autocorrect")
      (codes "Normalize phone format") 8

unfoldable pub email_suggestion : Rule
email_suggestion =
    suggestion (codes "no-null-email") (codes "column") (codes "Email") (codes "block")
      (codes "Email required") 9

-- `re.sub(r"[^a-z0-9\-]", "-", id)[:64]`
unfoldable pub sanitized : Text → Text
sanitized id = take 64 (
    map (λ c. if (leb 97 c && leb c 122) || (leb 48 c && leb c 57) || c == b'-' then c else b'-')
      id)

-- A later update takes the place of an earlier one.
unfoldable pub rules_suggest : Text → Rule
unfolding lower contains default_suggestion phone_suggestion email_suggestion sanitized
rules_suggest request =
    let t = lower request in
    let phone =
      if mentions t (codes "phone" ∷ codes "telefon" ∷ [])
      then phone_suggestion
      else default_suggestion in
    let chosen =
      if contains t (codes "email")
        && mentions t (codes "require" ∷ codes "krav" ∷ codes "måste" ∷ codes "must" ∷ [])
      then email_suggestion
      else phone in
    record chosen { id = sanitized chosen.id }

-- The object of the rules file that the suggestion is.
abbrev pub raw_of : Rule → RawRule
raw_of r = record {
  id = some r.id;
  target = text r.target;
  selector = text r.selector;
  action = text r.action;
  reason = some r.reason;
  confidence = some r.confidence;
  enabled = some r.enabled;
  extras = [];
}

suggested :
    (request : Text)
    → (rules_suggest request ≡ default_suggestion)
      ⊎ ((rules_suggest request ≡ phone_suggestion) ⊎ (rules_suggest request ≡ email_suggestion))
unfolding rules_suggest default_suggestion phone_suggestion email_suggestion sanitized
suggested request =
    let t : Text = lower request in
    elim (Bool-cases (
      contains t (codes "email")
      && mentions t (codes "require" ∷ codes "krav" ∷ codes "måste" ∷ codes "must" ∷ []))) [
        | inl mail ↦ inr (inr (rw mail refl))
        | inr no_mail ↦ elim (Bool-cases (mentions t (codes "phone" ∷ codes "telefon" ∷ []))) [
          | inl phone ↦ inr (inl (rw (no_mail, phone) refl))
          | inr other ↦ inl (rw (no_mail, other) refl)
        ]
      ]

loads_default : load_entry (object (raw_of default_suggestion)) ≡ some default_suggestion
unfolding default_suggestion load_entry lowered lower text_eq
loads_default = refl

loads_phone : load_entry (object (raw_of phone_suggestion)) ≡ some phone_suggestion
unfolding phone_suggestion load_entry lowered lower text_eq
loads_phone = refl

loads_email : load_entry (object (raw_of email_suggestion)) ≡ some email_suggestion
unfolding email_suggestion load_entry lowered lower text_eq
loads_email = refl

-- Whatever is asked for, the suggestion, put into the rules file, is loaded as that very rule.
pub load_entry-rules_suggest :
    (request : Text)
    → load_entry (object (raw_of (rules_suggest request))) ≡ some (rules_suggest request)
load_entry-rules_suggest request = elim (suggested request) [
  | inl e ↦ rw e loads_default
  | inr (inl e) ↦ rw e loads_phone
  | inr (inr e) ↦ rw e loads_email
]
