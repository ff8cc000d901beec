-- ===== src/Api/Guard.antt =====
-- The guard of the administrator's token.
use unidpp_archive.Prelude.{
  ◌≡◌, ◌↔◌, refl, ap, ◌∙◌, Bool, true, false, Option, none, some, [], ◌∷◌, ◌++◌, if◌then◌else◌,
  arith,
}
use unidpp_archive.Text.{Str, text, eq_str, eq_str_refl, eq_str→eq, strip_prefix}
use unidpp_archive.Api.Requests.{Refusal, require_admin}

strip_prefix-append : (p s : Str) → strip_prefix p (p ++ s) ≡ some s
unfolding strip_prefix
strip_prefix-append [] s = refl
strip_prefix-append (a ∷ p) s = ground (arith, strip_prefix-append p s)

strip_prefix-some : (p s rest : Str) → strip_prefix p s ≡ some rest → s ≡ p ++ rest
unfolding strip_prefix
strip_prefix-some [] s rest h = cc
strip_prefix-some (a ∷ p) [] rest h = cc
strip_prefix-some (a ∷ p) (b ∷ s) rest h = ground (arith, strip_prefix-some p s rest)

-- The refusal for a token, when the text behind `Bearer ` is known.
abbrev denied_or : Str → Option Str → Option Refusal
denied_or token got = elim got [
  | none ↦ some (record { status = 401; message = text "unauthorized" })
  | some t ↦
      if eq_str t token then none else some (record { status = 401; message = text "unauthorized" })
]

none_if : (b : Bool) (r : Refusal) → (if b then none else some r) ≡ none → b ≡ true
none_if true r h = refl
none_if false r h = cc

passed : (token : Str) (got : Option Str) → denied_or token got ≡ none → got ≡ some token
passed token none h = cc
passed token (some t) h = ap some (eq_str→eq t token (none_if (eq_str t token) _ h))

passes : (token : Str) → denied_or token (some token) ≡ none
passes token = rw (eq_str_refl token)

-- With a token configured, a request passes the guard exactly when its authorization header is
-- there and is `Bearer ` followed by the token.
pub require_admin_iff :
    (token : Str) (authorization : Option Str)
    → (require_admin (some token) authorization ≡ none)
      ↔ (authorization ≡ some (text "Bearer " ++ token))
unfolding require_admin
require_admin_iff token none = (λ h. cc, λ h. cc)
require_admin_iff token (some header) = (
  λ h. ap some (
      strip_prefix-some (text "Bearer ") header token
        (passed token (strip_prefix (text "Bearer ") header) h)),
  λ e.
      let same : header ≡ text "Bearer " ++ token = cc in
      let read : strip_prefix (text "Bearer ") header ≡ some token =
        ap (strip_prefix (text "Bearer ")) same ∙ strip_prefix-append (text "Bearer ") token in
      ap (denied_or token) read ∙ passes token,
)
