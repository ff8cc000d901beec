-- ===== src/Api/Config/Contract.antt =====
-- What each variable of the environment means for the configuration of src/api.rs and of
-- src/log_anchor.rs.
use unidpp_archive.Prelude.{
  ℕ, zero, suc, ◌<◌, ◌≡◌, ◌⊎◌, inl, inr, refl, sym, ap, ◌∙◌, Bool, true, false, ◌||◌, not, Option,
  none, some, List, [], ◌∷◌, arith, subst, Bool-cases, Option-cases, ltb, lt→ltb,
}
use unidpp_archive.Result.{keep_if, and_then, unwrap_or}
use unidpp_archive.Text.{Str, text, trim, is_empty, eq_str, eq_str→eq}
use unidpp_archive.Text.Decimal.{parse_u64}
use unidpp_archive.LogAnchor.{var, proper_value, timeout_of, from_env_map}
use unidpp_archive.Api.Config.{
  Environment, env_keys, values_of, env_values, Config, from_vars, from_env,
}

-- A value that is empty counts as one that is not set.
abbrev pub IsSetTo : Option Str → Option Str → Type 0
IsSetTo none o = o ≡ none
IsSetTo (some []) o = o ≡ none
IsSetTo (some (b ∷ s)) o = o ≡ some (b ∷ s)

-- A value is taken without the white space around it, unless that is all.
abbrev pub IsTrimmedTo : Option Str → Option Str → Type 0
IsTrimmedTo none o = o ≡ none
IsTrimmedTo (some s) o = IsSetTo (some (trim s)) o

-- A timeout is a number of milliseconds, not 0; any other value counts as 3000.
abbrev IsTimeoutOf : Option ℕ → ℕ → Type 0
IsTimeoutOf p n = ((p ≡ some n) × (0 < n)) ⊎ (((p ≡ none) ⊎ (p ≡ some 0)) × (n ≡ 3000))

abbrev pub IsTimeout : Option Str → ℕ → Type 0
IsTimeout none n = n ≡ 3000
IsTimeout (some s) n = IsTimeoutOf (parse_u64 (trim s)) n

is_among : Str → List Str → Bool
is_among key [] = false
is_among key (k ∷ keys) = eq_str k key || is_among key keys

var-values_of-none :
    (env : Environment) (keys : List Str) (key : Str)
    → env key ≡ none
    → var (values_of env keys) key ≡ none
unfolding values_of var
var-values_of-none env [] key h = refl
var-values_of-none env (k ∷ keys) key h = elim (Option-cases (env k)) [
  | inl e ↦ rw e (var-values_of-none env keys key h)
  | inr (w, e) ↦ elim (Bool-cases (eq_str k key)) [
    | inl same ↦ let k_is : env k ≡ env key = ap env (eq_str→eq k key same) in cc
    | inr other ↦ rw (e, other) (var-values_of-none env keys key h)
  ]
]

var-values_of-some :
    (env : Environment) (keys : List Str) (key value : Str)
    → env key ≡ some value
    → is_among key keys ≡ true
    → var (values_of env keys) key ≡ some value
unfolding values_of var is_among
var-values_of-some env [] key value h among = cc
var-values_of-some env (k ∷ keys) key value h among = elim (Bool-cases (eq_str k key)) [
  | inl same ↦
      let k_is : env k ≡ some value = ap env (eq_str→eq k key same) ∙ h in rw (k_is, same) refl
  | inr other ↦
      let later : is_among key keys ≡ true = ground (arith, among, other) in
      elim (Option-cases (env k)) [
        | inl e ↦ rw e (var-values_of-some env keys key value h later)
        | inr (w, e) ↦ rw (e, other) (var-values_of-some env keys key value h later)
      ]
]

-- A variable of the contract has the value that the environment gives it.
var-env_values :
    (env : Environment) (key : Str)
    → is_among key env_keys ≡ true
    → var (env_values env) key ≡ env key
unfolding env_values
var-env_values env key among = elim (Option-cases (env key)) [
  | inl e ↦ var-values_of-none env env_keys key e ∙ sym e
  | inr (v, e) ↦ var-values_of-some env env_keys key v e among ∙ sym e
]

keep_if-IsSetTo : (o : Option Str) → IsSetTo o (keep_if o (λ s. not (is_empty s)))
keep_if-IsSetTo none = refl
keep_if-IsSetTo (some []) = refl
keep_if-IsSetTo (some (b ∷ s)) = refl

proper_value-IsTrimmedTo : (o : Option Str) → IsTrimmedTo o (proper_value o)
unfolding proper_value
proper_value-IsTrimmedTo none = refl
proper_value-IsTrimmedTo (some s) = keep_if-IsSetTo (some (trim s))

-- A field of each kind, with the variable that it is read from.
IsSetTo-field :
    (env : Environment) (key : Str)
    → is_among key env_keys ≡ true
    → IsSetTo (env key) (keep_if (var (env_values env) key) (λ s. not (is_empty s)))
IsSetTo-field env key among =
    subst (λ o. IsSetTo o (keep_if (var (env_values env) key) (λ s. not (is_empty s))))
      (var-env_values env key among) (keep_if-IsSetTo (var (env_values env) key))

IsTrimmedTo-field :
    (env : Environment) (key : Str)
    → is_among key env_keys ≡ true
    → IsTrimmedTo (env key) (proper_value (var (env_values env) key))
IsTrimmedTo-field env key among =
    subst (λ o. IsTrimmedTo o (proper_value (var (env_values env) key)))
      (var-env_values env key among) (proper_value-IsTrimmedTo (var (env_values env) key))

kept-IsTimeoutOf :
    (p : Option ℕ)
    → IsTimeoutOf p (elim (keep_if p (λ ms. ltb 0 ms)) [ some ms ↦ ms | none ↦ 3000 ])
kept-IsTimeoutOf none = inr (inl refl, refl)
kept-IsTimeoutOf (some zero) = inr (inr refl, refl)
kept-IsTimeoutOf (some (suc n)) =
    let positive : ltb 0 (suc n) ≡ true = lt→ltb 0 (suc n) (omega arith) in
    rw positive (inl (refl, omega arith))

timeout_of-IsTimeout : (o : Option Str) → IsTimeout o (timeout_of o)
unfolding timeout_of
timeout_of-IsTimeout none = refl
timeout_of-IsTimeout (some s) = kept-IsTimeoutOf (parse_u64 (trim s))

IsTimeout-field :
    (env : Environment) (key : Str)
    → is_among key env_keys ≡ true
    → IsTimeout (env key) (timeout_of (var (env_values env) key))
IsTimeout-field env key among =
    subst (λ o. IsTimeout o (timeout_of (var (env_values env) key))) (var-env_values env key among)
      (timeout_of-IsTimeout (var (env_values env) key))

-- What the configuration takes from each variable.
module _ {Addr : Type 0} (parse_addr : Str → Option Addr) (first_bind : Addr) where
  -- An address that is not set or not understood counts as the default.
  abbrev pub IsBoundTo : Option Str → Addr → Type 0
  IsBoundTo none a = a ≡ first_bind
  IsBoundTo (some s) a = (parse_addr s ≡ some a) ⊎ ((parse_addr s ≡ none) × (a ≡ first_bind))

  pub record IsConfigured (env : Environment) (config : Config Addr) : Type 0 where
    pub bind_is : IsBoundTo (env (text "UNIDPP_ARCHIVE_BIND")) config.bind
    pub admin_token_is : IsSetTo (env (text "UNIDPP_ARCHIVE_ADMIN_TOKEN")) config.admin_token
    pub state_file_is : IsSetTo (env (text "UNIDPP_ARCHIVE_STATE_FILE")) config.state_file
    pub snapshot_dir_is : IsSetTo (env (text "UNIDPP_ARCHIVE_SNAPSHOT_DIR")) config.snapshot_dir
    pub dev_seed_is : IsSetTo (env (text "UNIDPP_ARCHIVE_DEV_SEED")) config.dev_seed
    pub base_is : IsTrimmedTo (env (text "UNIDPP_LOG_URL")) config.log.base_url
    pub bearer_is : IsTrimmedTo (env (text "UNIDPP_ARCHIVE_LOG_TOKEN")) config.log.bearer
    pub timeout_is : IsTimeout (env (text "UNIDPP_ARCHIVE_LOG_TIMEOUT_MS")) config.log.timeout

  abbrev IsParsedTo : Option Addr → Addr → Type 0
  IsParsedTo p a = (p ≡ some a) ⊎ ((p ≡ none) × (a ≡ first_bind))

  parsed_or : (p : Option Addr) → IsParsedTo p (unwrap_or p first_bind)
  parsed_or none = inr (refl, refl)
  parsed_or (some a) = inl refl

  bound : (o : Option Str) → IsBoundTo o (unwrap_or (and_then o parse_addr) first_bind)
  bound none = refl
  bound (some s) = parsed_or (parse_addr s)

  -- Whatever the environment, each field of the configuration that is read from it is what its own
  -- variable says: the token, files and seed are its value unless that is empty; the base and the
  -- token of the log are its value without the white space around it, unless that is empty; the
  -- timeout of the log is its value if that is a number of milliseconds other than 0, and 3000
  -- otherwise; and the address to listen on is what its value is parsed to, and the default when
  -- there is none.
  pub from_env-IsConfigured :
      (env : Environment) → IsConfigured env (from_env parse_addr first_bind env)
  unfolding from_env from_vars from_env_map text eq_str is_among
  from_env-IsConfigured env = record {
    bind_is =
        subst
          (λ o. IsBoundTo o (
            unwrap_or (and_then (var (env_values env) (text "UNIDPP_ARCHIVE_BIND")) parse_addr)
              first_bind))
          (var-env_values env (text "UNIDPP_ARCHIVE_BIND") refl) (bound _);
    admin_token_is = IsSetTo-field env (text "UNIDPP_ARCHIVE_ADMIN_TOKEN") refl;
    state_file_is = IsSetTo-field env (text "UNIDPP_ARCHIVE_STATE_FILE") refl;
    snapshot_dir_is = IsSetTo-field env (text "UNIDPP_ARCHIVE_SNAPSHOT_DIR") refl;
    dev_seed_is = IsSetTo-field env (text "UNIDPP_ARCHIVE_DEV_SEED") refl;
    base_is = IsTrimmedTo-field env (text "UNIDPP_LOG_URL") refl;
    bearer_is = IsTrimmedTo-field env (text "UNIDPP_ARCHIVE_LOG_TOKEN") refl;
    timeout_is = IsTimeout-field env (text "UNIDPP_ARCHIVE_LOG_TIMEOUT_MS") refl;
  }
