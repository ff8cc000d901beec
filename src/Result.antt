-- ===== src/Result.antt =====
-- Rust's `Result`, its `?` as `do`, and the conversions from `Option`.
use unidpp_archive.Prelude.{◌≡◌, refl, Option, none, some, Bool, true, false, not}

pub data Result {ℓ} (E A : Type ℓ) : Type ℓ where
  ok : A → Result E A
  err : E → Result E A

-- `Option::ok_or`
abbrev pub ok_or {ℓ} : {E A : Type ℓ} → Option A → E → Result E A
ok_or (some a) e = ok a
ok_or none e = err e

-- `Result::map_err`
abbrev pub map_err {ℓ} : {E F A : Type ℓ} → (E → F) → Result E A → Result F A
map_err f (ok a) = ok a
map_err f (err e) = err (f e)

-- The two forms of `?`: with the value, and for the check alone.
abbrev pub ◌>>=◌ {ℓ} : {E A B : Type ℓ} → Result E A → (A → Result E B) → Result E B
err failure >>= next = err failure
ok value >>= next = next value

abbrev pub ◌>>◌ {ℓ} : {E B : Type ℓ} → Result E (Unit {ℓ}) → Result E B → Result E B
err failure >> next = err failure
ok value >> next = next

infixl 5 ◌>>=◌ ◌>>◌
-- `Result::ok`
abbrev pub to_option {ℓ} : {E A : Type ℓ} → Result E A → Option A
to_option (ok a) = some a
to_option (err e) = none

-- An early `return Err(e)` when the test holds.
abbrev pub fail_if {ℓ} : {E : Type ℓ} → Bool → E → Result E (Unit {ℓ})
fail_if true e = err e
fail_if false e = ok tt

abbrev pub IsOk {ℓ} : {E A : Type ℓ} → Result E A → Type 0
IsOk (ok a) = Unit
IsOk (err e) = ⊥

abbrev pub IsErr {ℓ} : {E A : Type ℓ} → Result E A → Type 0
IsErr (ok a) = ⊥
IsErr (err e) = Unit

-- A chain that succeeds: its first step did, and the rest did with what the first step gave.
pub >>=-eq-ok {ℓ} :
    {E A B : Type ℓ} (first : Result E A) (next : A → Result E B) {out : B}
    → (first >>= next) ≡ ok out
    → (given : A) × (first ≡ ok given) × (next given ≡ ok out)
>>=-eq-ok (err failure) next h = cc
>>=-eq-ok (ok given) next h = (given, refl, h)

-- `Option::and_then`
abbrev pub and_then {ℓ} : {A B : Type ℓ} → Option A → (A → Option B) → Option B
and_then (some a) f = f a
and_then none f = none

-- `Option::filter`
abbrev pub keep_if {ℓ} : {A : Type ℓ} → Option A → (A → Bool) → Option A
keep_if none test = none
keep_if (some a) test = elim (test a) [ true ↦ some a | false ↦ none ]

-- `Option::unwrap_or`
abbrev pub unwrap_or {ℓ} : {A : Type ℓ} → Option A → A → A
unwrap_or (some a) d = a
unwrap_or none d = d

abbrev pub is_some {ℓ} : {A : Type ℓ} → Option A → Bool
is_some (some a) = true
is_some none = false

abbrev pub map_option {ℓ} : {A B : Type ℓ} → (A → B) → Option A → Option B
map_option f (some a) = some (f a)
map_option f none = none

-- A check that was passed.
pub require-eq-ok {ℓ} :
    {E A : Type ℓ} (b : Bool) (e : E) (next : Result E A) {a : A}
    → (fail_if (not b) e >> next) ≡ ok a
    → (b ≡ true) × (next ≡ ok a)
require-eq-ok true e next h = (refl, h)
require-eq-ok false e next h = cc

pub >>-eq-ok {ℓ} :
    {E B : Type ℓ} (m : Result E (Unit {ℓ})) (next : Result E B) {b : B}
    → (m >> next) ≡ ok b
    → (m ≡ ok tt) × (next ≡ ok b)
>>-eq-ok (ok u) next h = (refl, h)
>>-eq-ok (err e) next h = cc

pub ok_injective {ℓ} : {E A : Type ℓ} {a b : A} → Path (Result E A) (ok a) (ok b) → a ≡ b
ok_injective h = cc

pub require-ok {ℓ} : {E : Type ℓ} (b : Bool) (e : E) → fail_if (not b) e ≡ ok tt → b ≡ true
require-ok true e h = refl
require-ok false e h = cc

pub keep_if-true {ℓ} :
    {A : Type ℓ} (a : A) (test : A → Bool) → test a ≡ true → keep_if (some a) test ≡ some a
keep_if-true a test h = rw (h, keep_if) refl

pub some_injective {ℓ} : {A : Type ℓ} {a b : A} → Path (Option A) (some a) (some b) → a ≡ b
some_injective h = cc

pub map_err-ok {ℓ} :
    {E F A : Type ℓ} (f : E → F) (answer : Result E A) {a : A}
    → map_err f answer ≡ ok a
    → answer ≡ ok a
map_err-ok f (ok b) h = cc
map_err-ok f (err e) h = cc

pub fail_if-ok {ℓ} : {E : Type ℓ} (b : Bool) (e : E) → fail_if b e ≡ ok tt → b ≡ false
fail_if-ok true e h = cc
fail_if-ok false e h = refl
