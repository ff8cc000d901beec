-- ===== src/Json.antt =====
-- JSON values as `serde_json` documents them: `Value` with the constructors that the source matches,
-- numbers that are a `u64` or not, and objects as maps in the order of their keys. The parser and
-- the printers of `serde_json` are parameters (External).
use Prim.Native.Nat.{compare, Ordering}
use unidpp_archive.Prelude.{
  ℕ, zero, suc, Option, none, some, Bool, true, false, ◌&&◌, List, [], ◌∷◌, ltb, ◌^◌, if◌then◌else◌,
}
use unidpp_archive.Text.{Str, eq_str}

mutual
  pub data Value : Type 0 where
    null : Value
    bool : Bool → Value
    -- `Value::Number` for which `as_u64` answers.
    num : ℕ → Value
    -- Any other number, by its text.
    other_num : Str → Value
    str : Str → Value
    array : Items → Value
    obj : Fields → Value

  pub data Items : Type 0 where
    nil : Items
    item : Value → Items → Items

  pub data Fields : Type 0 where
    end : Fields
    field : Str → Value → Fields → Fields

-- The order of texts, by bytes.
unfoldable pub compare_str : Str → Str → Ordering
compare_str [] [] = Ordering.eq
compare_str [] (b ∷ t) = Ordering.lt
compare_str (a ∷ s) [] = Ordering.gt
compare_str (a ∷ s) (b ∷ t) = elim (compare a b) [
  | Ordering.lt ↦ Ordering.lt
  | Ordering.eq ↦ compare_str s t
  | Ordering.gt ↦ Ordering.gt
]

-- `Map::get`
unfoldable pub get_field : Str → Fields → Option Value
unfolding eq_str
get_field k end = none
get_field k (field j v fs) = if eq_str j k then some v else get_field k fs

-- `Map::insert`
unfoldable pub insert_field : Str → Value → Fields → Fields
unfolding compare_str
insert_field k v end = field k v end
insert_field k v (field j w fs) = elim (compare_str k j) [
  | Ordering.lt ↦ field k v (field j w fs)
  | Ordering.eq ↦ field k v fs
  | Ordering.gt ↦ field j w (insert_field k v fs)
]

unfoldable pub insert_all : List (Str × Value) → Fields → Fields
unfolding insert_field
insert_all [] fs = fs
insert_all ((k, v) ∷ more) fs = insert_all more (insert_field k v fs)

-- An object literal of `json!`.
unfoldable pub object : List (Str × Value) → Value
unfolding insert_all
object entries = obj (insert_all entries end)

-- `Value::get` with a key
unfoldable pub get : Value → Str → Option Value
unfolding get_field
get (obj fs) k = get_field k fs
get _ k = none

-- `Value::as_object`
abbrev pub as_object : Value → Option Fields
as_object (obj fs) = some fs
as_object _ = none

-- `Value::as_str`
abbrev pub as_str : Value → Option Str
as_str (str s) = some s
as_str _ = none

-- `Value::as_u64`
abbrev pub as_u64 : Value → Option ℕ
as_u64 (num n) = some n
as_u64 _ = none

-- `json!` of an `Option`
abbrev pub optional {ℓ} : {A : Type ℓ} → (A → Value) → Option A → Value
optional f none = null
optional f (some a) = f a

-- The values that are surely read back from their text: a `u64` fits 64 bits, the keys of a map
-- increase, arrays and objects are not nested too deep, and there is no other number.
abbrev pub is_less : Ordering → Bool
is_less Ordering.lt = true
is_less _ = false

unfoldable pub keys_above : Str → Fields → Bool
unfolding compare_str
keys_above k end = true
keys_above k (field j v fs) = is_less (compare_str k j)

-- A budget of nested arrays and objects, and no other number than a `u64`.
unfoldable mutual
  pub is_readable : ℕ → Value → Bool
  is_readable n null = true
  is_readable n (bool b) = true
  is_readable n (num m) = ltb m (2 ^ 64)
  is_readable n (other_num s) = false
  is_readable n (str s) = true
  is_readable zero (array xs) = false
  is_readable (suc n) (array xs) = is_readable_items n xs
  is_readable zero (obj fs) = false
  is_readable (suc n) (obj fs) = is_readable_fields n fs

  pub is_readable_items : ℕ → Items → Bool
  is_readable_items n nil = true
  is_readable_items n (item v xs) = is_readable n v && is_readable_items n xs

  pub is_readable_fields : ℕ → Fields → Bool
  is_readable_fields n end = true
  is_readable_fields n (field k v fs) =
      is_readable n v && keys_above k fs && is_readable_fields n fs
