-- ===== src/Examples/Codec.antt =====
-- A text format for JSON values, one command a byte: a machine with stacks prints and reads it.
use unidpp_archive.Prelude.{
  ℕ, zero, suc, ◌+◌, ◌≤◌, ◌≡◌, refl, sym, ap, ◌∙◌, true, false, Option, none, some, List, [], ◌∷◌,
  ◌++◌, ◌==◌, if◌then◌else◌, arith, map, All,
}
use unidpp_archive.Result.{Result, ok, err}
use unidpp_archive.Text.{Str, text, IsGraphic}
use unidpp_archive.Text.Lines.{IsLineByte, is_utf8, IsAscii, ascii-is_utf8}
use unidpp_archive.Json.{
  Value, null, bool, num, other_num, str, array, obj, Items, nil, item, Fields, end, field,
}

-- The counter, and the stacks of texts, of values, of arrays and of objects.
pub data Machine : Type 0 where
  dead : Machine
  at : ℕ → List Str → List Value → List Items → List Fields → Machine

-- The commands are the letters from `a` on; `tick` is counted.
pub data Command : Type 0 where
  tick text_nil text_cons put_null put_true put_false put_num put_other put_str : Command
  items_nil items_cons put_array fields_nil fields_cons put_obj : Command

abbrev pub letter : Command → ℕ
letter tick = 97
letter text_nil = 98
letter text_cons = 99
letter put_null = 100
letter put_true = 101
letter put_false = 102
letter put_num = 103
letter put_other = 104
letter put_str = 105
letter items_nil = 106
letter items_cons = 107
letter put_array = 108
letter fields_nil = 109
letter fields_cons = 110
letter put_obj = 111

unfoldable pub command_of : ℕ → Option Command
command_of b =
    if b == 97
    then some tick
    else if b == 98
    then some text_nil
    else if b == 99
    then some text_cons
    else if b == 100
    then some put_null
    else if b == 101
    then some put_true
    else if b == 102
    then some put_false
    else if b == 103
    then some put_num
    else if b == 104
    then some put_other
    else if b == 105
    then some put_str
    else if b == 106
    then some items_nil
    else if b == 107
    then some items_cons
    else if b == 108
    then some put_array
    else if b == 109
    then some fields_nil
    else if b == 110
    then some fields_cons
    else if b == 111
    then some put_obj
    else none

abbrev execute : Command → Machine → Machine
execute tick (at n ss vs is fs) = at (n + 1) ss vs is fs
execute text_nil (at n ss vs is fs) = at n ([] ∷ ss) vs is fs
execute text_cons (at n (s ∷ ss) vs is fs) = at 0 ((n ∷ s) ∷ ss) vs is fs
execute put_null (at n ss vs is fs) = at n ss (null ∷ vs) is fs
execute put_true (at n ss vs is fs) = at n ss (bool true ∷ vs) is fs
execute put_false (at n ss vs is fs) = at n ss (bool false ∷ vs) is fs
execute put_num (at n ss vs is fs) = at 0 ss (num n ∷ vs) is fs
execute put_other (at n (s ∷ ss) vs is fs) = at n ss (other_num s ∷ vs) is fs
execute put_str (at n (s ∷ ss) vs is fs) = at n ss (str s ∷ vs) is fs
execute items_nil (at n ss vs is fs) = at n ss vs (nil ∷ is) fs
execute items_cons (at n ss (v ∷ vs) (i ∷ is) fs) = at n ss vs (item v i ∷ is) fs
execute put_array (at n ss vs (i ∷ is) fs) = at n ss (array i ∷ vs) is fs
execute fields_nil (at n ss vs is fs) = at n ss vs is (end ∷ fs)
execute fields_cons (at n (s ∷ ss) (v ∷ vs) is (f ∷ fs)) = at n ss vs is (field s v f ∷ fs)
execute put_obj (at n ss vs is (f ∷ fs)) = at n ss (obj f ∷ vs) is fs
execute _ _ = dead

abbrev obey : Machine → Option Command → Machine
obey dead o = dead
obey m none = dead
obey m (some c) = execute c m

-- The machine behind a text.
unfoldable run : Str → Machine → Machine
unfolding command_of
run [] m = m
run (b ∷ s) m = run s (obey m (command_of b))

-- The commands of a number, of a text and of a value.
unfoldable ticks : ℕ → List Command
ticks zero = []
ticks (suc n) = tick ∷ ticks n

unfoldable text_commands : Str → List Command
unfolding ticks
text_commands [] = text_nil ∷ []
text_commands (b ∷ s) = text_commands s ++ (ticks b ++ text_cons ∷ [])

unfoldable mutual
  value_commands : Value → List Command
  value_commands null = put_null ∷ []
  value_commands (bool true) = put_true ∷ []
  value_commands (bool false) = put_false ∷ []
  value_commands (num n) = ticks n ++ put_num ∷ []
  value_commands (other_num s) = text_commands s ++ put_other ∷ []
  value_commands (str s) = text_commands s ++ put_str ∷ []
  value_commands (array is) = items_commands is ++ put_array ∷ []
  value_commands (obj fs) = fields_commands fs ++ put_obj ∷ []

  items_commands : Items → List Command
  items_commands nil = items_nil ∷ []
  items_commands (item v is) = items_commands is ++ (value_commands v ++ items_cons ∷ [])

  fields_commands : Fields → List Command
  fields_commands end = fields_nil ∷ []
  fields_commands (field k v fs) =
      fields_commands fs ++ (value_commands v ++ (text_commands k ++ fields_cons ∷ []))

unfoldable perform : List Command → Machine → Machine
perform [] m = m
perform (c ∷ cs) m = perform cs (execute c m)

perform-append :
    (cs ds : List Command) (m : Machine) → perform (cs ++ ds) m ≡ perform ds (perform cs m)
unfolding perform
perform-append [] ds m = refl
perform-append (c ∷ cs) ds m = perform-append cs ds (execute c m)

perform-ticks :
    (n k : ℕ) (ss : List Str) (vs : List Value) (is : List Items) (fs : List Fields)
    → perform (ticks n) (at k ss vs is fs) ≡ at (k + n) ss vs is fs
unfolding perform ticks
perform-ticks zero k ss vs is fs = ap (λ j. at j ss vs is fs) (omega arith)
perform-ticks (suc n) k ss vs is fs =
    perform-ticks n (k + 1) ss vs is fs ∙ ap (λ j. at j ss vs is fs) (omega arith)

perform-text :
    (s : Str) (ss : List Str) (vs : List Value) (is : List Items) (fs : List Fields)
    → perform (text_commands s) (at 0 ss vs is fs) ≡ at 0 (s ∷ ss) vs is fs
unfolding perform text_commands
perform-text [] ss vs is fs = refl
perform-text (b ∷ s) ss vs is fs =
    rw
      (
        perform-append (text_commands s) (ticks b ++ text_cons ∷ []) (at 0 ss vs is fs),
        perform-text s ss vs is fs,
        perform-append (ticks b) (text_cons ∷ []) (at 0 (s ∷ ss) vs is fs),
        perform-ticks b 0 (s ∷ ss) vs is fs,
      )
      (ap (λ j. at 0 ((j ∷ s) ∷ ss) vs is fs) (omega arith))

mutual
  unfolding perform value_commands

  perform-value :
      (v : Value) (ss : List Str) (vs : List Value) (is : List Items) (fs : List Fields)
      → perform (value_commands v) (at 0 ss vs is fs) ≡ at 0 ss (v ∷ vs) is fs
  perform-value null ss vs is fs = refl
  perform-value (bool true) ss vs is fs = refl
  perform-value (bool false) ss vs is fs = refl
  perform-value (num n) ss vs is fs =
      rw (perform-append (ticks n) (put_num ∷ []) (at 0 ss vs is fs), perform-ticks n 0 ss vs is fs)
        (ap (λ j. at 0 ss (num j ∷ vs) is fs) (omega arith))
  perform-value (other_num s) ss vs is fs = rw (
    perform-append (text_commands s) (put_other ∷ []) (at 0 ss vs is fs),
    perform-text s ss vs is fs,
  )
  perform-value (str s) ss vs is fs = rw (
    perform-append (text_commands s) (put_str ∷ []) (at 0 ss vs is fs),
    perform-text s ss vs is fs,
  )
  perform-value (array i) ss vs is fs = rw (
    perform-append (items_commands i) (put_array ∷ []) (at 0 ss vs is fs),
    perform-items i ss vs is fs,
  )
  perform-value (obj f) ss vs is fs = rw (
    perform-append (fields_commands f) (put_obj ∷ []) (at 0 ss vs is fs),
    perform-fields f ss vs is fs,
  )

  perform-items :
      (i : Items) (ss : List Str) (vs : List Value) (is : List Items) (fs : List Fields)
      → perform (items_commands i) (at 0 ss vs is fs) ≡ at 0 ss vs (i ∷ is) fs
  perform-items nil ss vs is fs = refl
  perform-items (item v i) ss vs is fs = rw (
    perform-append (items_commands i) (value_commands v ++ items_cons ∷ []) (at 0 ss vs is fs),
    perform-items i ss vs is fs,
    perform-append (value_commands v) (items_cons ∷ []) (at 0 ss vs (i ∷ is) fs),
    perform-value v ss vs (i ∷ is) fs,
  )

  perform-fields :
      (f : Fields) (ss : List Str) (vs : List Value) (is : List Items) (fs : List Fields)
      → perform (fields_commands f) (at 0 ss vs is fs) ≡ at 0 ss vs is (f ∷ fs)
  perform-fields end ss vs is fs = refl
  perform-fields (field k v f) ss vs is fs = rw (
    perform-append (fields_commands f) (value_commands v ++ (text_commands k ++ fields_cons ∷ []))
        (at 0 ss vs is fs),
    perform-fields f ss vs is fs,
    perform-append (value_commands v) (text_commands k ++ fields_cons ∷ [])
        (at 0 ss vs is (f ∷ fs)),
    perform-value v ss vs is (f ∷ fs),
    perform-append (text_commands k) (fields_cons ∷ []) (at 0 ss (v ∷ vs) is (f ∷ fs)),
    perform-text k ss (v ∷ vs) is (f ∷ fs),
  )

command_of-letter : (c : Command) → command_of (letter c) ≡ some c
unfolding command_of
command_of-letter tick = refl
command_of-letter text_nil = refl
command_of-letter text_cons = refl
command_of-letter put_null = refl
command_of-letter put_true = refl
command_of-letter put_false = refl
command_of-letter put_num = refl
command_of-letter put_other = refl
command_of-letter put_str = refl
command_of-letter items_nil = refl
command_of-letter items_cons = refl
command_of-letter put_array = refl
command_of-letter fields_nil = refl
command_of-letter fields_cons = refl
command_of-letter put_obj = refl

execute-dead : (c : Command) → execute c dead ≡ dead
execute-dead tick = refl
execute-dead text_nil = refl
execute-dead text_cons = refl
execute-dead put_null = refl
execute-dead put_true = refl
execute-dead put_false = refl
execute-dead put_num = refl
execute-dead put_other = refl
execute-dead put_str = refl
execute-dead items_nil = refl
execute-dead items_cons = refl
execute-dead put_array = refl
execute-dead fields_nil = refl
execute-dead fields_cons = refl
execute-dead put_obj = refl

obey-some : (m : Machine) (c : Command) → obey m (some c) ≡ execute c m
obey-some dead c = sym (execute-dead c)
obey-some (at n ss vs is fs) c = refl

run-dead : (s : Str) → run s dead ≡ dead
unfolding run
run-dead [] = refl
run-dead (b ∷ s) = run-dead s

run-letters : (cs : List Command) (m : Machine) → run (map letter cs) m ≡ perform cs m
unfolding run perform
run-letters [] m = refl
run-letters (c ∷ cs) m =
    ap (λ o. run (map letter cs) (obey m o)) (command_of-letter c)
    ∙ (ap (run (map letter cs)) (obey-some m c) ∙ run-letters cs (execute c m))

abbrev answer : Machine → Result Str Value
answer (at n ss (v ∷ vs) is fs) = ok v
answer _ = err (text "not a value")

unfoldable pub read_value : Str → Result Str Value
unfolding run
read_value s = answer (run s (at 0 [] [] [] []))

unfoldable pub print_value : Value → Str
unfolding value_commands text_commands ticks
print_value v = map letter (value_commands v)

-- A printed value is read back.
pub read_value-print_value : (v : Value) → read_value (print_value v) ≡ ok v
unfolding read_value print_value
read_value-print_value v =
    ap answer (run-letters (value_commands v) (at 0 [] [] [] []) ∙ perform-value v [] [] [] [])

letter-IsLineByte : (c : Command) → (97 ≤ letter c) × (letter c ≤ 111)
letter-IsLineByte tick = (omega arith, omega arith)
letter-IsLineByte text_nil = (omega arith, omega arith)
letter-IsLineByte text_cons = (omega arith, omega arith)
letter-IsLineByte put_null = (omega arith, omega arith)
letter-IsLineByte put_true = (omega arith, omega arith)
letter-IsLineByte put_false = (omega arith, omega arith)
letter-IsLineByte put_num = (omega arith, omega arith)
letter-IsLineByte put_other = (omega arith, omega arith)
letter-IsLineByte put_str = (omega arith, omega arith)
letter-IsLineByte items_nil = (omega arith, omega arith)
letter-IsLineByte items_cons = (omega arith, omega arith)
letter-IsLineByte put_array = (omega arith, omega arith)
letter-IsLineByte fields_nil = (omega arith, omega arith)
letter-IsLineByte fields_cons = (omega arith, omega arith)
letter-IsLineByte put_obj = (omega arith, omega arith)

-- The bytes of a printed value are lower-case letters.
abbrev pub IsLetter : ℕ → Type 0
IsLetter b = (97 ≤ b) × (b ≤ 122)

letters : (cs : List Command) → All IsLetter (map letter cs)
letters [] = tt
letters (c ∷ cs) =
    ((omega (arith, (letter-IsLineByte c).0), omega (arith, (letter-IsLineByte c).1)), letters cs)

pub print_value-IsLetter : (v : Value) → All IsLetter (print_value v)
unfolding print_value
print_value-IsLetter v = letters (value_commands v)

pub letters-IsGraphic : (s : Str) → All IsLetter s → All IsGraphic s
letters-IsGraphic [] h = tt
letters-IsGraphic (b ∷ s) h =
    ((omega (arith, h.0.0), omega (arith, h.0.1)), letters-IsGraphic s h.1)

pub letters-IsLine : (s : Str) → All IsLetter s → All IsLineByte s
letters-IsLine [] h = tt
letters-IsLine (b ∷ s) h =
    ((λ e. omega (arith, h.0.0), λ e. omega (arith, h.0.0)), letters-IsLine s h.1)

letters-IsAscii : (s : Str) → All IsLetter s → All IsAscii s
letters-IsAscii [] h = tt
letters-IsAscii (b ∷ s) h = (omega (arith, h.0.1), letters-IsAscii s h.1)

pub letters-is_utf8 : (s : Str) → All IsLetter s → is_utf8 s ≡ true
letters-is_utf8 s h = ascii-is_utf8 s (letters-IsAscii s h)

-- What begins with an unknown byte is not read.
pub read_value-unknown : (s : Str) → (e : Str) × (read_value (120 ∷ s) ≡ err e)
unfolding read_value
read_value-unknown s = (text "not a value", ap answer (run-dead s))
