-- ===== src/Http/Chunked/Faults.antt =====
-- How a round of the loop that decodes a chunked body can fail.
use unidpp_archive.Prelude.{
  ℕ, zero, suc, ◌+◌, ◌≡◌, ◌≢◌, refl, ap, Option, none, some, length, take, drop, ltb, leb, Bool,
  true, false, ◌^◌,
}
use unidpp_archive.Result.{Result, ok, err, ◌>>=◌, ◌>>◌, fail_if, ok_or}
use unidpp_archive.Text.{Str, text}
use unidpp_archive.Text.Search.{find_subslice}
use unidpp_archive.Http.Chunked.{
  Fault, message, panicked, out_of_fuel, crlf, chunk_size, size_line, chunk_data, chunk_at,
}
use unidpp_archive.Http.Chunked.Steps.{err_injective}

-- A fault without a message is no answer of a test that fails with a message.
module _ (fault : Fault) (silent : (s : Str) → message s ≢ fault) where
  ok_or-silent :
      {A B : Type 0} (o : Option A) (s : Str) (next : A → Result Fault B)
      → ((a : A) → next a ≢ err fault)
      → (ok_or o (message s) >>= next) ≢ err fault
  ok_or-silent none s next h e = silent s (err_injective e)
  ok_or-silent (some a) s next h e = h a e

  bind-silent :
      {A B : Type 0} (m : Result Fault A) (next : A → Result Fault B)
      → m ≢ err fault
      → ((a : A) → next a ≢ err fault)
      → (m >>= next) ≢ err fault
  bind-silent (err e) next hm hn h = hm (ap err (err_injective h))
  bind-silent (ok a) next hm hn h = hn a h

  ok-silent : {A : Type 0} (a : A) → Path (Result Fault A) (ok a) (err fault) → ⊥
  ok-silent a h = cc

  fail_if-silent :
      {A : Type 0} (b : Bool) (s : Str) (o : Option A) (t : Str)
      → (fail_if b (message s) >> ok_or o (message t)) ≢ err fault
  fail_if-silent true s o t h = silent s (err_injective h)
  fail_if-silent false s none t h = silent t (err_injective h)
  fail_if-silent false s (some a) t h = ok-silent a h

  chunk_size-silent : (line : Str) → chunk_size line ≢ err fault
  unfolding chunk_size
  chunk_size-silent line = fail_if-silent _ _ _ _

  pub size_line-silent : (raw : Str) (pos : ℕ) → size_line raw pos ≢ err fault
  unfolding size_line
  size_line-silent raw pos = ok_or-silent (find_subslice (drop pos raw) crlf) _ _ (λ found.
      bind-silent (chunk_size (take found (drop pos raw))) _
        (chunk_size-silent (take found (drop pos raw))) (λ size. ok-silent (size, found + pos + 2)))

message-fuel : (s : Str) → message s ≢ out_of_fuel
message-fuel s h = cc

pub message-panicked : (s : Str) → message s ≢ panicked
message-panicked s h = cc

guards-fuel :
    {A : Type 0} (a b c : Bool) (s t : Str) (piece : A)
    → (do fail_if a panicked; fail_if b (message s); fail_if c (message t); ok piece)
      ≢ err out_of_fuel
guards-fuel true b c s t piece h = cc
guards-fuel false true c s t piece h = cc
guards-fuel false false true s t piece h = cc
guards-fuel false false false s t piece h = cc

guards-panicked :
    {A : Type 0} (a b c : Bool) (s t : Str) (piece : A)
    → (do fail_if a panicked; fail_if b (message s); fail_if c (message t); ok piece) ≡ err panicked
    → a ≡ true
guards-panicked true b c s t piece h = refl
guards-panicked false true c s t piece h = cc
guards-panicked false false true s t piece h = cc
guards-panicked false false false s t piece h = cc

chunk_data-fuel : (raw : Str) (line : ℕ × ℕ) → chunk_data raw line ≢ err out_of_fuel
unfolding chunk_data
chunk_data-fuel raw (zero, pos) h = cc
chunk_data-fuel raw (suc n, pos) h =
    guards-fuel (leb (2 ^ 64) (pos + suc n)) (ltb (length raw) (pos + suc n))
      (ltb (length raw) (pos + suc n + 2)) (text "incomplete chunk data")
      (text "incomplete chunk trailer") (some (take (suc n) (drop pos raw), pos + suc n + 2)) h

-- An addition that overflows.
pub data_overflows :
    (raw : Str) (n pos : ℕ)
    → chunk_data raw (suc n, pos) ≡ err panicked
    → leb (2 ^ 64) (pos + suc n) ≡ true
unfolding chunk_data
data_overflows raw n pos h =
    guards-panicked (leb (2 ^ 64) (pos + suc n)) (ltb (length raw) (pos + suc n))
      (ltb (length raw) (pos + suc n + 2)) (text "incomplete chunk data")
      (text "incomplete chunk trailer") (some (take (suc n) (drop pos raw), pos + suc n + 2)) h

pub chunk_at-fuel : (raw : Str) (pos : ℕ) → chunk_at raw pos ≢ err out_of_fuel
unfolding chunk_at
chunk_at-fuel raw pos =
    bind-silent out_of_fuel message-fuel (size_line raw pos) (chunk_data raw)
      (size_line-silent out_of_fuel message-fuel raw pos) (chunk_data-fuel raw)
