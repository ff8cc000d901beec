-- ===== src/Examples/Service.antt =====
-- An external library made of concrete functions, and records to run the theorems on.
use unidpp_archive.Prelude.{
  map, ℕ, ◌+◌, ◌%◌, ◌<◌, ◌^◌, ◌≡◌, refl, true, none, some, List, [], ◌∷◌, ◌++◌, arith, subst, All,
}
use unidpp_archive.Prelude.Int.{pos}
use unidpp_archive.Result.{ok, ok_injective, some_injective}
use unidpp_archive.Text.{Str, text, eq_str, eq_str_refl, eq_str→eq}
use unidpp_archive.Time.{from_secs}
use unidpp_archive.Hex.RoundTrip.{IsByte}
use unidpp_archive.External.{External, Documented}
use unidpp_archive.Model.Record.{SnapshotRecord, snapshot_id_of}
use unidpp_archive.Model.Anchoring.{unanchored}
use unidpp_archive.Json.{Value, obj, object}
use unidpp_archive.Text.Lines.{IsLineByte, is_utf8}
use unidpp_archive.Model.Document.{render_body, to_document}
use unidpp_archive.Model.Journal.RoundTrip.{IsJournalable}
use unidpp_archive.Model.Journal.Readable.{IsReadable}
use unidpp_archive.Store.Lines.{IsRecordAt}
use unidpp_archive.Examples.Codec.{
  read_value, print_value, read_value-print_value, print_value-IsLetter, letters-IsLine,
  letters-is_utf8,
}

abbrev sum_bytes : List ℕ → ℕ
sum_bytes [] = 0
sum_bytes (b ∷ bytes) = b + sum_bytes bytes

abbrev checksum : List (List ℕ) → ℕ
checksum [] = 0
checksum (s ∷ slices) = sum_bytes s + checksum slices

abbrev brief : Value → Str
brief (obj fs) = text "{}"
brief v = text "null"

-- A signature: the key and the message, in bytes.
abbrev pub sign_bytes : Str → List ℕ → List ℕ
sign_bytes k message = map (λ b. b % 256) (k ++ message)

bytes_of : (s : List ℕ) → All IsByte (map (λ b. b % 256) s)
bytes_of [] = tt
bytes_of (b ∷ s) = (omega arith, bytes_of s)

pub sign_bytes-IsByte : (k : Str) (message : List ℕ) → All IsByte (sign_bytes k message)
sign_bytes-IsByte k message = bytes_of (k ++ message)

-- Hashes are texts, and a digest is a sum of bytes in one byte.
abbrev pub sample : External
sample = record {
  from_str = read_value;
  to_line = λ v. ok (print_value v);
  display = print_value;
  to_string_pretty = brief;
  Hash = Str;
  zero_hash = 48 ∷ [];
  eq_hash = eq_str;
  hex = λ h. h;
  from_hex = some;
  sha256 = λ slices. checksum slices % 128 ∷ [];
  Writer = List ℕ;
  new_writer = [];
  write_str = λ s w. w ++ s;
  write_u64 = λ n w. w ++ n ∷ [];
  write_u32 = λ n w. w ++ n ∷ [];
  write_i64 = λ z w. w;
  write_hash = λ h w. w ++ h;
  write_bytes_raw = λ bytes w. w ++ bytes;
  into_bytes = λ w. w;
  KeyPair = Str;
  PublicKey = Str;
  public = λ k. k;
  key_id = λ k. k;
  ed25519 = text "ed25519";
  seeded = λ seed. ok seed;
  as_bytes = λ k. k;
  SigningDomain = Unit;
  tree_head = tt;
  sign = λ k domain message. ok (some (sign_bytes k message));
  verify = λ k domain message signature. eq_str (sign_bytes k message) signature;
}

pub sample_documented : Documented sample
sample_documented = record {
  from_str-to_line =
      λ v s h e. subst (λ t. read_value t ≡ ok v) (ok_injective e) (read_value-print_value v);
  to_line-IsLine = λ v s e.
      subst (All IsLineByte) (ok_injective e)
        (letters-IsLine (print_value v) (print_value-IsLetter v));
  to_line-is_utf8 = λ v s e.
      subst (λ t. is_utf8 t ≡ true) (ok_injective e)
        (letters-is_utf8 (print_value v) (print_value-IsLetter v));
  to_line-ok = λ v. (print_value v, refl);
  from_hex-hex = λ h. refl;
  verify-sign = λ k message signature e.
      subst (λ t. eq_str (sign_bytes k message) t ≡ true) (some_injective (ok_injective e))
        (eq_str_refl (sign_bytes k message));
  eq_hash_iff = λ g h. (eq_str→eq g h, λ e. subst (λ k. eq_str g k ≡ true) e (eq_str_refl g));
}

-- A record at a position, before it is signed.
abbrev pub draft : ℕ → SnapshotRecord Str
draft n = record {
  seq = n;
  snapshot_id = snapshot_id_of n;
  notarized_at = from_secs (pos 1000000);
  passport_id = text "p";
  state_hash = text "a";
  log_head = text "b";
  submitter = none;
  state_size = some 4;
  anchoring = unanchored (text "not attempted yet");
  signature = [];
  key_id = text "k";
  body_digest = text "c";
}

abbrev pub kept : ℕ → SnapshotRecord Str
kept n = record (draft n) { body_digest = checksum (render_body sample (draft n) ∷ []) % 128 ∷ [] }

pub kept-IsJournalable : (n : ℕ) → n < 2 ^ 64 → IsJournalable (kept n)
unfolding unanchored
kept-IsJournalable n h = record {
  seq_in = h;
  state_size_in = omega arith;
  tree_size_in = tt;
  notarized_at_in = (omega arith, omega arith);
  signature_bytes = tt;
  storable = record { receipt_seq_in = tt; logged_at_in = tt; receipt_object = tt; complete = tt };
}

pub kept-IsReadable : (n : ℕ) → IsReadable (kept n)
unfolding unanchored
kept-IsReadable n = tt

pub kept-IsRecordAt : (n : ℕ) → n < 2 ^ 64 → IsRecordAt sample n (kept n)
unfolding render_body text to_document object
kept-IsRecordAt n h = record {
  seq_is = refl;
  id_is = refl;
  digest = eq_str_refl _;
  journalable = kept-IsJournalable n h;
}
