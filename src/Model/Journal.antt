-- ===== src/Model/Journal.antt =====
-- The journal line of a record, and its reading.
pub mod RoundTrip
pub mod Readable
use unidpp_archive.Prelude.{ℕ, ◌++◌, Option, none, some, List, [], ◌∷◌}
use unidpp_archive.Result.{Result, ok, err, ◌>>=◌, ok_or, map_err, and_then}
use unidpp_archive.Text.{Str, text}
use unidpp_archive.Hex.{hex_encode, hex_decode}
use unidpp_archive.Time
use unidpp_archive.Time.{show_time_parse_error}
use unidpp_archive.Json.{
  Value, null, num, str, Fields, object, get_field, as_object, as_str, as_u64, optional,
}
use unidpp_archive.External.{External}
use unidpp_archive.Model.Anchoring.{anchoring_to_journal_json, anchoring_from_json, read_optional}
use unidpp_archive.Model.Record.{SnapshotRecord}

-- The closures of `from_journal_json`.
unfoldable pub required_str : Fields → Str → Result Str Str
required_str fields k =
    ok_or (and_then (get_field k fields) as_str) (text "missing `" ++ k ++ text "`")

unfoldable pub required_u64 : Fields → Str → Result Str ℕ
required_u64 fields k =
    ok_or (and_then (get_field k fields) as_u64) (text "missing/invalid `" ++ k ++ text "`")

unfoldable pub plain_str : Str → Value → Result Str Str
plain_str k (str s) = ok s
plain_str k _ = err (text "`" ++ k ++ text "` must be a string or null")

unfoldable pub plain_u64 : Str → Value → Result Str ℕ
plain_u64 k (num n) = ok n
plain_u64 k (Value.other_num s) = err (text "`" ++ k ++ text "` must be an unsigned integer")
plain_u64 k _ = err (text "`" ++ k ++ text "` must be an unsigned integer or null")

module _ (x : External) where
  open x use {Hash, hex, from_hex}

  unfoldable pub required_hash : Fields → Str → Result Str Hash
  required_hash fields k =
      ok_or (and_then (and_then (get_field k fields) as_str) from_hex)
        (text "missing/invalid `" ++ k ++ text "` (64-char hex)")

  unfoldable pub to_journal_json : SnapshotRecord Hash → Value
  to_journal_json r = object (
      (text "seq", num r.seq)
      ∷ (text "snapshot_id", str r.snapshot_id)
      ∷ (text "notarized_at", str (Time.to_string r.notarized_at))
      ∷ (text "passport_id", str r.passport_id)
      ∷ (text "state_hash", str (hex r.state_hash))
      ∷ (text "log_head", str (hex r.log_head))
      ∷ (text "submitter", optional str r.submitter)
      ∷ (text "state_size", optional num r.state_size)
      ∷ (text "anchoring", anchoring_to_journal_json x r.anchoring)
      ∷ (text "signature", str (hex_encode r.signature))
      ∷ (text "key_id", str r.key_id)
      ∷ (text "body_digest", str (hex r.body_digest))
      ∷ [])

  unfoldable pub from_journal_json : Value → Result Str (SnapshotRecord Hash)
  from_journal_json v = do
    fields ← ok_or (as_object v) (text "snapshot record must be an object")
    anchoring_value ← ok_or (get_field (text "anchoring") fields) (text "missing `anchoring`")
    anchoring ← anchoring_from_json x anchoring_value
    signature_text ← required_str fields (text "signature")
    signature ← map_err (λ e. text "`signature`: " ++ e) (hex_decode signature_text)
    seq ← required_u64 fields (text "seq")
    snapshot_id ← required_str fields (text "snapshot_id")
    at_text ← required_str fields (text "notarized_at")
    notarized_at ←
        map_err (λ e. text "`notarized_at`: " ++ show_time_parse_error e) (Time.parse at_text)
    passport_id ← required_str fields (text "passport_id")
    state_hash ← required_hash fields (text "state_hash")
    log_head ← required_hash fields (text "log_head")
    submitter ← read_optional (plain_str (text "submitter")) (get_field (text "submitter") fields)
    state_size ←
        read_optional (plain_u64 (text "state_size")) (get_field (text "state_size") fields)
    key_id ← required_str fields (text "key_id")
    body_digest ← required_hash fields (text "body_digest")
    ok (record {
      seq = seq;
      snapshot_id = snapshot_id;
      notarized_at = notarized_at;
      passport_id = passport_id;
      state_hash = state_hash;
      log_head = log_head;
      submitter = submitter;
      state_size = state_size;
      anchoring = anchoring;
      signature = signature;
      key_id = key_id;
      body_digest = body_digest;
    })
