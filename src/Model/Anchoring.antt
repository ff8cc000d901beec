-- ===== src/Model/Anchoring.antt =====
-- The anchoring outcome of src/model.rs: what is taken from a receipt of the transparency log, what
-- is written to the journal and to the document, and how the journal's form is read.
use unidpp_archive.Prelude.{ℕ, Bool, not, ◌&&◌, Option, none, some, [], ◌∷◌, ◌++◌, if◌then◌else◌}
use unidpp_archive.Result.{
  Result, ok, err, ◌>>=◌, ok_or, map_err, to_option, and_then, keep_if, is_some,
}
use unidpp_archive.Text.{Str, text, eq_str, is_empty}
use unidpp_archive.Text.Decimal.{to_string, parse_u64}
use unidpp_archive.Time
use unidpp_archive.Time.{Timestamp, show_time_parse_error}
use unidpp_archive.Json.{
  Value, null, num, str, obj, Fields, object, get_field, as_object, as_str, as_u64, optional,
}
use unidpp_archive.External.{External}

pub data AnchoringStatus : Type 0 where
  -- The variants `Anchored` and `Unanchored`.
  is_anchored is_unanchored : AnchoringStatus

unfoldable pub status_text : AnchoringStatus → Str
status_text is_anchored = text "anchored"
status_text is_unanchored = text "unanchored"

pub record AnchorSummary (Hash : Type 0) : Type 0 where
  pub log_id : Str
  pub receipt_seq : ℕ
  pub tree_size : ℕ
  pub root : Hash
  pub logged_at : Timestamp

pub record Anchoring (Hash : Type 0) : Type 0 where
  pub status : AnchoringStatus
  pub reason : Option Str
  pub log_id : Option Str
  pub receipt_seq : Option ℕ
  pub tree_size : Option ℕ
  pub root : Option Hash
  pub logged_at : Option Timestamp
  pub commitment : Option Hash
  pub receipt : Option Value

unfoldable pub anchored : {Hash : Type 0} → AnchorSummary Hash → Value → Hash → Anchoring Hash
anchored summary receipt commitment = record {
  status = is_anchored;
  reason = none;
  log_id = some summary.log_id;
  receipt_seq = some summary.receipt_seq;
  tree_size = some summary.tree_size;
  root = some summary.root;
  logged_at = some summary.logged_at;
  commitment = some commitment;
  receipt = some receipt;
}

unfoldable pub unanchored : {Hash : Type 0} → Str → Anchoring Hash
unanchored reason = record {
  status = is_unanchored;
  reason = some reason;
  log_id = none;
  receipt_seq = none;
  tree_size = none;
  root = none;
  logged_at = none;
  commitment = none;
  receipt = none;
}

unfoldable pub unanchored_default : {Hash : Type 0} → Anchoring Hash
unanchored_default = record {
  status = is_unanchored;
  reason = none;
  log_id = none;
  receipt_seq = none;
  tree_size = none;
  root = none;
  logged_at = none;
  commitment = none;
  receipt = none;
}

-- The reading of one optional field: nothing, or what the reader makes of a value that is there.
abbrev pub read_optional :
    {A : Type 0} → (Value → Result Str A) → Option Value → Result Str (Option A)
read_optional read none = ok none
read_optional read (some null) = ok none
read_optional read (some v) = do a ← read v; ok (some a)

-- The closures `opt_str`, `opt_u64`, `opt_hash` and `opt_time` of `from_json`.
unfoldable pub anchoring_str : Str → Value → Result Str Str
anchoring_str k (str s) = ok s
anchoring_str k _ = err (text "`anchoring." ++ k ++ text "` must be a string or null")

unfoldable pub anchoring_u64 : Str → Value → Result Str ℕ
anchoring_u64 k (num n) = ok n
anchoring_u64 k (Value.other_num s) =
    err (text "`anchoring." ++ k ++ text "` must be an unsigned integer")
anchoring_u64 k _ = err (text "`anchoring." ++ k ++ text "` must be an unsigned integer or null")

unfoldable pub anchoring_time : Str → Value → Result Str Timestamp
anchoring_time k (str s) =
    map_err (λ e. text "`anchoring." ++ k ++ text "`: " ++ show_time_parse_error e) (Time.parse s)
anchoring_time k _ = err (text "`anchoring." ++ k ++ text "` must be an RFC 3339 string or null")

unfoldable pub anchoring_receipt : Value → Result Str Value
anchoring_receipt (obj fs) = ok (obj fs)
anchoring_receipt _ = err (text "`anchoring.receipt` must be an object or null")

unfoldable pub anchoring_receipt_id : Value → Result Str ℕ
anchoring_receipt_id (str s) =
    ok_or (parse_u64 s) (text "`anchoring.receipt_id` must be a numeric string")
anchoring_receipt_id _ = err (text "`anchoring.receipt_id` must be a numeric string or null")

unfoldable pub read_status : Option Str → Result Str AnchoringStatus
unfolding text eq_str
read_status none = err (text "`anchoring.status` must be `anchored`/`unanchored`")
read_status (some s) =
    if eq_str s (text "anchored")
    then ok is_anchored
    else if eq_str s (text "unanchored")
    then ok is_unanchored
    else err (text "`anchoring.status` must be `anchored`/`unanchored`")

-- An anchored outcome has every field; an unanchored one may lack any.
unfoldable pub is_complete : {Hash : Type 0} → Anchoring Hash → Bool
is_complete a =
    is_some a.log_id
    && is_some a.receipt_seq
    && is_some a.tree_size
    && is_some a.root
    && is_some a.logged_at
    && is_some a.commitment
    && is_some a.receipt

abbrev incomplete : Str
incomplete =
    text
      "an `anchored` record must carry log_id, receipt_id, tree_size, root, logged_at, commitment and the receipt"

unfoldable pub check_complete :
    {Hash : Type 0} → Anchoring Hash → AnchoringStatus → Result Str (Anchoring Hash)
check_complete a is_anchored = if not (is_complete a) then err incomplete else ok a
check_complete a is_unanchored = ok a

module _ (x : External) where
  open x use {Hash, hex, from_hex}

  unfoldable pub anchoring_hash : Str → Value → Result Str Hash
  anchoring_hash k (str s) =
      ok_or (from_hex s) (text "`anchoring." ++ k ++ text "` must be 64-char hex")
  anchoring_hash k _ = err (text "`anchoring." ++ k ++ text "` must be a hex string or null")

  -- `seq`, or else the number in `receipt_id`.
  unfoldable pub receipt_seq_of : Fields → Result Str ℕ
  receipt_seq_of fields = elim (and_then (get_field (text "seq") fields) as_u64) [
    | some n ↦ ok n
    | none ↦
        ok_or (and_then (and_then (get_field (text "receipt_id") fields) as_str) parse_u64)
          (text "receipt missing `seq`/`receipt_id`")
  ]

  unfoldable pub anchor_summary_from_receipt : Value → Result Str (AnchorSummary Hash)
  unfolding receipt_seq_of
  anchor_summary_from_receipt v = do
    fields ← ok_or (as_object v) (text "receipt must be an object")
    log_id ←
        ok_or (keep_if (and_then (get_field (text "log_id") fields) as_str) (λ s. not (is_empty s)))
          (text "receipt missing `log_id`")
    receipt_seq ← receipt_seq_of fields
    head_value ← ok_or (get_field (text "tree_head") fields) (text "receipt missing `tree_head`")
    head ← ok_or (as_object head_value) (text "`tree_head` must be an object")
    tree_size ←
        ok_or (and_then (get_field (text "tree_size") head) as_u64)
          (text "receipt missing `tree_head.tree_size`")
    root ←
        ok_or (and_then (and_then (get_field (text "root") head) as_str) from_hex)
          (text "receipt missing/invalid `tree_head.root`")
    logged_at ←
        ok_or
          (and_then (and_then (get_field (text "logged_at") fields) as_str)
            (λ s. to_option (Time.parse s)))
          (text "receipt missing/invalid `logged_at`")
    ok (record {
      log_id = log_id;
      receipt_seq = receipt_seq;
      tree_size = tree_size;
      root = root;
      logged_at = logged_at;
    })

  unfoldable pub anchoring_to_journal_json : Anchoring Hash → Value
  anchoring_to_journal_json a = object (
      (text "status", str (status_text a.status))
      ∷ (text "reason", optional str a.reason)
      ∷ (text "log_id", optional str a.log_id)
      ∷ (text "receipt_id", optional (λ s. str (to_string s)) a.receipt_seq)
      ∷ (text "tree_size", optional num a.tree_size)
      ∷ (text "root", optional (λ h. str (hex h)) a.root)
      ∷ (text "logged_at", optional (λ t. str (Time.to_string t)) a.logged_at)
      ∷ (text "commitment", optional (λ h. str (hex h)) a.commitment)
      ∷ (text "receipt", optional (λ v. v) a.receipt)
      ∷ [])

  unfoldable pub anchoring_to_document_json : Anchoring Hash → Value
  anchoring_to_document_json a = object (
      (text "status", str (status_text a.status))
      ∷ (text "reason", optional str a.reason)
      ∷ (text "log_id", optional str a.log_id)
      ∷ (text "receipt_id", optional (λ s. str (to_string s)) a.receipt_seq)
      ∷ (text "tree_size", optional num a.tree_size)
      ∷ (text "root", optional (λ h. str (hex h)) a.root)
      ∷ (text "logged_at", optional (λ t. str (Time.to_string t)) a.logged_at)
      ∷ [])

  unfoldable pub anchoring_from_json : Value → Result Str (Anchoring Hash)
  anchoring_from_json v = do
    fields ← ok_or (as_object v) (text "`anchoring` must be an object")
    status ← read_status (and_then (get_field (text "status") fields) as_str)
    receipt ← read_optional anchoring_receipt (get_field (text "receipt") fields)
    receipt_seq ← read_optional anchoring_receipt_id (get_field (text "receipt_id") fields)
    reason ← read_optional (anchoring_str (text "reason")) (get_field (text "reason") fields)
    log_id ← read_optional (anchoring_str (text "log_id")) (get_field (text "log_id") fields)
    tree_size ←
        read_optional (anchoring_u64 (text "tree_size")) (get_field (text "tree_size") fields)
    root ← read_optional (anchoring_hash (text "root")) (get_field (text "root") fields)
    logged_at ←
        read_optional (anchoring_time (text "logged_at")) (get_field (text "logged_at") fields)
    commitment ←
        read_optional (anchoring_hash (text "commitment")) (get_field (text "commitment") fields)
    check_complete
        (record {
          status = status;
          reason = reason;
          log_id = log_id;
          receipt_seq = receipt_seq;
          tree_size = tree_size;
          root = root;
          logged_at = logged_at;
          commitment = commitment;
          receipt = receipt;
        })
        status
