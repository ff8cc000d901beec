-- ===== src/Model/Rebuild.antt =====
-- The verifier's side of src/model.rs: the canonical statement from a served document alone.
pub mod Agrees
use unidpp_archive.Prelude.{
  ℕ, ◌++◌, Option, none, some, List, [], ◌∷◌, Bool, true, false, not, if◌then◌else◌,
}
use unidpp_archive.Result.{Result, ok, err, ◌>>=◌, ◌>>◌, ok_or, map_err, fail_if, and_then}
use unidpp_archive.Text.{Str, text, eq_str}
use unidpp_archive.Text.Decimal.{parse_u64}
use unidpp_archive.Time
use unidpp_archive.Time.{show_time_parse_error}
use unidpp_archive.Json.{Value, get, as_str, as_u64}
use unidpp_archive.External.{External}
use unidpp_archive.Model.Anchoring.{Anchoring, is_anchored, unanchored_default}
use unidpp_archive.Model.Record.{service_id, canonical_core, canonical_statement}

-- `path.join(".")`
unfoldable pub join_path : List Str → Str
join_path [] = []
join_path (k ∷ []) = k
join_path (k ∷ j ∷ path) = k ++ b'.' ∷ join_path (j ∷ path)

-- The loop of `doc_field`; the error names the whole path.
unfoldable pub walk_path : Str → Value → List Str → Result Str Value
walk_path whole v [] = ok v
walk_path whole v (k ∷ path) = elim (get v k) [
  | some w ↦ walk_path whole w path
  | none ↦ err (text "document missing `" ++ whole ++ text "`")
]

unfoldable pub doc_field : Value → List Str → Result Str Value
unfolding join_path walk_path
doc_field doc path = walk_path (join_path path) doc path

-- The closure `ip`.
unfoldable pub package_str : Value → Str → Result Str Str
package_str doc k = do
  v ← doc_field doc (text "oais" ∷ text "information_package" ∷ k ∷ [])
  ok_or (as_str v) (text "`oais.information_package." ++ k ++ text "` must be a string")

unfoldable pub is_service : Option Str → Bool
is_service none = false
is_service (some s) = eq_str s service_id

module _ (x : External) where
  open x use {Hash, from_hex}

  unfoldable pub core_bytes_from_document : Value → Result Str (List ℕ)
  core_bytes_from_document doc = do
    service ← doc_field doc (text "service" ∷ [])
    fail_if (not (is_service (as_str service)))
        (text "document `service` must be `" ++ service_id ++ text "`")
    id_value ← doc_field doc (text "snapshot_id" ∷ [])
    snapshot_id ← ok_or (as_str id_value) (text "`snapshot_id` must be a string")
    seq_value ← doc_field doc (text "seq" ∷ [])
    seq ← ok_or (as_u64 seq_value) (text "`seq` must be an unsigned integer")
    state_text ← package_str doc (text "state_hash")
    state_hash ←
        ok_or (from_hex state_text)
          (text "`oais.information_package.state_hash` must be 64-char hex")
    head_text ← package_str doc (text "log_head")
    log_head ←
        ok_or (from_hex head_text) (text "`oais.information_package.log_head` must be 64-char hex")
    as_of_text ← package_str doc (text "as_of")
    as_of ← map_err (λ e. text "`as_of`: " ++ show_time_parse_error e) (Time.parse as_of_text)
    passport_id ← package_str doc (text "passport_id")
    ok (canonical_core x snapshot_id seq passport_id state_hash log_head as_of)

  -- The anchored outcome as far as the statement commits to it.
  unfoldable pub outcome_from_document : Value → Result Str (Anchoring Hash)
  outcome_from_document anchoring = do
    log_id ←
        ok_or (and_then (get anchoring (text "log_id")) as_str) (text "`anchoring.log_id` missing")
    receipt_seq ←
        ok_or (and_then (and_then (get anchoring (text "receipt_id")) as_str) parse_u64)
          (text "`anchoring.receipt_id` must be a numeric string")
    tree_size ←
        ok_or (and_then (get anchoring (text "tree_size")) as_u64)
          (text "`anchoring.tree_size` missing")
    root ←
        ok_or (and_then (and_then (get anchoring (text "root")) as_str) from_hex)
          (text "`anchoring.root` must be 64-char hex")
    ok (record {
      status = is_anchored;
      reason = none;
      log_id = some log_id;
      receipt_seq = some receipt_seq;
      tree_size = some tree_size;
      root = some root;
      logged_at = none;
      commitment = none;
      receipt = none;
    })

  -- The `match` on the status.
  unfoldable pub statement_for : List ℕ → Value → Str → Result Str (List ℕ)
  unfolding outcome_from_document
  statement_for core anchoring status =
      if eq_str status (text "unanchored")
      then ok (canonical_statement x core unanchored_default)
      else if eq_str status (text "anchored")
      then (do a ← outcome_from_document anchoring; ok (canonical_statement x core a))
      else err
          (text "`anchoring.status` must be `anchored`/`unanchored`, got `" ++ status ++ text "`")

  unfoldable pub statement_bytes_from_document : Value → Result Str (List ℕ)
  unfolding statement_for
  statement_bytes_from_document doc = do
    core ← core_bytes_from_document doc
    anchoring ← doc_field doc (text "oais" ∷ text "provenance" ∷ text "anchoring" ∷ [])
    status ←
        ok_or (and_then (get anchoring (text "status")) as_str)
          (text "`oais.provenance.anchoring.status` missing")
    statement_for core anchoring status
