-- ===== src/Model/Seal.antt =====
-- `SnapshotRecord::seal`: notarization.
pub mod Sound
pub mod Verifies
use unidpp_archive.Prelude.{ℕ, List, Option, ◌++◌, none, some, [], ◌∷◌}
use unidpp_archive.Result.{Result, ok, map_err, ◌>>=◌, unwrap_or}
use unidpp_archive.Text.{Str, text}
use unidpp_archive.External.{External}
use unidpp_archive.Model.Record.{SnapshotRecord, statement_bytes, commitment}
use unidpp_archive.Model.Document.{render_body}

module _ (x : External) where
  open x use {Hash, KeyPair, sign, tree_head, key_id, sha256}

  -- The record with its signature and its key id, and the commitment that is recomputed.
  unfoldable pub signed : KeyPair → SnapshotRecord Hash → Option (List ℕ) → SnapshotRecord Hash
  signed notary r signature = record r {
    signature = unwrap_or signature [];
    key_id = key_id notary;
    anchoring = record r.anchoring { commitment = some (commitment x r) };
  }

  unfoldable pub with_digest : SnapshotRecord Hash → SnapshotRecord Hash
  with_digest r = record r { body_digest = sha256 (render_body x r ∷ []) }

  unfoldable pub seal : KeyPair → SnapshotRecord Hash → Result Str (SnapshotRecord Hash)
  seal notary r = do
    signature ←
        map_err (λ e. text "notarization sign: " ++ e) (sign notary tree_head (statement_bytes x r))
    ok (with_digest (signed notary r signature))
