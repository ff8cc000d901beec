-- ===== src/Model/Record.antt =====
-- The snapshot record of src/model.rs and its canonical statement bytes.
use unidpp_archive.Prelude.{ℕ, ◌++◌, Option, List, [], ◌∷◌}
use unidpp_archive.Result.{unwrap_or}
use unidpp_archive.Text.{Str, text}
use unidpp_archive.Text.Decimal.{pad_zero}
use unidpp_archive.Time.{Timestamp}
use unidpp_archive.External.{External}
use unidpp_archive.Model.Anchoring.{
  AnchoringStatus, is_anchored, is_unanchored, Anchoring, unanchored,
}

abbrev pub service_id : Str
service_id = text "unidpp-archive"

pub record SnapshotRecord (Hash : Type 0) : Type 0 where
  pub seq : ℕ
  pub snapshot_id : Str
  pub notarized_at : Timestamp
  pub passport_id : Str
  pub state_hash : Hash
  pub log_head : Hash
  pub submitter : Option Str
  pub state_size : Option ℕ
  pub anchoring : Anchoring Hash
  pub signature : List ℕ
  pub key_id : Str
  pub body_digest : Hash

-- `s-` and the sequence number in at least twelve digits.
unfoldable pub snapshot_id_of : ℕ → Str
snapshot_id_of seq = text "s-" ++ pad_zero 12 seq

module _ (x : External) where
  open x use {
    Hash, zero_hash, sha256, Writer, new_writer, write_str, write_u64, write_u32, write_i64,
    write_hash, write_bytes_raw, into_bytes,
  }

  unfoldable pub canonical_core : Str → ℕ → Str → Hash → Hash → Timestamp → List ℕ
  canonical_core snapshot_id seq passport_id state_hash log_head notarized_at =
      let w₁ = write_str service_id new_writer in
      let w₂ = write_str snapshot_id w₁ in
      let w₃ = write_u64 seq w₂ in
      let w₄ = write_str passport_id w₃ in
      let w₅ = write_hash state_hash w₄ in
      let w₆ = write_hash log_head w₅ in into_bytes (write_i64 notarized_at.secs w₆)

  unfoldable pub write_outcome : AnchoringStatus → Anchoring Hash → Writer → Writer
  write_outcome is_unanchored a w = write_u32 0 w
  write_outcome is_anchored a w =
      let w₁ = write_u32 1 w in
      let w₂ = write_str (unwrap_or a.log_id []) w₁ in
      let w₃ = write_u64 (unwrap_or a.receipt_seq 0) w₂ in
      let w₄ = write_u64 (unwrap_or a.tree_size 0) w₃ in write_hash (unwrap_or a.root zero_hash) w₄

  unfoldable pub canonical_statement : List ℕ → Anchoring Hash → List ℕ
  unfolding write_outcome
  canonical_statement core a =
      into_bytes (write_outcome a.status a (write_bytes_raw core new_writer))

  -- `SnapshotRecord::new`
  unfoldable pub new :
      ℕ → Timestamp → Str → Hash → Hash → Option Str → Option ℕ → SnapshotRecord Hash
  new seq notarized_at passport_id state_hash log_head submitter state_size = record {
    seq = seq;
    snapshot_id = snapshot_id_of seq;
    notarized_at = notarized_at;
    passport_id = passport_id;
    state_hash = state_hash;
    log_head = log_head;
    submitter = submitter;
    state_size = state_size;
    anchoring = unanchored (text "not attempted yet");
    signature = [];
    key_id = [];
    body_digest = zero_hash;
  }

  unfoldable pub set_anchoring : SnapshotRecord Hash → Anchoring Hash → SnapshotRecord Hash
  set_anchoring r a = record r { anchoring = a }

  unfoldable pub core_statement_bytes : SnapshotRecord Hash → List ℕ
  core_statement_bytes r =
      canonical_core r.snapshot_id r.seq r.passport_id r.state_hash r.log_head r.notarized_at

  unfoldable pub statement_bytes : SnapshotRecord Hash → List ℕ
  statement_bytes r = canonical_statement (core_statement_bytes r) r.anchoring

  unfoldable pub commitment : SnapshotRecord Hash → Hash
  commitment r = sha256 (core_statement_bytes r ∷ [])
