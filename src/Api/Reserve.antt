-- ===== src/Api/Reserve.antt =====
-- Accesses with `get_snapshot` of src/api.rs after an ingest and further ingests.
use unidpp_archive.Prelude.{
  ℕ, suc, ◌+◌, ◌<◌, ◌^◌, ◌≡◌, refl, sym, ap, ◌∙◌, false, Option, none, some, List, [], ◌∷◌, ◌++◌,
  if◌then◌else◌, length, append-nil, append_assoc, arith, subst, All, Bool-cases, inl, inr,
}
use unidpp_archive.Result.{Result, ok, err}
use unidpp_archive.Text.{Str, text, trim, trim-IsGraphic, IsGraphic, eq_str, eq_str_refl, eq_str→eq}
use unidpp_archive.Text.Decimal.{pad_zero, pad_zero-IsDigit, IsDigit}
use unidpp_archive.Time.{Timestamp}
use unidpp_archive.Json.{Value}
use unidpp_archive.External.{External, Documented}
use unidpp_archive.Model.Record.{SnapshotRecord, snapshot_id_of}
use unidpp_archive.Store.Files.{Disk, Io}
use unidpp_archive.Store.Opening.{SnapshotStore}
use unidpp_archive.Store.Index.{find_record, get_snapshot}
use unidpp_archive.Store.Invariant.{IsIndexedAt, IsIndexed}
use unidpp_archive.Store.Reads.{snapshot_id_of_injective}
use unidpp_archive.Api.Requests.{Refusal}
use unidpp_archive.Api.Responses.{Response, build_response}
use unidpp_archive.Api.Handlers.{
  created_response, served_response, found_response, get_snapshot_handler,
}
use unidpp_archive.Api.Ingest.{create_snapshot}
use unidpp_archive.Api.Outcome.{IsOutcome, create_snapshot-IsOutcome}

digits-IsGraphic : (s : Str) → All IsDigit s → All IsGraphic s
digits-IsGraphic [] h = tt
digits-IsGraphic (b ∷ s) h = ((omega (arith, h.0.0), omega (arith, h.0.1)), digits-IsGraphic s h.1)

-- An id has nothing to trim.
trim-snapshot_id_of : (n : ℕ) → trim (snapshot_id_of n) ≡ snapshot_id_of n
unfolding snapshot_id_of text
trim-snapshot_id_of n = trim-IsGraphic (snapshot_id_of n) (
  (omega arith, omega arith),
  ((omega arith, omega arith), digits-IsGraphic (pad_zero 12 n) (pad_zero-IsDigit 12 n)),
)

-- The first header of that name.
abbrev pub lookup_header : Str → List (Str × Str) → Option Str
lookup_header name [] = none
lookup_header name ((k, v) ∷ more) = if eq_str k name then some v else lookup_header name more

module _ (x : External) (documented : Documented x) where
  open x use {Hash, KeyPair}

  -- Every record has the id of its sequence number.
  abbrev pub IsNamed : List (SnapshotRecord Hash) → Type 0
  IsNamed records = All (λ r. r.snapshot_id ≡ snapshot_id_of r.seq) records

  -- The stores that further requests for ingest lead to, whatever they ask and however they end.
  pub data Later : SnapshotStore Hash → SnapshotStore Hash → Type 0 where
    at_once : (s : SnapshotStore Hash) → Later s s
    further :
        (s s' s'' : SnapshotStore Hash) (io : Io) (notary : KeyPair)
        (log : Str → Hash → Result Str Value) (at : Timestamp) (token authorization : Option Str)
        (body : Str) (d d' : Disk) (answer : Result Refusal (SnapshotRecord Hash))
        → Later s s'
        → create_snapshot x io notary log at token authorization body s' d ≡ (answer, s'', d')
        → Later s s''

  Outcome-grows :
      (notary : KeyPair) (s s' : SnapshotStore Hash) (answer : Result Refusal (SnapshotRecord Hash))
      (d : Disk)
      → IsOutcome x documented notary s (answer, s', d)
      → (more : List (SnapshotRecord Hash)) × (s'.records ≡ s.records ++ more)
  Outcome-grows notary s s' (ok r) d h = (r ∷ [], h.0)
  Outcome-grows notary s s' (err f) d h =
      ([], ap (λ (t : SnapshotStore Hash). t.records) h ∙ sym (append-nil s.records))

  Later-grows :
      (s s' : SnapshotStore Hash)
      → Later s s'
      → (more : List (SnapshotRecord Hash)) × (s'.records ≡ s.records ++ more)
  Later-grows s s' (at_once _) = ([], sym (append-nil s.records))
  Later-grows s s'
        (further _ before _ io notary log at token authorization body d d' answer earlier e) =
      let (more, grown) = Later-grows s before earlier in
      let outcome : IsOutcome x documented notary before (answer, s', d') =
        subst (IsOutcome x documented notary before) e (
          create_snapshot-IsOutcome x documented io notary log at token authorization body before
            d) in
      let (more', grown') = Outcome-grows notary before s' answer d' outcome in
      (more ++ more', grown' ∙ ap (λ rs. rs ++ more') grown ∙ append_assoc s.records more more')

  find_record-append :
      (id : Str) (records more : List (SnapshotRecord Hash)) (r : SnapshotRecord Hash)
      → find_record x id records ≡ some r
      → find_record x id (records ++ more) ≡ some r
  unfolding find_record
  find_record-append id [] more r h = cc
  find_record-append id (q ∷ records) more r h = elim (Bool-cases (eq_str q.snapshot_id id)) [
    | inl same ↦ rw same (sym (rw same refl) ∙ h)
    | inr other ↦ rw other (find_record-append id records more r (sym (rw other refl) ∙ h))
  ]

  -- No record of an earlier position has the id.
  find_record-last :
      (records : List (SnapshotRecord Hash)) (start : ℕ) (r : SnapshotRecord Hash)
      → IsIndexed x start records
      → IsNamed records
      → IsIndexedAt x (start + length records) r
      → r.snapshot_id ≡ snapshot_id_of r.seq
      → start + length records < 2 ^ 64
      → find_record x r.snapshot_id (records ++ r ∷ []) ≡ some r
  unfolding find_record
  find_record-last [] start r h named at id small = rw (eq_str_refl r.snapshot_id)
  find_record-last (q ∷ records) start r h named at id small =
      let other : eq_str q.snapshot_id r.snapshot_id ≡ false =
        elim (Bool-cases (eq_str q.snapshot_id r.snapshot_id)) [
          | inr e ↦ e
          | inl e ↦
              let ids : snapshot_id_of q.seq ≡ snapshot_id_of r.seq =
                sym named.0 ∙ eq_str→eq q.snapshot_id r.snapshot_id e ∙ id in
              let same : q.seq ≡ r.seq =
                snapshot_id_of_injective q.seq r.seq (omega (arith, h.0.position, small))
                  (omega (arith, at.position, small)) ids in
              absurd (omega (arith, same, h.0.position, at.position))
        ] in
      rw other (
        find_record-last records (suc start) r h.1 named.1
          (subst (λ k. IsIndexedAt x k r) (omega arith) at) id (omega (arith, small)))

  handler-found :
      (now : Timestamp) (s : SnapshotStore Hash) (r : SnapshotRecord Hash)
      → trim r.snapshot_id ≡ r.snapshot_id
      → find_record x r.snapshot_id s.records ≡ some r
      → get_snapshot_handler x now s r.snapshot_id ≡ served_response x r
  unfolding get_snapshot_handler get_snapshot found_response
  handler-found now s r trimmed found =
      ap (λ id. found_response x now id (find_record x id s.records)) trimmed
      ∙ ap (found_response x now r.snapshot_id) found

  served_status : (r : SnapshotRecord Hash) → (served_response x r).status ≡ 200
  unfolding served_response build_response
  served_status r = refl

  same_body : (r : SnapshotRecord Hash) → (served_response x r).body ≡ (created_response x r).body
  unfolding served_response created_response build_response
  same_body r = refl

  same_etag :
      (r : SnapshotRecord Hash)
      → lookup_header (text "etag") (served_response x r).headers
        ≡ lookup_header (text "etag") (created_response x r).headers
  unfolding served_response created_response build_response text eq_str
  same_etag r = refl

  -- After the ingest of a snapshot and any further ingests, an access by its id, at any instant,
  -- answers the very body of the ingest's response.
  pub get_snapshot_handler-created :
      (io : Io) (notary : KeyPair) (log : Str → Hash → Result Str Value) (at now : Timestamp)
      (token authorization : Option Str) (body : Str) (s s' s'' : SnapshotStore Hash) (d d' : Disk)
      (r : SnapshotRecord Hash)
      → IsIndexed x 0 s.records
      → IsNamed s.records
      → length s.records < 2 ^ 64
      → create_snapshot x io notary log at token authorization body s d ≡ (ok r, s', d')
      → Later s' s''
      → ((get_snapshot_handler x now s'' r.snapshot_id).status ≡ 200)
        × ((get_snapshot_handler x now s'' r.snapshot_id).body ≡ (created_response x r).body)
        × (lookup_header (text "etag") (get_snapshot_handler x now s'' r.snapshot_id).headers
            ≡ lookup_header (text "etag") (created_response x r).headers)
  get_snapshot_handler-created io notary log at now token authorization body s s' s'' d d' r h named
        small e later =
      let outcome : IsOutcome x documented notary s (ok r, s', d') =
        subst (IsOutcome x documented notary s) e
          (create_snapshot-IsOutcome x documented io notary log at token authorization body s d) in
      let (more, grown) = Later-grows s' s'' later in
      let found : find_record x r.snapshot_id s''.records ≡ some r =
        rw (grown, outcome.0)
          (find_record-append r.snapshot_id (s.records ++ r ∷ []) more r (
            find_record-last s.records 0 r h named
              (subst (λ k. IsIndexedAt x k r) (omega arith) outcome.1) outcome.2
              (omega (arith, small)))) in
      let trimmed : trim r.snapshot_id ≡ r.snapshot_id = rw outcome.2 (trim-snapshot_id_of r.seq) in
      let served : get_snapshot_handler x now s'' r.snapshot_id ≡ served_response x r =
        handler-found now s'' r trimmed found in
      (
        ap (λ (p : Response). p.status) served ∙ served_status r,
        ap (λ (p : Response). p.body) served ∙ same_body r,
        ap (λ (p : Response). lookup_header (text "etag") p.headers) served ∙ same_etag r,
      )
