-- ===== src/Api/Forever.antt =====
-- Accesses to the service of src/api.rs after an ingest and other calls.
use unidpp_archive.Prelude.{◌<◌, ◌^◌, ◌≡◌, refl, sym, ap, ◌∙◌, Option, List, [], ◌∷◌, length}
use unidpp_archive.Result.{Result, ok}
use unidpp_archive.Text.{Str, text}
use unidpp_archive.Time.{Timestamp}
use unidpp_archive.External.{External, Documented}
use unidpp_archive.Model.Record.{SnapshotRecord}
use unidpp_archive.Store.Files.{Disk}
use unidpp_archive.Store.Opening.{SnapshotStore}
use unidpp_archive.Store.Invariant.{IsIndexed}
use unidpp_archive.Api.Requests.{Refusal}
use unidpp_archive.Api.Responses.{Response}
use unidpp_archive.Api.Handlers.{create_response, created_response, get_snapshot_handler}
use unidpp_archive.Api.Ingest
use unidpp_archive.Api.Router.{
  Call, discovery, healthz, keyring, list_snapshots, create_snapshot, get_snapshot, admin_log,
  openapi_yaml, Service, Moment, serve, serve_all,
}
use unidpp_archive.Api.Reserve.{
  IsNamed, Later, at_once, further, lookup_header, get_snapshot_handler-created,
}

module _ (x : External) (documented : Documented x) where
  open x use {Hash, KeyPair}

  Later-trans :
      (s s' s'' : SnapshotStore Hash)
      → Later x documented s s'
      → Later x documented s' s''
      → Later x documented s s''
  Later-trans s s' s'' earlier (at_once _) = earlier
  Later-trans s s' s'' earlier
        (further _ before _ io notary log at token authorization body d d' answer later e) =
      further s before s'' io notary log at token authorization body d d' answer
        (Later-trans s s' before earlier later) e

  -- A call is an ingest, or leaves the store.
  serve-Later :
      {Addr : Type 0} (app : Service x Addr) (m : Moment x) (call : Call) (s : SnapshotStore Hash)
      (d : Disk)
      → Later x documented s (serve x app m call s d).1
  unfolding serve
  serve-Later app m discovery s d = at_once s
  serve-Later app m healthz s d = at_once s
  serve-Later app m keyring s d = at_once s
  serve-Later app m (list_snapshots params) s d = at_once s
  serve-Later app m (create_snapshot authorization body) s d =
      let out =
        Ingest.create_snapshot x m.io app.keyring.notary_key m.log m.now app.config.admin_token
          authorization body s d in
      further s s out.1 m.io app.keyring.notary_key m.log m.now app.config.admin_token authorization
        body d out.2 out.0 (at_once s) refl
  serve-Later app m (get_snapshot id) s d = at_once s
  serve-Later app m (admin_log authorization params) s d = at_once s
  serve-Later app m openapi_yaml s d = at_once s

  serve_all-Later :
      {Addr : Type 0} (app : Service x Addr) (calls : List (Moment x × Call))
      (s : SnapshotStore Hash) (d : Disk)
      → Later x documented s (serve_all x app calls s d).0
  unfolding serve_all
  serve_all-Later app [] s d = at_once s
  serve_all-Later app ((m, call) ∷ calls) s d =
      let out = serve x app m call s d in
      Later-trans s out.1 _ (serve-Later app m call s d) (serve_all-Later app calls out.1 out.2)

  -- For a documented external library, after the ingest of a snapshot that was answered with a
  -- record, and any further calls, of any kind and however they end, an access by the snapshot's
  -- id answers 200 with the very body and entity tag of the response to the ingest. Before the
  -- ingest the index holds fewer than 2 ^ 64 records, which stand at their positions and are named
  -- by their sequence numbers.
  pub serve-created :
      {Addr : Type 0} (app : Service x Addr) (m : Moment x) (authorization : Option Str)
      (body : Str) (calls : List (Moment x × Call)) (now : Timestamp) (s s' : SnapshotStore Hash)
      (d d' : Disk) (r : SnapshotRecord Hash)
      → IsIndexed x 0 s.records
      → IsNamed x documented s.records
      → length s.records < 2 ^ 64
      → Ingest.create_snapshot x m.io app.keyring.notary_key m.log m.now app.config.admin_token
          authorization body s d
        ≡ (ok r, s', d')
      → (let served = get_snapshot_handler x now (serve_all x app calls s' d').0 r.snapshot_id in
          let answered = (serve x app m (create_snapshot authorization body) s d).0 in
          (served.status ≡ 200)
          × (served.body ≡ answered.body)
          × (lookup_header (text "etag") served.headers
              ≡ lookup_header (text "etag") answered.headers))
  unfolding serve create_response
  serve-created app m authorization body calls now s s' d d' r h named small e =
      let answered : (serve x app m (create_snapshot authorization body) s d).0
          ≡ created_response x r =
        ap
          (λ (out : Result Refusal (SnapshotRecord Hash) × SnapshotStore Hash × Disk).
            create_response x m.now out.0)
          e in
      let (status, same, tag) =
        get_snapshot_handler-created x documented m.io app.keyring.notary_key m.log m.now now
          app.config.admin_token authorization body s s' (serve_all x app calls s' d').0 d d' r h
          named small e (serve_all-Later app calls s' d') in
      (
        status,
        same ∙ sym (ap (λ (p : Response). p.body) answered),
        tag ∙ sym (ap (λ (p : Response). lookup_header (text "etag") p.headers) answered),
      )
