-- ===== src/Api/Router.antt =====
-- The router of src/api.rs: the handler that each call reaches. Axum matches the method and the path of
-- a request, and decodes its parameters; a call here is a request after that.
use unidpp_archive.Prelude.{Option, List, [], ◌∷◌}
use unidpp_archive.Result.{Result}
use unidpp_archive.Text.{Str, text}
use unidpp_archive.Time.{Timestamp}
use unidpp_archive.Json.{Value}
use unidpp_archive.External.{External}
use unidpp_archive.Model.Record.{SnapshotRecord}
use unidpp_archive.Store.Files.{Disk, Io}
use unidpp_archive.Store.Opening.{SnapshotStore}
use unidpp_archive.LogAnchor.{is_enabled}
use unidpp_archive.Keyring.{Keyring}
use unidpp_archive.Api.Requests.{Refusal, Params, current}
use unidpp_archive.Api.Responses.{Response, build_response}
use unidpp_archive.Api.Config.{Config}
use unidpp_archive.Api.Discovery
use unidpp_archive.Api.Handlers
use unidpp_archive.Api.Ingest

-- The routes, with what their handlers take from a request: the `authorization` header, the body, the
-- id in the path, the query.
pub data Call : Type 0 where
  discovery : Call
  healthz : Call
  keyring : Call
  list_snapshots : Params → Call
  create_snapshot : Option Str → Str → Call
  get_snapshot : Str → Call
  admin_log : Option Str → Params → Call
  openapi_yaml : Call

-- What the source takes from the build: the version, the build id, and the contract document.
pub record Build : Type 0 where
  pub version : Str
  pub build_id : Option Str
  pub contract_yaml : Str

-- `openapi_yaml`
unfoldable pub contract_response : Str → Response
contract_response contract =
    build_response 200 ((text "content-type", text "application/yaml") ∷ []) contract current

module _ (x : External) where
  open x use {Hash, KeyPair}

  -- What stays the same while the service runs.
  pub record Service (Addr : Type 0) : Type 0 where
    pub config : Config Addr
    pub keyring : Keyring KeyPair
    pub build : Build

  -- What a call meets outside: the clock, the answers of the log and of the operating system.
  pub record Moment : Type 0 where
    pub now : Timestamp
    pub log : Str → Hash → Result Str Value
    pub io : Io

  abbrev created :
      Timestamp
      → Result Refusal (SnapshotRecord Hash) × SnapshotStore Hash × Disk
      → Response × SnapshotStore Hash × Disk
  created now (answer, s, d) = (Handlers.create_response x now answer, s, d)

  -- One call: the response, the store and the files.
  unfoldable pub serve :
      {Addr : Type 0}
      → Service Addr
      → Moment
      → Call
      → SnapshotStore Hash
      → Disk
      → Response × SnapshotStore Hash × Disk
  serve app m discovery s d = (
    Discovery.discovery x m.now app.build.version app.build.build_id (is_enabled app.config.log),
    s,
    d,
  )
  serve app m healthz s d = (Handlers.healthz x m.now (is_enabled app.config.log) s, s, d)
  serve app m keyring s d = (Handlers.keyring x m.now app.keyring, s, d)
  serve app m (list_snapshots params) s d = (Handlers.list_snapshots x m.now s params, s, d)
  serve app m (create_snapshot authorization body) s d = created m.now (
      Ingest.create_snapshot x m.io app.keyring.notary_key m.log m.now app.config.admin_token
        authorization body s d)
  serve app m (get_snapshot id) s d = (Handlers.get_snapshot_handler x m.now s id, s, d)
  serve app m (admin_log authorization params) s d =
      (Handlers.admin_log x m.now app.config.admin_token authorization s params, s, d)
  serve app m openapi_yaml s d = (contract_response app.build.contract_yaml, s, d)

  -- Calls one after the other: the store and the files in the end.
  unfoldable pub serve_all :
      {Addr : Type 0}
      → Service Addr
      → List (Moment × Call)
      → SnapshotStore Hash
      → Disk
      → SnapshotStore Hash × Disk
  unfolding serve
  serve_all app [] s d = (s, d)
  serve_all app ((m, call) ∷ calls) s d =
      let (response, s', d') = serve app m call s d in serve_all app calls s' d'
