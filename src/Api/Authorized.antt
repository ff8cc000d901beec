-- ===== src/Api/Authorized.antt =====
-- Calls of the service of src/api.rs without the token of the administrator.
use unidpp_archive.Prelude.{◌≡◌, ◌≢◌, refl, ap, ◌∙◌, Option, none, some, List, [], ◌∷◌, ◌++◌, All}
use unidpp_archive.Result.{Result, err}
use unidpp_archive.Text.{Str, text}
use unidpp_archive.External.{External}
use unidpp_archive.Time.{Timestamp}
use unidpp_archive.Json.{Value}
use unidpp_archive.Model.Record.{SnapshotRecord}
use unidpp_archive.Store.Files.{Disk, Io}
use unidpp_archive.Store.Opening.{SnapshotStore}
use unidpp_archive.Api.Requests.{Refusal, require_admin}
use unidpp_archive.Api.Guard.{require_admin_iff}
use unidpp_archive.Api.Ingest
use unidpp_archive.Api.Router.{
  Call, discovery, healthz, keyring, list_snapshots, create_snapshot, get_snapshot, admin_log,
  openapi_yaml, Service, Moment, serve, serve_all,
}

-- A call that does not bring the token for an ingest.
abbrev pub IsUnauthorized : Str → Call → Type 0
IsUnauthorized token (create_snapshot authorization body) =
    authorization ≢ some (text "Bearer " ++ token)
IsUnauthorized token _ = Unit

some_refusal :
    (token : Str) (authorization : Option Str) (answer : Option Refusal)
    → require_admin (some token) authorization ≡ answer
    → authorization ≢ some (text "Bearer " ++ token)
    → (deny : Refusal) × (answer ≡ some deny)
some_refusal token authorization none e h = absurd (h ((require_admin_iff token authorization).0 e))
some_refusal token authorization (some deny) e h = (deny, refl)

module _ (x : External) where
  open x use {Hash, KeyPair}

  create_refused :
      (io : Io) (notary : KeyPair) (log : Str → Hash → Result Str Value) (now : Timestamp)
      (token authorization : Option Str) (body : Str) (s : SnapshotStore Hash) (d : Disk)
      (deny : Refusal)
      → require_admin token authorization ≡ some deny
      → Ingest.create_snapshot x io notary log now token authorization body s d ≡ (err deny, s, d)
  unfolding Ingest.create_snapshot
  create_refused io notary log now token authorization body s d deny h =
      rw (h, Ingest.create_snapshot) refl

  serve-unauthorized :
      {Addr : Type 0} (app : Service x Addr) (token : Str) (m : Moment x) (call : Call)
      (s : SnapshotStore Hash) (d : Disk)
      → app.config.admin_token ≡ some token
      → IsUnauthorized token call
      → ((serve x app m call s d).1 ≡ s) × ((serve x app m call s d).2 ≡ d)
  unfolding serve
  serve-unauthorized app token m discovery s d e h = (refl, refl)
  serve-unauthorized app token m healthz s d e h = (refl, refl)
  serve-unauthorized app token m keyring s d e h = (refl, refl)
  serve-unauthorized app token m (list_snapshots params) s d e h = (refl, refl)
  serve-unauthorized app token m (create_snapshot authorization body) s d e h =
      let (deny, denied) =
        some_refusal token authorization (require_admin (some token) authorization) refl h in
      let refused : require_admin app.config.admin_token authorization ≡ some deny =
        ap (λ o. require_admin o authorization) e ∙ denied in
      let answer =
        create_refused m.io app.keyring.notary_key m.log m.now app.config.admin_token authorization
          body s d deny refused in
      (
        ap (λ (out : Result Refusal (SnapshotRecord Hash) × SnapshotStore Hash × Disk). out.1)
            answer,
        ap (λ (out : Result Refusal (SnapshotRecord Hash) × SnapshotStore Hash × Disk). out.2)
            answer,
      )
  serve-unauthorized app token m (get_snapshot id) s d e h = (refl, refl)
  serve-unauthorized app token m (admin_log authorization params) s d e h = (refl, refl)
  serve-unauthorized app token m openapi_yaml s d e h = (refl, refl)

  -- When a token is configured, calls of which none is an ingest with that token leave the index
  -- and the files as they are, whatever they are and however many.
  pub serve_all-unauthorized :
      {Addr : Type 0} (app : Service x Addr) (token : Str) (calls : List (Moment x × Call))
      (s : SnapshotStore Hash) (d : Disk)
      → app.config.admin_token ≡ some token
      → All (λ call. IsUnauthorized token call.1) calls
      → serve_all x app calls s d ≡ (s, d)
  unfolding serve_all
  serve_all-unauthorized app token [] s d e h = refl
  serve_all-unauthorized app token ((m, call) ∷ calls) s d e h =
      let (same, kept) = serve-unauthorized app token m call s d e h.0 in
      rw (same, kept) (serve_all-unauthorized app token calls s d e h.1)
