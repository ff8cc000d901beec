-- ===== src/LogAnchor/Usable.antt =====
-- When the anchoring hop of src/log_anchor.rs gives a receipt.
use unidpp_archive.Prelude.{ℕ, ◌<◌, ◌≤◌, ◌≡◌, true, some, ◌++◌, arith}
use unidpp_archive.Result.{ok, >>=-eq-ok, require-eq-ok, map_err, map_err-ok}
use unidpp_archive.Text.{Str, text}
use unidpp_archive.Json.{Value}
use unidpp_archive.External.{External}
use unidpp_archive.Http.Chunked.{message}
use unidpp_archive.Http.Response.{HttpResponse, body_string}
use unidpp_archive.Http.Request.{Network, json_request}
use unidpp_archive.LogAnchor.{
  LogAnchorConfig, base_of, unreachable, is_success, receipt_of, commitment_body, anchor,
}

success_range : (status : ℕ) → is_success status ≡ true → (200 ≤ status) × (status < 300)
success_range status h = ground arith

module _ (x : External) (network : Network) where
  -- Anchoring gives a receipt only from a log that is configured, whose response to the posted
  -- commitment has a status from 200 to 299 and a body that is parsed to this receipt.
  pub anchor-ok :
      (config : LogAnchorConfig) (subject : Str) (commitment : x.Hash) (receipt : Value)
      → anchor x network config subject commitment ≡ ok receipt
      → (base : Str) × (r : HttpResponse) × (base_of config ≡ ok base)
        × (json_request network
              (text "POST")
              (base ++ text "/commitments")
              (some (x.display (commitment_body x network subject commitment)))
              config.bearer
            ≡ ok r)
        × (200 ≤ r.status)
        × (r.status < 300)
        × (x.from_str (body_string r) ≡ ok receipt)
  unfolding anchor receipt_of
  anchor-ok config subject commitment receipt h =
      let (base, base_is, rest) = >>=-eq-ok (map_err message (base_of config)) _ h in
      let (r, answer, last) = >>=-eq-ok (map_err unreachable _) _ rest in
      let given = map_err-ok message (receipt_of x network r) last in
      let (good, parsed) = require-eq-ok (is_success r.status) _ _ given in
      let (low, high) = success_range r.status good in
      (
        base,
        r,
        map_err-ok message (base_of config) base_is,
        map_err-ok unreachable _ answer,
        low,
        high,
        map_err-ok _ (x.from_str (body_string r)) parsed,
      )
