-- ===== src/Model/Seal/Verifies.antt =====
-- The served document of a sealed record of src/model.rs, and a verifier.
use unidpp_archive.Prelude.{
  ℕ, ◌<◌, ◌^◌, ◌≡◌, refl, sym, ap, ◌∙◌, true, Option, some, List, [], ◌∷◌, All,
}
use unidpp_archive.Result.{ok, unwrap_or, ok_injective}
use unidpp_archive.Text.{Str, text}
use unidpp_archive.Hex.{hex_encode, hex_decode}
use unidpp_archive.Hex.RoundTrip.{IsByte, hex_decode-hex_encode}
use unidpp_archive.Time.Display.{InYears}
use unidpp_archive.Json.{str, object, get}
use unidpp_archive.External.{External, Documented}
use unidpp_archive.Model.Record.{SnapshotRecord, statement_bytes}
use unidpp_archive.Model.Document.{to_document}
use unidpp_archive.Model.Rebuild.{doc_field, statement_bytes_from_document}
use unidpp_archive.Model.Rebuild.Agrees.{statement_bytes_from_document-to_document}
use unidpp_archive.Model.Journal.RoundTrip.{OnSome, IsCompleteFor}
use unidpp_archive.Model.Seal.{seal}
use unidpp_archive.Model.Seal.Sound.{seal-IsSealedBy, seal-form, statement_bytes-sealed}

module _ (x : External) (documented : Documented x) where
  open x use {Hash, KeyPair, sign, verify, public, tree_head}

  doc_signature :
      (r : SnapshotRecord Hash)
      → doc_field (to_document x r) (text "oais" ∷ text "provenance" ∷ text "signature" ∷ [])
        ≡ ok (str (hex_encode r.signature))
  unfolding to_document object get doc_field text
  doc_signature r = refl

  -- For a documented external library, what a verifier makes of the served document of a record
  -- that was sealed with a signature: the statement that it rebuilds and the signature that it
  -- decodes verify with the public key of the notary. The record's instant is in the years 0 to
  -- 9999, an anchored outcome has all its fields, its receipt number is below 2 ^ 64, and the
  -- signature is of bytes.
  pub seal-verifies :
      (notary : KeyPair) (r q : SnapshotRecord Hash) (signature : List ℕ)
      → sign notary tree_head (statement_bytes x r) ≡ ok (some signature)
      → seal x notary r ≡ ok q
      → InYears q.notarized_at
      → IsCompleteFor q.anchoring.status q.anchoring
      → OnSome (λ (n : ℕ). n < 2 ^ 64) q.anchoring.receipt_seq
      → All IsByte signature
      → (message : List ℕ) × (digits : Str) × (statement_bytes_from_document x (to_document x q)
          ≡ ok message)
        × (doc_field (to_document x q) (text "oais" ∷ text "provenance" ∷ text "signature" ∷ [])
            ≡ ok (str digits))
        × (hex_decode digits ≡ ok signature)
        × (verify (public notary) tree_head message signature ≡ true)
  seal-verifies notary r q signature signed_as sealed at complete seq_in bytes =
      let h = seal-IsSealedBy x documented notary r q sealed in
      let (s, answered, kept) = h.signature_of in
      let (t, first_answer, form) = seal-form x documented notary r q sealed in
      let same_message : statement_bytes x q ≡ statement_bytes x r =
        sym (ap (statement_bytes x) form) ∙ statement_bytes-sealed x documented notary r t in
      let answer : sign notary tree_head (statement_bytes x q) ≡ ok (some signature) =
        ap (sign notary tree_head) same_message ∙ signed_as in
      let own : q.signature ≡ signature =
        kept
        ∙ ap (λ (o : Option (List ℕ)). unwrap_or o []) (ok_injective (sym answered ∙ answer)) in
      (
        statement_bytes x q,
        hex_encode q.signature,
        statement_bytes_from_document-to_document x documented q at complete seq_in,
        doc_signature q,
        ap (λ b. hex_decode (hex_encode b)) own ∙ hex_decode-hex_encode signature bytes,
        documented.verify-sign notary (statement_bytes x q) signature answer,
      )
