-- ===== src/Model/Seal/Sound.antt =====
-- What sealing fixes: the digest of the body that is served, and a signature of the statement that is
-- served.
use unidpp_archive.Prelude.{
  ℕ, ◌≡◌, refl, sym, ap, ◌∙◌, true, Option, some, List, [], ◌∷◌, ◌++◌, subst,
}
use unidpp_archive.Result.{Result, ok, err, ◌>>=◌, map_err, unwrap_or, ok_injective}
use unidpp_archive.Text.{Str, text}
use unidpp_archive.External.{External, Documented}
use unidpp_archive.Model.Anchoring.{Anchoring, AnchoringStatus, is_anchored, is_unanchored}
use unidpp_archive.Model.Record.{
  SnapshotRecord, statement_bytes, core_statement_bytes, canonical_statement, write_outcome,
  commitment,
}
use unidpp_archive.Model.Document.{render_body, to_document}
use unidpp_archive.Model.Seal.{signed, with_digest, seal}

module _ (x : External) (documented : Documented x) where
  open x use {Hash, KeyPair, sign, tree_head, key_id, sha256, eq_hash}

  -- The body does not hold the digest of the body.
  render_body-with_digest :
      (r : SnapshotRecord Hash) → render_body x (with_digest x r) ≡ render_body x r
  unfolding render_body to_document with_digest statement_bytes core_statement_bytes
  render_body-with_digest r = refl

  -- What a signature is made of is a signature of the sealed record's statement.
  pub record IsSealedBy (notary : KeyPair) (q : SnapshotRecord Hash) : Type 0 where
    pub signature_of :
        (s : Option (List ℕ)) × (sign notary tree_head (statement_bytes x q) ≡ ok s)
        × (q.signature ≡ unwrap_or s [])
    pub key_is : q.key_id ≡ key_id notary
    pub commitment_is : q.anchoring.commitment ≡ some (commitment x q)
    pub body_is : eq_hash (sha256 (render_body x q ∷ [])) q.body_digest ≡ true

  -- The statement does not hold the commitment.
  write_outcome-commitment :
      (status : AnchoringStatus) (a : Anchoring Hash) (h : Hash) (w : x.Writer)
      → write_outcome x status (record a { commitment = some h }) w ≡ write_outcome x status a w
  unfolding write_outcome
  write_outcome-commitment is_anchored a h w = refl
  write_outcome-commitment is_unanchored a h w = refl

  pub statement_bytes-sealed :
      (notary : KeyPair) (r : SnapshotRecord Hash) (s : Option (List ℕ))
      → statement_bytes x (with_digest x (signed x notary r s)) ≡ statement_bytes x r
  unfolding statement_bytes core_statement_bytes with_digest signed canonical_statement
  statement_bytes-sealed notary r s =
      ap (λ w. x.into_bytes w)
        (write_outcome-commitment r.anchoring.status r.anchoring (commitment x r)
          (x.write_bytes_raw (core_statement_bytes x r) x.new_writer))

  eq_hash_refl :
      (notary : KeyPair) (r : SnapshotRecord Hash) (s : Option (List ℕ))
      → eq_hash
          (sha256 (render_body x (signed x notary r s) ∷ []))
          (with_digest x (signed x notary r s)).body_digest
        ≡ true
  unfolding with_digest
  eq_hash_refl notary r s =
      let h = sha256 (render_body x (signed x notary r s) ∷ []) in
      (documented.eq_hash_iff h h).1 refl

  sealed_form :
      (notary : KeyPair) (r : SnapshotRecord Hash) (answer : Result Str (Option (List ℕ)))
      (q : SnapshotRecord Hash)
      → (do
        signature ← map_err (λ e. text "notarization sign: " ++ e) answer
        ok (with_digest x (signed x notary r signature)))
        ≡ ok q
      → (s : Option (List ℕ)) × (answer ≡ ok s) × (with_digest x (signed x notary r s) ≡ q)
  sealed_form notary r (err e) q h = cc
  sealed_form notary r (ok s) q h = (s, refl, ok_injective h)

  -- A sealed record is the record with a signature, a key id, a commitment and a digest.
  pub seal-form :
      (notary : KeyPair) (r q : SnapshotRecord Hash)
      → seal x notary r ≡ ok q
      → (s : Option (List ℕ)) × (sign notary tree_head (statement_bytes x r) ≡ ok s)
        × (with_digest x (signed x notary r s) ≡ q)
  unfolding seal
  seal-form notary r q h = sealed_form notary r (sign notary tree_head (statement_bytes x r)) q h

  -- Sealing keeps the sequence number and the id.
  pub seal-keeps :
      (notary : KeyPair) (r q : SnapshotRecord Hash)
      → seal x notary r ≡ ok q
      → (q.seq ≡ r.seq) × (q.snapshot_id ≡ r.snapshot_id)
  unfolding with_digest signed
  seal-keeps notary r q h =
      let (s, answered, form) = seal-form notary r q h in
      (
        sym (ap (λ (p : SnapshotRecord Hash). p.seq) form),
        sym (ap (λ (p : SnapshotRecord Hash). p.snapshot_id) form),
      )

  sealed_answer :
      (notary : KeyPair) (r : SnapshotRecord Hash) (answer : Result Str (Option (List ℕ)))
      (q : SnapshotRecord Hash)
      → sign notary tree_head (statement_bytes x r) ≡ answer
      → (do
        signature ← map_err (λ e. text "notarization sign: " ++ e) answer
        ok (with_digest x (signed x notary r signature)))
        ≡ ok q
      → IsSealedBy notary q
  sealed_answer notary r (err e) q h e' = cc
  sealed_answer notary r (ok s) q h e' = subst (IsSealedBy notary) (ok_injective e') (record {
    signature_of = (
      s,
      ap (sign notary tree_head) (statement_bytes-sealed notary r s) ∙ h,
      unfold with_digest signed in refl,
    );
    key_is = unfold with_digest signed in refl;
    commitment_is = unfold with_digest signed commitment core_statement_bytes in refl;
    body_is =
        ap (λ b. eq_hash (sha256 (b ∷ [])) (with_digest x (signed x notary r s)).body_digest)
          (render_body-with_digest (signed x notary r s))
        ∙ eq_hash_refl notary r s;
  })

  -- A record that was sealed carries the notary's signature of its own statement, the notary's
  -- key id, the commitment of its core, and the digest of the body that is rendered from it.
  pub seal-IsSealedBy :
      (notary : KeyPair) (r q : SnapshotRecord Hash) → seal x notary r ≡ ok q → IsSealedBy notary q
  unfolding seal
  seal-IsSealedBy notary r q h =
      sealed_answer notary r (sign notary tree_head (statement_bytes x r)) q refl h
