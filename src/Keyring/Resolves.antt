-- ===== src/Keyring/Resolves.antt =====
-- Which key the keyring of src/keyring.rs holds.
use unidpp_archive.Prelude.{
  ℕ, ◌≤◌, ◌≡◌, refl, sym, ap, ◌∙◌, Bool, true, false, Option, none, some, List, [], ◌∷◌, ◌++◌,
  length, arith, ltb, subst, if◌then◌else◌,
}
use unidpp_archive.Result.{
  Result, ok, err, ◌>>=◌, map_err, fail_if, >>=-eq-ok, >>-eq-ok, ok_injective, map_err-ok,
  fail_if-ok,
}
use unidpp_archive.Text.{Str, text, trim, is_empty}
use unidpp_archive.Hex.{hex_decode}
use unidpp_archive.External.{External}
use unidpp_archive.Keyring.{
  seeded_dev, env_key, Keyring, min_seed_bytes, dev_seed_of, dev, from_env_seed, kept_or_dev,
  from_env_map,
}

module _ (x : External) where
  open x use {KeyPair, seeded}

  -- A keyring of the operator's seed: at least sixteen bytes in hexadecimal, and no development seed.
  pub record IsOperated (seed : Str) (k : Keyring KeyPair) : Type 0 where
    pub bytes : List ℕ
    pub decoded : hex_decode (trim seed) ≡ ok bytes
    pub long_enough : min_seed_bytes ≤ length bytes
    pub derived : seeded bytes ≡ ok k.notary_key
    pub mode_is : k.mode ≡ env_key
    pub dev_seed_is : k.dev_seed ≡ none

  -- A keyring of a development seed, which it shows.
  pub record IsDevelopment (dev_seed : Option Str) (k : Keyring KeyPair) : Type 0 where
    pub derived : seeded (text "unidpp-archive/notary|" ++ dev_seed_of dev_seed) ≡ ok k.notary_key
    pub mode_is : k.mode ≡ seeded_dev
    pub dev_seed_is : k.dev_seed ≡ some (dev_seed_of dev_seed)

  from_env_seed-IsOperated :
      (seed : Str) (k : Keyring KeyPair) → from_env_seed x seed ≡ ok k → IsOperated seed k
  unfolding from_env_seed
  from_env_seed-IsOperated seed k h =
      let (bytes, decoded, rest) = >>=-eq-ok (map_err _ (hex_decode (trim seed))) _ h in
      let (long, rest') = >>-eq-ok (fail_if (ltb (length bytes) min_seed_bytes) _) _ rest in
      let (key, derived, last) = >>=-eq-ok (map_err _ (seeded bytes)) _ rest' in
      let form = ok_injective last in
      let enough = fail_if-ok (ltb (length bytes) min_seed_bytes) _ long in
      record {
        bytes = bytes;
        decoded = map_err-ok _ (hex_decode (trim seed)) decoded;
        long_enough = ground (arith, enough);
        derived =
            map_err-ok _ (seeded bytes) derived
            ∙ ap (λ (q : Keyring KeyPair). ok q.notary_key) form;
        mode_is = sym (ap (λ (q : Keyring KeyPair). q.mode) form);
        dev_seed_is = sym (ap (λ (q : Keyring KeyPair). q.dev_seed) form);
      }

  dev-IsDevelopment :
      (seed : Option Str) (k : Keyring KeyPair) → dev x seed ≡ ok k → IsDevelopment seed k
  unfolding dev
  dev-IsDevelopment seed k h =
      let (key, derived, last) =
        >>=-eq-ok (seeded (text "unidpp-archive/notary|" ++ dev_seed_of seed)) _ h in
      let form = ok_injective last in
      record {
        derived = derived ∙ ap (λ (q : Keyring KeyPair). ok q.notary_key) form;
        mode_is = sym (ap (λ (q : Keyring KeyPair). q.mode) form);
        dev_seed_is = sym (ap (λ (q : Keyring KeyPair). q.dev_seed) form);
      }

  -- Where the key comes from, and with what warnings.
  pub data Resolved (dev_seed : Option Str) : Option Str → Keyring KeyPair → List Str → Type 0 where
    operated :
        (seed : Str) (k : Keyring KeyPair)
        → is_empty (trim seed) ≡ false
        → IsOperated seed k
        → Resolved dev_seed (some seed) k []
    unset : (k : Keyring KeyPair) → IsDevelopment dev_seed k → Resolved dev_seed none k []
    blank :
        (seed : Str) (k : Keyring KeyPair)
        → is_empty (trim seed) ≡ true
        → IsDevelopment dev_seed k
        → Resolved dev_seed (some seed) k []
    refused :
        (seed : Str) (k : Keyring KeyPair) (e : Str)
        → from_env_seed x seed ≡ err e
        → IsDevelopment dev_seed k
        → Resolved dev_seed (some seed) k (
            (text "UNIDPP_ARCHIVE_SIGN_SEED rejected: "
              ++ e
              ++ text "; falling back to seeded-dev mode")
            ∷ [])

  abbrev warned : List Str → Keyring KeyPair → Result Str (Keyring KeyPair × List Str)
  warned warnings k = ok (k, warnings)

  -- Development keys with the warnings `warnings`.
  dev_with :
      (P : Keyring KeyPair → List Str → Type 0) (dev_seed : Option Str) (warnings : List Str)
      (k : Keyring KeyPair) (out : List Str)
      → ((q : Keyring KeyPair) → IsDevelopment dev_seed q → P q warnings)
      → (dev x dev_seed >>= warned warnings) ≡ ok (k, out)
      → P k out
  dev_with P dev_seed warnings k out holds h =
      let (q, made, last) = >>=-eq-ok (dev x dev_seed) _ h in
      let pair : Path (Keyring KeyPair × List Str) (q, warnings) (k, out) = ok_injective last in
      subst (λ (p : Keyring KeyPair × List Str). P p.0 p.1) pair
        (holds q (dev-IsDevelopment dev_seed q made))

  kept_or_dev-Resolved :
      (dev_seed : Option Str) (seed : Str) (answer : Result Str (Keyring KeyPair))
      (k : Keyring KeyPair) (warnings : List Str)
      → is_empty (trim seed) ≡ false
      → from_env_seed x seed ≡ answer
      → kept_or_dev x dev_seed answer ≡ ok (k, warnings)
      → Resolved dev_seed (some seed) k warnings
  unfolding kept_or_dev
  kept_or_dev-Resolved dev_seed seed (ok q) k warnings given e h =
      let pair : Path (Keyring KeyPair × List Str) (q, []) (k, warnings) = ok_injective h in
      subst (λ (p : Keyring KeyPair × List Str). Resolved dev_seed (some seed) p.0 p.1) pair
        (operated seed q given (from_env_seed-IsOperated seed q e))
  kept_or_dev-Resolved dev_seed seed (err f) k warnings given e h =
      dev_with (Resolved dev_seed (some seed)) dev_seed _ k warnings (λ q. refused seed q f e) h

  blank_or_kept :
      (dev_seed : Option Str) (seed : Str) (b : Bool) (k : Keyring KeyPair) (warnings : List Str)
      → is_empty (trim seed) ≡ b
      → (if b then dev x dev_seed >>= warned [] else kept_or_dev x dev_seed (from_env_seed x seed))
        ≡ ok (k, warnings)
      → Resolved dev_seed (some seed) k warnings
  blank_or_kept dev_seed seed true k warnings e h =
      dev_with (Resolved dev_seed (some seed)) dev_seed [] k warnings (λ q. blank seed q e) h
  blank_or_kept dev_seed seed false k warnings e h =
      kept_or_dev-Resolved dev_seed seed (from_env_seed x seed) k warnings e refl h

  -- A keyring that is resolved holds the key of the operator's seed, of sixteen bytes or more, or the
  -- key of the development seed, which it shows; and a seed that is set, not blank and not used is
  -- named in a warning.
  pub from_env_map-Resolved :
      (dev_seed variable : Option Str) (k : Keyring KeyPair) (warnings : List Str)
      → from_env_map x dev_seed variable ≡ ok (k, warnings)
      → Resolved dev_seed variable k warnings
  unfolding from_env_map
  from_env_map-Resolved dev_seed none k warnings h =
      dev_with (Resolved dev_seed none) dev_seed [] k warnings unset h
  from_env_map-Resolved dev_seed (some seed) k warnings h =
      blank_or_kept dev_seed seed (is_empty (trim seed)) k warnings refl h
