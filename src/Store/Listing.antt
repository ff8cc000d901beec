-- ===== src/Store/Listing.antt =====
-- `list` of src/store.rs: which records it gives, and in which order.
use unidpp_archive.Prelude.{
  ◌≡◌, ◌⊎◌, append-nil, refl, true, false, Option, none, some, List, [], ◌∷◌, ◌++◌, Bool-cases, inl,
  inr, arith, subst,
}
use unidpp_archive.Prelude.Int.{◌≤ℤ◌}
use unidpp_archive.Text.{Str, eq_str, eq_str_refl, eq_str→eq}
use unidpp_archive.Time.{Timestamp}
use unidpp_archive.External.{External}
use unidpp_archive.Model.Record.{SnapshotRecord}
use unidpp_archive.Store.Opening.{SnapshotStore}
use unidpp_archive.Store.Index.{is_listed, list_records, list}

-- A passport that is asked for, if there is one.
abbrev pub IsAsked : Option Str → Str → Type 0
IsAsked none q = Unit
IsAsked (some p) q = q ≡ p

-- An instant that is not later than the one that is asked for, if there is one.
abbrev pub IsBy : Option Timestamp → Timestamp → Type 0
IsBy none u = Unit
IsBy (some t) u = u.secs ≤ℤ t.secs

module _ (x : External) where
  open x use {Hash}

  -- What a record has to meet to be listed.
  abbrev pub IsListed : Option Str → Option Timestamp → SnapshotRecord Hash → Type 0
  IsListed passport at r = IsAsked passport r.passport_id × IsBy at r.notarized_at

  -- The listing of records: those that meet it, each once and in the order of the index.
  pub data Listing (passport : Option Str) (at : Option Timestamp)
      : List (SnapshotRecord Hash) → List (SnapshotRecord Hash) → Type 0 where
    no_more : Listing passport at [] []
    shown :
        {r : SnapshotRecord Hash} {records out : List (SnapshotRecord Hash)}
        → IsListed passport at r
        → Listing passport at records out
        → Listing passport at (r ∷ records) (r ∷ out)
    hidden :
        {r : SnapshotRecord Hash} {records out : List (SnapshotRecord Hash)}
        → ¬ IsListed passport at r
        → Listing passport at records out
        → Listing passport at (r ∷ records) out

  is_listed-IsListed :
      (passport : Option Str) (at : Option Timestamp) (r : SnapshotRecord Hash)
      → is_listed x passport at r ≡ true
      → IsListed passport at r
  unfolding is_listed
  is_listed-IsListed none none r h = (tt, tt)
  is_listed-IsListed none (some t) r h = (tt, ground (arith, h))
  is_listed-IsListed (some p) none r h =
      let same : eq_str r.passport_id p ≡ true = ground (arith, h) in
      (eq_str→eq r.passport_id p same, tt)
  is_listed-IsListed (some p) (some t) r h =
      let same : eq_str r.passport_id p ≡ true = ground (arith, h) in
      (eq_str→eq r.passport_id p same, ground (arith, h))

  IsListed-is_listed :
      (passport : Option Str) (at : Option Timestamp) (r : SnapshotRecord Hash)
      → IsListed passport at r
      → is_listed x passport at r ≡ true
  unfolding is_listed
  IsListed-is_listed none none r h = refl
  IsListed-is_listed none (some t) r h = let early = h.1 in ground (arith, early)
  IsListed-is_listed (some p) none r h =
      subst (λ q. is_listed x (some q) none r ≡ true) h.0 (rw (eq_str_refl r.passport_id) refl)
  IsListed-is_listed (some p) (some t) r h =
      let early = h.1 in
      subst (λ q. is_listed x (some q) (some t) r ≡ true) h.0
        (rw (eq_str_refl r.passport_id) (ground (arith, early)))

  not-IsListed :
      (passport : Option Str) (at : Option Timestamp) (r : SnapshotRecord Hash)
      → is_listed x passport at r ≡ false
      → ¬ IsListed passport at r
  not-IsListed passport at r hidden_is h = let listed = IsListed-is_listed passport at r h in cc

  list_records-Listing :
      (passport : Option Str) (at : Option Timestamp) (records : List (SnapshotRecord Hash))
      → Listing passport at records (list_records x passport at records)
  unfolding list_records
  list_records-Listing passport at [] = no_more
  list_records-Listing passport at (r ∷ records) = elim (Bool-cases (is_listed x passport at r)) [
    | inl e ↦
        rw e (shown (is_listed-IsListed passport at r e) (list_records-Listing passport at records))
    | inr e ↦
        rw e (hidden (not-IsListed passport at r e) (list_records-Listing passport at records))
  ]

  -- The listing holds exactly the records of the index that are of the passport that is asked for,
  -- if one is, and not later than the instant that is asked for, if one is: each as often as in
  -- the index, and in its order.
  pub list-Listing :
      (s : SnapshotStore Hash) (passport : Option Str) (at : Option Timestamp)
      → Listing passport at s.records (list x s passport at)
  unfolding list
  list-Listing s passport at = list_records-Listing passport at s.records

  list_records-snoc :
      (passport : Option Str) (at : Option Timestamp) (records : List (SnapshotRecord Hash))
      (r : SnapshotRecord Hash)
      → list_records x passport at (records ++ r ∷ [])
        ≡ list_records x passport at records ++ list_records x passport at (r ∷ [])
  unfolding list_records
  list_records-snoc passport at [] r = refl
  list_records-snoc passport at (q ∷ records) r = elim (Bool-cases (is_listed x passport at q)) [
    | inl e ↦ rw (e, list_records-snoc passport at records r) refl
    | inr e ↦ rw (e, list_records-snoc passport at records r) refl
  ]

  -- When a record is put at the end of the index, either it is of the passport that is asked for, if
  -- one is, and not later than the instant that is asked for, if one is, and it comes to the end of
  -- the listing; or it is not, and the listing stays as it was.
  pub list-append :
      (s : SnapshotStore Hash) (r : SnapshotRecord Hash) (passport : Option Str)
      (at : Option Timestamp)
      → (IsListed passport at r
          × (list x (record s { records = s.records ++ r ∷ [] }) passport at
              ≡ list x s passport at ++ r ∷ []))
        ⊎ (¬ IsListed passport at r
            × (list x (record s { records = s.records ++ r ∷ [] }) passport at
                ≡ list x s passport at))
  unfolding list list_records
  list-append s r passport at = elim (Bool-cases (is_listed x passport at r)) [
    | inl e ↦
        inl (
          is_listed-IsListed passport at r e,
          rw (list_records-snoc passport at s.records r, e) refl,
        )
    | inr e ↦ inr (
      not-IsListed passport at r e,
      rw (list_records-snoc passport at s.records r, e)
          (append-nil (list_records x passport at s.records)),
    )
  ]
