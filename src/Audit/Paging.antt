-- ===== src/Audit/Paging.antt =====
-- `_load_entries_verified` and `read_page`: reads that are refused unless the file verifies. The
-- redaction of details on the way out is not modelled.
use win_os_layer.Common.{
  ℕ, ◌+◌, ◌≤◌, String, ◌≡◌, refl, ap, ◌⊎◌, inl, inr, true, false, not, List, [], ◌∷◌, arith, ◌==◌,
  eq_iff, ltb, if◌then◌else◌, get_or, length, drop, take, length-take, contains,
}
use win_os_layer.Audit.{
  Payload, Entry, Line, blank, bad_json, non_object, object, Reason, AuditLogger, verify_integrity,
}
use Prim.Native.Nat.{min}
use native.Mathlib.Nat.{le_trans}
use win_os_layer.Common.Int.{ℤ, is_negative, pos_part}

pub data AuditError : Type 0 where
  integrity unavailable : Reason → AuditError
  param : String → AuditError

pub data Read {ℓ} (A : Type ℓ) : Type ℓ where
  ok : A → Read A
  raise : AuditError → Read A

abbrev pub objects : List Line → List Entry
objects [] = []
objects (object e ∷ lines) = e ∷ objects lines
objects (blank ∷ lines) = objects lines
objects (bad_json ∷ lines) = objects lines
objects (non_object ∷ lines) = objects lines

pub record Page : Type 0 where
  pub entries : List Entry
  pub limit : ℕ
  pub offset : ℕ
  pub total : ℕ

-- `e.get("execution_id") or e.get("request_id") or ""`
abbrev pub page_id : Entry → String
page_id e = if e.payload.execution_id == "" then e.payload.request_id else e.payload.execution_id

-- The loop of `read_page` over the page, with the ids seen so far.
unfoldable pub dedup : List String → List Entry → List Entry
dedup seen [] = []
dedup seen (e ∷ es) =
    let again = dedup seen es in
    let first = dedup (page_id e ∷ seen) es in
    if page_id e == "" then e ∷ again else if contains (page_id e) seen then again else e ∷ first

abbrev pub page_of : ℕ → ℕ → List Entry → Page
page_of offset limit entries = record {
  entries = dedup [] (take limit (drop offset entries));
  limit = limit;
  offset = offset;
  total = length entries;
}

module _ (compute_hmac : Payload → String) where
  unfoldable pub load_entries_verified : AuditLogger → Read (List Entry)
  load_entries_verified a =
      let report = verify_integrity compute_hmac a in
      if not report.available
      then raise (unavailable report.reason)
      else if not report.passed
      then raise (integrity report.reason)
      else ok (objects (get_or [] a.file))

  unfoldable pub read_page : AuditLogger → ℤ → ℤ → ℕ → Read Page
  read_page a limit offset max_limit =
      if is_negative offset
      then raise (param "offset_negative")
      else if is_negative limit
      then raise (param "limit_negative")
      else if ltb max_limit (pos_part limit)
      then raise (param "limit_too_large")
      else if ltb 1_000_000 (pos_part offset)
      then raise (param "offset_too_large")
      else elim (load_entries_verified a) [
        | raise e ↦ raise e
        | ok entries ↦ ok (page_of (pos_part offset) (min (pos_part limit) max_limit) entries)
      ]

-- The id does not stand among those seen, or is empty.
length-dedup : (seen : List String) (es : List Entry) → length (dedup seen es) ≤ length es
unfolding dedup
length-dedup seen [] = omega arith
length-dedup seen (e ∷ es) =
    ground (arith, length-dedup seen es, length-dedup (page_id e ∷ seen) es)

-- How often an id stands in a page.
abbrev pub occurrences : String → List Entry → ℕ
occurrences i [] = 0
occurrences i (e ∷ es) = (if page_id e == i then 1 else 0) + occurrences i es

occurrences-dedup :
    (i : String) (seen : List String) (es : List Entry)
    → (i == "") ≡ false
    → occurrences i (dedup seen es) ≤ (if contains i seen then 0 else 1)
unfolding dedup
occurrences-dedup i seen [] h = ground arith
occurrences-dedup i seen (e ∷ es) h = ground (
  arith,
  occurrences-dedup i seen es h,
  occurrences-dedup i (page_id e ∷ seen) es h,
  eq_iff (page_id e) i,
  eq_iff (page_id e) "",
  eq_iff i "",
)

Read-cases : {A : Type 0} (m : Read A) → ((e : AuditError) × (m ≡ raise e)) ⊎ ((a : A) × (m ≡ ok a))
Read-cases (ok a) = inr (a, refl)
Read-cases (raise e) = inl (e, refl)

module _ (compute_hmac : Payload → String) (a : AuditLogger) (limit offset : ℤ) (max_limit : ℕ)
    (page : Page) (read : read_page compute_hmac a limit offset max_limit ≡ ok page) where
  loaded :
      (entries : List Entry)
      → load_entries_verified compute_hmac a ≡ ok entries
      → ((verify_integrity compute_hmac a).passed ≡ true) × (entries ≡ objects (get_or [] a.file))
  unfolding load_entries_verified
  loaded entries h = (ground arith, ground arith)

  served :
      (entries : List Entry) × (load_entries_verified compute_hmac a ≡ ok entries)
      × (page ≡ page_of (pos_part offset) (min (pos_part limit) max_limit) entries)
  unfolding read_page
  served = elim (Read-cases (load_entries_verified compute_hmac a)) [
    | inl (e, fails) ↦ ground arith
    | inr (entries, reads) ↦ (entries, reads, ground arith)
  ]

  -- A page is served only from a file that verifies; it has at most `limit` entries, with
  -- `limit` at most the maximum, and no id stands in it twice.
  pub read_page_safe :
      ((verify_integrity compute_hmac a).passed ≡ true)
      × (length page.entries ≤ page.limit)
      × (page.limit ≤ max_limit)
      × (page.total ≡ length (objects (get_or [] a.file)))
      × ((i : String) → (i == "") ≡ false → occurrences i page.entries ≤ 1)
  read_page_safe =
      let (entries, reads, e) = served in
      let (passes, same) = loaded entries reads in
      (
        passes,
        rw e
            (le_trans (length-dedup [] (take _ (drop _ entries))) (length-take _ (drop _ entries))),
        rw e (omega arith),
        rw e (ap length same),
        λ i h. rw e (occurrences-dedup i [] (take _ (drop _ entries)) h),
      )
