-- ===== src/Audit.antt =====
-- AuditLogger of windows_os_api/core/security/audit.py: the hash chain, rotation and the reads. The
-- HMAC is a parameter; the file is its list of lines, all of them UTF-8.
pub mod Integrity
pub mod Chain
pub mod Paging
mod Tests
use win_os_layer.Common.{
  ℕ, ◌+◌, String, Bool, true, false, not, ◌||◌, Option, none, some, List, [], ◌∷◌, ◌++◌, ◌==◌, leb,
  nat_eq, if◌then◌else◌, get_or,
}
use Prim.Native.String
use win_os_layer.Common.Text.{text_length, is_ascii}

-- The fields that the HMAC covers: all but `hmac` itself.
pub record Payload : Type 0 where
  pub ts : String
  pub action : String
  pub subject : String
  pub resource : String
  pub outcome : String
  pub detail : String
  pub request_id : String
  pub execution_id : String
  pub prev_hash : Option String

-- An object of the log; `hmac` is absent where the field is missing or no text.
pub record Entry : Type 0 where
  pub payload : Payload
  pub hmac : Option String

-- What `json.loads` makes of a line.
pub data Line : Type 0 where
  blank bad_json non_object : Line
  object : Entry → Line

abbrev pub genesis : String
genesis = "0000000000000000000000000000000000000000000000000000000000000000"

-- `last or ("0" * 64)`
abbrev pub or_genesis : Option String → String
or_genesis none = genesis
or_genesis (some h) = if h == "" then genesis else h

-- Why a file does not verify, with the number of the line.
pub data Reason : Type 0 where
  empty verified : Reason
  unavailable : String → Reason
  invalid_json not_an_object missing_hmac chain_break hmac_mismatch : ℕ → Reason
  -- no report: `hmac.compare_digest` raises a `TypeError`, which nothing catches
  type_error : ℕ → Reason

pub record IntegrityReport : Type 0 where
  pub passed : Bool
  pub entries_checked : ℕ
  pub reason : Reason
  pub available : Bool

abbrev pub failed : ℕ → Reason → IntegrityReport
failed checked reason = record {
  passed = false;
  entries_checked = checked;
  reason = reason;
  available = true;
}

-- `isinstance(got, str) and len(got) == 64`
abbrev pub is_hash : Option String → Bool
is_hash none = false
is_hash (some got) = nat_eq (text_length got) 64

-- `obj.get("prev_hash") == prev`
abbrev pub is_some_text : Option String → String → Bool
is_some_text none prev = false
is_some_text (some found) prev = found == prev

pub record AuditLogger : Type 0 where
  pub max_bytes : ℕ
  pub max_entries : ℕ
  pub max_age_seconds : Option ℕ
  pub file : Option (List Line)
  pub rotated : Option (List Line)
  pub prev_hash : String
  pub entry_count : ℕ
  pub unavailable_reason : Option String

-- What the file system answers during one call of `log`: the size and the age of the file, and
-- whether the append fails, with the lines that a failing one leaves behind.
pub record Io : Type 0 where
  pub size : ℕ
  pub age : ℕ
  pub failure : Option (String × List Line)

pub data LogResult : Type 0 where
  written : Entry → LogResult
  refused : String → LogResult

abbrev pub is_type_error : Reason → Bool
is_type_error empty = false
is_type_error verified = false
is_type_error (unavailable reason) = false
is_type_error (invalid_json n) = false
is_type_error (not_an_object n) = false
is_type_error (missing_hmac n) = false
is_type_error (chain_break n) = false
is_type_error (hmac_mismatch n) = false
is_type_error (type_error n) = true

unfoldable pub needs_rotation : AuditLogger → Io → Bool
needs_rotation a io =
    leb a.max_bytes io.size
    || leb a.max_entries a.entry_count
    || elim a.max_age_seconds [ none ↦ false | some age ↦ leb age io.age ]

-- `_rotate_if_needed_unlocked`
unfoldable pub rotate_if_needed : AuditLogger → Io → AuditLogger
rotate_if_needed a io = elim a.file [
  | none ↦ a
  | some lines ↦
      if needs_rotation a io
      then record a { file = none; rotated = some lines; prev_hash = genesis; entry_count = 0 }
      else a
]

module _ (compute_hmac : Payload → String) where
  -- The loop of `verify_integrity`. What HMAC computes is hexadecimal, so that a hash that is not ASCII
  -- differs from it, and their comparison raises.
  unfoldable pub verify_lines : String → ℕ → ℕ → List Line → IntegrityReport
  verify_lines prev checked lineno [] = record {
    passed = true;
    entries_checked = checked;
    reason = verified;
    available = true;
  }
  verify_lines prev checked lineno (blank ∷ lines) = verify_lines prev checked (lineno + 1) lines
  verify_lines prev checked lineno (bad_json ∷ lines) = failed checked (invalid_json lineno)
  verify_lines prev checked lineno (non_object ∷ lines) = failed checked (not_an_object lineno)
  verify_lines prev checked lineno (object e ∷ lines) =
      let rest = verify_lines (get_or "" e.hmac) (checked + 1) (lineno + 1) lines in
      if not (is_hash e.hmac)
      then failed checked (missing_hmac lineno)
      else if not (is_some_text e.payload.prev_hash prev)
      then failed checked (chain_break lineno)
      else if not (compute_hmac e.payload == get_or "" e.hmac)
      then failed checked
          (if is_ascii (get_or "" e.hmac) then hmac_mismatch lineno else type_error lineno)
      else rest

  unfoldable pub verify_integrity : AuditLogger → IntegrityReport
  verify_integrity a = elim a.unavailable_reason [
    | some reason ↦ record {
      passed = false;
      entries_checked = 0;
      reason = unavailable reason;
      available = false;
    }
    | none ↦ elim a.file [
      | none ↦ record { passed = true; entries_checked = 0; reason = empty; available = true }
      | some lines ↦ verify_lines genesis 0 1 lines
    ]
  ]

  -- `_last_hmac_best_effort`: the inner `none` where the last object has no text there. A line
  -- that is no object has no `get`: the call fails, which is the outer `none`.
  unfoldable pub last_hmac : Option String → List Line → Option (Option String)
  last_hmac last [] = some last
  last_hmac last (blank ∷ lines) = last_hmac last lines
  last_hmac last (bad_json ∷ lines) = last_hmac last lines
  last_hmac last (non_object ∷ lines) = none
  last_hmac last (object e ∷ lines) = last_hmac e.hmac lines

  -- `__init__` over a file that can be read, with `_bootstrap_chain`; `none` where it raises.
  unfoldable pub open_logger : ℕ → ℕ → Option ℕ → Option (List Line) → Option AuditLogger
  unfolding last_hmac
  open_logger max_bytes max_entries max_age file =
      let fresh : AuditLogger = record {
        max_bytes = if leb max_bytes 1024 then 1024 else max_bytes;
        max_entries = if leb max_entries 1 then 1 else max_entries;
        max_age_seconds = max_age;
        file = file;
        rotated = none;
        prev_hash = genesis;
        entry_count = 0;
        unavailable_reason = none;
      } in
      elim file [
        | none ↦ some fresh
        | some lines ↦
            let report = verify_lines genesis 0 1 lines in
            elim (last_hmac none lines) [
              | none ↦ none
              | some last ↦
                  if is_type_error report.reason
                  then none
                  else some (record fresh {
                    prev_hash = or_genesis last;
                    entry_count = report.entries_checked;
                  })
            ]
      ]

  -- The entry that `log` signs.
  abbrev pub signed : Payload → String → Entry
  signed p prev = record {
    payload = record p { prev_hash = some prev };
    hmac = some (compute_hmac (record p { prev_hash = some prev }));
  }

  -- `log`, from the sanitized and redacted fields on.
  unfoldable pub log : AuditLogger → Io → Payload → AuditLogger × LogResult
  log a io p = elim a.unavailable_reason [
    | some reason ↦ (a, refused reason)
    | none ↦
        let a' = rotate_if_needed a io in
        let e = signed p a'.prev_hash in
        elim io.failure [
          | some (reason, leftover) ↦ (
            record a' {
              file = some (get_or [] a'.file ++ leftover);
              unavailable_reason = some reason;
            },
            refused reason,
          )
          | none ↦ (
            record a' {
              file = some (get_or [] a'.file ++ object e ∷ []);
              prev_hash = compute_hmac e.payload;
              entry_count = a'.entry_count + 1;
            },
            written e,
          )
        ]
  ]
