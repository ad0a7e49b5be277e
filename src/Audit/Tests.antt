-- ===== src/Audit/Tests.antt =====
-- Runs of the logger, with a toy HMAC of 64 digits.
use win_os_layer.Common.{
  String, ◌≡◌, refl, sym, ◌≢◌, true, none, some, List, [], ◌∷◌, ◌++◌, arith, ◌==◌, eq_iff,
  if◌then◌else◌,
}
use win_os_layer.Common.Text.{text_length}
use win_os_layer.Audit.{
  Payload, Line, blank, bad_json, non_object, object, genesis, AuditLogger, Io, rotate_if_needed,
  verify_lines, verify_integrity, open_logger, signed, log,
}
use win_os_layer.Common.Int.{pos}
use win_os_layer.Audit.Integrity.{IsSound, log-IsSound}
use win_os_layer.Audit.Chain.{newest_first, verified_files_equal, truncation_verifies}
use win_os_layer.Audit.Paging.{objects, ok, load_entries_verified, read_page, page_of}

abbrev ones : String
ones = "1111111111111111111111111111111111111111111111111111111111111111"

abbrev toy : Payload → String
toy p = ones

length-toy : (p : Payload) → text_length (toy p) ≡ 64
length-toy p = refl

abbrev quiet : Io
quiet = record { size = 10; age = 0; failure = none }

abbrev start : AuditLogger
start = record {
  max_bytes = 1024;
  max_entries = 2;
  max_age_seconds = none;
  file = none;
  rotated = none;
  prev_hash = genesis;
  entry_count = 0;
  unavailable_reason = none;
}

start-IsSound : IsSound toy start
start-IsSound h = (refl, refl)

abbrev event : String → Payload
event i = record {
  ts = "t";
  action = "a";
  subject = "s";
  resource = "";
  outcome = "success";
  detail = "{}";
  request_id = i;
  execution_id = "";
  prev_hash = none;
}

abbrev logged : AuditLogger
logged = (log toy start quiet (event "r1")).0

log-IsSound_example : IsSound toy logged
log-IsSound_example = log-IsSound toy length-toy start quiet (event "r1") start-IsSound

logged_up : logged.unavailable_reason ≡ none
unfolding log rotate_if_needed
logged_up = refl

abbrev first_line : Line
first_line = object (signed toy (event "r1") genesis)

abbrev second_line : Line
second_line = object (signed toy (event "r2") ones)

whole_passes : (verify_lines toy genesis 0 1 ((first_line ∷ []) ++ second_line ∷ [])).passed ≡ true
unfolding verify_lines
whole_passes = refl

truncation_verifies_example : (verify_lines toy genesis 0 1 (first_line ∷ [])).passed ≡ true
truncation_verifies_example =
    truncation_verifies toy (first_line ∷ []) (second_line ∷ []) whole_passes

-- A line that is JSON but no object, and a hash that is not ASCII: the logger cannot be made.
list_raises : open_logger toy 1024 2 none (some (bad_json ∷ non_object ∷ [])) ≡ none
unfolding open_logger verify_lines
list_raises = refl

abbrev strange : Line
strange = object (record {
  payload = record (event "r1") { prev_hash = some genesis };
  hmac = some "é111111111111111111111111111111111111111111111111111111111111111";
})

strange_raises : open_logger toy 1024 2 none (some (strange ∷ [])) ≡ none
unfolding open_logger verify_lines
strange_raises = refl

abbrev two_lines : AuditLogger
two_lines = record start { file = some (first_line ∷ second_line ∷ []) }

page_read :
    read_page toy two_lines (pos 1) (pos 1) 500
    ≡ ok (page_of 1 1 (objects (first_line ∷ second_line ∷ [])))
unfolding read_page load_entries_verified verify_integrity verify_lines
page_read = refl

abbrev twos : String
twos = "2222222222222222222222222222222222222222222222222222222222222222"

abbrev by_request : Payload → String
by_request p = if p.request_id == "r1" then ones else twos

abbrev head_line : Line
head_line = object (signed by_request (event "r1") genesis)

abbrev tail_line : Line
tail_line = object (signed by_request (event "r2") ones)

abbrev whole : List Line
whole = head_line ∷ tail_line ∷ []

abbrev spaced : List Line
spaced = head_line ∷ blank ∷ tail_line ∷ []

ones-ne-twos : ones ≢ twos
ones-ne-twos = ground (arith, eq_iff ones twos)

ones-ne-genesis : ones ≢ genesis
ones-ne-genesis = ground (arith, eq_iff ones genesis)

twos-ne-genesis : twos ≢ genesis
twos-ne-genesis = ground (arith, eq_iff twos genesis)

whole_verifies : (verify_lines by_request genesis 0 1 whole).passed ≡ true
unfolding verify_lines
whole_verifies = refl

spaced_verifies : (verify_lines by_request genesis 0 1 spaced).passed ≡ true
unfolding verify_lines
spaced_verifies = refl

verified_files_equal_example : newest_first whole [] ≡ newest_first spaced []
verified_files_equal_example =
    verified_files_equal by_request whole spaced
      (
        ((λ _. refl), ((λ e. absurd (ones-ne-twos (sym e))), tt)),
        (((λ e. absurd (ones-ne-twos e)), ((λ _. refl), tt)), tt),
      )
      (twos-ne-genesis, (ones-ne-genesis, tt)) (twos-ne-genesis, (ones-ne-genesis, tt))
      whole_verifies spaced_verifies refl
