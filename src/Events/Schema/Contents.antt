-- ===== src/Events/Schema/Contents.antt =====
-- The bus with its sanitizer: nothing else reaches the history or a subscriber.
use win_os_layer.Common.{ℕ, ◌≡◌, List, All}
use win_os_layer.Events.Schema.{Json, validate_and_sanitize}
use win_os_layer.Events.Bus.{Event, EventBus, new, receive, received, provenance_of}
use win_os_layer.Events.Bus.Requests.{Request, serve_all}
use win_os_layer.Events.Bus.Contents.{serve_all-Holds, received-Holds}
use win_os_layer.Events.Schema.Clean.{IsClean, validate_and_sanitize-IsClean}

abbrev pub IsCleanEvent : (Json → ℕ) → Event Json → Type 0
IsCleanEvent byte_size e = IsClean byte_size e.type e.payload e.provenance

-- `byte_size` counts the UTF-8 text that the sanitizer writes, `payload_bytes` the ASCII text that the
-- bus writes.
module _ (byte_size payload_bytes : Json → ℕ) where
  abbrev pub requested_bus : (s h m y : ℕ) → List (Request Json) → EventBus Json
  requested_bus s h m y rs =
      serve_all payload_bytes (validate_and_sanitize byte_size) (new s h m y) rs

  -- Whatever a new bus is asked, each event of its history and each event that a subscriber receives
  -- has an allowed type and provenance, and its payload is an object within the limits of depth,
  -- keys and bytes, in which no key is secret at any depth.
  pub serve_all-IsClean :
      (s h m y : ℕ) (rs : List (Request Json))
      → All (IsCleanEvent byte_size) (requested_bus s h m y rs).history
        × ((i : ℕ) (e : Event Json)
            → (receive (requested_bus s h m y rs) i).1 ≡ received e
            → IsCleanEvent byte_size e)
  serve_all-IsClean s h m y rs =
      let held =
        serve_all-Holds (IsCleanEvent byte_size) payload_bytes (validate_and_sanitize byte_size)
          (λ e clean passed.
            validate_and_sanitize-IsClean byte_size e.type e.payload (provenance_of e.provenance)
              clean passed)
          s h m y rs in
      (
        held.kept,
        λ i e k. received-Holds (IsCleanEvent byte_size) (requested_bus s h m y rs) i e held k,
      )
