-- ===== src/Auth/Http.antt =====
-- `HTTPException` and the results of functions that may raise it.
use win_os_layer.Common.{ℕ, String}

pub record HttpError : Type 0 where
  pub status_code : ℕ
  pub detail : String

pub data Result {ℓ} (A : Type ℓ) : Type ℓ where
  raise : HttpError → Result A
  ok : A → Result A

abbrev pub unauthorized : String → HttpError
unauthorized detail = record { status_code = 401; detail = detail }

abbrev pub forbidden : String → HttpError
forbidden detail = record { status_code = 403; detail = detail }

-- What a `TypeError` that nothing catches is answered with.
abbrev pub server_error : HttpError
server_error = record { status_code = 500; detail = "Internal Server Error" }

-- A call that may raise, and what follows it.
infixl 5 ◌>>◌ ◌>>=◌
abbrev pub ◌>>◌ {ℓ} : {C : Type ℓ} → Result (Unit {0}) → Result C → Result C
raise error >> next = raise error
ok done >> next = next

abbrev pub ◌>>=◌ {ℓ κ} : {A : Type ℓ} {C : Type κ} → Result A → (A → Result C) → Result C
raise error >>= next = raise error
ok value >>= next = next value
