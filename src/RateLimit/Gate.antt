-- ===== src/RateLimit/Gate.antt =====
-- ConcurrencyGate and principal_key of windows_os_api/core/security/rate_limit.py. Each method
-- holds the lock for its whole body, so it is one step here.
pub mod Invariant
pub mod Slots
mod Tests
use win_os_layer.Common.{
  ℕ, ◌+◌, ◌-◌, String, Bool, true, false, not, Option, none, some, [], ◌==◌, leb, if◌then◌else◌,
  get_or,
}
use win_os_layer.Common.Dict.{Dict, lookup, insert, erase}
use win_os_layer.Common.Text.{strip}
use Prim.Native.Nat.{min, max}
use Prim.Native.String

abbrev pub anonymous_principal : String
anonymous_principal = "-"

-- `hashlib.sha256(s.encode("utf-8")).hexdigest()[:16]` is the argument `digest`.
pub principal_key : (String → String) → String → Option String → String
principal_key digest peer api_key =
    let key = strip (get_or "" api_key) in
    if not (key == "")
    then String.◌++◌ "key:" (digest key)
    else if not (strip peer == "")
    then String.◌++◌ "peer:" (strip peer)
    else anonymous_principal

pub record ConcurrencyGate : Type 0 where
  pub limit : ℕ
  pub per_principal_limit : Option ℕ
  pub in_flight : ℕ
  pub per_principal : Dict ℕ

-- `__init__`. A negative argument becomes 1, as 0 does.
pub new : ℕ → Option ℕ → ConcurrencyGate
new limit per_principal_limit = record {
  limit = max 1 limit;
  per_principal_limit = elim per_principal_limit [
    | none ↦ none
    | some quota ↦ some (min (max 1 limit) (max 1 quota))
  ];
  in_flight = 0;
  per_principal = [];
}

-- `_key`
pub gate_key : Option String → String
gate_key none = anonymous_principal
gate_key (some principal) =
    let cleaned = strip principal in if cleaned == "" then anonymous_principal else cleaned

-- `self._per_principal.get(key, 0)`
abbrev pub held : ConcurrencyGate → String → ℕ
held g key = get_or 0 (lookup key g.per_principal)

abbrev pub at_quota : ConcurrencyGate → String → Bool
at_quota g key = elim g.per_principal_limit [ none ↦ false | some quota ↦ leb quota (held g key) ]

pub try_acquire : ConcurrencyGate → Option String → ConcurrencyGate × Bool
try_acquire g principal =
    let key = gate_key principal in
    if leb g.limit g.in_flight then (g, false) else if at_quota g key then (g, false) else (
      record g {
        in_flight = g.in_flight + 1;
        per_principal = insert key (held g key + 1) g.per_principal;
      },
      true,
    )

-- `-` on ℕ stops at 0, which is the guard `if self._in_flight > 0`.
pub release : ConcurrencyGate → Option String → ConcurrencyGate
release g principal =
    let key = gate_key principal in
    record g {
      in_flight = g.in_flight - 1;
      per_principal =
          if leb (held g key) 1
          then erase key g.per_principal
          else insert key (held g key - 1) g.per_principal;
    }

pub in_flight_for : ConcurrencyGate → Option String → ℕ
in_flight_for g principal = held g (gate_key principal)
