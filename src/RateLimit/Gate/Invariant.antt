-- ===== src/RateLimit/Gate/Invariant.antt =====
-- The accounting of the gate.
use win_os_layer.Common.{
  ℕ, ◌+◌, ◌-◌, ◌≤◌, String, ◌≡◌, refl, ◌≢◌, true, not, ◌&&◌, Option, none, some, arith, ◌==◌,
  eq_iff, leb, if◌then◌else◌,
}
use win_os_layer.Common.Dict.{
  lookup, lookup-insert, lookup-erase, HasDistinctKeys, insert-HasDistinctKeys,
  erase-HasDistinctKeys, sum_values, sum_values-insert, sum_values-erase,
}
use win_os_layer.RateLimit.Gate.{
  ConcurrencyGate, new, gate_key, held, at_quota, try_acquire, release, in_flight_for,
}

abbrev pub WithinQuota : Option ℕ → ℕ → Type 0
WithinQuota none n = Unit
WithinQuota (some quota) n = n ≤ quota

-- No more slots than the limit, as many as the principals hold, and for each principal that is
-- listed at least one slot and at most its quota.
pub record IsValid (g : ConcurrencyGate) : Type 0 where
  pub positive : 1 ≤ g.limit
  pub within : g.in_flight ≤ g.limit
  pub counted : sum_values g.per_principal ≡ g.in_flight
  pub distinct : HasDistinctKeys g.per_principal
  pub active : (key : String) → lookup key g.per_principal ≢ some 0
  pub quota : (key : String) → WithinQuota g.per_principal_limit (held g key)

-- A slot is given exactly when the total is below the limit and the principal below its quota.
pub try_acquire_decision :
    (g : ConcurrencyGate) (principal : Option String)
    → (try_acquire g principal).1
      ≡ (not (leb g.limit g.in_flight) && not (at_quota g (gate_key principal)))
unfolding try_acquire
try_acquire_decision g principal = ground arith

-- What each principal holds after an attempt.
pub held-try_acquire :
    (g : ConcurrencyGate) (principal : Option String) (key : String)
    → held (try_acquire g principal).0 key ≡ (
        if (try_acquire g principal).1 && gate_key principal == key
        then held g key + 1
        else held g key)
unfolding try_acquire
held-try_acquire g principal key = ground (
  arith,
  lookup-insert (gate_key principal) key (held g (gate_key principal) + 1) g.per_principal,
  eq_iff (gate_key principal) key,
)

pub held-release :
    (g : ConcurrencyGate) (principal : Option String) (key : String)
    → held (release g principal) key
      ≡ (if gate_key principal == key then held g key - 1 else held g key)
unfolding release
held-release g principal key = ground (
  arith,
  lookup-insert (gate_key principal) key (held g (gate_key principal) - 1) g.per_principal,
  lookup-erase (gate_key principal) key g.per_principal,
  eq_iff (gate_key principal) key,
)

release-limits :
    (g : ConcurrencyGate) (principal : Option String)
    → (release g principal).per_principal_limit ≡ g.per_principal_limit
unfolding release
release-limits g principal = refl

pub new-IsValid : (limit : ℕ) (quota : Option ℕ) → IsValid (new limit quota)
unfolding new lookup
new-IsValid limit none = record {
  positive = omega arith;
  within = omega arith;
  counted = refl;
  distinct = tt;
  active = λ key. cc;
  quota = λ key. tt;
}
new-IsValid limit (some q) = record {
  positive = omega arith;
  within = omega arith;
  counted = refl;
  distinct = tt;
  active = λ key. cc;
  quota = λ key. omega arith;
}

module _ (g : ConcurrencyGate) (principal : Option String) (v : IsValid g) where
  -- Every attempt, granted or refused, keeps the accounting right.
  pub try_acquire-IsValid : IsValid (try_acquire g principal).0
  try_acquire-IsValid = record {
    positive = unfold try_acquire in ground (arith, v.positive);
    within = unfold try_acquire in ground (arith, v.within);
    counted =
        unfold try_acquire in
        ground (
          arith,
          v.counted,
          sum_values-insert (gate_key principal) (held g (gate_key principal) + 1) g.per_principal,
        );
    distinct =
        unfold try_acquire in
        ground (
          arith,
          v.distinct,
          insert-HasDistinctKeys (gate_key principal) (held g (gate_key principal) + 1)
              g.per_principal,
        );
    active = λ key.
        unfold try_acquire in
        ground (
          arith,
          v.active key,
          lookup-insert (gate_key principal) key (held g (gate_key principal) + 1) g.per_principal,
        );
    quota = λ key.
        unfold try_acquire in
        ground (
          arith,
          v.quota key,
          eq_iff (gate_key principal) key,
          lookup-insert (gate_key principal) key (held g (gate_key principal) + 1) g.per_principal,
        );
  }

  -- A release by a principal that holds a slot keeps the accounting right.
  pub release-IsValid : 1 ≤ in_flight_for g principal → IsValid (release g principal)
  unfolding in_flight_for
  release-IsValid h = record {
    positive = unfold release in ground (arith, v.positive);
    within = unfold release in ground (arith, v.within);
    counted =
        unfold release in
        ground (
          arith,
          v.counted,
          sum_values-erase (gate_key principal) g.per_principal v.distinct,
          sum_values-insert (gate_key principal) (held g (gate_key principal) - 1) g.per_principal,
        );
    distinct =
        unfold release in
        ground (
          arith,
          v.distinct,
          erase-HasDistinctKeys (gate_key principal) g.per_principal v.distinct,
          insert-HasDistinctKeys (gate_key principal) (held g (gate_key principal) - 1)
              g.per_principal v.distinct,
        );
    active = λ key.
        unfold release in
        ground (
          arith,
          v.active key,
          lookup-erase (gate_key principal) key g.per_principal,
          lookup-insert (gate_key principal) key (held g (gate_key principal) - 1) g.per_principal,
        );
    quota = λ key. ground (
      arith,
      v.quota key,
      eq_iff (gate_key principal) key,
      held-release g principal key,
      release-limits g principal,
    );
  }

  -- A granted slot that is released by the same principal leaves every counter as it was.
  pub release-try_acquire :
      (try_acquire g principal).1 ≡ true
      → ((release (try_acquire g principal).0 principal).in_flight ≡ g.in_flight)
        × ((key : String) → held (release (try_acquire g principal).0 principal) key ≡ held g key)
  release-try_acquire granted = (
    unfold try_acquire release in ground arith,
    λ key. ground (
      arith,
      held-release (try_acquire g principal).0 principal key,
      held-try_acquire g principal key,
    ),
  )
