-- ===== src/RateLimit/Gate/Slots.antt =====
-- Interleavings of callers: the slots that are out, and the gate that counts them.
use win_os_layer.Common.{
  ℕ, ◌+◌, ◌-◌, ◌≤◌, String, ◌≡◌, refl, Option, List, [], ◌∷◌, arith, ◌==◌, eq_iff, if◌then◌else◌,
  length,
}
use win_os_layer.Common.Dict.{lookup}
use win_os_layer.RateLimit.Gate.{
  ConcurrencyGate, new, gate_key, held, try_acquire, release, in_flight_for,
}
use win_os_layer.RateLimit.Gate.Invariant.{
  IsValid, new-IsValid, try_acquire-IsValid, release-IsValid, held-try_acquire, held-release,
}

-- The keys of the requests that hold a slot, one entry for each.
pub record Traffic : Type 0 where
  pub gate : ConcurrencyGate
  pub slots : List String

abbrev pub count : String → List String → ℕ
count key [] = 0
count key (k ∷ ks) = (if k == key then 1 else 0) + count key ks

abbrev pub remove_one : String → List String → List String
remove_one key [] = []
remove_one key (k ∷ ks) = if k == key then ks else k ∷ remove_one key ks

-- Any caller may try; a caller that holds a slot gives it back with the principal it came with.
pub data Step : Traffic → Traffic → Type 0 where
  attempt :
      (t : Traffic) (principal : Option String)
      → Step t (record {
        gate = (try_acquire t.gate principal).0;
        slots = if (try_acquire t.gate principal).1 then gate_key principal ∷ t.slots else t.slots;
      })
  finish :
      (t : Traffic) (principal : Option String)
      → 1 ≤ count (gate_key principal) t.slots
      → Step t (record {
        gate = release t.gate principal;
        slots = remove_one (gate_key principal) t.slots;
      })

pub data Reach (s : Traffic) : Traffic → Type 0 where
  here : Reach s s
  next : {t u : Traffic} → Reach s t → Step t u → Reach s u

abbrev pub idle : ℕ → Option ℕ → Traffic
idle limit quota = record { gate = new limit quota; slots = [] }

-- The gate is right about every principal and about the total.
pub record Accounts (t : Traffic) : Type 0 where
  pub valid : IsValid t.gate
  pub total : t.gate.in_flight ≡ length t.slots
  pub each : (key : String) → held t.gate key ≡ count key t.slots

count-remove_one :
    (key j : String) (ks : List String)
    → count j (remove_one key ks) ≡ (if key == j then count j ks - 1 else count j ks)
count-remove_one key j [] = ground arith
count-remove_one key j (k ∷ ks) =
    ground (arith, count-remove_one key j ks, eq_iff k key, eq_iff k j, eq_iff key j)

length-remove_one :
    (key : String) (ks : List String)
    → 1 ≤ count key ks
    → length (remove_one key ks) + 1 ≡ length ks
length-remove_one key [] h = absurd (omega arith)
length-remove_one key (k ∷ ks) h = ground (arith, length-remove_one key ks)

Step-Accounts : {t u : Traffic} → Step t u → Accounts t → Accounts u
Step-Accounts (attempt t principal) a = record {
  valid = try_acquire-IsValid t.gate principal a.valid;
  total = unfold try_acquire in ground (arith, a.total);
  each = λ key.
      ground
        (arith, a.each key, held-try_acquire t.gate principal key, eq_iff (gate_key principal) key);
}
Step-Accounts (finish t principal h) a = record {
  valid =
      release-IsValid t.gate principal a.valid
        (unfold in_flight_for in omega (arith, a.each (gate_key principal)));
  total =
      unfold release in omega (arith, a.total, length-remove_one (gate_key principal) t.slots h);
  each = λ key. ground (
    arith,
    a.each key,
    held-release t.gate principal key,
    count-remove_one (gate_key principal) key t.slots,
  );
}

Reach-Accounts_from : {s t : Traffic} → Accounts s → Reach s t → Accounts t
Reach-Accounts_from a here = a
Reach-Accounts_from a (next r st) = Step-Accounts st (Reach-Accounts_from a r)

idle-Accounts : (limit : ℕ) (quota : Option ℕ) → Accounts (idle limit quota)
idle-Accounts limit quota = record {
  valid = new-IsValid limit quota;
  total = unfold new in refl;
  each = λ key. unfold new lookup in refl;
}

-- However the callers interleave, a gate that started idle stays valid, its total is the number
-- of slots that are out, and each principal is charged for exactly the slots it holds.
pub Reach-Accounts :
    (limit : ℕ) (quota : Option ℕ) {t : Traffic} → Reach (idle limit quota) t → Accounts t
Reach-Accounts limit quota r = Reach-Accounts_from (idle-Accounts limit quota) r
