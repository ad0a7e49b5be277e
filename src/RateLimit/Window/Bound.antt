-- ===== src/RateLimit/Window/Bound.antt =====
-- The limiter against a window over the whole history of admitted calls.
use win_os_layer.Common.{
  ℕ, ◌+◌, ◌-◌, ◌≤◌, String, ◌≡◌, refl, ◌∙◌, inl, inr, Bool, true, false, List, [], ◌∷◌, ◌++◌, arith,
  ◌==◌, eq_iff, ltb, leb, if◌then◌else◌, Bool-cases, length, length-append, All, All-append,
}
use win_os_layer.Common.Dict.{lookup, lookup-insert}
use win_os_layer.RateLimit.Window.{window, RateLimiter, new, prune, hits_of, allow}

-- The admitted calls of a history, and those of one key that are not yet out of the window.
abbrev pub History : Type 0
History = List (String × ℕ)

abbrev pub recent : String → ℕ → History → ℕ
recent key now [] = 0
recent key now ((k, t) ∷ h) =
    (if k == key then (if ltb window (now - t) then 0 else 1) else 0) + recent key now h

-- What the limiter promises: a call is admitted while fewer than `limit` calls of its key were
-- admitted in the last minute. It keeps the whole history and no queue.
abbrev pub spec_decisions : ℕ → History → List (String × ℕ) → List Bool
spec_decisions limit h [] = []
spec_decisions limit h ((key, now) ∷ calls) =
    let rest = λ (h' : History). spec_decisions limit h' calls in
    if ltb (recent key now h) limit then true ∷ rest ((key, now) ∷ h) else false ∷ rest h

-- The answers of the limiter to a sequence of calls.
unfoldable pub decisions : RateLimiter → List (String × ℕ) → List Bool
decisions r [] = []
decisions r ((key, now) ∷ calls) = (allow r key now).1 ∷ decisions (allow r key now).0 calls

-- The clock does not go back.
abbrev pub IsMonotonic : ℕ → List (String × ℕ) → Type 0
IsMonotonic last [] = Unit
IsMonotonic last ((key, now) ∷ calls) = (last ≤ now) × IsMonotonic now calls

-- The entries of a queue that are not out of the window.
abbrev live : ℕ → List ℕ → ℕ
live now [] = 0
live now (t ∷ q) = (if ltb window (now - t) then 0 else 1) + live now q

abbrev Ascends : ℕ → List ℕ → Type 0
Ascends last [] = Unit
Ascends last (t ∷ q) = (t ≤ last) × All (λ u. t ≤ u) q × Ascends last q

live-append : (now : ℕ) (q r : List ℕ) → live now (q ++ r) ≡ live now q + live now r
live-append now [] r = omega arith
live-append now (t ∷ q) r = omega (arith, live-append now q r)

live-prune : (now m : ℕ) (q : List ℕ) → now ≤ m → live m (prune now q) ≡ live m q
unfolding prune
live-prune now m [] h = refl
live-prune now m (t ∷ q) h = ground (arith, live-prune now m q h)

live-All : (now t : ℕ) (q : List ℕ) → now - t ≤ window → All (λ u. t ≤ u) q → live now q ≡ length q
live-All now t [] h a = refl
live-All now t (u ∷ q) h a = ground (arith, live-All now t q h a.1)

length-prune : (now : ℕ) (q : List ℕ) → Ascends now q → length (prune now q) ≡ live now q
unfolding prune
length-prune now [] a = refl
length-prune now (t ∷ q) a = ground (arith, length-prune now q a.2, live-All now t q)

prune-Ascends : (last now : ℕ) (q : List ℕ) → Ascends last q → Ascends last (prune now q)
unfolding prune
prune-Ascends last now [] a = tt
prune-Ascends last now (t ∷ q) a = elim (Bool-cases (ltb window (now - t))) [
  | inl e ↦ rw e (prune-Ascends last now q a.2)
  | inr e ↦ rw e a
]

Ascends-later : (last now : ℕ) (q : List ℕ) → last ≤ now → Ascends last q → Ascends now q
Ascends-later last now [] h a = tt
Ascends-later last now (t ∷ q) h a = (omega arith, a.1, Ascends-later last now q h a.2)

All-le-append :
    (t now : ℕ) (q : List ℕ) → t ≤ now → All (λ u. t ≤ u) q → All (λ u. t ≤ u) (q ++ now ∷ [])
All-le-append t now q h a = All-append (λ u. t ≤ u) q (now ∷ []) a (h, tt)

Ascends-append : (now : ℕ) (q : List ℕ) → Ascends now q → Ascends now (q ++ now ∷ [])
Ascends-append now [] a = (omega arith, tt, tt)
Ascends-append now (t ∷ q) a = (a.0, All-le-append t now q a.0 a.1, Ascends-append now q a.2)

-- The queues hold, in order, what the history holds of the last minute.
record Tracks (last : ℕ) (h : History) (r : RateLimiter) : Type 0 where
  ordered : (key : String) → Ascends last (hits_of r key)
  counted : (key : String) (now : ℕ) → last ≤ now → live now (hits_of r key) ≡ recent key now h

Tracks-new : (limit : ℕ) → Tracks 0 [] (new limit)
unfolding new lookup
Tracks-new limit = record { ordered = λ key. tt; counted = λ key now h. refl }

module _ (last now : ℕ) (h : History) (r : RateLimiter) (key : String) (t : Tracks last h r)
    (le : last ≤ now) where
  -- The admission test reads the number of live entries.
  length_pruned : length (prune now (hits_of r key)) ≡ recent key now h
  length_pruned =
      length-prune now (hits_of r key) (Ascends-later last now _ le (t.ordered key))
      ∙ t.counted key now le

  allow_decision : (allow r key now).1 ≡ ltb (recent key now h) r.limit
  unfolding allow
  allow_decision = ground (arith, length_pruned)

  allow-limit : (allow r key now).0.limit ≡ r.limit
  unfolding allow
  allow-limit = ground arith

  hits_of-allow :
      (k : String)
      → hits_of (allow r key now).0 k ≡ (
          if key == k
          then (if leb r.limit (length (prune now (hits_of r key)))
              then prune now (hits_of r key)
              else prune now (hits_of r key) ++ now ∷ [])
          else hits_of r k)
  unfolding allow
  hits_of-allow k = elim (Bool-cases (leb r.limit (length (prune now (hits_of r key))))) [
    | inl e ↦ rw (e, lookup-insert) (ground arith)
    | inr e ↦ rw (e, lookup-insert) (ground arith)
  ]

  queue_ordered :
      (b : Bool)
      → Ascends now (if b then prune now (hits_of r key) else prune now (hits_of r key) ++ now ∷ [])
  queue_ordered b =
      let a : Ascends now (prune now (hits_of r key)) =
        prune-Ascends now now (hits_of r key) (Ascends-later last now _ le (t.ordered key)) in
      elim b
        as (λ b.
          Ascends now
            (if b then prune now (hits_of r key) else prune now (hits_of r key) ++ now ∷ [])) [
              | true ↦ a
              | false ↦ Ascends-append now _ a
            ]

  allow-ordered : (k : String) → Ascends now (hits_of (allow r key now).0 k)
  allow-ordered k = elim (Bool-cases (key == k)) [
    | inl e ↦ rw (hits_of-allow, e) (queue_ordered _)
    | inr e ↦ rw (hits_of-allow, e) (Ascends-later last now _ le (t.ordered k))
  ]

  -- The history after the call.
  abbrev history_after : History
  history_after = if (allow r key now).1 then (key, now) ∷ h else h

  allow-counted :
      (k : String) (m : ℕ)
      → now ≤ m
      → live m (hits_of (allow r key now).0 k) ≡ recent k m history_after
  allow-counted k m le' = ground (
    arith,
    hits_of-allow k,
    allow_decision,
    length_pruned,
    live-append m (prune now (hits_of r key)) (now ∷ []),
    live-prune now m (hits_of r key) le',
    t.counted k m,
    eq_iff key k,
  )

  allow-Tracks : Tracks now history_after (allow r key now).0
  allow-Tracks = record { ordered = allow-ordered; counted = allow-counted }

refines_from :
    (last : ℕ) (h : History) (r : RateLimiter) (calls : List (String × ℕ))
    → Tracks last h r
    → IsMonotonic last calls
    → decisions r calls ≡ spec_decisions r.limit h calls
unfolding decisions
refines_from last h r [] t m = refl
refines_from last h r ((key, now) ∷ calls) t (le, m) = ground (
  arith,
  allow_decision last now h r key t le,
  allow-limit last now h r key t le,
  refines_from now _ (allow r key now).0 calls (allow-Tracks last now h r key t le) m,
)

-- On a clock that does not go back, the limiter's answers to any sequence of calls are those of
-- the specification that keeps the whole history: a call is admitted exactly when fewer than
-- `limit` calls of its key were admitted in the last minute.
pub decisions-refines :
    (limit : ℕ) (calls : List (String × ℕ))
    → IsMonotonic 0 calls
    → decisions (new limit) calls ≡ spec_decisions limit [] calls
decisions-refines limit calls m =
    refines_from 0 [] (new limit) calls (Tracks-new limit) m ∙ (unfold new in refl)

-- The limiter and the history of what it admitted, after a sequence of calls.
pub play : RateLimiter → History → List (String × ℕ) → RateLimiter × History
play r h [] = (r, h)
play r h ((key, now) ∷ calls) =
    play (allow r key now).0 (if (allow r key now).1 then (key, now) ∷ h else h) calls

length-prune_le : (now : ℕ) (q : List ℕ) → length (prune now q) ≤ length q
unfolding prune
length-prune_le now [] = omega arith
length-prune_le now (t ∷ q) = ground (arith, length-prune_le now q)

live-le-length : (now : ℕ) (q : List ℕ) → live now q ≤ length q
live-le-length now [] = omega arith
live-le-length now (t ∷ q) = ground (arith, live-le-length now q)

-- No queue is longer than the limit.
abbrev pub IsCapped : RateLimiter → Type 0
IsCapped r = (key : String) → length (hits_of r key) ≤ r.limit

allow-IsCapped :
    (r : RateLimiter) (key : String) (now : ℕ) → IsCapped r → IsCapped (allow r key now).0
allow-IsCapped r key now capped k =
    unfold allow in
    ground (
      arith,
      capped key,
      capped k,
      lookup-insert key k (prune now (hits_of r key)) r.hits,
      lookup-insert key k (prune now (hits_of r key) ++ now ∷ []) r.hits,
      length-prune_le now (hits_of r key),
      length-append (prune now (hits_of r key)) (now ∷ []),
      eq_iff key k,
    )

play-IsCapped :
    (r : RateLimiter) (h : History) (calls : List (String × ℕ))
    → IsCapped r
    → IsCapped (play r h calls).0
unfolding play
play-IsCapped r h [] capped = capped
play-IsCapped r h ((key, now) ∷ calls) capped =
    play-IsCapped (allow r key now).0 _ calls (allow-IsCapped r key now capped)

play-limit :
    (r : RateLimiter) (h : History) (calls : List (String × ℕ)) → (play r h calls).0.limit ≡ r.limit
unfolding play
play-limit r h [] = refl
play-limit r h ((key, now) ∷ calls) =
    play-limit (allow r key now).0 _ calls ∙ (unfold allow in ground arith)

-- The time of the last call.
abbrev pub last_time : ℕ → List (String × ℕ) → ℕ
last_time last [] = last
last_time last ((key, now) ∷ calls) = last_time now calls

play-Tracks :
    (last : ℕ) (h : History) (r : RateLimiter) (calls : List (String × ℕ))
    → Tracks last h r
    → IsMonotonic last calls
    → Tracks (last_time last calls) (play r h calls).1 (play r h calls).0
unfolding play
play-Tracks last h r [] t m = t
play-Tracks last h r ((key, now) ∷ calls) t (le, m) =
    play-Tracks now _ (allow r key now).0 calls (allow-Tracks last now h r key t le) m

-- At every moment from the last call on, at most `limit` calls of a key were admitted within the
-- minute before it.
pub recent-play-le-limit :
    (limit : ℕ) (calls : List (String × ℕ)) (key : String) (now : ℕ)
    → IsMonotonic 0 calls
    → last_time 0 calls ≤ now
    → recent key now (play (new limit) [] calls).1 ≤ limit
recent-play-le-limit limit calls key now m le =
    let t = play-Tracks 0 [] (new limit) calls (Tracks-new limit) m in
    let capped : IsCapped (play (new limit) [] calls).0 =
      play-IsCapped (new limit) [] calls (λ k. unfold new lookup in omega arith) in
    let same : (new limit).limit ≡ limit = unfold new in refl in
    omega (
      arith,
      t.counted key now le,
      capped key,
      live-le-length now (hits_of (play (new limit) [] calls).0 key),
      play-limit (new limit) [] calls,
    )
