-- ===== src/Events/Bus/Queues.antt =====
-- The queues of the subscribers one by one: what lies in them and what is charged for it.
use win_os_layer.Common.{
  ℕ, zero, suc, ◌+◌, ◌-◌, ◌≤◌, ◌≡◌, refl, sym, ap, ◌∙◌, ◌≢◌, ◌⊎◌, inl, inr, Bool, true, false, some,
  List, [], ◌∷◌, ◌++◌, arith, Bool-cases, get_or, length, length-append, All,
}
use win_os_layer.Events.Bus.{
  Event, Item, event, stop_sentinel, Queue, sum, head_or_zero, tail, get_elem?, set, remove_at,
  is_full, put_stop,
}

module _ {ℓ κ} {A : Type ℓ} (R : A → Type κ) where
  pub All-get_elem? : (xs : List A) (i : ℕ) (x : A) → All R xs → get_elem? xs i ≡ some x → R x
  All-get_elem? [] i x h e = absurd cc
  All-get_elem? (y ∷ ys) zero x h e = rw (sym (ap (get_or y) e)) h.0
  All-get_elem? (y ∷ ys) (suc i) x h e = All-get_elem? ys i x h.1 e

  pub All-set : (xs : List A) (i : ℕ) (x : A) → All R xs → R x → All R (set xs i x)
  All-set [] i x h r = tt
  All-set (y ∷ ys) zero x h r = (r, h.1)
  All-set (y ∷ ys) (suc i) x h r = (h.0, All-set ys i x h.1 r)

  pub All-remove_at : (xs : List A) (i : ℕ) → All R xs → All R (remove_at xs i)
  All-remove_at [] i h = tt
  All-remove_at (y ∷ ys) zero h = h.1
  All-remove_at (y ∷ ys) (suc i) h = (h.0, All-remove_at ys i h.1)

module _ {ℓ} {A : Type ℓ} where
  pub length-set : (xs : List A) (i : ℕ) (x : A) → length (set xs i x) ≡ length xs
  length-set [] i x = refl
  length-set (y ∷ ys) zero x = refl
  length-set (y ∷ ys) (suc i) x = omega (arith, length-set ys i x)

  pub length-remove_at : (xs : List A) (i : ℕ) → length (remove_at xs i) ≤ length xs
  length-remove_at [] i = omega arith
  length-remove_at (y ∷ ys) zero = omega arith
  length-remove_at (y ∷ ys) (suc i) = omega (arith, length-remove_at ys i)

  pub get_elem?-set :
      (xs : List A) (i : ℕ) (x y : A) → get_elem? xs i ≡ some x → get_elem? (set xs i y) i ≡ some y
  get_elem?-set [] i x y e = absurd cc
  get_elem?-set (z ∷ zs) zero x y e = refl
  get_elem?-set (z ∷ zs) (suc i) x y e = get_elem?-set zs i x y e

pub sum-append : (ms ns : List ℕ) → sum (ms ++ ns) ≡ sum ms + sum ns
sum-append [] ns = omega arith
sum-append (m ∷ ms) ns = omega (arith, sum-append ms ns)

pub sum-tail : (ns : List ℕ) → head_or_zero ns + sum (tail ns) ≡ sum ns
sum-tail [] = omega arith
sum-tail (n ∷ ns) = omega arith

pub length-tail : {A : Type 0} (xs : List A) → length (tail xs) ≡ length xs - 1
length-tail [] = refl
length-tail (x ∷ xs) = omega arith

pub items-cases : {A : Type 0} (is : List A) → (is ≡ []) ⊎ ((i : A) × (is ≡ i ∷ tail is))
items-cases [] = inl refl
items-cases (i ∷ is) = inr (i, refl)

module _ {P : Type 0} where
  abbrev pub has_stop : List (Item P) → Bool
  has_stop [] = false
  has_stop (event e ∷ is) = has_stop is
  has_stop (stop_sentinel ∷ is) = true

  abbrev pub only_stops : List (Item P) → Bool
  only_stops [] = true
  only_stops (event e ∷ is) = false
  only_stops (stop_sentinel ∷ is) = only_stops is

  -- No event stands behind a sentinel.
  abbrev pub stops_last : List (Item P) → Bool
  stops_last [] = true
  stops_last (event e ∷ is) = stops_last is
  stops_last (stop_sentinel ∷ is) = only_stops is

  pub has_stop-put : (is : List (Item P)) → has_stop (is ++ stop_sentinel ∷ []) ≡ true
  has_stop-put [] = refl
  has_stop-put (event e ∷ is) = has_stop-put is
  has_stop-put (stop_sentinel ∷ is) = refl

  pub has_stop-event :
      (is : List (Item P)) (e : Event P) → has_stop (is ++ event e ∷ []) ≡ has_stop is
  has_stop-event [] e = refl
  has_stop-event (event d ∷ is) e = has_stop-event is e
  has_stop-event (stop_sentinel ∷ is) e = refl

  only_stops-put : (is : List (Item P)) → only_stops (is ++ stop_sentinel ∷ []) ≡ only_stops is
  only_stops-put [] = refl
  only_stops-put (event e ∷ is) = refl
  only_stops-put (stop_sentinel ∷ is) = only_stops-put is

  pub stops_last-put : (is : List (Item P)) → stops_last (is ++ stop_sentinel ∷ []) ≡ stops_last is
  stops_last-put [] = refl
  stops_last-put (event e ∷ is) = stops_last-put is
  stops_last-put (stop_sentinel ∷ is) = only_stops-put is

  pub stops_last-event :
      (is : List (Item P)) (e : Event P)
      → has_stop is ≡ false
      → stops_last (is ++ event e ∷ []) ≡ true
  stops_last-event [] e h = refl
  stops_last-event (event d ∷ is) e h = stops_last-event is e h
  stops_last-event (stop_sentinel ∷ is) e h = absurd cc

  only_stops→stops_last : (is : List (Item P)) → only_stops is ≡ true → stops_last is ≡ true
  only_stops→stops_last [] h = refl
  only_stops→stops_last (event e ∷ is) h = absurd cc
  only_stops→stops_last (stop_sentinel ∷ is) h = h

  pub stops_last-tail : (is : List (Item P)) → stops_last is ≡ true → stops_last (tail is) ≡ true
  stops_last-tail [] h = refl
  stops_last-tail (event e ∷ is) h = h
  stops_last-tail (stop_sentinel ∷ is) h = only_stops→stops_last is h

  pub has_stop-tail : (is : List (Item P)) → has_stop is ≡ false → has_stop (tail is) ≡ false
  has_stop-tail [] h = refl
  has_stop-tail (event e ∷ is) h = h
  has_stop-tail (stop_sentinel ∷ is) h = absurd cc

  module _ (payload_bytes : P → ℕ) where
    -- The sizes of the events of a queue, which is what `_winos_pending_sizes` should be.
    abbrev pub sizes : List (Item P) → List ℕ
    sizes [] = []
    sizes (event e ∷ is) = payload_bytes e.payload ∷ sizes is
    sizes (stop_sentinel ∷ is) = sizes is

    pub sizes-put : (is : List (Item P)) → sizes (is ++ stop_sentinel ∷ []) ≡ sizes is
    sizes-put [] = refl
    sizes-put (event e ∷ is) = ap (λ ns. payload_bytes e.payload ∷ ns) (sizes-put is)
    sizes-put (stop_sentinel ∷ is) = sizes-put is

    pub sizes-event :
        (is : List (Item P)) (e : Event P)
        → sizes (is ++ event e ∷ []) ≡ sizes is ++ payload_bytes e.payload ∷ []
    sizes-event [] e = refl
    sizes-event (event d ∷ is) e = ap (λ ns. payload_bytes d.payload ∷ ns) (sizes-event is e)
    sizes-event (stop_sentinel ∷ is) e = sizes-event is e

    sizes_of_only_stops : (is : List (Item P)) → only_stops is ≡ true → sizes is ≡ []
    sizes_of_only_stops [] h = refl
    sizes_of_only_stops (event e ∷ is) h = absurd cc
    sizes_of_only_stops (stop_sentinel ∷ is) h = sizes_of_only_stops is h

    pub sizes-tail : (is : List (Item P)) → stops_last is ≡ true → sizes (tail is) ≡ tail (sizes is)
    sizes-tail [] h = refl
    sizes-tail (event e ∷ is) h = refl
    sizes-tail (stop_sentinel ∷ is) h =
        sizes_of_only_stops is h ∙ sym (ap tail (sizes_of_only_stops is h))

    -- What the queue charges is what lies in it, no event stands behind a sentinel, an open bus has
    -- sent no sentinel, and the queue keeps its bound.
    pub record QueueIsValid (maxsize : ℕ) (stopped : Bool) (q : Queue P) : Type 0 where
      pub charged : q.pending ≡ sizes q.items
      pub ordered : stops_last q.items ≡ true
      pub running : stopped ≡ false → has_stop q.items ≡ false
      pub bound : maxsize ≢ 0 → length q.items ≤ maxsize

    module _ (maxsize : ℕ) (stopped : Bool) (q : Queue P) (v : QueueIsValid maxsize stopped q) where
      pub pop-QueueIsValid :
          QueueIsValid maxsize stopped (record { items = tail q.items; pending = tail q.pending })
      pop-QueueIsValid = record {
        charged = ap tail v.charged ∙ sym (sizes-tail q.items v.ordered);
        ordered = stops_last-tail q.items v.ordered;
        running = λ h. has_stop-tail q.items (v.running h);
        bound = λ h. omega (arith, length-tail q.items, v.bound h);
      }

      pub push-QueueIsValid :
          (e : Event P)
          → stopped ≡ false
          → is_full maxsize q ≡ false
          → QueueIsValid maxsize stopped (record {
            items = q.items ++ event e ∷ [];
            pending = q.pending ++ payload_bytes e.payload ∷ [];
          })
      push-QueueIsValid e live room = record {
        charged =
            ap (λ ns. ns ++ payload_bytes e.payload ∷ []) v.charged ∙ sym (sizes-event q.items e);
        ordered = stops_last-event q.items e (v.running live);
        running = λ h. has_stop-event q.items e ∙ v.running h;
        bound = λ h. ground (arith, length-append q.items (event e ∷ []), v.bound h);
      }

      pub put_stop-QueueIsValid : QueueIsValid maxsize true (put_stop maxsize q).0
      put_stop-QueueIsValid = elim (Bool-cases (is_full maxsize q)) [
        | inl e ↦
            unfold put_stop in
            rw e (record {
              charged =
                  ap tail v.charged
                  ∙ sym (sizes-tail q.items v.ordered)
                  ∙ sym (sizes-put (tail q.items));
              ordered = stops_last-put (tail q.items) ∙ stops_last-tail q.items v.ordered;
              running = λ h. absurd cc;
              bound = λ h. ground (
                arith,
                length-append (tail q.items) (stop_sentinel ∷ []),
                length-tail q.items,
                v.bound h,
              );
            })
        | inr e ↦
            unfold put_stop in
            rw e (record {
              charged = v.charged ∙ sym (sizes-put q.items);
              ordered = stops_last-put q.items ∙ v.ordered;
              running = λ h. absurd cc;
              bound = λ h. ground (arith, length-append q.items (stop_sentinel ∷ []), v.bound h);
            })
      ]
