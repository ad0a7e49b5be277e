-- ===== src/Events/Webhooks/Attempts.antt =====
-- windows_os_api/core/events/webhooks.py: what the attempts of a delivery send.
use win_os_layer.Common.{
  ℕ, zero, suc, ◌+◌, ◌-◌, ◌≤◌, String, ◌≡◌, refl, sym, ap, ◌∙◌, ◌≢◌, true, false, List, [], ◌∷◌,
  ◌++◌, arith, ◌==◌, eq_iff, eq_refl, nat_eq, if_rule, length, append_cons, length-append, All,
  All-append,
}
use Prim.Native.String
use win_os_layer.Events.Webhooks.{Network, WebhookDestination, Event, Settings, DeliveryResult}
use win_os_layer.Events.Webhooks.Dispatcher.{
  Post, Transport, Last, Verdict, done, give_up, again, judge, succeeded, failed, delay_at,
  signing_message, sign_payload, verify_signature, signed, pause, attempt_all,
}
use text.Mathlib.TextLemmas.{append-eq-nil_iff}

-- The world with a list of what was posted, the last one first.
unfoldable pub recording : {W : Type 0} → Transport W → Transport (W × List Post)
recording transport = record {
  now = λ w. transport.now w.0;
  post = λ w p. let (v, answer) = transport.post w.0 p in ((v, p ∷ w.1), answer);
  sleep = λ w t. (transport.sleep w.0 t, w.1);
}

marked : (digest : String) → (String.◌++◌ "sha256=" digest == "") ≡ false
marked digest =
    let is_marked : String.◌++◌ "sha256=" digest ≢ "" = λ e.
      let (p, q) = (append-eq-nil_iff {p = "sha256="} {q = digest}).0 e in
      let no : false ≡ true = ap (λ t. t == "") p in ground arith in
    ground (arith, eq_iff (String.◌++◌ "sha256=" digest) "", is_marked)

-- A post of this event to this destination, which the destination's secret verifies where neither the id
-- of the event nor the time stamp is empty.
pub record IsSigned (hmac : String → String → String) (dest : WebhookDestination) (event : Event)
    (p : Post) : Type 0 where
  pub to_destination : p.url ≡ dest.url
  pub about : p.event_id ≡ event.id
  pub content : p.body ≡ event.body
  pub verifies :
      event.id ≢ ""
      → p.timestamp ≢ ""
      → verify_signature hmac p.body p.event_id p.timestamp p.signature dest.secret ≡ true

module _ {W : Type 0} (transport : Transport W) (hmac : String → String → String) (net : Network)
    (settings : Settings) where
  signed-IsSigned :
      (dest : WebhookDestination) (event : Event) (ts : String)
      → IsSigned hmac dest event (signed transport hmac net settings dest event ts)
  unfolding verify_signature sign_payload
  signed-IsSigned dest event ts = record {
    to_destination = refl;
    about = refl;
    content = refl;
    verifies = λ e t. ground (
      arith,
      eq_refl (sign_payload hmac event.body event.id ts dest.secret),
      eq_iff event.id "",
      eq_iff ts "",
      marked (hmac dest.secret (signing_message hmac event.body event.id ts)),
    );
  }

  pause-log :
      (left attempt : ℕ) (w : W × List Post)
      → (pause (recording transport) hmac net settings left attempt w).1 ≡ w.1
  unfolding pause recording
  pause-log zero attempt w = refl
  pause-log (suc left) attempt w =
      let delay = delay_at (attempt - 1) settings.first_delay settings.later_delays in
      if_rule (λ (v : W × List Post). v.1 ≡ w.1) (nat_eq delay 0) _ _ refl refl

  -- What the loop sent: as many posts as attempts, at most those that were left, all of them signed.
  abbrev pub Sent :
      WebhookDestination → Event → ℕ → ℕ → W × List Post → (W × List Post) × DeliveryResult → Type 0
  Sent dest event left n w (w', r) =
      (posts : List Post) × (w'.1 ≡ posts ++ w.1)
      × (r.attempts ≡ length posts + n)
      × (length posts ≤ left)
      × All (IsSigned hmac dest event) posts

  -- One more post, before those that followed it.
  Sent-again :
      (dest : WebhookDestination) (event : Event) (left n : ℕ) (w : W × List Post) (p : Post)
      (v : W × List Post) (out : (W × List Post) × DeliveryResult)
      → IsSigned hmac dest event p
      → v.1 ≡ p ∷ w.1
      → Sent dest event left (n + 1) v out
      → Sent dest event (suc left) n w out
  Sent-again dest event left n w p v out good e (posts, log, count, few, all) = (
    posts ++ p ∷ [],
    log ∙ (ap (λ l. posts ++ l) e ∙ sym (append_cons posts p w.1)),
    omega (arith, length-append posts (p ∷ [])),
    omega (arith, length-append posts (p ∷ [])),
    All-append (IsSigned hmac dest event) posts (p ∷ []) all (good, tt),
  )

  follow-Sent :
      (dest : WebhookDestination) (event : Event) (left n : ℕ) (w v : W × List Post) (p : Post)
      → IsSigned hmac dest event p
      → v.1 ≡ p ∷ w.1
      → ((last : Last)
          → Sent dest event left
              (n + 1)
              (pause (recording transport) hmac net settings left (n + 1) v)
              (attempt_all
                (recording transport)
                hmac
                net
                settings
                dest
                event
                left
                (n + 1)
                last
                (pause (recording transport) hmac net settings left (n + 1) v)))
      → (verdict : Verdict)
      → Sent dest event (suc left) n w (elim verdict as (λ x. (W × List Post) × DeliveryResult) [
        | done code ↦ (v, succeeded (n + 1) code)
        | give_up last ↦ (v, failed (n + 1) last)
        | again last ↦
            attempt_all
              (recording transport)
              hmac
              net
              settings
              dest
              event
              left
              (n + 1)
              last
              (pause (recording transport) hmac net settings left (n + 1) v)
      ])
  follow-Sent dest event left n w v p good e later (done code) =
      (p ∷ [], e, omega arith, omega arith, (good, tt))
  follow-Sent dest event left n w v p good e later (give_up last) =
      (p ∷ [], e, omega arith, omega arith, (good, tt))
  follow-Sent dest event left n w v p good e later (again last) =
      Sent-again dest event left n w p
        (pause (recording transport) hmac net settings left (n + 1) v)
        (attempt_all (recording transport) hmac net settings dest event left (n + 1) last
          (pause (recording transport) hmac net settings left (n + 1) v))
        good (pause-log left (n + 1) v ∙ e) (later last)

  pub attempt_all-Sent :
      (dest : WebhookDestination) (event : Event) (left n : ℕ) (last : Last) (w : W × List Post)
      → Sent dest event left n w
          (attempt_all (recording transport) hmac net settings dest event left n last w)
  unfolding attempt_all recording
  attempt_all-Sent dest event zero n last w = ([], refl, omega arith, omega arith, tt)
  attempt_all-Sent dest event (suc left) n last w =
      let p = signed transport hmac net settings dest event (transport.now w.0) in
      let (v, answer) = (recording transport).post w p in
      follow-Sent dest event left n w v p (signed-IsSigned dest event (transport.now w.0)) refl
        (λ next.
          attempt_all-Sent dest event left (n + 1) next
            (pause (recording transport) hmac net settings left (n + 1) v))
        (judge last answer)
