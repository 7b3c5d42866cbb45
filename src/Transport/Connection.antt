-- ===== src/Transport/Connection.antt =====
-- The subscriptions of one connection in `transport_routine`: they are entered separately, and only
-- those that were entered are taken out before the queues are destroyed.
use pub_sub_crawl.Base.{
  ℕ, ◌+◌, ◌<◌, ◌≤◌, ◌≡◌, ◌∙◌, refl, Bool, true, false, ◌&&◌, Option, none, some, arith, Bytes,
  if◌then◌else◌, str_eq, str_eq_refl,
}
use pub_sub_crawl.PubSub.{Context, Status, ok, invalid, subscribe, unsubscribe}
use pub_sub_crawl.PubSub.Bounds.{IsValid, subscribe-IsValid, unsubscribe-IsValid}
use pub_sub_crawl.PubSub.Registry.{subscribed, at_pair, subscribe_lem, unsubscribe_lem}
use pub_sub_crawl.WorkerPool.{topic_telemetry, topic_alerts}

abbrev is_ok : Status → Bool
is_ok ok = true
is_ok invalid = false

-- `queue && pubsub_subscribe(ctx, topic, queue) == 0`; the queue is none where `msg_queue_create`
-- returned NULL.
unfoldable pub joins : Context → Bytes → Option ℕ → Bool × Context
joins ctx topic none = (false, ctx)
joins ctx topic (some queue) =
    let (status, ctx') = subscribe ctx (some topic) (some queue) in (is_ok status, ctx')

-- `if (subscribed) pubsub_unsubscribe(ctx, topic, queue)`.
pub leaves : Bool → Context → Bytes → Option ℕ → Context
leaves false ctx topic queue = ctx
leaves true ctx topic queue = (unsubscribe ctx (some topic) queue).1

-- What the two calls of `pubsub_subscribe` leave: whether each succeeded, and the registry.
pub record Entered : Type 0 where
  pub telemetry : Bool
  pub alerts : Bool
  pub ctx : Context

unfoldable pub enter : Context → Option ℕ → Option ℕ → Entered
unfolding joins
enter ctx telemetry_sub alerts_sub =
    let (telemetry, ctx1) = joins ctx topic_telemetry telemetry_sub in
    let (alerts, ctx2) = joins ctx1 topic_alerts alerts_sub in
    record { telemetry = telemetry; alerts = alerts; ctx = ctx2 }

-- The client is served only with both.
abbrev pub is_served : Entered → Bool
is_served e = e.telemetry && e.alerts

-- The end of the connection, in the registry `ctx` that the serving has left.
pub quit : Entered → Context → Option ℕ → Option ℕ → Context
unfolding leaves
quit e ctx telemetry_sub alerts_sub =
    leaves e.alerts (leaves e.telemetry ctx topic_telemetry telemetry_sub) topic_alerts alerts_sub

abbrev pub taken_by : Bool → Bytes → Option ℕ → Bytes → ℕ → ℕ
taken_by b topic none m r = 0
taken_by b topic (some q) m r = if b then at_pair topic q m r else 0

-- A queue of this connection that is in no list yet.
abbrev pub IsNew : Context → Bytes → Option ℕ → Type 0
IsNew ctx topic none = Unit {0}
IsNew ctx topic (some q) = subscribed ctx topic q ≡ 0

pub joins-lem :
    (ctx : Context) (topic : Bytes) (queue : Option ℕ) (m : Bytes) (r : ℕ)
    → IsNew ctx topic queue
    → subscribed (joins ctx topic queue).1 m r
      ≡ subscribed ctx m r + taken_by (joins ctx topic queue).0 topic queue m r
unfolding joins
joins-lem ctx topic none m r new = omega arith
joins-lem ctx topic (some q) m r new =
    ground (arith, (subscribe_lem ctx topic q).0, (subscribe_lem ctx topic q).1 m r)

-- What was entered stands in the list.
abbrev Stands : Bool → Context → Bytes → Option ℕ → Type 0
Stands b ctx topic none = b ≡ false
Stands b ctx topic (some q) = b ≡ true → 0 < subscribed ctx topic q

joins-Stands :
    (ctx : Context) (topic : Bytes) (queue : Option ℕ)
    → IsNew ctx topic queue
    → Stands (joins ctx topic queue).0 (joins ctx topic queue).1 topic queue
unfolding joins
joins-Stands ctx topic none new = refl
joins-Stands ctx topic (some q) new =
    λ entered. ground (arith, entered, joins-lem ctx topic (some q) topic q new, str_eq_refl topic)

Stands-le :
    (b : Bool) (ctx ctx' : Context) (topic : Bytes) (queue : Option ℕ)
    → ((r : ℕ) → subscribed ctx topic r ≤ subscribed ctx' topic r)
    → Stands b ctx topic queue
    → Stands b ctx' topic queue
Stands-le b ctx ctx' topic none le h = h
Stands-le b ctx ctx' topic (some q) le h = λ entered. omega (arith, le q, h entered)

-- A subscription that was entered is taken out.
leaves-lem :
    (b : Bool) (ctx : Context) (topic : Bytes) (queue : Option ℕ) (m : Bytes) (r : ℕ)
    → Stands b ctx topic queue
    → subscribed (leaves b ctx topic queue) m r + taken_by b topic queue m r ≡ subscribed ctx m r
unfolding leaves
leaves-lem false ctx topic none m r there = omega arith
leaves-lem false ctx topic (some q) m r there = omega arith
leaves-lem true ctx topic none m r there = cc
leaves-lem true ctx topic (some q) m r there =
    ground (arith, (unsubscribe_lem ctx topic q).1 m r, there refl)

-- The two topics have nothing to do with each other.
taken_by-other :
    (b : Bool) (queue : Option ℕ) (r : ℕ) → taken_by b topic_telemetry queue topic_alerts r ≡ 0
unfolding str_eq
taken_by-other b none r = refl
taken_by-other b (some q) r = ground arith

pub IsNew-after :
    (ctx ctx' : Context) (topic : Bytes) (queue : Option ℕ)
    → ((r : ℕ) → subscribed ctx' topic r ≡ subscribed ctx topic r)
    → IsNew ctx topic queue
    → IsNew ctx' topic queue
IsNew-after ctx ctx' topic none e h = h
IsNew-after ctx ctx' topic (some q) e h = e q ∙ h

-- Whichever of the two subscriptions failed, after the connection every queue is subscribed to every
-- topic as before it, so that no destroyed queue stays in the registry. The serving may have changed
-- the registry, but not who is subscribed.
pub quit-enter :
    (ctx left : Context) (telemetry_sub alerts_sub : Option ℕ)
    → IsNew ctx topic_telemetry telemetry_sub
    → IsNew ctx topic_alerts alerts_sub
    → ((m : Bytes) (r : ℕ)
        → subscribed left m r ≡ subscribed (enter ctx telemetry_sub alerts_sub).ctx m r)
    → (m : Bytes) (r : ℕ)
    → subscribed (quit (enter ctx telemetry_sub alerts_sub) left telemetry_sub alerts_sub) m r
      ≡ subscribed ctx m r
unfolding quit enter
quit-enter ctx left t a new_t new_a same m r =
    let b : Bool = (joins ctx topic_telemetry t).0 in
    let ctx1 : Context = (joins ctx topic_telemetry t).1 in
    let d : Bool = (joins ctx1 topic_alerts a).0 in
    let ctx2 : Context = (joins ctx1 topic_alerts a).1 in
    let ctx3 : Context = leaves b left topic_telemetry t in
    let new_a1 : IsNew ctx1 topic_alerts a =
      IsNew-after ctx ctx1 topic_alerts a
        (λ q.
          omega (arith, joins-lem ctx topic_telemetry t topic_alerts q new_t, taken_by-other b t q))
        new_a in
    let stands_t : Stands b left topic_telemetry t =
      Stands-le b ctx1 left topic_telemetry t
        (λ q.
          omega
            (arith, same topic_telemetry q, joins-lem ctx1 topic_alerts a topic_telemetry q new_a1))
        (joins-Stands ctx topic_telemetry t new_t) in
    let stands_a : Stands d ctx3 topic_alerts a =
      Stands-le d ctx2 ctx3 topic_alerts a
        (λ q. omega (
          arith,
          same topic_alerts q,
          leaves-lem b left topic_telemetry t topic_alerts q stands_t,
          taken_by-other b t q,
        ))
        (joins-Stands ctx1 topic_alerts a new_a1) in
    omega (
      arith,
      same m r,
      joins-lem ctx topic_telemetry t m r new_t,
      joins-lem ctx1 topic_alerts a m r new_a1,
      leaves-lem b left topic_telemetry t m r stands_t,
      leaves-lem d ctx3 topic_alerts a m r stands_a,
    )

-- The registry stays valid.
joins-IsValid :
    (ctx : Context) (topic : Bytes) (queue : Option ℕ)
    → IsValid ctx
    → IsValid (joins ctx topic queue).1
unfolding joins
joins-IsValid ctx topic none v = v
joins-IsValid ctx topic (some q) v = subscribe-IsValid ctx (some topic) (some q) v

pub enter-IsValid :
    (ctx : Context) (telemetry_sub alerts_sub : Option ℕ)
    → IsValid ctx
    → IsValid (enter ctx telemetry_sub alerts_sub).ctx
unfolding enter
enter-IsValid ctx telemetry_sub alerts_sub v =
    joins-IsValid (joins ctx topic_telemetry telemetry_sub).1 topic_alerts alerts_sub
      (joins-IsValid ctx topic_telemetry telemetry_sub v)

leaves-IsValid :
    (b : Bool) (ctx : Context) (topic : Bytes) (queue : Option ℕ)
    → IsValid ctx
    → IsValid (leaves b ctx topic queue)
unfolding leaves
leaves-IsValid false ctx topic queue v = v
leaves-IsValid true ctx topic queue v = unsubscribe-IsValid ctx (some topic) queue v

pub quit-IsValid :
    (e : Entered) (ctx : Context) (telemetry_sub alerts_sub : Option ℕ)
    → IsValid ctx
    → IsValid (quit e ctx telemetry_sub alerts_sub)
unfolding quit
quit-IsValid e ctx telemetry_sub alerts_sub v =
    leaves-IsValid e.alerts (leaves e.telemetry ctx topic_telemetry telemetry_sub) topic_alerts
      alerts_sub (leaves-IsValid e.telemetry ctx topic_telemetry telemetry_sub v)
