-- ===== src/Transport/Restores.antt =====
-- What `transport_routine` holds when it has ended.
use pub_sub_crawl.Base.{
  ℕ, ◌+◌, ◌≡◌, ◌≢◌, ◌∙◌, refl, Bool, true, false, Option, none, some, List, [], ◌∷◌, ◌++◌, arith,
  Bytes, All, Bool-cases, inl, inr,
}
use pub_sub_crawl.Handshake.{perform}
use pub_sub_crawl.PubSub.{Context}
use pub_sub_crawl.PubSub.Registry.{subscribed}
use pub_sub_crawl.WorkerPool.{topic_telemetry, topic_alerts}
use pub_sub_crawl.Transport.Connection.{
  Entered, enter, quit, is_served, IsNew, IsNew-after, quit-enter,
}
use pub_sub_crawl.Transport.Accept.{
  number, Visit, Poll, accepted, Thread, ended, new_conn, close, listen_to, join, hang_up, visit,
  transport_routine,
}

-- The thread holds what it held before, and the subscriptions are those from before.
pub record Restored (t t' : Thread) : Type 0 where
  pub same_fds : t'.client_fds ≡ t.client_fds
  pub same_queues : t'.queues ≡ t.queues
  pub same_args : t'.cmd_args ≡ t.cmd_args
  pub same_listeners : t'.listeners ≡ t.listeners
  pub same_subscriptions :
      (m : Bytes) (r : ℕ) → subscribed t'.pubsub_ctx m r ≡ subscribed t.pubsub_ctx m r

-- A client that goes at some time: the handshake returns, and where it is served, that ends. Its
-- queues are new, and while it is served nobody else changes the subscriptions.
pub record IsPassing (ctx : Context) (v : Visit) : Type 0 where
  pub returns : (perform new_conn v.writes v.reads).verdict ≢ none
  pub change : Context → Context
  pub goes : v.serving ≡ some change
  pub unchanged : (c : Context) (m : Bytes) (r : ℕ) → subscribed (change c) m r ≡ subscribed c m r
  pub telemetry_new : IsNew ctx topic_telemetry v.telemetry_sub
  pub alerts_new : IsNew ctx topic_alerts v.alerts_sub

abbrev pub IsFinite : Context → Poll → Type 0
IsFinite ctx (accepted v) = IsPassing ctx v
IsFinite ctx p = Unit {0}

Restored-self : (t : Thread) → Restored t t
Restored-self t = record {
  same_fds = refl;
  same_queues = refl;
  same_args = refl;
  same_listeners = refl;
  same_subscriptions = λ m r. refl;
}

Restored-then : (t u w : Thread) → Restored t u → Restored u w → Restored t w
Restored-then t u w a b = record {
  same_fds = b.same_fds ∙ a.same_fds;
  same_queues = b.same_queues ∙ a.same_queues;
  same_args = b.same_args ∙ a.same_args;
  same_listeners = b.same_listeners ∙ a.same_listeners;
  same_subscriptions = λ m r. b.same_subscriptions m r ∙ a.same_subscriptions m r;
}

IsPassing-after :
    (ctx ctx' : Context) (v : Visit)
    → ((m : Bytes) (r : ℕ) → subscribed ctx' m r ≡ subscribed ctx m r)
    → IsPassing ctx v
    → IsPassing ctx' v
IsPassing-after ctx ctx' v same h = record {
  returns = h.returns;
  change = h.change;
  goes = h.goes;
  unchanged = h.unchanged;
  telemetry_new =
      IsNew-after ctx ctx' topic_telemetry v.telemetry_sub (same topic_telemetry) h.telemetry_new;
  alerts_new = IsNew-after ctx ctx' topic_alerts v.alerts_sub (same topic_alerts) h.alerts_new;
}

IsFinite-after :
    (ctx ctx' : Context) (p : Poll)
    → ((m : Bytes) (r : ℕ) → subscribed ctx' m r ≡ subscribed ctx m r)
    → IsFinite ctx p
    → IsFinite ctx' p
IsFinite-after ctx ctx' (accepted v) same h = IsPassing-after ctx ctx' v same h
IsFinite-after ctx ctx' _ same h = tt

All-after :
    (ctx ctx' : Context) (ps : List Poll)
    → ((m : Bytes) (r : ℕ) → subscribed ctx' m r ≡ subscribed ctx m r)
    → All (IsFinite ctx) ps
    → All (IsFinite ctx') ps
All-after ctx ctx' [] same h = tt
All-after ctx ctx' (p ∷ ps) same h =
    (IsFinite-after ctx ctx' p same h.0, All-after ctx ctx' ps same h.1)

-- A client comes and goes.
visit-Restored :
    (v : Visit) (t : Thread)
    → IsPassing t.pubsub_ctx v
    → (t' : Thread) × (visit v t ≡ some t') × Restored t t'
unfolding visit
visit-Restored v t h = pick (perform new_conn v.writes v.reads).verdict refl
  where
    e : Entered
    e = enter t.pubsub_ctx v.telemetry_sub v.alerts_sub

    opened : Thread
    opened = record t { client_fds = t.client_fds + 1 }

    made : Thread
    made = record opened {
      pubsub_ctx = e.ctx;
      queues = t.queues + number v.telemetry_sub + number v.alerts_sub;
    }

    back :
        (left : Context)
        → ((m : Bytes) (r : ℕ) → subscribed left m r ≡ subscribed e.ctx m r)
        → (m : Bytes) (r : ℕ)
        → subscribed (quit e left v.telemetry_sub v.alerts_sub) m r ≡ subscribed t.pubsub_ctx m r
    back left same =
        quit-enter t.pubsub_ctx left v.telemetry_sub v.alerts_sub h.telemetry_new h.alerts_new same

    pick :
        (o : Option Bool)
        → (perform new_conn v.writes v.reads).verdict ≡ o
        → (t' : Thread) × (visit v t ≡ some t') × Restored t t'
    pick none no_answer = absurd (h.returns no_answer)
    pick (some false) failed = (
      close opened,
      rw (visit, failed) refl,
      record {
        same_fds = omega arith;
        same_queues = refl;
        same_args = refl;
        same_listeners = refl;
        same_subscriptions = λ m r. refl;
      },
    )
    pick (some true) shaken = elim (Bool-cases (is_served e)) [
      | inr refused ↦ (
        hang_up v e e.ctx made,
        rw (visit, shaken, refused) refl,
        record {
          same_fds = omega arith;
          same_queues = omega arith;
          same_args = refl;
          same_listeners = refl;
          same_subscriptions = back e.ctx (λ m r. refl);
        },
      )
      | inl served ↦ (
        hang_up v e (h.change e.ctx) (join v (listen_to v made)),
        rw (visit, shaken, served, h.goes) refl,
        record {
          same_fds = ground arith;
          same_queues = ground arith;
          same_args = ground arith;
          same_listeners = ground arith;
          same_subscriptions = back (h.change e.ctx) (h.unchanged e.ctx);
        },
      )
    ]

-- Whatever poll, accept and the clients do before, once transport_routine sees the shutdown it ends, with
-- every client's descriptor closed, its queues destroyed, its listener joined and its block freed, and
-- everybody else subscribed as before; provided that the calls that meet a client return and its queues
-- are new.
pub transport_routine-Restored :
    (ps : List Poll) (t : Thread)
    → All (IsFinite t.pubsub_ctx) ps
    → (t' : Thread) × (transport_routine (ps ++ Poll.shut_down ∷ []) t ≡ ended t') × Restored t t'
unfolding transport_routine
transport_routine-Restored [] t h = (t, refl, Restored-self t)
transport_routine-Restored (Poll.shut_down ∷ ps) t h = (t, refl, Restored-self t)
transport_routine-Restored (Poll.interrupted ∷ ps) t h = transport_routine-Restored ps t h.1
transport_routine-Restored (Poll.failed ∷ ps) t h = (t, refl, Restored-self t)
transport_routine-Restored (Poll.timed_out ∷ ps) t h = transport_routine-Restored ps t h.1
transport_routine-Restored (Poll.refused ∷ ps) t h = transport_routine-Restored ps t h.1
transport_routine-Restored (Poll.accepted v ∷ ps) t h =
    let (u, came, restored) = visit-Restored v t h.0 in
    let (t', rest, more) =
      transport_routine-Restored ps u
        (All-after t.pubsub_ctx u.pubsub_ctx ps restored.same_subscriptions h.1) in
    (t', rw (transport_routine, came) rest, Restored-then t u t' restored more)
