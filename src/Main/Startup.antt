-- ===== src/Main/Startup.antt =====
-- What `main` answers to every failure of its setup, and the state that the threads start from.
use pub_sub_crawl.Base.{
  ℕ, ◌≡◌, ◌∙◌, sym, ◌⊎◌, refl, Bool, true, false, ◌&&◌, none, some, [], ◌∷◌, arith, if◌then◌else◌,
  inl, inr, Bool-cases,
}
use pub_sub_crawl.Message.{MsgType, telemetry, alert}
use pub_sub_crawl.MsgQueue
use pub_sub_crawl.MsgQueue.{Queue, fresh, default_capacity}
use pub_sub_crawl.PubSub
use pub_sub_crawl.PubSub.{Context, subscribe, find_or_create_topic, find_topic, find_from, index_of}
use pub_sub_crawl.RadioControl
use pub_sub_crawl.RadioControl.{RadioControl, default_interval_ms}
use pub_sub_crawl.WorkerPool
use pub_sub_crawl.WorkerPool.{Start, default_size}
use pub_sub_crawl.Transport.Lifecycle
use pub_sub_crawl.Transport.Connection.{enter, joins}
use pub_sub_crawl.System.{System, Reach, connect}
use pub_sub_crawl.System.Faults.{IsFaultless, Reach-IsFaultless}
use mathlib.Core.Option.{some-injective}
use pub_sub_crawl.PubSub.Topics.{count, subscribers}
use pub_sub_crawl.System.Safety.{Sound}
use pub_sub_crawl.System.Clients.{opens-Sound}
use pub_sub_crawl.System.Queues.{fresh-Holding}
use pub_sub_crawl.System.Ledger.{IsRaw}
use pub_sub_crawl.Main.{
  Setup, set_up, base, socket_path, is_some, consumer_telemetry_q, consumer_alerts_q,
}

-- Everything that `main` asks for is given.
abbrev pub is_given : MsgQueue.Setup → Bool
is_given q = q.queue_malloc && q.items_malloc && q.mutex_init && q.not_empty_init && q.not_full_init

abbrev pub all_given : Setup → Bool
all_given env =
    env.sigmask_ok
    && (env.context_malloc && env.context_mutex)
    && is_given env.ingest
    && (env.control_malloc && env.control_mutex)
    && is_some (WorkerPool.create true env.pool_ok env.threads_ok env.starts default_size).pool
    && (Lifecycle.create (record env.transport { pointers = true }) socket_path).made
    && is_given env.telemetry_queue
    && is_given env.alerts_queue
    && env.producer_ok
    && env.consumer_ok

queue-lem :
    (q : MsgQueue.Setup)
    → (MsgQueue.create q 0).queue ≡ (if is_given q then some (fresh default_capacity) else none)
unfolding MsgQueue.create
queue-lem q = ground arith

context-lem :
    (a b : Bool) → PubSub.create a b ≡ (if a && b then some (record { topics = [] }) else none)
unfolding PubSub.create
context-lem a b = ground arith

control-lem :
    (a b : Bool)
    → RadioControl.create a b default_interval_ms
      ≡ (if a && b then some (record { interval_ms = default_interval_ms }) else none)
unfolding RadioControl.create
control-lem a b = ground arith

no_pool :
    (pool_ok threads_ok : Bool) (starts : ℕ → Start)
    → (WorkerPool.create false pool_ok threads_ok starts default_size).pool ≡ none
unfolding WorkerPool.create
no_pool pool_ok threads_ok starts = refl

no_transport :
    (t : Lifecycle.Setup)
    → (Lifecycle.create (record t { pointers = false }) socket_path).made ≡ false
unfolding Lifecycle.create
no_transport t = refl

-- The program when it waits for the signal.
abbrev pub started : Setup → System
started env =
    record (connect (some consumer_telemetry_q) (some consumer_alerts_q) (
      base (record { topics = [] }) (fresh default_capacity)
        (record { interval_ms = default_interval_ms }) env.fails)) {
          conn = none;
          own_queues = consumer_alerts_q ∷ consumer_telemetry_q ∷ [];
        }

pub set_up-lem : (env : Setup) → set_up env ≡ (if all_given env then some (started env) else none)
unfolding set_up subscribe enter joins find_or_create_topic find_topic find_from index_of
set_up-lem env =
    rw
      (
        context-lem env.context_malloc env.context_mutex,
        queue-lem env.ingest,
        control-lem env.control_malloc env.control_mutex,
        queue-lem env.telemetry_queue,
        queue-lem env.alerts_queue,
      )
      (elim (Bool-cases (env.context_malloc && env.context_mutex)) [
        | inr no_context ↦ elim (Bool-cases (is_given env.ingest)) [
          | inl ingest ↦
              rw (no_context, ingest, no_pool env.pool_ok env.threads_ok env.starts) (ground arith)
          | inr no_ingest ↦
              rw (no_context, no_ingest, no_pool env.pool_ok env.threads_ok env.starts)
                (ground arith)
        ]
        | inl context ↦ elim (Bool-cases (is_given env.ingest)) [
          | inr no_ingest ↦
              rw (context, no_ingest, no_pool env.pool_ok env.threads_ok env.starts) (ground arith)
          | inl ingest ↦ elim (Bool-cases (env.control_malloc && env.control_mutex)) [
            | inr no_control ↦
                rw (context, ingest, no_control, no_transport env.transport) (ground arith)
            | inl control ↦ rw (context, ingest, control) (ground arith)
          ]
        ]
      ])

pub set_up-started : (env : Setup) (s : System) → set_up env ≡ some s → s ≡ started env
set_up-started env s e = elim (Bool-cases (all_given env)) [
  | inr some_missing ↦ absurd (ground (arith, e, set_up-lem env, some_missing))
  | inl all ↦ some-injective s (started env) (sym e ∙ set_up-lem env ∙ rw all refl)
]

module _ (kind : ℕ → MsgType) (telemetry_kind : kind consumer_telemetry_q ≡ telemetry)
    (alerts_kind : kind consumer_alerts_q ≡ alert) where
  base-Sound :
      (control : RadioControl) (fails : ℕ → Bool)
      → Sound kind (base (record { topics = [] }) (fresh default_capacity) control fails)
  unfolding fresh count subscribers
  base-Sound control fails = record {
    once = λ i. omega arith;
    routed = λ t i listed. absurd (omega (arith, listed));
    ledger = record {
      holding = fresh-Holding IsRaw [];
      in_hand = tt;
      stocked = λ i listed. absurd (omega (arith, listed));
      balance = λ p. refl;
    };
    connected = refl;
  }

  pub started-Sound : (env : Setup) → Sound kind (started env)
  unfolding count
  started-Sound env =
      let h =
        opens-Sound kind
          (base (record { topics = [] }) (fresh default_capacity)
            (record { interval_ms = default_interval_ms }) env.fails)
          (some consumer_telemetry_q) (some consumer_alerts_q) refl (refl, telemetry_kind)
          (refl, alerts_kind)
          (base-Sound (record { interval_ms = default_interval_ms }) env.fails) in
      record { once = h.once; routed = h.routed; ledger = h.ledger; connected = refl }

  -- `main` comes to wait for the signal exactly if it is given everything that it asks for, and
  -- otherwise returns 1; the threads then start from a sound state.
  pub set_up-Sound :
      (env : Setup)
      → ((all_given env ≡ false) × (set_up env ≡ none))
        ⊎ ((all_given env ≡ true) × ((s : System) × (set_up env ≡ some s) × Sound kind s))
  set_up-Sound env = elim (Bool-cases (all_given env)) [
    | inr e ↦ inl (e, rw (set_up-lem env, e) refl)
    | inl e ↦ inr (e, (started env, rw (set_up-lem env, e) refl, started-Sound env))
  ]

  -- Whatever clients send and whichever calls of `malloc` fail, in every state that the threads come to,
  -- in any interleaving of their steps, the queues that the next thread works on exist, and it does
  -- not read or free a dead block or take a struct for one of another type, unless it is the listener
  -- in its line of log behind a queued alert.
  pub set_up-IsFaultless :
      (env : Setup) (s t : System) → set_up env ≡ some s → Reach kind s t → IsFaultless kind t
  set_up-IsFaultless env s t e run = elim (set_up-Sound env) [
    | inl (no_start, fails) ↦ absurd (ground (arith, e, fails))
    | inr (all, (r, starts, h)) ↦
        let same : s ≡ r = some-injective s r (sym e ∙ starts) in
        Reach-IsFaultless kind s t (rw same h) run
  ]
