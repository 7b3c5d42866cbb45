-- ===== src/Threads/Fits.antt =====
-- What holds of the threads in every state that they come to.
use pub_sub_crawl.Base.{ℕ, ◌<◌, ◌≡◌, ◌∙◌, refl, subst, sym, some, [], ◌∷◌, arith, inl, inr}
use pub_sub_crawl.Message.{MsgType, telemetry, alert}
use pub_sub_crawl.PubSub.Bounds.{IsValid}
use pub_sub_crawl.Transport.Connection.{enter-IsValid}
use pub_sub_crawl.System.Registry.{Step-IsValid}
use pub_sub_crawl.PubSub.Topics.{count}
use pub_sub_crawl.System.{System}
use pub_sub_crawl.System.Flags.{Step-ingest, Step-queue}
use pub_sub_crawl.System.Runs.{Step-Sound}
use pub_sub_crawl.System.Safety.{Sound}
use pub_sub_crawl.Main.{Setup, set_up, consumer_telemetry_q, consumer_alerts_q}
use pub_sub_crawl.Main.Startup.{set_up-started, started-Sound}
use pub_sub_crawl.Main.Teardown.{Step-own}
use pub_sub_crawl.Threads.{State, Step, Run, launched}
use pub_sub_crawl.Threads.Refines.{Follows, Step-Follows}
use pub_sub_crawl.Threads.Stages.{Staged, StaysShut}
use pub_sub_crawl.Threads.Places.{Placed, Step-Placed}
use pub_sub_crawl.Threads.Keeps.{Step-keeps}

-- The queues that `main` has made for the consumer.
abbrev pub IsOwn : System → Type 0
IsOwn s = s.own_queues ≡ consumer_alerts_q ∷ consumer_telemetry_q ∷ []

module _ (kind : ℕ → MsgType) where
  pub record Fits (s : State) : Type 0 where
    pub sound : Sound kind s.system
    pub own : IsOwn s.system
    pub registry : IsValid s.system.pubsub_ctx
    pub placed : Placed s
    pub staged : Staged s

  -- The consumer's telemetry queue is one of them.
  pub own_listed : (s : System) → IsOwn s → 0 < count consumer_telemetry_q s.own_queues
  unfolding count
  own_listed s e = rw e (omega arith)

  Follows-keeps :
      (s t : System)
      → Sound kind s
      → IsOwn s
      → IsValid s.pubsub_ctx
      → Follows kind s t
      → Sound kind t × IsOwn t × IsValid t.pubsub_ctx × StaysShut s t
  Follows-keeps s t h own v (inl same) =
      subst (λ x. Sound kind x × IsOwn x × IsValid x.pubsub_ctx × StaysShut s x) (sym same)
        (h, own, v, (λ e. e, λ e. e))
  Follows-keeps s t h own v (inr step) = (
    Step-Sound kind s t h step,
    Step-own kind s t step ∙ own,
    Step-IsValid kind s t v step,
    (Step-ingest kind s t step, Step-queue kind consumer_telemetry_q s t h (own_listed s own) step),
  )

  pub Step-Fits : (s t : State) → Fits s → Step kind s t → Fits t
  Step-Fits s t h step =
      let (sound, own, registry, keep) =
        Follows-keeps s.system t.system h.sound h.own h.registry (Step-Follows kind s t step) in
      record {
        sound = sound;
        own = own;
        registry = registry;
        placed = Step-Placed kind s t step h.placed;
        staged = Step-keeps kind s t step keep h.staged;
      }

  pub Run-Fits : (s t : State) → Fits s → Run kind s t → Fits t
  Run-Fits s _ h Run.here = h
  Run-Fits s t h (Run.next {t = m} run step) = Step-Fits m t (Run-Fits s m h run) step

  module _ (telemetry_kind : kind consumer_telemetry_q ≡ telemetry)
      (alerts_kind : kind consumer_alerts_q ≡ alert) where
    pub launched-Fits :
        (env : Setup) (workers : ℕ) (s : System) → set_up env ≡ some s → Fits (launched workers s)
    launched-Fits env workers s e =
        let first = set_up-started env s e in
        rw first (record {
          sound = started-Sound kind telemetry_kind alerts_kind env;
          own = refl;
          registry =
              enter-IsValid (record { topics = [] }) (some consumer_telemetry_q)
                (some consumer_alerts_q) (record { few = omega arith; each = tt });
          placed = (refl, (refl, refl));
          staged = record {
            asked = λ g. absurd (omega (arith, g));
            ingest_shut = λ g. absurd (omega (arith, g));
            telemetry_shut = λ g. absurd (omega (arith, g));
            producer_gone = λ g. absurd (omega (arith, g));
            workers_gone = λ g. absurd (omega (arith, g));
            consumer_gone = λ g. absurd (omega (arith, g));
            transport_gone = λ g. absurd (omega (arith, g));
          };
        })
