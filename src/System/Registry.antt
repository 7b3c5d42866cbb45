-- ===== src/System/Registry.antt =====
-- The registry while the threads run.
use pub_sub_crawl.Base.{ℕ, subst}
use pub_sub_crawl.Message.{MsgType}
use pub_sub_crawl.PubSub.Bounds.{IsValid}
use pub_sub_crawl.WorkerPool.Flags.{Keeps, handle-Keeps}
use pub_sub_crawl.Transport.Connection.{enter-IsValid, quit-IsValid}
use pub_sub_crawl.System.{System, Step, workers_of}

module _ (kind : ℕ → MsgType) where
  pub Step-IsValid : (s t : System) → IsValid s.pubsub_ctx → Step kind s t → IsValid t.pubsub_ctx
  Step-IsValid s _ v (Step.sleeps e r) = v
  Step-IsValid s _ v (Step.breaks e r) = v
  Step-IsValid s _ v (Step.parks e r) = v
  Step-IsValid s _ v (Step.sleeps_late e r) = v
  Step-IsValid s _ v (Step.breaks_late e r) = v
  Step-IsValid s _ v (Step.takes r) = v
  Step-IsValid s _ v (Step.handles now {x = x} k r) =
      (subst (Keeps (workers_of s)) r (handle-Keeps now x (workers_of s))).1.registry v
  Step-IsValid s _ v (Step.commands line e r) = v
  Step-IsValid s _ v (Step.logs e r) = v
  Step-IsValid s _ v (Step.serves ws ws' out going p r) = v
  Step-IsValid s _ v (Step.consumes printed p r) = v
  Step-IsValid s _ v (Step.opens {telemetry_sub = o} {alerts_sub = p} e f g) =
      enter-IsValid s.pubsub_ctx o p v
  Step-IsValid s _ v (Step.closes e l) = v
  Step-IsValid s _ v (Step.unsubscribes {c = c} e l) =
      quit-IsValid c.entered s.pubsub_ctx c.telemetry_sub c.alerts_sub v
  Step-IsValid s _ v Step.shuts_ingest = v
  Step-IsValid s _ v (Step.shuts e) = v
