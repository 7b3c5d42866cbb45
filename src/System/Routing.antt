-- ===== src/System/Routing.antt =====
-- Who is subscribed to what while clients come and go.
use pub_sub_crawl.Base.{
  ℕ, zero, suc, ◌≡◌, ◌≢◌, ◌∙◌, sym, refl, ap, true, false, Option, none, some, List, arith, Bytes,
  str_eq,
}
use native.Mathlib.Decide.{ℕ_discrete}
use pub_sub_crawl.Message.{MsgType, telemetry, alert}
use pub_sub_crawl.PubSub.{Context}
use pub_sub_crawl.PubSub.Topics.{count}
use pub_sub_crawl.PubSub.Registry.{subscribed}
use pub_sub_crawl.WorkerPool.{topic_of, topic_telemetry, topic_alerts}
use pub_sub_crawl.Transport.Connection.{IsNew, joins, joins-lem, enter, quit, quit-enter}
use pub_sub_crawl.System.{Connection, IsFresh, with_queue}
use pub_sub_crawl.System.Handling.{Routed, named}

-- The topic of a queue that gets telemetry, or of one that gets alerts.
same_topic : (m t : MsgType) → str_eq (topic_of m) (topic_of t) ≡ true → named t ≡ named m
unfolding str_eq
same_topic telemetry telemetry e = refl
same_topic telemetry alert e = cc
same_topic telemetry (MsgType.other n) e = refl
same_topic alert telemetry e = cc
same_topic alert alert e = refl
same_topic alert (MsgType.other n) e = cc
same_topic (MsgType.other n) telemetry e = refl
same_topic (MsgType.other n) alert e = cc
same_topic (MsgType.other n) (MsgType.other k) e = refl

module _ (kind : ℕ → MsgType) where
  -- A queue that does not exist is not subscribed.
  pub IsFresh-IsNew :
      (m t : MsgType) (subs : List ℕ) (ctx : Context) (o : Option ℕ)
      → Routed kind subs ctx
      → IsFresh kind m subs o
      → IsNew ctx (topic_of t) o
  IsFresh-IsNew m t subs ctx none r f = tt
  IsFresh-IsNew m t subs ctx (some i) r f = absent (subscribed ctx (topic_of t) i) refl
    where
      absent : (n : ℕ) → subscribed ctx (topic_of t) i ≡ n → n ≡ 0
      absent zero e = refl
      absent (suc n) e =
          let (listed, k) = r t i (omega (arith, e)) in absurd (omega (arith, listed, f.0))

  -- Who is subscribed to no more than before is subscribed as before.
  pub Routed-less :
      (subs : List ℕ) (ctx ctx' : Context)
      → ((m : Bytes) (k : ℕ) → subscribed ctx' m k ≡ subscribed ctx m k)
      → Routed kind subs ctx
      → Routed kind subs ctx'
  Routed-less subs ctx ctx' same r t k listed = r t k (omega (arith, listed, same (topic_of t) k))

  -- A created queue that is subscribed to the topic it is for.
  Routed-joins :
      (m : MsgType) (subs : List ℕ) (ctx : Context) (o : Option ℕ)
      → named m ≡ m
      → Routed kind subs ctx
      → IsFresh kind m subs o
      → Routed kind (with_queue o subs) (joins ctx (topic_of m) o).1
  unfolding joins count
  Routed-joins m subs ctx none e r f t k listed = r t k listed
  Routed-joins m subs ctx (some i) e r f t k listed =
      let change =
        joins-lem ctx (topic_of m) (some i) (topic_of t) k
          (IsFresh-IsNew m m subs ctx (some i) r f) in
      elim (ℕ_discrete k i) [
        | yes same ↦
            let old : subscribed ctx (topic_of t) i ≡ 0 = IsFresh-IsNew m t subs ctx (some i) r f in
            let old_here : subscribed ctx (topic_of t) k ≡ 0 =
              ap (λ n. subscribed ctx (topic_of t) n) same ∙ old in
            let topics : str_eq (topic_of m) (topic_of t) ≡ true =
              ground (arith, change, old_here, listed) in
            (ground arith, ap kind same ∙ f.1 ∙ sym e ∙ sym (same_topic m t topics))
        | no ne ↦
            let (there, k_kind) = r t k (ground (arith, change, listed)) in (ground arith, k_kind)
      ]

  -- Both queues of a client.
  pub Routed-enter :
      (subs : List ℕ) (ctx : Context) (o p : Option ℕ)
      → Routed kind subs ctx
      → IsFresh kind telemetry subs o
      → IsFresh kind alert (with_queue o subs) p
      → Routed kind (with_queue p (with_queue o subs)) (enter ctx o p).ctx
  unfolding enter
  Routed-enter subs ctx o p r f g =
      Routed-joins alert (with_queue o subs) (joins ctx topic_telemetry o).1 p refl
        (Routed-joins telemetry subs ctx o refl r f) g

  -- The two queues of a client are of two kinds.
  pub IsFresh-next :
      (subs : List ℕ) (o p : Option ℕ)
      → IsFresh kind telemetry subs o
      → IsFresh kind alert subs p
      → IsFresh kind alert (with_queue o subs) p
  unfolding count
  IsFresh-next subs none p f g = g
  IsFresh-next subs (some i) none f g = tt
  IsFresh-next subs (some i) (some j) f g =
      let apart : i ≢ j = λ same. let e = ap kind same in ground (arith, f.1, g.1) in
      (ground (arith, g.0), g.1)

  -- What is known of the client that is served: before it came, who was subscribed is as it will be
  -- when it is gone.
  pub record IsConnected (own subs : List ℕ) (ctx : Context) (c : Connection) : Type 0 where
    pub before : Context
    pub telemetry_new : IsNew before topic_telemetry c.telemetry_sub
    pub alerts_new : IsNew before topic_alerts c.alerts_sub
    pub entered : c.entered ≡ enter before c.telemetry_sub c.alerts_sub
    pub still :
        c.left ≡ false → (m : Bytes) (k : ℕ) → subscribed ctx m k ≡ subscribed c.entered.ctx m k
    -- once it is unsubscribed, only the other queues are subscribed
    pub parted : c.left ≡ true → Routed kind own ctx
    pub routed : Routed kind own before
    pub telemetry_fresh : IsFresh kind telemetry own c.telemetry_sub
    pub alerts_fresh : IsFresh kind alert (with_queue c.telemetry_sub own) c.alerts_sub
    pub all : subs ≡ with_queue c.alerts_sub (with_queue c.telemetry_sub own)

  abbrev pub Connected : List ℕ → List ℕ → Context → Option Connection → Type 0
  Connected own subs ctx none = subs ≡ own
  Connected own subs ctx (some c) = IsConnected own subs ctx c

  -- The workers change nobody's subscriptions.
  pub Connected-same :
      (own subs : List ℕ) (ctx ctx' : Context) (o : Option Connection)
      → ((m : Bytes) (k : ℕ) → subscribed ctx' m k ≡ subscribed ctx m k)
      → Connected own subs ctx o
      → Connected own subs ctx' o
  Connected-same own subs ctx ctx' none same h = h
  Connected-same own subs ctx ctx' (some c) same h = record {
    before = h.before;
    telemetry_new = h.telemetry_new;
    alerts_new = h.alerts_new;
    entered = h.entered;
    still = λ l m k. same m k ∙ h.still l m k;
    parted = λ l. Routed-less own ctx ctx' same (h.parted l);
    routed = h.routed;
    telemetry_fresh = h.telemetry_fresh;
    alerts_fresh = h.alerts_fresh;
    all = h.all;
  }

  -- When the client is gone, its queues are subscribed to nothing.
  pub Routed-quit :
      (own subs : List ℕ) (ctx : Context) (c : Connection) (h : IsConnected own subs ctx c)
      → c.left ≡ false
      → Routed kind own (quit c.entered ctx c.telemetry_sub c.alerts_sub)
  Routed-quit own subs ctx c h l = rw h.entered (
      Routed-less own h.before
        (quit (enter h.before c.telemetry_sub c.alerts_sub) ctx c.telemetry_sub c.alerts_sub)
        (quit-enter h.before ctx c.telemetry_sub c.alerts_sub h.telemetry_new h.alerts_new
          (λ m k. h.still l m k ∙ ap (λ e. subscribed e.ctx m k) h.entered))
        h.routed)
