-- ===== src/System/Flags.antt =====
-- The flags `shutting_down` of the queues and their sizes while the threads run: no flag is ever cleared.
use pub_sub_crawl.Base.{
  ◌+◌, ◌≤◌, Bytes, ℕ, ◌<◌, ◌≡◌, ◌≢◌, ◌∙◌, refl, sym, ap, subst, Bool, true, Option, none, some,
  List, arith,
}
use native.Mathlib.Decide.{ℕ_discrete}
use pub_sub_crawl.Message.{MsgType, telemetry, alert, Item}
use pub_sub_crawl.MsgQueue.{Queue, returns, dequeue, try_dequeue, shutdown}
use pub_sub_crawl.PubSub.{update}
use pub_sub_crawl.PubSub.Topics.{count}
use pub_sub_crawl.PubSub.Flags.{shut_at, Grows, update-Grows}
use pub_sub_crawl.Producer.Flags.{HasFlag, turn-HasFlag, resume-HasFlag}
use pub_sub_crawl.WorkerPool.Flags.{handle-Keeps, Keeps as WorkerKeeps}
use pub_sub_crawl.Command.{Shared, Begun, begin_command}
use pub_sub_crawl.Command.Results.{
  Result, begin_command-Result, steers, drops, queues as queues_alert,
}
use pub_sub_crawl.Wire.{Write}
use pub_sub_crawl.Transport
use pub_sub_crawl.Transport.{Client, from_telemetry}
use pub_sub_crawl.Transport.Flags.{Shrinks, from_telemetry-Keeps, Keeps as ServeKeeps}
use pub_sub_crawl.Consumer.Flags.{round-Keeps, Keeps as ConsumeKeeps}
use pub_sub_crawl.System.{
  System, Step, IsFresh, Connection, Pair, connect, disconnect, set_queues, producer_of, workers_of,
  shared_of, client_of, consumer_of, created_at, destroyed_at, with_queue,
}
use pub_sub_crawl.System.Safety.{Sound}
use pub_sub_crawl.System.Routing.{Connected, IsConnected}

dequeue-flag :
    (q q' : Queue) (o : Option Item) (b : Bool)
    → dequeue q ≡ returns (b, o, q')
    → q'.shutting_down ≡ q.shutting_down
unfolding dequeue
dequeue-flag q q' o b e = ground (arith, e)

pub shutdown-flag : (q : Queue) → (shutdown q).shutting_down ≡ true
unfolding shutdown
shutdown-flag q = refl

-- A command queues an alert at most.
abbrev pub CommandHas : Bool → ℕ → Option Begun → Type 0
CommandHas flag n none = Unit {0}
CommandHas flag n (some (h, o)) =
    (h.ingest_queue.shutting_down ≡ flag) × (h.ingest_queue.buffer.size ≤ n)

Result-CommandHas :
    (s : Shared) (o : Option Begun)
    → Result s o
    → CommandHas s.ingest_queue.shutting_down (s.ingest_queue.buffer.size + 1) o
Result-CommandHas s _ (steers control) = (refl, omega arith)
Result-CommandHas s _ drops = (refl, omega arith)
Result-CommandHas s _ (queues_alert a room) = (refl, omega arith)

pub begin_command-CommandHas :
    (line : Bytes) (s : Shared)
    → CommandHas s.ingest_queue.shutting_down
        (s.ingest_queue.buffer.size + 1)
        (begin_command line s)
begin_command-CommandHas line s =
    Result-CommandHas s (begin_command line s) (begin_command-Result line s)

-- Two queues that a reader writes back.
pub pair-Grows :
    (queues : ℕ → Option Queue) (i j r : ℕ) (t t' a a' : Queue)
    → queues i ≡ some t
    → queues j ≡ some a
    → Shrinks t t'
    → Shrinks a a'
    → Grows 0 (queues r) (update (update queues i t') j a' r)
pair-Grows queues i j r t t' a a' at_i at_j (e_t, le_t) (e_a, le_a) = elim (ℕ_discrete j r) [
  | yes here ↦
      let there : queues r ≡ some a = ap queues (sym here) ∙ at_j in
      ground (arith, there, here, e_a, le_a)
  | no ne ↦
      let first =
        update-Grows queues i t t' 0 0 r at_i (e_t, omega (arith, le_t)) (λ g. omega arith) in
      ground (arith, ne, first)
]

-- A queue that is shut down, and the others.
pub shuts-flag :
    (queues : ℕ → Option Queue) (i : ℕ) (q : Queue) (r : ℕ)
    → shut_at (queues r) ≡ true
    → shut_at (update queues i (shutdown q) r) ≡ true
shuts-flag queues i q r h = elim (ℕ_discrete i r) [
  | yes here ↦ ground (arith, here, shutdown-flag q)
  | no ne ↦ ground (arith, ne, h)
]

created-other :
    (o : Option ℕ) (queues : ℕ → Option Queue) (r : ℕ)
    → o ≢ some r
    → created_at o queues r ≡ queues r
created-other none queues r ne = refl
created-other (some i) queues r ne =
    let apart : i ≢ r = λ same. ne (ap some same) in ground (arith, apart)

destroyed-other :
    (o : Option ℕ) (queues : ℕ → Option Queue) (r : ℕ)
    → o ≢ some r
    → destroyed_at o queues r ≡ queues r
destroyed-other none queues r ne = refl
destroyed-other (some i) queues r ne =
    let apart : r ≢ i = λ same. ne (ap some (sym same)) in ground (arith, apart)

module _ (kind : ℕ → MsgType) where
  -- A queue that is there is not one that `malloc` gives.
  IsFresh-other :
      (m : MsgType) (subs : List ℕ) (o : Option ℕ) (r : ℕ)
      → IsFresh kind m subs o
      → 0 < count r subs
      → o ≢ some r
  IsFresh-other m subs none r f listed e = cc
  IsFresh-other m subs (some i) r f listed e =
      let same : i ≡ r = ground (arith, e) in
      omega (arith, f.0, listed, ap (λ n. count n subs) same)

  -- Making a queue leaves those that are listed.
  pub listed-with :
      (o : Option ℕ) (subs : List ℕ) (r : ℕ) → 0 < count r subs → 0 < count r (with_queue o subs)
  unfolding count
  listed-with none subs r listed = listed
  listed-with (some i) subs r listed = ground (arith, listed)

  pub Step-ingest :
      (s t : System)
      → Step kind s t
      → s.ingest_queue.shutting_down ≡ true
      → t.ingest_queue.shutting_down ≡ true
  Step-ingest s _ (Step.sleeps e r) h =
      (subst (HasFlag s.ingest_queue.shutting_down (s.ingest_queue.buffer.size + 2)) r
        (turn-HasFlag (producer_of s))).0
      ∙ h
  Step-ingest s _ (Step.breaks e r) h =
      (subst (HasFlag s.ingest_queue.shutting_down (s.ingest_queue.buffer.size + 2)) r
        (turn-HasFlag (producer_of s))).0
      ∙ h
  Step-ingest s _ (Step.parks e r) h =
      (subst (HasFlag s.ingest_queue.shutting_down (s.ingest_queue.buffer.size + 2)) r
        (turn-HasFlag (producer_of s))).0
      ∙ h
  Step-ingest s _ (Step.sleeps_late {b = b} e r) h =
      (subst (HasFlag s.ingest_queue.shutting_down (s.ingest_queue.buffer.size + 2)) r
        (resume-HasFlag (producer_of s) b)).0
      ∙ h
  Step-ingest s _ (Step.breaks_late {b = b} e r) h =
      (subst (HasFlag s.ingest_queue.shutting_down (s.ingest_queue.buffer.size + 2)) r
        (resume-HasFlag (producer_of s) b)).0
      ∙ h
  Step-ingest s _ (Step.takes {x = x} {q = q} r) h =
      dequeue-flag s.ingest_queue q (some x) true r ∙ h
  Step-ingest s _ (Step.handles now {x = x} {xs = xs} k r) h =
      ap (λ q. q.shutting_down)
        (subst (WorkerKeeps (workers_of s)) r (handle-Keeps now x (workers_of s))).0
      ∙ h
  Step-ingest s _ (Step.logs e r) h = h
  Step-ingest s _ (Step.commands line e r) h =
      (subst (CommandHas s.ingest_queue.shutting_down (s.ingest_queue.buffer.size + 1)) r
        (begin_command-CommandHas line (shared_of s))).0
      ∙ h
  Step-ingest s _ (Step.serves ws ws' out going p r) h = h
  Step-ingest s _ (Step.consumes printed p r) h = h
  Step-ingest s _ (Step.opens e f g) h = h
  Step-ingest s _ (Step.unsubscribes e l) h = h
  Step-ingest s _ (Step.closes e l) h = h
  Step-ingest s _ Step.shuts_ingest h = shutdown-flag s.ingest_queue
  Step-ingest s _ (Step.shuts e) h = h

  module _ (r : ℕ) where
    -- A client that comes or goes leaves the queues of `main`.
    pub opens-other :
        (s : System) (o p : Option ℕ)
        → Sound kind s
        → 0 < count r s.own_queues
        → s.conn ≡ none
        → IsFresh kind telemetry s.subs o
        → IsFresh kind alert s.subs p
        → (connect o p s).queues r ≡ s.queues r
    opens-other s o p w own e f g =
        let alone : s.subs ≡ s.own_queues =
          subst (Connected kind s.own_queues s.subs s.pubsub_ctx) e w.connected in
        let listed : 0 < count r s.subs = rw alone own in
        created-other p (created_at o s.queues) r (IsFresh-other alert s.subs p r g listed)
        ∙ created-other o s.queues r (IsFresh-other telemetry s.subs o r f listed)

    pub closes-other :
        (s : System) (c : Connection)
        → Sound kind s
        → 0 < count r s.own_queues
        → s.conn ≡ some c
        → (disconnect c s).queues r ≡ s.queues r
    closes-other s c w own e =
        let there : IsConnected kind s.own_queues s.subs s.pubsub_ctx c =
          subst (Connected kind s.own_queues s.subs s.pubsub_ctx) e w.connected in
        destroyed-other c.alerts_sub (destroyed_at c.telemetry_sub s.queues) r (
          IsFresh-other alert (with_queue c.telemetry_sub s.own_queues) c.alerts_sub r
            there.alerts_fresh (listed-with c.telemetry_sub s.own_queues r own))
        ∙ destroyed-other c.telemetry_sub s.queues r
            (IsFresh-other telemetry s.own_queues c.telemetry_sub r there.telemetry_fresh own)

    -- A round of a reader.
    pub serves-Grows :
        (s : System) (i j : ℕ) (t a : Queue) (ws ws' : List Write) (out : Bytes) (going : Bool)
        (c : Client)
        → Pair kind s i j t a
        → from_telemetry ws (client_of s t a out) (try_dequeue t) ≡ Transport.next going ws' c
        → Grows 0 (s.queues r) ((set_queues s i c.telemetry_sub j c.alerts_sub c.heap).queues r)
    serves-Grows s i j t a ws ws' out going c p e =
        let (k, l) =
          subst (ServeKeeps (client_of s t a out)) e
            (from_telemetry-Keeps ws (client_of s t a out)) in
        pair-Grows s.queues i j r t c.telemetry_sub a c.alerts_sub p.telemetry_queue p.alerts_queue
          k l

    pub Step-queue :
        (s t : System)
        → Sound kind s
        → 0 < count r s.own_queues
        → Step kind s t
        → shut_at (s.queues r) ≡ true
        → shut_at (t.queues r) ≡ true
    Step-queue s _ w own (Step.sleeps e x) h = h
    Step-queue s _ w own (Step.breaks e x) h = h
    Step-queue s _ w own (Step.parks e x) h = h
    Step-queue s _ w own (Step.sleeps_late e x) h = h
    Step-queue s _ w own (Step.breaks_late e x) h = h
    Step-queue s _ w own (Step.takes x) h = h
    Step-queue s _ w own (Step.handles now {x = item} {xs = xs} k e) h =
        (subst (WorkerKeeps (workers_of s)) e (handle-Keeps now item (workers_of s))).1.flags r ∙ h
    Step-queue s _ w own (Step.commands line e x) h = h
    Step-queue s _ w own (Step.logs e x) h = h
    Step-queue s _ w own (Step.serves {i = i} {j = j} {t = t} {a = a} ws ws' out going {c = c} p e)
          h =
        (serves-Grows s i j t a ws ws' out going c p e).0 ∙ h
    Step-queue s _ w own (Step.consumes {i = i} {j = j} {t = t} {a = a} printed {c = c} p e) h =
        let (k, less, l) =
          subst (ConsumeKeeps (consumer_of s t a printed)) e
            (round-Keeps (consumer_of s t a printed)) in
        (pair-Grows s.queues i j r t c.telemetry_queue a c.alerts_queue p.telemetry_queue
          p.alerts_queue (k, omega (arith, less)) l).0
        ∙ h
    Step-queue s _ w own (Step.opens {telemetry_sub = o} {alerts_sub = p} e f g) h =
        ap shut_at (opens-other s o p w own e f g) ∙ h
    Step-queue s _ w own (Step.unsubscribes e l) h = h
    Step-queue s _ w own (Step.closes {c = c} e l) h = ap shut_at (closes-other s c w own e) ∙ h
    Step-queue s _ w own Step.shuts_ingest h = h
    Step-queue s _ w own (Step.shuts {i = i} {q = q} e) h = shuts-flag s.queues i q r h
