-- ===== src/WorkerPool/Handled.antt =====
-- What a worker does with one item.
use pub_sub_crawl.Base.{
  [], codes, ℕ, ◌+◌, ◌%◌, ◌<◌, ◌≡◌, ◌∙◌, refl, none, some, arith, Bytes, u32_mod, length, get_or,
  set,
}
use pub_sub_crawl.Base.Int.{ℤ}
use pub_sub_crawl.Message.{
  MsgType, telemetry, alert, Item, Object, Ptr, telemetry_raw, alert_raw, telemetry_msg, alert_msg,
  local, heap, sizeof,
}
use pub_sub_crawl.Memory.{Heap, load, free, live, live_cells-set-none, get_or-lt}
use pub_sub_crawl.PubSub.{World}
use pub_sub_crawl.PubSub.Topics.{subscribers}
use pub_sub_crawl.PubSub.Bounds.{IsValid, publish-IsValid}
use pub_sub_crawl.PubSub.FanOut.{Alive, FannedOut}
use pub_sub_crawl.PubSub.Publish.{publish-FannedOut}
use pub_sub_crawl.WorkerPool.{Workers, enrich, topic_of, pub_item, announce, switch, handle}

-- The raw struct that belongs to the type of an item.
abbrev pub Matches : MsgType → Object → Type 0
Matches telemetry (telemetry_raw _) = Unit {0}
Matches alert (alert_raw _) = Unit {0}
Matches type raw = ⊥

-- The message that a raw struct becomes: all that was measured, the sequence number and the time.
pub data Enriched (seq : ℕ) (now : ℤ) : Object → Object → Type 0 where
  reading :
      (battery_pct : ℕ) (rssi_dbm : ℤ)
      → Enriched seq now
          (telemetry_raw (record { battery_pct = battery_pct; rssi_dbm = rssi_dbm }))
          (telemetry_msg
            (record { seq = seq; ts = now; battery_pct = battery_pct; rssi_dbm = rssi_dbm }))
  warning :
      (code : Bytes) (antenna : ℕ)
      → Enriched seq now
          (alert_raw (record { code = code; antenna = antenna }))
          (alert_msg (record { seq = seq; ts = now; code = code; antenna = antenna }))

-- The name of the topic for the messages of a type; there is none for other types.
abbrev pub carrying : MsgType → Bytes
carrying telemetry = codes "telemetry"
carrying alert = codes "alerts"
carrying (MsgType.other n) = []

-- What handling an item with the raw struct in block `p` comes to: the `n` subscribers of its topic that
-- have room get `msg`, which has the next sequence number, in an item of its type with that number for
-- its id, and block `p` is freed.
pub record Handled (now : ℤ) (type : MsgType) (raw : Object) (p : ℕ) (w w' : Workers) (msg : Object)
    (n : ℕ) : Type 0 where
  pub enriched : Enriched w.next_seq now raw msg
  pub counted : w'.next_seq ≡ (w.next_seq + 1) % u32_mod
  pub ingest : w'.ingest_queue ≡ w.ingest_queue
  pub sent : World
  pub fanned :
      FannedOut
        (record { id = w.next_seq; type = type; payload = local msg; length = sizeof msg })
        msg
        (subscribers w.pubsub_ctx.topics (carrying type))
        (length w.world.heap.cells)
        w.world
        sent
        n
  pub queues : w'.world.queues ≡ sent.queues
  pub cells : w'.world.heap.cells ≡ set sent.heap.cells p none
  pub balance : live w'.world.heap + 1 ≡ live w.world.heap + n
  pub registry : IsValid w'.pubsub_ctx
  pub same : (m : Bytes) → subscribers w'.pubsub_ctx.topics m ≡ subscribers w.pubsub_ctx.topics m

abbrev Handles : ℤ → Item → Object → ℕ → Workers → Type 0
Handles now item raw p w =
    (w' : Workers) × (msg : Object) × (n : ℕ) × (handle now item w ≡ some w')
    × Handled now item.type raw p w w' msg n

pub free-at :
    (h : Heap) (p : ℕ) (o : Object)
    → get_or h.cells p none ≡ some o
    → free h (heap p) ≡ some (record h { cells = set h.cells p none })
unfolding free
free-at h p o e = rw e refl

module _ (now : ℤ) (item : Item) (raw msg : Object) (p : ℕ) (w : Workers)
    (at : item.payload ≡ heap p) (there : get_or w.world.heap.cells p none ≡ some raw)
    (valid : IsValid w.pubsub_ctx) (short : length (carrying item.type) < 32)
    (topic : topic_of item.type ≡ carrying item.type)
    (alive : Alive w.world (subscribers w.pubsub_ctx.topics (carrying item.type)))
    (made : enrich item.type w.next_seq now raw ≡ some msg)
    (enriched : Enriched w.next_seq now raw msg) (some_bytes : 0 < sizeof msg)
    (goes : switch now item w ≡ announce now item.type raw w) where
  handled : Handles now item raw p w
  unfolding handle live
  handled =
      let (ctx, mid, n, run, fanned, same) =
        publish-FannedOut w.pubsub_ctx (carrying item.type) (pub_item item.type w.next_seq msg) msg
          w.world valid short refl some_bytes alive in
      let kept = fanned.kept p (get_or-lt w.world.heap.cells p raw there) ∙ there in
      (
        record w {
          next_seq = (w.next_seq + 1) % u32_mod;
          pubsub_ctx = ctx;
          world = record mid { heap = record mid.heap { cells = set mid.heap.cells p none } };
        },
        msg,
        n,
        rw (goes, made, topic, run, at, free-at mid.heap p raw kept) refl,
        record {
          enriched = enriched;
          counted = refl;
          ingest = refl;
          sent = mid;
          fanned = fanned;
          queues = refl;
          cells = refl;
          balance =
              omega (arith, live_cells-set-none mid.heap.cells p raw kept, fanned.live_blocks);
          registry =
              publish-IsValid w.pubsub_ctx (some (carrying item.type))
                (some (pub_item item.type w.next_seq msg)) w.world run valid;
          same = same;
        },
      )

enrich-Matches :
    (t : MsgType) (seq : ℕ) (now : ℤ) (raw : Object)
    → Matches t raw
    → (msg : Object) × (enrich t seq now raw ≡ some msg)
      × Enriched seq now raw msg
      × (0 < sizeof msg)
enrich-Matches telemetry seq now (telemetry_raw r) fit =
    (_, refl, Enriched.reading r.battery_pct r.rssi_dbm, omega arith)
enrich-Matches alert seq now (alert_raw r) fit =
    (_, refl, Enriched.warning r.code r.antenna, omega arith)
enrich-Matches _ seq now raw fit = absurd fit

pub short_topic : (t : MsgType) → length (topic_of t) < 32
short_topic telemetry = omega arith
short_topic alert = omega arith
short_topic (MsgType.other k) = omega arith

-- A type with a raw struct has a topic.
pub topic-Matches : (t : MsgType) (raw : Object) → Matches t raw → topic_of t ≡ carrying t
topic-Matches telemetry raw fit = refl
topic-Matches alert raw fit = refl
topic-Matches (MsgType.other k) raw fit = absurd fit

short_carrying : (t : MsgType) → length (carrying t) < 32
short_carrying telemetry = omega arith
short_carrying alert = omega arith
short_carrying (MsgType.other k) = omega arith

pub switch-Matches :
    (now : ℤ) (id length : ℕ) (payload : Ptr) (t : MsgType) (raw : Object) (w : Workers)
    → Matches t raw
    → load w.world.heap payload ≡ some raw
    → switch now (record { id = id; type = t; payload = payload; length = length }) w
      ≡ announce now t raw w
switch-Matches now id n payload telemetry raw w fit there = rw there refl
switch-Matches now id n payload alert raw w fit there = rw there refl
switch-Matches now id n payload (MsgType.other k) raw w fit there = absurd fit

-- An item whose payload is a live block with the raw struct of its type is handled with no fault, where
-- the subscribers of the type's topic exist: a message with all that is in the struct, the next
-- sequence number and the time goes to "telemetry" or "alerts" as `pubsub_publish` promises, in an item
-- of that type, and the block is freed.
pub handle-Handled :
    (now : ℤ) (item : Item) (raw : Object) (p : ℕ) (w : Workers)
    → item.payload ≡ heap p
    → get_or w.world.heap.cells p none ≡ some raw
    → Matches item.type raw
    → IsValid w.pubsub_ctx
    → Alive w.world (subscribers w.pubsub_ctx.topics (carrying item.type))
    → Handles now item raw p w
handle-Handled now item raw p w at there fit valid alive =
    let (msg, made, enriched, bytes) = enrich-Matches item.type w.next_seq now raw fit in
    handled now item raw msg p w at there valid (short_carrying item.type)
      (topic-Matches item.type raw fit) alive made enriched bytes
      (switch-Matches now item.id item.length item.payload item.type raw w fit (rw at there))
