-- ===== src/WorkerPool/Flags.antt =====
-- The queues and the registry while a worker handles an item.
use pub_sub_crawl.Base.{ℕ, ◌≡◌, refl, Option, none, some, inl, inr, Option-cases, ◌+◌, ◌%◌, u32_mod}
use pub_sub_crawl.Base.Int.{ℤ}
use pub_sub_crawl.Message.{MsgType, telemetry, alert, Item, Object}
use pub_sub_crawl.Memory.{Heap, load, free}
use pub_sub_crawl.PubSub.{Context, World, Count, publish, ◌>>=◌}
use pub_sub_crawl.PubSub.Flags.{Published, Published-refl, publish-Publishes, Publishes}
use pub_sub_crawl.WorkerPool.{
  Workers, handle, switch, announce, enrich, published, pub_item, topic_of,
}

-- The ingest queue is not touched, and the subscriber queues keep their flags
-- and get one item each at most.
abbrev pub Keeps : Workers → Option Workers → Type 0
Keeps w none = Unit {0}
Keeps w (some w') =
    (w'.ingest_queue ≡ w.ingest_queue) × Published w.pubsub_ctx w'.pubsub_ctx w.world w'.world

published-Keeps :
    (w : Workers) (n : ℕ) (o : Option (Count × Context × World))
    → Publishes w.pubsub_ctx w.world o
    → Keeps w (o >>= (λ r. some (published (record w { next_seq = n }) r)))
published-Keeps w n none h = tt
published-Keeps w n (some (count, ctx, w')) h = (refl, h)

announce-Keeps :
    (now : ℤ) (type : MsgType) (raw : Object) (w : Workers) → Keeps w (announce now type raw w)
announce-Keeps now type raw w = elim (Option-cases (enrich type w.next_seq now raw)) [
  | inl e ↦ rw e tt
  | inr (msg, e) ↦ rw e (
      published-Keeps w ((w.next_seq + 1) % u32_mod)
        (publish w.pubsub_ctx (some (topic_of type)) (some (pub_item type w.next_seq msg)) w.world)
        (publish-Publishes w.pubsub_ctx (some (topic_of type)) (some (pub_item type w.next_seq msg))
          w.world))
]

loaded-Keeps :
    (now : ℤ) (type : MsgType) (o : Option Object) (w : Workers)
    → Keeps w (o >>= (λ raw. announce now type raw w))
loaded-Keeps now type none w = tt
loaded-Keeps now type (some raw) w = announce-Keeps now type raw w

switch-Keeps : (now : ℤ) (item : Item) (w : Workers) → Keeps w (switch now item w)
switch-Keeps now item w = by_type item.type refl
  where
    by_type : (type : MsgType) → item.type ≡ type → Keeps w (switch now item w)
    by_type (MsgType.other n) e = rw e (refl, Published-refl w.pubsub_ctx w.world)
    by_type telemetry e = rw e (loaded-Keeps now telemetry (load w.world.heap item.payload) w)
    by_type alert e = rw e (loaded-Keeps now alert (load w.world.heap item.payload) w)

then_freed :
    (item : Item) (w w' : Workers) (o : Option Heap)
    → Keeps w (some w')
    → Keeps w (o >>= (λ h. some (record w' { world = record w'.world { heap = h } })))
then_freed item w w' none k = tt
then_freed item w w' (some h) k =
    (k.0, record { flags = k.1.flags; sizes = k.1.sizes; registry = k.1.registry })

freed-Keeps :
    (item : Item) (w : Workers) (o : Option Workers)
    → Keeps w o
    → Keeps w (
        o >>= (λ w'.
          free w'.world.heap item.payload
          >>= (λ h. some (record w' { world = record w'.world { heap = h } }))))
freed-Keeps item w none k = tt
freed-Keeps item w (some w') k = then_freed item w w' (free w'.world.heap item.payload) k

pub handle-Keeps : (now : ℤ) (item : Item) (w : Workers) → Keeps w (handle now item w)
unfolding handle
handle-Keeps now item w = freed-Keeps item w (switch now item w) (switch-Keeps now item w)
