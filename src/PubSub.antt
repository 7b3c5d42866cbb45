-- ===== src/PubSub.antt =====
-- c/src/pubsub.c: topics, their subscriber queues, and the fan-out of a message. Each body is what
-- one thread does while it holds the context's mutex.
pub mod Topics
pub mod Registry
pub mod Bounds
pub mod FanOut
pub mod Store
pub mod Publish
pub mod LongNames
pub mod Flags
mod Tests
use pub_sub_crawl.Base.{
  ℕ, zero, suc, ◌+◌, ◌-◌, ◌<◌, Bool, true, false, not, ◌&&◌, ◌||◌, Option, none, some, List, [],
  ◌∷◌, ◌++◌, ltb, leb, ◌==◌, if◌then◌else◌, length, get_or, set, take, Bytes, str_eq,
}
use pub_sub_crawl.Message.{Item, Object, Ptr, null, local, heap}
use pub_sub_crawl.Memory.{Heap, malloc, load, free, copy, ptr_eq}
use pub_sub_crawl.MsgQueue.{Queue, try_enqueue}

abbrev pub max_topics : ℕ
max_topics = 8

abbrev pub max_subscribers : ℕ
max_subscribers = 16

abbrev pub name_max : ℕ
name_max = 32

-- `topic_entry_t`: the part of the array below `subscriber_count`. A subscriber is the number under
-- which the queue stands in the store.
pub record Topic : Type 0 where
  pub name : Bytes
  pub subscribers : List ℕ

-- `struct pubsub_context`: the part of the array below `topic_count`.
pub record Context : Type 0 where
  pub topics : List Topic

-- 0 and -1.
pub data Status : Type 0 where
  ok invalid : Status

-- `pubsub_create`, by what `malloc` and `pthread_mutex_init` answer.
unfoldable pub create : Bool → Bool → Option Context
create malloc_ok mutex_ok =
    if not malloc_ok then none else if not mutex_ok then none else some (record { topics = [] })

-- The first entry of that name, counted from `i`.
unfoldable pub find_from : List Topic → Bytes → ℕ → Option ℕ
find_from [] topic i = none
find_from (t ∷ ts) topic i = if str_eq t.name topic then some i else find_from ts topic (i + 1)

unfoldable pub find_topic : Context → Bytes → Option ℕ
unfolding find_from
find_topic ctx topic = find_from ctx.topics topic 0

abbrev no_topic : Topic
no_topic = record { name = []; subscribers = [] }

-- The entry behind a pointer that `find_topic` returned.
abbrev pub entry : Context → ℕ → Topic
entry ctx i = get_or ctx.topics i no_topic

-- `strncpy(name, topic, 31)` and the closing NUL.
abbrev new_topic : Bytes → Topic
new_topic topic = record { name = take (name_max - 1) topic; subscribers = [] }

abbrev create_topic : Context → Bytes → Option (ℕ × Context)
create_topic ctx topic =
    if leb max_topics (length ctx.topics)
    then none
    else some (length ctx.topics, record ctx { topics = ctx.topics ++ new_topic topic ∷ [] })

abbrev or_create : Context → Bytes → Option ℕ → Option (ℕ × Context)
or_create ctx topic (some i) = some (i, ctx)
or_create ctx topic none = create_topic ctx topic

unfoldable pub find_or_create_topic : Context → Bytes → Option (ℕ × Context)
unfolding find_topic
find_or_create_topic ctx topic = or_create ctx topic (find_topic ctx topic)

-- The first place of a queue among the subscribers, counted from `i`.
unfoldable pub index_of : ℕ → List ℕ → ℕ → Option ℕ
index_of queue [] i = none
index_of queue (s ∷ ss) i = if s == queue then some i else index_of queue ss (i + 1)

abbrev set_subscribers : Context → ℕ → List ℕ → Context
set_subscribers ctx i ss = record ctx {
  topics = set ctx.topics i (record (entry ctx i) { subscribers = ss });
}

abbrev add_subscriber : Context → ℕ → ℕ → Option ℕ → Status × Context
add_subscriber ctx i queue (some _) = (ok, ctx)
add_subscriber ctx i queue none =
    if leb max_subscribers (length (entry ctx i).subscribers)
    then (invalid, ctx)
    else (ok, set_subscribers ctx i ((entry ctx i).subscribers ++ queue ∷ []))

abbrev subscribe_in : Context → ℕ → Option (ℕ × Context) → Status × Context
subscribe_in ctx queue none = (invalid, ctx)
subscribe_in ctx queue (some (i, ctx')) =
    add_subscriber ctx' i queue (index_of queue (entry ctx' i).subscribers 0)

-- `none` is a NULL argument.
unfoldable pub subscribe : Context → Option Bytes → Option ℕ → Status × Context
unfolding find_or_create_topic index_of
subscribe ctx none queue = (invalid, ctx)
subscribe ctx (some topic) none = (invalid, ctx)
subscribe ctx (some topic) (some queue) =
    if leb name_max (length topic)
    then (invalid, ctx)
    else subscribe_in ctx queue (find_or_create_topic ctx topic)

-- The last subscriber goes into slot `j`, and the count falls by one.
abbrev pub swap_out : List ℕ → ℕ → List ℕ
swap_out ss j = take (length ss - 1) (set ss j (get_or ss (length ss - 1) 0))

abbrev drop_subscriber : Context → ℕ → Option ℕ → Status × Context
drop_subscriber ctx i none = (invalid, ctx)
drop_subscriber ctx i (some j) = (ok, set_subscribers ctx i (swap_out (entry ctx i).subscribers j))

abbrev unsubscribe_in : Context → ℕ → Option ℕ → Status × Context
unsubscribe_in ctx queue none = (invalid, ctx)
unsubscribe_in ctx queue (some i) =
    drop_subscriber ctx i (index_of queue (entry ctx i).subscribers 0)

pub unsubscribe : Context → Option Bytes → Option ℕ → Status × Context
unfolding find_topic index_of
unsubscribe ctx none queue = (invalid, ctx)
unsubscribe ctx (some topic) none = (invalid, ctx)
unsubscribe ctx (some topic) (some queue) = unsubscribe_in ctx queue (find_topic ctx topic)

-- The queues that exist, and the heap. A queue that has been destroyed is `none`.
pub record World : Type 0 where
  pub queues : ℕ → Option Queue
  pub heap : Heap

abbrev pub update : (ℕ → Option Queue) → ℕ → Queue → ℕ → Option Queue
update queues i q j = if i == j then some q else queues j

-- `none` is undefined behaviour: a use of a destroyed queue or a freed block.
infixl 5 ◌>>=◌
abbrev pub ◌>>=◌ {ℓ κ} : {A : Type ℓ} {B : Type κ} → Option A → (A → Option B) → Option B
none >>= f = none
some a >>= f = f a

-- After `msg_queue_try_enqueue` of the clone: 1 for a delivery, or the clone is freed.
abbrev settle : Item → Item → ℕ → World → Bool × Queue → Option (World × ℕ)
settle item clone s w (true, q) = some (record w { queues = update w.queues s q }, 1)
settle item clone s w (false, q) =
    if ptr_eq clone.payload item.payload
    then some (w, 0)
    else do h ← free w.heap clone.payload; some (record w { heap = h }, 0)

unfoldable pub send : Item → Item → ℕ → World → Option (World × ℕ)
send item clone s w = do q ← w.queues s; settle item clone s w (try_enqueue q clone)

abbrev with_copy : Item → ℕ → World → Option ℕ × Heap → Option (World × ℕ)
with_copy item s w (none, h) = some (record w { heap = h }, 0)
with_copy item s w (some p, h) =
    send item (record item { payload = heap p }) s (record w { heap = h })

abbrev is_null : Ptr → Bool
is_null null = true
is_null _ = false

-- One round of the loop: subscriber `s`.
unfoldable pub offer : Item → ℕ → World → Option (World × ℕ)
unfolding send
offer item s w =
    if not (is_null item.payload) && ltb 0 item.length
    then (do o ← load w.heap item.payload; with_copy item s w (malloc w.heap (copy item.length o)))
    else send item item s w

unfoldable pub deliver : Item → List ℕ → World → ℕ → Option (World × ℕ)
unfolding offer
deliver item [] w delivered = some (w, delivered)
deliver item (s ∷ ss) w delivered = do (w', n) ← offer item s w; deliver item ss w' (delivered + n)

-- What `pubsub_publish` returns, and what it leaves.
pub data Count : Type 0 where
  delivered : ℕ → Count
  refused : Count

abbrev finish : Context → World × ℕ → Option (Count × Context × World)
finish ctx (w, n) = some (delivered n, ctx, w)

abbrev publish_in : Context → Item → World → Option (ℕ × Context) → Option (Count × Context × World)
publish_in ctx item w none = some (delivered 0, ctx, w)
publish_in ctx item w (some (i, ctx')) = deliver item (entry ctx' i).subscribers w 0 >>= finish ctx'

unfoldable pub publish :
    Context → Option Bytes → Option Item → World → Option (Count × Context × World)
unfolding find_or_create_topic deliver
publish ctx none item w = some (refused, ctx, w)
publish ctx (some topic) none w = some (refused, ctx, w)
publish ctx (some topic) (some item) w = publish_in ctx item w (find_or_create_topic ctx topic)
