-- ===== src/PubSub/Bounds.antt =====
-- The arrays of the registry never overflow, and no queue is subscribed twice to a topic.
use pub_sub_crawl.Base.{
  ℕ, ◌-◌, ◌≤◌, ◌<◌, ◌≡◌, Option, none, some, List, [], ◌∷◌, ◌++◌, arith, ltb, ltb→lt, inl, inr,
  Option-cases, Bool-cases, length, get_or, set, take, Bytes, All, All-set, All-append_one,
  All-get_or, length-take_le, length-append, length-set,
}
use pub_sub_crawl.Message.{Item}
use pub_sub_crawl.PubSub.{
  Context, Topic, subscribe, unsubscribe, publish, find_from, find_or_create_topic, index_of,
  max_topics, max_subscribers, name_max, entry, set_subscribers, add_subscriber, swap_out, World,
  Count, deliver,
}
use pub_sub_crawl.PubSub.Topics.{
  count, find_from-some, index_of-none, count-append, count-swap_out, no_topic,
}

pub record IsBounded (t : Topic) : Type 0 where
  pub name_fits : length t.name < name_max
  pub list_fits : length t.subscribers ≤ max_subscribers
  pub once : (r : ℕ) → count r t.subscribers ≤ 1

pub record IsValid (ctx : Context) : Type 0 where
  pub few : length ctx.topics ≤ max_topics
  pub each : All IsBounded ctx.topics

pub find_or_create-IsValid :
    (ctx : Context) (n : Bytes) (i : ℕ) (ctx' : Context)
    → IsValid ctx
    → find_or_create_topic ctx n ≡ some (i, ctx')
    → IsValid ctx' × (i < length ctx'.topics)
unfolding find_or_create_topic count
find_or_create-IsValid ctx n i ctx' v e = elim (Option-cases (find_from ctx.topics n 0)) [
  | inl new ↦ ground (arith, made, length-append ctx.topics (fresh ∷ []))
  | inr (k, old) ↦ ground (arith, find_from-some ctx.topics n k old)
]
  where
    fresh : Topic
    fresh = record { name = take 31 n; subscribers = [] }

    made : All IsBounded (ctx.topics ++ fresh ∷ [])
    made = All-append_one IsBounded ctx.topics fresh v.each (record {
      name_fits = omega (arith, length-take_le 31 n);
      list_fits = omega arith;
      once = λ r. omega arith;
    })

set_subscribers-IsValid :
    (ctx : Context) (i : ℕ) (ss : List ℕ)
    → IsValid ctx
    → i < length ctx.topics
    → length ss ≤ max_subscribers
    → ((r : ℕ) → count r ss ≤ 1)
    → IsValid (set_subscribers ctx i ss)
set_subscribers-IsValid ctx i ss v h fits once = record {
  few = omega (arith, v.few, length-set ctx.topics i (record (entry ctx i) { subscribers = ss }));
  each =
      All-set IsBounded ctx.topics i (record (entry ctx i) { subscribers = ss }) v.each
        (record {
          name_fits = (All-get_or IsBounded ctx.topics i no_topic v.each h).name_fits;
          list_fits = fits;
          once = once;
        });
}

add-IsValid :
    (ctx : Context) (i q : ℕ)
    → IsValid ctx
    → i < length ctx.topics
    → IsValid (add_subscriber ctx i q (index_of q (entry ctx i).subscribers 0)).1
add-IsValid ctx i q v h = elim (Option-cases (index_of q (entry ctx i).subscribers 0)) [
  | inr (j, old) ↦ ground arith
  | inl new ↦ elim (Bool-cases (ltb (length (entry ctx i).subscribers) max_subscribers)) [
    | inr full ↦ ground arith
    | inl room ↦
        let added =
          set_subscribers-IsValid ctx i ((entry ctx i).subscribers ++ q ∷ []) v h
            (omega (arith, ltb→lt, length-append (entry ctx i).subscribers (q ∷ [])))
            (λ r.
              let b = (All-get_or IsBounded ctx.topics i no_topic v.each h).once r in
              ground (
                arith,
                count-append r (entry ctx i).subscribers q,
                index_of-none q (entry ctx i).subscribers new,
              )) in
        ground arith
  ]
]

-- `pubsub_subscribe`, with any arguments, keeps the registry within its arrays.
pub subscribe-IsValid :
    (ctx : Context) (topic : Option Bytes) (queue : Option ℕ)
    → IsValid ctx
    → IsValid (subscribe ctx topic queue).1
unfolding subscribe
subscribe-IsValid ctx none queue v = v
subscribe-IsValid ctx (some n) none v = v
subscribe-IsValid ctx (some n) (some q) v = elim (Option-cases (find_or_create_topic ctx n)) [
  | inl e ↦ ground arith
  | inr ((i, ctx'), e) ↦
      let (v', h) = find_or_create-IsValid ctx n i ctx' v e in
      ground (arith, add-IsValid ctx' i q v' h)
]

pub unsubscribe-IsValid :
    (ctx : Context) (topic : Option Bytes) (queue : Option ℕ)
    → IsValid ctx
    → IsValid (unsubscribe ctx topic queue).1
unfolding unsubscribe
unsubscribe-IsValid ctx none queue v = v
unsubscribe-IsValid ctx (some n) none v = v
unsubscribe-IsValid ctx (some n) (some q) v = elim (Option-cases (find_from ctx.topics n 0)) [
  | inl e ↦ ground arith
  | inr (i, e) ↦ elim (Option-cases (index_of q (entry ctx i).subscribers 0)) [
    | inl out ↦ ground arith
    | inr (j, found) ↦
        let ss = (entry ctx i).subscribers in
        let h = (find_from-some ctx.topics n i e).0 in
        let b = All-get_or IsBounded ctx.topics i no_topic v.each h in
        let short = length-take_le (length ss - 1) (set ss j (get_or ss (length ss - 1) 0)) in
        let dropped =
          set_subscribers-IsValid ctx i (swap_out ss j) v h (omega (arith, b.list_fits, short))
            (λ r. omega (arith, count-swap_out q r ss j found, b.once r)) in
        ground arith
  ]
]

-- `pubsub_publish` can make a topic, so it is in question too.
pub publish-IsValid :
    (ctx : Context) (topic : Option Bytes) (item : Option Item) (w : World) {c : Count}
    {ctx' : Context} {w' : World}
    → publish ctx topic item w ≡ some (c, ctx', w')
    → IsValid ctx
    → IsValid ctx'
unfolding publish
publish-IsValid ctx none item w e v = ground arith
publish-IsValid ctx (some n) none w e v = ground arith
publish-IsValid ctx (some n) (some x) w {ctx' = ctx'} e v =
    elim (Option-cases (find_or_create_topic ctx n)) [
      | inl full ↦ ground arith
      | inr ((i, made), found) ↦
          let v' = (find_or_create-IsValid ctx n i made v found).0 in
          elim (Option-cases (deliver x (entry made i).subscribers w 0)) [
            | inl fault ↦ ground arith
            | inr (r, sent) ↦ ground arith
          ]
    ]

-- A call that has access to the registry, and any sequence of calls. A queue that `pubsub_publish`
-- cannot use is none in the model, and there is no answer then.
pub data Call (ctx : Context) : Context → Type 0 where
  subscribes : (topic : Option Bytes) (queue : Option ℕ) → Call ctx (subscribe ctx topic queue).1
  unsubscribes :
      (topic : Option Bytes) (queue : Option ℕ) → Call ctx (unsubscribe ctx topic queue).1
  publishes :
      (topic : Option Bytes) (item : Option Item) (w : World) {c : Count} {ctx' : Context}
      {w' : World}
      → publish ctx topic item w ≡ some (c, ctx', w')
      → Call ctx ctx'

pub data Calls (ctx : Context) : Context → Type 0 where
  nothing : Calls ctx ctx
  then : {mid ctx' : Context} → Calls ctx mid → Call mid ctx' → Calls ctx ctx'

Call-IsValid : (ctx ctx' : Context) → Call ctx ctx' → IsValid ctx → IsValid ctx'
Call-IsValid ctx _ (Call.subscribes topic queue) v = subscribe-IsValid ctx topic queue v
Call-IsValid ctx _ (Call.unsubscribes topic queue) v = unsubscribe-IsValid ctx topic queue v
Call-IsValid ctx _ (Call.publishes topic item w e) v = publish-IsValid ctx topic item w e v

-- Any sequence of calls of pubsub_subscribe, pubsub_unsubscribe and pubsub_publish, with any arguments,
-- keeps the registry within its arrays, and no queue is subscribed to a topic twice.
pub Calls-IsValid : (ctx ctx' : Context) → Calls ctx ctx' → IsValid ctx → IsValid ctx'
Calls-IsValid ctx _ Calls.nothing v = v
Calls-IsValid ctx ctx' (Calls.then {mid = mid} before call) v =
    Call-IsValid mid ctx' call (Calls-IsValid ctx mid before v)
