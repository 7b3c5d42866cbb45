-- ===== src/PubSub/LongNames.antt =====
-- Names of 32 bytes and more, which `pubsub_subscribe` refuses and `pubsub_publish` does not.
use pub_sub_crawl.Base.{
  ℕ, ◌+◌, ◌≤◌, ◌<◌, ◌≡◌, refl, ap, none, some, List, [], ◌∷◌, ◌++◌, arith, Bool-cases, inl, inr,
  length, take, All, Bytes, str_eq, str_eq→eq,
}
use pub_sub_crawl.Message.{Item}
use pub_sub_crawl.PubSub.{
  Context, Topic, World, delivered, deliver, publish, find_from, find_or_create_topic, max_topics,
  name_max,
}
use pub_sub_crawl.PubSub.Bounds.{IsValid, IsBounded}
use pub_sub_crawl.PubSub.Topics.{get_or-append}

find_from_long :
    (ts : List Topic) (n : Bytes) (i : ℕ)
    → All IsBounded ts
    → name_max ≤ length n
    → find_from ts n i ≡ none
unfolding find_from
find_from_long [] n i b long = refl
find_from_long (t ∷ ts) n i b long = elim (Bool-cases (str_eq t.name n)) [
  | inl e ↦ absurd (omega (arith, b.0.name_fits, ap length (str_eq→eq t.name n e)))
  | inr e ↦ rw e (find_from_long ts n (i + 1) b.1 long)
]

-- Each publication under such a name makes one more topic, under the first 31 bytes of the name and
-- with nobody subscribed, as long as the registry has room; the name itself stays unknown.
publish_long :
    (ctx : Context) (n : Bytes) (item : Item) (w : World)
    → IsValid ctx
    → name_max ≤ length n
    → length ctx.topics < max_topics
    → publish ctx (some n) (some item) w
      ≡ some (
        delivered 0,
        record { topics = ctx.topics ++ record { name = take 31 n; subscribers = [] } ∷ [] },
        w,
      )
unfolding publish find_or_create_topic deliver
publish_long ctx n item w v long room = ground (
  arith,
  find_from_long ctx.topics n 0 v.each long,
  get_or-append ctx.topics (record { name = take 31 n; subscribers = [] }),
)
