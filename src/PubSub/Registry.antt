-- ===== src/PubSub/Registry.antt =====
-- What `pubsub_subscribe` and `pubsub_unsubscribe` answer, and whom they leave subscribed to what.
use pub_sub_crawl.Base.{
  ℕ, ◌+◌, ◌≤◌, ◌<◌, ◌≡◌, refl, ap, Bool, true, false, ◌&&◌, ◌||◌, none, some, [], ◌∷◌, ◌++◌, arith,
  ltb, ◌==◌, if◌then◌else◌, Option-cases, Bool-cases, ◌⊎◌, length, Bytes, str_eq, str_eq_refl,
  str_eq→eq, take, inl, inr,
}
use pub_sub_crawl.PubSub.{
  Context, Topic, ok, invalid, subscribe, unsubscribe, find_from, find_or_create_topic, index_of,
  max_topics, max_subscribers, name_max, entry, add_subscriber, swap_out,
}
use pub_sub_crawl.PubSub.Topics.{
  subscribers, known, count, find_from-none, find_from-some, subscribers-set, subscribers-append,
  find_from-append, take-whole, index_of-none, index_of-some, count-append, count-swap_out,
  subscribers-unknown,
}

-- How often `r` is subscribed to `m`.
abbrev pub subscribed : Context → Bytes → ℕ → ℕ
subscribed ctx m r = count r (subscribers ctx.topics m)

-- What `find_or_create_topic` gives for a name of at most 31 bytes.
pub record Found (ctx : Context) (n : Bytes) (i : ℕ) (ctx' : Context) : Type 0 where
  pub at : find_from ctx'.topics n 0 ≡ some i
  pub same : (m : Bytes) → subscribers ctx'.topics m ≡ subscribers ctx.topics m

-- The topic is found, or made, except that a new one is refused by a full registry.
pub find_or_create-Found :
    (ctx : Context) (n : Bytes)
    → length n < name_max
    → ((find_or_create_topic ctx n ≡ none)
        × (known ctx.topics n ≡ false)
        × (max_topics ≤ length ctx.topics))
      ⊎ ((i : ℕ) × (ctx' : Context) × (find_or_create_topic ctx n ≡ some (i, ctx'))
          × Found ctx n i ctx'
          × ((known ctx.topics n ≡ true) ⊎ (length ctx.topics < max_topics)))
unfolding find_or_create_topic
find_or_create-Found ctx n short = elim (Option-cases (find_from ctx.topics n 0)) [
  | inl e ↦ elim (Bool-cases (ltb (length ctx.topics) max_topics)) [
    | inl room ↦ inr (
      length ctx.topics,
      record { topics = ctx.topics ++ made ∷ [] },
      ground arith,
      record {
        at = find_from-append ctx.topics n made e name_fits;
        same = λ m. subscribers-append ctx.topics (take 31 n) m;
      },
      inr (ground arith),
    )
    | inr full ↦ inl (ground (arith), (find_from-none ctx.topics n e).0, ground arith)
  ]
  | inr (i, e) ↦ inr (
    i,
    ctx,
    ground arith,
    record { at = e; same = λ m. refl },
    inl (find_from-some ctx.topics n i e).1,
  )
]
  where
    made : Topic
    made = record { name = take 31 n; subscribers = [] }

    name_fits : str_eq (take 31 n) n ≡ true
    name_fits = rw (take-whole 31 n (omega arith)) (str_eq_refl n)

-- When a queue may be subscribed: it already is, or there is room for it and for its topic.
abbrev pub accepts : Context → Bytes → ℕ → Bool
accepts ctx n q =
    ltb (length n) name_max
    && (if known ctx.topics n
        then ltb 0 (subscribed ctx n q) || ltb (length (subscribers ctx.topics n)) max_subscribers
        else ltb (length ctx.topics) max_topics)

-- One for a pair that a call adds or drops, none for the others.
abbrev pub at_pair : Bytes → ℕ → Bytes → ℕ → ℕ
at_pair n q m r = if str_eq n m then (if q == r then 1 else 0) else 0

-- A queue goes to the end of the list of the topic found, unless it is there or the list is full.
add_subscriber-lem :
    (ctx : Context) (n : Bytes) (q i : ℕ)
    → find_from ctx.topics n 0 ≡ some i
    → let fits =
        ltb 0 (subscribed ctx n q) || ltb (length (subscribers ctx.topics n)) max_subscribers in
      let r = add_subscriber ctx i q (index_of q (entry ctx i).subscribers 0) in
      (r.0 ≡ (if fits then ok else invalid))
      × ((m : Bytes) (s : ℕ)
          → subscribed r.1 m s
            ≡ subscribed ctx m s + (if fits && subscribed ctx n q == 0 then at_pair n q m s else 0))
add_subscriber-lem ctx n q i e = elim (Option-cases (index_of q (entry ctx i).subscribers 0)) [
  | inl new ↦
      let zero_times = index_of-none q (entry ctx i).subscribers new in
      let here = (find_from-some ctx.topics n i e).2 in
      (
        ground arith,
        λ m s. ground (
          arith,
          subscribers-set ctx.topics n m i ((entry ctx i).subscribers ++ q ∷ []) e,
          count-append s (entry ctx i).subscribers q,
          str_eq→eq n m,
        ),
      )
  | inr (j, old) ↦
      let there = index_of-some q (entry ctx i).subscribers j old in
      let here = (find_from-some ctx.topics n i e).2 in (ground arith, λ m s. ground arith)
]

-- `pubsub_subscribe` succeeds exactly where `accepts` says so. It adds the queue to the topic if it
-- is accepted and was not there, and changes no other subscription, whatever it answers.
pub subscribe_lem :
    (ctx : Context) (n : Bytes) (q : ℕ)
    → ((subscribe ctx (some n) (some q)).0 ≡ (if accepts ctx n q then ok else invalid))
      × ((m : Bytes) (r : ℕ)
          → subscribed (subscribe ctx (some n) (some q)).1 m r
            ≡ subscribed ctx m r
              + (if accepts ctx n q && subscribed ctx n q == 0 then at_pair n q m r else 0))
unfolding subscribe
subscribe_lem ctx n q = elim (Bool-cases (ltb (length n) name_max)) [
  | inr long ↦ (ground arith, λ m r. ground arith)
  | inl short ↦ elim (find_or_create-Found ctx n (ground arith)) [
    | inl (e, new, full) ↦ (ground arith, λ m r. ground arith)
    | inr (i, ctx', e, f, room) ↦
        let (answer, view) = add_subscriber-lem ctx' n q i f.at in
        let unknown = subscribers-unknown ctx.topics n in
        (
          ground (arith, f.same n, ap length (f.same n)),
          λ m r. ground (arith, view m r, f.same n, f.same m),
        )
  ]
]

-- `pubsub_unsubscribe` succeeds exactly where the queue is subscribed to the topic. It takes out that
-- one subscription and no other; where it fails it changes nothing.
pub unsubscribe_lem :
    (ctx : Context) (n : Bytes) (q : ℕ)
    → ((unsubscribe ctx (some n) (some q)).0 ≡ (if ltb 0 (subscribed ctx n q) then ok else invalid))
      × ((m : Bytes) (r : ℕ)
          → subscribed (unsubscribe ctx (some n) (some q)).1 m r
              + (if ltb 0 (subscribed ctx n q) then at_pair n q m r else 0)
            ≡ subscribed ctx m r)
unfolding unsubscribe count
unsubscribe_lem ctx n q = elim (Option-cases (find_from ctx.topics n 0)) [
  | inl e ↦ let absent = find_from-none ctx.topics n e in (ground arith, λ m r. ground arith)
  | inr (i, e) ↦ elim (Option-cases (index_of q (entry ctx i).subscribers 0)) [
    | inl out ↦
        let zero_times = index_of-none q (entry ctx i).subscribers out in
        let here = (find_from-some ctx.topics n i e).2 in (ground arith, λ m r. ground arith)
    | inr (j, found) ↦
        let there = index_of-some q (entry ctx i).subscribers j found in
        let here = (find_from-some ctx.topics n i e).2 in
        (
          ground arith,
          λ m r. ground (
            arith,
            subscribers-set ctx.topics n m i (swap_out (entry ctx i).subscribers j) e,
            count-swap_out q r (entry ctx i).subscribers j found,
            str_eq→eq n m,
          ),
        )
  ]
]
