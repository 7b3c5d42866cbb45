-- ===== src/PubSub/Store.antt =====
-- The subscriber queues as owners of the blocks that their items refer to.
use native.Mathlib.Decide.{ℕ_discrete}
use pub_sub_crawl.Base.{
  ℕ, ◌+◌, ◌≤◌, ◌<◌, ◌≡◌, ◌∙◌, sym, refl, ap, true, false, Option, none, some, List, [], ◌∷◌, ◌++◌,
  arith, length, Bool-cases, inl, inr, Bytes,
}
use pub_sub_crawl.Message.{Item, Object, local}
use pub_sub_crawl.Memory.{copy, get_or-append_last}
use pub_sub_crawl.Memory.Balance.{
  Cells, alive, alive-failed, alive-append, Extends, Extends-append, Extends-trans,
}
use pub_sub_crawl.MsgQueue.{Queue, put, is_full}
use pub_sub_crawl.MsgQueue.Slots.{queue_refs, Holding, Holding-Extends, Holding-put, refs-put}
use pub_sub_crawl.PubSub.{
  World, Context, Count, delivered, offer, deliver, publish, entry, name_max, update,
}
use pub_sub_crawl.PubSub.Topics.{count, subscribers, find_from-some}
use pub_sub_crawl.PubSub.Registry.{find_or_create-Found}
use pub_sub_crawl.PubSub.FanOut.{offer-lem, world_after, gets, clone}

abbrev pub Queues : Type 0
Queues = ℕ → Option Queue

abbrev pub queue_at : Option Queue → ℕ → ℕ
queue_at none p = 0
queue_at (some q) p = queue_refs q p

-- How often the listed queues refer to block `p`.
abbrev pub store_refs : Queues → List ℕ → ℕ → ℕ
store_refs queues [] p = 0
store_refs queues (i ∷ is) p = queue_at (queues i) p + store_refs queues is p

pub store_refs-other :
    (queues : Queues) (s : ℕ) (q : Queue) (is : List ℕ) (p : ℕ)
    → count s is ≡ 0
    → store_refs (update queues s q) is p ≡ store_refs queues is p
unfolding count
store_refs-other queues s q [] p e = refl
store_refs-other queues s q (i ∷ is) p e = ground (arith, store_refs-other queues s q is p)

-- A change of one queue of the list.
pub store_refs-update :
    (queues : Queues) (s : ℕ) (q q' : Queue) (is : List ℕ) (p : ℕ)
    → count s is ≡ 1
    → queues s ≡ some q
    → store_refs (update queues s q') is p + queue_refs q p
      ≡ store_refs queues is p + queue_refs q' p
unfolding count
store_refs-update queues s q q' [] p once e = absurd (omega arith)
store_refs-update queues s q q' (i ∷ is) p once e = elim (ℕ_discrete i s) [
  | yes same ↦
      let rest = store_refs-other queues s q' is p (ground arith) in
      let here : queue_at (queues i) p ≡ queue_refs q p =
        ap (λ k. queue_at (queues k) p) same ∙ ap (λ o. queue_at o p) e in
      let there : queue_at (update queues s q' i) p ≡ queue_refs q' p = ground arith in
      omega (arith, rest, here, there)
  | no ne ↦
      let rest = store_refs-update queues s q q' is p (ground arith) e in
      let there : queue_at (update queues s q' i) p ≡ queue_at (queues i) p = ground arith in
      omega (arith, rest, there)
]

-- `subs` are the queues that exist, and `Fits` says which messages each of them takes.
module _ (subs : List ℕ) (Fits : ℕ → Item → Object → Type 0) where
  abbrev pub Stocked : World → ℕ → Type 0
  Stocked w i = (q : Queue) × (w.queues i ≡ some q) × Holding (Fits i) w.heap.cells q

  -- Each live block is referred to once, by a queue or from elsewhere, `base p` times.
  pub record Store (base : ℕ → ℕ) (w : World) : Type 0 where
    pub stocked : (i : ℕ) → 0 < count i subs → Stocked w i
    pub balance : (p : ℕ) → base p + store_refs w.queues subs p ≡ alive w.heap.cells p

  -- A message that queue `s` takes, whatever block the clone of it is in.
  abbrev pub Sends : Item → Object → ℕ → Type 0
  Sends item o s = (p : ℕ) → Fits s (clone item p) o

  module _ (once : (i : ℕ) → count i subs ≤ 1) (item : Item) (o : Object)
      (mine : item.payload ≡ local o) (bytes : 0 < item.length)
      (whole : copy item.length o ≡ o) where
    abbrev Offers : (ℕ → ℕ) → ℕ → World → Type 0
    Offers base s w =
        (w' : World) × (n : ℕ) × (offer item s w ≡ some (w', n))
        × Store base w'
        × Extends w.heap.cells w'.heap.cells

    offer-full :
        (base : ℕ → ℕ) (s : ℕ) (q : Queue) (w : World)
        → gets w (length w.heap.cells) q ≡ false
        → Store base w
        → Store base (world_after w item o s q)
    offer-full base s q w refused st = rw refused (record {
      stocked = λ i listed.
          let (r, there, h) = st.stocked i listed in
          (
            r,
            there,
            Holding-Extends (Fits i) w.heap.cells (w.heap.cells ++ none ∷ []) r
                (Extends-append w.heap.cells none) h,
          );
      balance = λ p. omega (arith, st.balance p, alive-failed w.heap.cells p);
    })

    offer-put :
        (base : ℕ → ℕ) (s : ℕ) (q : Queue) (w : World)
        → gets w (length w.heap.cells) q ≡ true
        → 0 < count s subs
        → Sends item o s
        → w.queues s ≡ some q
        → Holding (Fits s) w.heap.cells q
        → Store base w
        → Store base (world_after w item o s q)
    offer-put base s q w given listed fits there h st =
        rw (given, whole)
          (record {
            stocked = λ i listed'. elim (ℕ_discrete i s) [
              | yes same ↦ (
                put_queue,
                ground arith,
                rw same (
                    Holding-put (Fits s) grown q (clone item p0) room
                      (Holding-Extends (Fits s) w.heap.cells grown q more h)
                      (p0, o, refl, get_or-append_last w.heap.cells (some o), fits p0)),
              )
              | no ne ↦
                  let (r, there', h') = st.stocked i listed' in
                  (r, ground arith, Holding-Extends (Fits i) w.heap.cells grown r more h')
            ];
            balance = λ p. omega (
              arith,
              st.balance p,
              alive-append w.heap.cells o p,
              store_refs-update w.queues s q put_queue subs p (omega (arith, once s)) there,
              refs-put q (clone item p0) p h.valid room,
            );
          })
      where
        p0 : ℕ
        p0 = length w.heap.cells

        grown : Cells
        grown = w.heap.cells ++ some o ∷ []

        put_queue : Queue
        put_queue = record q { buffer = put q.buffer (clone item p0) }

        room : is_full q ≡ false
        room = ground arith

        more : Extends w.heap.cells grown
        more = Extends-append w.heap.cells (some o)

    offer-Store :
        (base : ℕ → ℕ) (s : ℕ) (w : World)
        → 0 < count s subs
        → Sends item o s
        → Store base w
        → Offers base s w
    offer-Store base s w listed fits st =
        let (q, there, h) = st.stocked s listed in
        (
          world_after w item o s q,
          _,
          offer-lem item o s q w (rw mine refl) bytes there,
          elim (Bool-cases (gets w (length w.heap.cells) q)) [
            | inl given ↦ offer-put base s q w given listed fits there h st
            | inr refused ↦ offer-full base s q w refused st
          ],
          Extends-append w.heap.cells _,
        )

    -- The queues of a list that are among the subscribers and take the message.
    abbrev pub Listed : List ℕ → Type 0
    Listed ss = (s : ℕ) → 0 < count s ss → (0 < count s subs) × Sends item o s

    Listed-tail : (s : ℕ) (ss : List ℕ) → Listed (s ∷ ss) → Listed ss
    unfolding count
    Listed-tail s ss h r there = h r (omega (arith, there))

    deliver-Store :
        (base : ℕ → ℕ) (ss : List ℕ) (w : World) (d : ℕ)
        → Listed ss
        → Store base w
        → (w' : World) × (n : ℕ) × (deliver item ss w d ≡ some (w', n))
          × Store base w'
          × Extends w.heap.cells w'.heap.cells
    unfolding deliver count
    deliver-Store base [] w d listed st = (w, d, refl, st, λ p x e. e)
    deliver-Store base (s ∷ ss) w d listed st =
        let (member, fits) = listed s (ground arith) in
        let (w1, g, run, st1, more) = offer-Store base s w member fits st in
        let (w', n, rest, st', more') =
          deliver-Store base ss w1 (d + g) (Listed-tail s ss listed) st1 in
        (
          w',
          n,
          rw (run, rest) refl,
          st',
          Extends-trans w.heap.cells w1.heap.cells w'.heap.cells more more',
        )

    -- `pubsub_publish` of a message on the caller's stack: no fault, every live block is referred to
    -- once as before, no older block changes, and nobody's subscriptions do.
    pub publish-Store :
        (base : ℕ → ℕ) (ctx : Context) (n : Bytes) (w : World)
        → length n < name_max
        → Listed (subscribers ctx.topics n)
        → Store base w
        → (ctx' : Context) × (w' : World) × (c : Count) × (publish ctx (some n) (some item) w
            ≡ some (c, ctx', w'))
          × Store base w'
          × Extends w.heap.cells w'.heap.cells
          × ((m : Bytes) → subscribers ctx'.topics m ≡ subscribers ctx.topics m)
    unfolding publish
    publish-Store base ctx n w short listed st = elim (find_or_create-Found ctx n short) [
      | inl (e, unknown, full) ↦ (ctx, w, delivered 0, ground arith, st, λ p x h. h, λ m. refl)
      | inr (i, ctx', e, f, room) ↦
          let here = (find_from-some ctx'.topics n i f.at).2 in
          let same : (entry ctx' i).subscribers ≡ subscribers ctx.topics n = sym here ∙ f.same n in
          let (w', k, run, st', more) =
            deliver-Store base (subscribers ctx.topics n) w 0 listed st in
          (ctx', w', delivered k, ground arith, st', more, f.same)
    ]

-- One queue of the list refers to no block more often than all do.
pub store_refs-le :
    (queues : Queues) (i : ℕ) (q : Queue) (is : List ℕ) (p : ℕ)
    → 0 < count i is
    → queues i ≡ some q
    → queue_refs q p ≤ store_refs queues is p
unfolding count
store_refs-le queues i q [] p listed e = absurd (omega arith)
store_refs-le queues i q (j ∷ is) p listed e = elim (ℕ_discrete j i) [
  | yes same ↦
      let here : queue_at (queues j) p ≡ queue_refs q p =
        ap (λ k. queue_at (queues k) p) same ∙ ap (λ o. queue_at o p) e in
      omega (arith, here)
  | no ne ↦ omega (arith, store_refs-le queues i q is p (ground arith) e)
]

pub store_refs-same :
    (f g : Queues) (is : List ℕ) (p : ℕ)
    → ((k : ℕ) → queue_at (g k) p ≡ queue_at (f k) p)
    → store_refs g is p ≡ store_refs f is p
store_refs-same f g [] p e = refl
store_refs-same f g (i ∷ is) p e = omega (arith, e i, store_refs-same f g is p e)
