-- ===== src/PubSub/Publish.antt =====
-- `pubsub_publish` as a whole.
use pub_sub_crawl.Base.{
  ℕ, ◌+◌, ◌≤◌, ◌<◌, ◌≡◌, ◌∙◌, refl, ap, sym, some, List, [], ◌∷◌, arith, inl, inr, Bool-cases,
  str_eq, length, length-append, Bytes, All, if◌then◌else◌,
}
use pub_sub_crawl.Message.{Item, Object}
use pub_sub_crawl.Memory.{load}
use pub_sub_crawl.PubSub.{World, Context, Topic, delivered, deliver, publish, entry, name_max}
use pub_sub_crawl.PubSub.Topics.{count, subscribers, subscribers-unknown, find_from-some}
use pub_sub_crawl.PubSub.Registry.{find_or_create-Found}
use pub_sub_crawl.PubSub.Bounds.{IsValid, IsBounded}
use pub_sub_crawl.PubSub.FanOut.{
  Distinct, Alive, FannedOut, offer-lem, FannedOut-cons, Alive-after, load-kept, after, gets,
  cell_after,
}

FannedOut-nil :
    (item : Item) (o : Object) (base : ℕ) (w : World)
    → base ≡ length w.heap.cells
    → FannedOut item o [] base w w 0
FannedOut-nil item o base w e = record {
  calls = omega arith;
  system = refl;
  others = λ r h. refl;
  kept = λ p h. refl;
  served = λ k m q h at there. absurd (omega arith);
  live_blocks = omega arith;
  bounded = omega arith;
}

-- The loop over live and distinct subscribers never faults.
deliver-FannedOut :
    (item : Item) (o : Object) (ss : List ℕ) (w : World) (base d : ℕ)
    → load w.heap item.payload ≡ some o
    → 0 < item.length
    → base ≡ length w.heap.cells
    → Alive w ss
    → Distinct ss
    → (w' : World) × (n : ℕ) × (deliver item ss w d ≡ some (w', d + n))
      × FannedOut item o ss base w w' n
unfolding deliver
deliver-FannedOut item o [] w base d l pos e alive distinct =
    (w, 0, ground arith, FannedOut-nil item o base w e)
deliver-FannedOut item o (s ∷ ss) w base d l pos e ((q, there), alive) (new, distinct) =
    let g : ℕ = if gets w (length w.heap.cells) q then 1 else 0 in
    let w1 = after item o s q w there in
    let (w', n, run, f) =
      deliver-FannedOut item o ss w1 (base + 1) (d + g)
        (load-kept w.heap w1.heap item.payload o (cell_after w item o (length w.heap.cells) q) refl
          l)
        pos
        (omega
          (arith, length-append w.heap.cells (cell_after w item o (length w.heap.cells) q ∷ [])))
        (Alive-after item o s q w there ss alive) distinct in
    (
      w',
      n + g,
      rw (offer-lem item o s q w l pos there) (run ∙ ap (λ k. some (w', k)) (omega arith)),
      FannedOut-cons item o s q w there ss base e new w' n f,
    )

Distinct-once : (ss : List ℕ) → ((r : ℕ) → count r ss ≤ 1) → Distinct ss
unfolding count
Distinct-once [] h = tt
Distinct-once (s ∷ ss) h =
    (let o = h s in ground arith, Distinct-once ss (λ r. let o = h r in omega arith))

Distinct-subscribers :
    (ts : List Topic) (n : Bytes) → All IsBounded ts → Distinct (subscribers ts n)
unfolding subscribers
Distinct-subscribers [] n h = tt
Distinct-subscribers (t ∷ ts) n h = elim (Bool-cases (str_eq t.name n)) [
  | inl e ↦ rw e (Distinct-once t.subscribers h.0.once)
  | inr e ↦ rw e (Distinct-subscribers ts n h.1)
]

-- Publishing a message with a readable payload to a topic whose subscribers are all existing queues
-- always returns. It serves every subscriber on its own: one gets a clone in a block of its own
-- exactly where its queue has room and its call of `malloc` succeeds, and is left alone otherwise,
-- however full the others are. No other queue and no older block changes, the count returned is the
-- number of blocks more than before, and nobody's subscriptions change.
pub publish-FannedOut :
    (ctx : Context) (n : Bytes) (item : Item) (o : Object) (w : World)
    → IsValid ctx
    → length n < name_max
    → load w.heap item.payload ≡ some o
    → 0 < item.length
    → Alive w (subscribers ctx.topics n)
    → (ctx' : Context) × (w' : World) × (k : ℕ) × (publish ctx (some n) (some item) w
        ≡ some (delivered k, ctx', w'))
      × FannedOut item o (subscribers ctx.topics n) (length w.heap.cells) w w' k
      × ((m : Bytes) → subscribers ctx'.topics m ≡ subscribers ctx.topics m)
unfolding publish
publish-FannedOut ctx n item o w v short l pos alive = elim (find_or_create-Found ctx n short) [
  | inl (e, unknown, full) ↦ (
    ctx,
    w,
    0,
    ground arith,
    rw (subscribers-unknown ctx.topics n unknown) (FannedOut-nil item o _ w refl),
    λ m. refl,
  )
  | inr (i, ctx', e, f, room) ↦
      let here = (find_from-some ctx'.topics n i f.at).2 in
      let same : (entry ctx' i).subscribers ≡ subscribers ctx.topics n = sym here ∙ f.same n in
      let (w', k, run, out) =
        deliver-FannedOut item o (subscribers ctx.topics n) w (length w.heap.cells) 0 l pos refl
          alive (Distinct-subscribers ctx.topics n v.each) in
      (ctx', w', k, ground arith, out, f.same)
]
