-- ===== src/PubSub/Flags.antt =====
-- The flags `shutting_down` and the sizes of the subscriber queues while `pubsub_publish` runs.
use pub_sub_crawl.Base.{
  ℕ, ◌≡◌, ◌∙◌, refl, sym, ap, ◌+◌, ◌≤◌, Bool, true, false, not, ◌&&◌, Option, none, some, List, [],
  ◌∷◌, arith, inl, inr, Bytes, Option-cases, Bool-cases, ltb,
}
use native.Mathlib.Decide.{ℕ_discrete}
use pub_sub_crawl.Message.{Item, heap}
use pub_sub_crawl.Memory.{Heap, malloc, free, load, copy, ptr_eq}
use pub_sub_crawl.MsgQueue.{Queue, try_enqueue}
use pub_sub_crawl.PubSub.{
  World, Context, ◌>>=◌, Count, update, offer, send, settle, deliver, publish, finish, with_copy,
  is_null, find_or_create_topic, entry,
}
use pub_sub_crawl.PubSub.Topics.{count, no_topic}
use pub_sub_crawl.PubSub.Bounds.{IsValid, IsBounded, find_or_create-IsValid}
use pub_sub_crawl.Base.{All-get_or}

-- A queue that is there and shuts down, and how many items a queue has.
abbrev pub shut_at : Option Queue → Bool
shut_at none = false
shut_at (some q) = q.shutting_down

abbrev pub size_at : Option Queue → ℕ
size_at none = 0
size_at (some q) = q.buffer.size

-- It keeps its flag and gets at most `n` items more.
abbrev pub Grows : ℕ → Option Queue → Option Queue → Type 0
Grows n o o' = (shut_at o' ≡ shut_at o) × (size_at o' ≤ size_at o + n)

pub Grows-refl : (o : Option Queue) → Grows 0 o o
Grows-refl o = (refl, omega arith)

-- Each queue gets at most one item for each time that it is listed.
abbrev pub GrowsBy : List ℕ → World → World → Type 0
GrowsBy ss w w' = (r : ℕ) → Grows (count r ss) (w.queues r) (w'.queues r)

pub update-Grows :
    (queues : ℕ → Option Queue) (s : ℕ) (q q' : Queue) (n m r : ℕ)
    → queues s ≡ some q
    → Grows n (some q) (some q')
    → (s ≡ r → n ≤ m)
    → Grows m (queues r) (update queues s q' r)
update-Grows queues s q q' n m r e (same, more) le = elim (ℕ_discrete s r) [
  | yes here ↦
      let there : queues r ≡ some q = ap queues (sym here) ∙ e in
      ground (arith, there, here, same, more, le here)
  | no ne ↦ ground (arith, ne)
]

count_self : (s r : ℕ) → s ≡ r → 1 ≤ count r (s ∷ [])
unfolding count
count_self s r e = ground (arith, e)

try_enqueue-Grows : (q : Queue) (x : Item) → Grows 1 (some q) (some (try_enqueue q x).1)
unfolding try_enqueue
try_enqueue-Grows q x = ground arith

abbrev Sends : List ℕ → World → Option (World × ℕ) → Type 0
Sends ss w none = Unit {0}
Sends ss w (some (w', n)) = GrowsBy ss w w'

settle-Sends :
    (item clone : Item) (s : ℕ) (w : World) (q : Queue) (r : Bool × Queue)
    → w.queues s ≡ some q
    → Grows 1 (some q) (some r.1)
    → Sends (s ∷ []) w (settle item clone s w r)
unfolding free
settle-Sends item clone s w q (true, q') e g =
    λ r. update-Grows w.queues s q q' 1 (count r (s ∷ [])) r e g (count_self s r)
settle-Sends item clone s w q (false, q') e g =
    elim (Bool-cases (ptr_eq clone.payload item.payload)) [
      | inl y ↦ rw y (λ r. (refl, omega arith))
      | inr n ↦ elim (Option-cases (free w.heap clone.payload)) [
        | inl f ↦ rw (n, f) tt
        | inr (h, f) ↦ rw (n, f) (λ r. (refl, omega arith))
      ]
    ]

send-Sends : (item clone : Item) (s : ℕ) (w : World) → Sends (s ∷ []) w (send item clone s w)
unfolding send
send-Sends item clone s w = elim (Option-cases (w.queues s)) [
  | inl e ↦ rw e tt
  | inr (q, e) ↦
      rw e (settle-Sends item clone s w q (try_enqueue q clone) e (try_enqueue-Grows q clone))
]

with_copy-Sends :
    (item : Item) (s : ℕ) (w : World) (r : Option ℕ × Heap)
    → Sends (s ∷ []) w (with_copy item s w r)
with_copy-Sends item s w (none, h) = λ r. (refl, omega arith)
with_copy-Sends item s w (some p, h) =
    send-Sends item (record item { payload = heap p }) s (record w { heap = h })

offer-Sends : (item : Item) (s : ℕ) (w : World) → Sends (s ∷ []) w (offer item s w)
unfolding offer
offer-Sends item s w = elim (Bool-cases (not (is_null item.payload) && ltb 0 item.length)) [
  | inl y ↦ elim (Option-cases (load w.heap item.payload)) [
    | inl e ↦ rw (y, e) tt
    | inr (o, e) ↦ rw (y, e) (with_copy-Sends item s w (malloc w.heap (copy item.length o)))
  ]
  | inr n ↦ rw n (send-Sends item item s w)
]

Sends-after :
    (s : ℕ) (ss : List ℕ) (w m : World) (o : Option (World × ℕ))
    → GrowsBy (s ∷ []) w m
    → Sends ss m o
    → Sends (s ∷ ss) w o
unfolding count
Sends-after s ss w m none h k = tt
Sends-after s ss w m (some (w', n)) h k = λ r. ((k r).0 ∙ (h r).0, ground (arith, (k r).1, (h r).1))

then-Sends :
    (s : ℕ) (ss : List ℕ) (w : World) (o : Option (World × ℕ)) (f : World × ℕ → Option (World × ℕ))
    → Sends (s ∷ []) w o
    → ((m : World) (k : ℕ) → Sends ss m (f (m, k)))
    → Sends (s ∷ ss) w (o >>= f)
then-Sends s ss w none f h next = tt
then-Sends s ss w (some (m, k)) f h next = Sends-after s ss w m (f (m, k)) h (next m k)

deliver-Sends : (item : Item) (ss : List ℕ) (w : World) (n : ℕ) → Sends ss w (deliver item ss w n)
unfolding deliver
deliver-Sends item [] w n = λ r. (refl, omega arith)
deliver-Sends item (s ∷ ss) w n =
    then-Sends s ss w (offer item s w) (λ r. deliver item ss r.0 (n + r.1)) (offer-Sends item s w)
      (λ m k. deliver-Sends item ss m (n + k))

-- The flags are kept; with a valid registry no queue gets more than one item, and it stays valid.
pub record Published (ctx ctx' : Context) (w w' : World) : Type 0 where
  pub flags : (r : ℕ) → shut_at (w'.queues r) ≡ shut_at (w.queues r)
  pub sizes : IsValid ctx → (r : ℕ) → size_at (w'.queues r) ≤ size_at (w.queues r) + 1
  pub registry : IsValid ctx → IsValid ctx'

abbrev pub Publishes : Context → World → Option (Count × Context × World) → Type 0
Publishes ctx w none = Unit {0}
Publishes ctx w (some (count, ctx', w')) = Published ctx ctx' w w'

pub Published-refl : (ctx : Context) (w : World) → Published ctx ctx w w
Published-refl ctx w = record { flags = λ r. refl; sizes = λ v r. omega arith; registry = λ v. v }

finish-Publishes :
    (ctx ctx' : Context) (ss : List ℕ) (w : World) (o : Option (World × ℕ))
    → (IsValid ctx → IsValid ctx')
    → (IsValid ctx → (r : ℕ) → count r ss ≤ 1)
    → Sends ss w o
    → Publishes ctx w (o >>= finish ctx')
finish-Publishes ctx ctx' ss w none kept once h = tt
finish-Publishes ctx ctx' ss w (some (w', n)) kept once h = record {
  flags = λ r. (h r).0;
  sizes = λ v r. omega (arith, (h r).1, once v r);
  registry = kept;
}

pub publish-Publishes :
    (ctx : Context) (topic : Option Bytes) (item : Option Item) (w : World)
    → Publishes ctx w (publish ctx topic item w)
unfolding publish
publish-Publishes ctx none item w = Published-refl ctx w
publish-Publishes ctx (some topic) none w = Published-refl ctx w
publish-Publishes ctx (some topic) (some item) w =
    elim (Option-cases (find_or_create_topic ctx topic)) [
      | inl e ↦ rw e (Published-refl ctx w)
      | inr ((i, ctx'), e) ↦ rw e (
          finish-Publishes ctx ctx' (entry ctx' i).subscribers w
            (deliver item (entry ctx' i).subscribers w 0)
            (λ v. (find_or_create-IsValid ctx topic i ctx' v e).0)
            (λ v r.
              let (v', h) = find_or_create-IsValid ctx topic i ctx' v e in
              (All-get_or IsBounded ctx'.topics i no_topic v'.each h).once r)
            (deliver-Sends item (entry ctx' i).subscribers w 0))
    ]
