-- ===== src/System/Queues.antt =====
-- What the creation and the destruction of a subscriber queue do to the ledger.
use native.Mathlib.Decide.{ℕ_discrete}
use pub_sub_crawl.Base.{ℕ, ◌+◌, ◌≡◌, ◌≢◌, refl, ap, Option, none, some, List, [], ◌∷◌, ◌++◌, arith}
use pub_sub_crawl.Message.{MsgType, Item, Object}
use pub_sub_crawl.Memory.Balance.{Cells}
use pub_sub_crawl.MsgQueue.{Queue, fresh, default_capacity}
use pub_sub_crawl.MsgQueue.Invariant.{fresh-IsValid}
use pub_sub_crawl.MsgQueue.Slots.{Slots, refs, Holding}
use pub_sub_crawl.PubSub.{update}
use pub_sub_crawl.PubSub.Topics.{count}
use pub_sub_crawl.PubSub.Store.{Queues, queue_at, store_refs, store_refs-other}
use pub_sub_crawl.System.{without, remove, contents}
use pub_sub_crawl.System.Ledger.{Ledger, IsMessage}

pub count-without_self : (i : ℕ) (is : List ℕ) → count i (without i is) ≡ 0
unfolding count
count-without_self i [] = refl
count-without_self i (j ∷ js) = ground (arith, count-without_self i js)

pub count-without_other : (i k : ℕ) (is : List ℕ) → k ≢ i → count k (without i is) ≡ count k is
unfolding count
count-without_other i k [] ne = refl
count-without_other i k (j ∷ js) ne = ground (arith, count-without_other i k js ne)

pub without-absent : (i : ℕ) (is : List ℕ) → count i is ≡ 0 → without i is ≡ is
unfolding count
without-absent i [] e = refl
without-absent i (j ∷ js) e = ground (arith, without-absent i js)

-- A queue that is not listed may go.
store_refs-absent :
    (queues : Queues) (i : ℕ) (is : List ℕ) (p : ℕ)
    → count i is ≡ 0
    → store_refs (remove queues i) (without i is) p ≡ store_refs queues is p
unfolding count
store_refs-absent queues i [] p e = refl
store_refs-absent queues i (j ∷ js) p e = ground (arith, store_refs-absent queues i js p)

-- What a queue refers to goes with it.
store_refs-remove :
    (queues : Queues) (i : ℕ) (is : List ℕ) (p : ℕ)
    → count i is ≡ 1
    → store_refs (remove queues i) (without i is) p + queue_at (queues i) p ≡ store_refs queues is p
unfolding count
store_refs-remove queues i [] p e = absurd (omega arith)
store_refs-remove queues i (j ∷ js) p e = elim (ℕ_discrete j i) [
  | yes same ↦
      let rest = store_refs-absent queues i js p (ground arith) in
      let here : queue_at (queues j) p ≡ queue_at (queues i) p =
        ap (λ k. queue_at (queues k) p) same in
      ground (arith, rest, here)
  | no ne ↦
      let rest = store_refs-remove queues i js p (ground arith) in
      let there : remove queues i j ≡ queues j = ground arith in ground (arith, rest, there)
]

pub refs-append : (xs ys : Slots) (p : ℕ) → refs (xs ++ ys) p ≡ refs xs p + refs ys p
refs-append [] ys p = omega arith
refs-append (x ∷ xs) ys p = omega (arith, refs-append xs ys p)

pub refs-contents :
    (o : Option Queue) (xs : Slots) (p : ℕ) → refs (contents o ++ xs) p ≡ queue_at o p + refs xs p
refs-contents none xs p = omega arith
refs-contents (some q) xs p = refs-append (contents (some q)) xs p

pub fresh-Holding :
    (Fits : Item → Object → Type 0) (cs : Cells) → Holding Fits cs (fresh default_capacity)
unfolding fresh
fresh-Holding Fits cs = record {
  valid = fresh-IsValid default_capacity (omega arith) (omega arith);
  fits = tt;
}

module _ (kind : ℕ → MsgType) {lost : ℕ → ℕ} {held : Slots} {ingest : Queue} {queues : Queues}
    {cs : Cells} {subs : List ℕ} where
  pub Ledger-created :
      (i : ℕ)
      → count i subs ≡ 0
      → Ledger kind subs lost held ingest queues cs
      → Ledger kind (i ∷ subs) lost held ingest (update queues i (fresh default_capacity)) cs
  unfolding count fresh
  Ledger-created i new l = record {
    holding = l.holding;
    in_hand = l.in_hand;
    stocked = λ k listed. elim (ℕ_discrete k i) [
      | yes same ↦
          (fresh default_capacity, ground arith, fresh-Holding (λ x. IsMessage (kind k)) cs)
      | no ne ↦ let (q, there, h) = l.stocked k (ground arith) in (q, ground arith, h)
    ];
    balance = λ p.
        let rest = store_refs-other queues i (fresh default_capacity) subs p new in
        let here : queue_at (update queues i (fresh default_capacity) i) p ≡ 0 = ground arith in
        omega (arith, l.balance p, rest, here);
  }

  pub Ledger-destroyed :
      (i : ℕ) (gone : ℕ → ℕ)
      → count i subs ≡ 1
      → ((p : ℕ) → gone p ≡ queue_at (queues i) p + lost p)
      → Ledger kind subs lost held ingest queues cs
      → Ledger kind (without i subs) gone held ingest (remove queues i) cs
  Ledger-destroyed i gone once e l = record {
    holding = l.holding;
    in_hand = l.in_hand;
    stocked = λ k listed. elim (ℕ_discrete k i) [
      | yes same ↦
          let none_left = count-without_self i subs in
          let here : count k (without i subs) ≡ count i (without i subs) =
            ap (λ n. count n (without i subs)) same in
          absurd (omega (arith, none_left, here, listed))
      | no ne ↦
          let (q, there, h) =
            l.stocked k (omega (arith, listed, count-without_other i k subs ne)) in
          (q, ground arith, h)
    ];
    balance = λ p. omega (arith, l.balance p, e p, store_refs-remove queues i subs p once);
  }
