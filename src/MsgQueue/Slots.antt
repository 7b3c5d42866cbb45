-- ===== src/MsgQueue/Slots.antt =====
-- The blocks that the items of a queue refer to.
use pub_sub_crawl.Base.{
  ℕ, ◌+◌, ◌<◌, ◌≡◌, ◌≢◌, ◌∙◌, refl, ap, true, false, Option, none, some, List, [], ◌∷◌, ◌++◌, arith,
  ◌==◌, get_or, set, get_or-set_ne, All, All-append_one, Bool-cases, inl, inr, ◌⊎◌,
}
use pub_sub_crawl.Message.{Item, Object, Ptr, heap}
use pub_sub_crawl.Memory.Balance.{Cells, Extends, at_most_this}
use pub_sub_crawl.MsgQueue.{
  Queue, put, advance, front, returns, waits, dequeue, try_dequeue, is_full,
}
use pub_sub_crawl.MsgQueue.Invariant.{IsValid, put-IsValid, advance-IsValid}
use pub_sub_crawl.MsgQueue.Refine.{used, used-put, used-advance}

abbrev pub Slots : Type 0
Slots = List (Option Item)

abbrev pub points_to : Ptr → ℕ → ℕ
points_to (heap q) p = at_most_this q p
points_to _ p = 0

abbrev pub points : Option Item → ℕ → ℕ
points none p = 0
points (some x) p = points_to x.payload p

-- How often slots refer to block `p`.
abbrev pub refs : Slots → ℕ → ℕ
refs [] p = 0
refs (c ∷ cs) p = points c p + refs cs p

pub refs-append_one :
    (cs : Slots) (x : Option Item) (p : ℕ) → refs (cs ++ x ∷ []) p ≡ refs cs p + points x p
refs-append_one [] x p = omega arith
refs-append_one (c ∷ cs) x p = omega (arith, refs-append_one cs x p)

abbrev pub queue_refs : Queue → ℕ → ℕ
queue_refs q = refs (used q.buffer)

pub refs-put :
    (q : Queue) (x : Item) (p : ℕ)
    → IsValid q.buffer
    → is_full q ≡ false
    → queue_refs (record q { buffer = put q.buffer x }) p ≡ queue_refs q p + points_to x.payload p
refs-put q x p v room =
    ap (λ l. refs l p) (used-put q.buffer x v (ground arith))
    ∙ refs-append_one (used q.buffer) (some x) p

-- Items whose payload is a live block with an object that fits them.
module _ (Fits : Item → Object → Type 0) where
  abbrev pub IsFit : Cells → Option Item → Type 0
  IsFit cs none = ⊥
  IsFit cs (some x) =
      (p : ℕ) × (o : Object) × (x.payload ≡ heap p) × (get_or cs p none ≡ some o) × Fits x o

  abbrev pub AllFit : Cells → Slots → Type 0
  AllFit cs = All (IsFit cs)

  pub AllFit-Extends : (xs : Slots) (cs ds : Cells) → Extends cs ds → AllFit cs xs → AllFit ds xs
  AllFit-Extends [] cs ds e h = tt
  AllFit-Extends (none ∷ xs) cs ds e h = absurd h.0
  AllFit-Extends (some x ∷ xs) cs ds e ((p, o, at, there, fit), more) =
      ((p, o, at, e p o there, fit), AllFit-Extends xs cs ds e more)

  -- The `free` of a block that nothing here refers to is not noticed.
  pub AllFit-set-none :
      (xs : Slots) (cs : Cells) (q : ℕ) → refs xs q ≡ 0 → AllFit cs xs → AllFit (set cs q none) xs
  AllFit-set-none [] cs q e h = tt
  AllFit-set-none (none ∷ xs) cs q e h = absurd h.0
  AllFit-set-none (some x ∷ xs) cs q e ((p, o, at, there, fit), more) =
      let apart : q ≢ p = λ same. ground (arith, same, at) in
      (
        (p, o, at, get_or-set_ne cs none none apart ∙ there, fit),
        AllFit-set-none xs cs q (omega (arith, e)) more,
      )

  pub AllFit-put :
      (q : Queue) (cs : Cells) (x : Item)
      → IsValid q.buffer
      → is_full q ≡ false
      → AllFit cs (used q.buffer)
      → IsFit cs (some x)
      → AllFit cs (used (put q.buffer x))
  AllFit-put q cs x v room fits fit =
      rw (used-put q.buffer x v (ground arith))
        (All-append_one (IsFit cs) (used q.buffer) (some x) fits fit)

  -- A queue in use: its ring is valid and its items fit.
  pub record Holding (cs : Cells) (q : Queue) : Type 0 where
    pub valid : IsValid q.buffer
    pub fits : AllFit cs (used q.buffer)

  -- What a reader takes out: the item fits, and its one reference goes with it.
  pub record Taken (cs : Cells) (q : Queue) (x : Item) (q' : Queue) : Type 0 where
    pub fit : IsFit cs (some x)
    pub rest : Holding cs q'
    pub less : (p : ℕ) → queue_refs q' p + points_to x.payload p ≡ queue_refs q p

  take-front :
      (cs : Cells) (q : Queue)
      → Holding cs q
      → 0 < q.buffer.size
      → (x : Item) × (front q.buffer ≡ some x)
        × Taken cs q x (record q { buffer = advance q.buffer })
  take-front cs q h filled = pick (front q.buffer) refl
    where
      split : used q.buffer ≡ front q.buffer ∷ used (advance q.buffer)
      split = used-advance q.buffer h.valid filled

      fits : AllFit cs (front q.buffer ∷ used (advance q.buffer))
      fits = rw split at h.fits

      pick :
          (s : Option Item)
          → front q.buffer ≡ s
          → (x : Item) × (front q.buffer ≡ some x)
            × Taken cs q x (record q { buffer = advance q.buffer })
      pick none e = let gone : IsFit cs none = rw e at fits.0 in absurd gone
      pick (some x) e = (
        x,
        e,
        record {
          fit = rw e at fits.0;
          rest = record { valid = advance-IsValid q.buffer h.valid filled; fits = fits.1 };
          less = λ p.
              let whole = ap (λ l. refs l p) split in
              let here = ap (λ c. points c p) e in omega (arith, whole, here);
        },
      )

  pub Holding-Extends : (cs ds : Cells) (q : Queue) → Extends cs ds → Holding cs q → Holding ds q
  Holding-Extends cs ds q e h = record {
    valid = h.valid;
    fits = AllFit-Extends (used q.buffer) cs ds e h.fits;
  }

  pub Holding-set-none :
      (cs : Cells) (q : Queue) (p : ℕ)
      → queue_refs q p ≡ 0
      → Holding cs q
      → Holding (set cs p none) q
  Holding-set-none cs q p e h = record {
    valid = h.valid;
    fits = AllFit-set-none (used q.buffer) cs p e h.fits;
  }

  pub Holding-put :
      (cs : Cells) (q : Queue) (x : Item)
      → is_full q ≡ false
      → Holding cs q
      → IsFit cs (some x)
      → Holding cs (record q { buffer = put q.buffer x })
  Holding-put cs q x room h fit = record {
    valid = put-IsValid q.buffer x h.valid (ground arith);
    fits = AllFit-put q cs x h.valid room h.fits fit;
  }

  -- The answers of the two calls that take an item out.
  pub try_dequeue-Taken :
      (cs : Cells) (q : Queue)
      → Holding cs q
      → (try_dequeue q ≡ (false, none, q))
        ⊎ ((x : Item) × (q' : Queue) × (try_dequeue q ≡ (true, some x, q')) × Taken cs q x q')
  unfolding try_dequeue
  try_dequeue-Taken cs q h = elim (Bool-cases (q.buffer.size == 0)) [
    | inl empty ↦ inl (rw empty refl)
    | inr filled ↦
        let (x, here, t) = take-front cs q h (ground arith) in
        inr (x, record q { buffer = advance q.buffer }, rw (filled, here) refl, t)
  ]

  pub dequeue-Taken :
      (cs : Cells) (q : Queue)
      → Holding cs q
      → (dequeue q ≡ waits)
        ⊎ ((dequeue q ≡ returns (false, none, q))
            ⊎ ((x : Item) × (q' : Queue) × (dequeue q ≡ returns (true, some x, q'))
                × Taken cs q x q'))
  unfolding dequeue
  dequeue-Taken cs q h = elim (Bool-cases (q.buffer.size == 0)) [
    | inl empty ↦ elim (Bool-cases q.shutting_down) [
      | inl closed ↦ inr (inl (rw (empty, closed) refl))
      | inr running ↦ inl (rw (empty, running) refl)
    ]
    | inr filled ↦
        let (x, here, t) = take-front cs q h (ground arith) in
        inr (inr (x, record q { buffer = advance q.buffer }, rw (filled, here) refl, t))
  ]
