-- ===== src/System/Reading.antt =====
-- What the readers of the subscriber queues, the transport and the consumer, do to the ledger.
use mathlib.Core.Option.{some-injective}
use pub_sub_crawl.Base.{
  ℕ, ◌≤◌, ◌<◌, ◌≡◌, ◌≢◌, ◌⊎◌, ◌∙◌, sym, refl, ap, subst, fun_ext, Bool, Option, none, some, List,
  [], ◌∷◌, ◌++◌, arith, Bytes, get_or, set, inl, inr, Option-cases,
}
use pub_sub_crawl.Message.{MsgType, telemetry, alert, Item, Object, telemetry_msg, alert_msg, heap}
use pub_sub_crawl.Memory.{Heap, free}
use pub_sub_crawl.Memory.Balance.{Cells}
use pub_sub_crawl.MsgQueue.{Queue, try_dequeue, dequeue}
use pub_sub_crawl.MsgQueue.Slots.{Slots, Holding, Taken, try_dequeue-Taken, dequeue-Taken}
use pub_sub_crawl.PubSub.{update}
use pub_sub_crawl.PubSub.Topics.{count}
use pub_sub_crawl.PubSub.Store.{Queues}
use pub_sub_crawl.Wire.{Write, Sent}
use pub_sub_crawl.Transport.{
  Client, Round, blocked, next, faulted, forward, from_telemetry, from_alerts, telemetry_line,
  alert_line, send_line, release,
}
use pub_sub_crawl.Consumer
use pub_sub_crawl.Consumer.Prints.{show-lem}
use pub_sub_crawl.System.Ledger.{Ledger, Ledger-read, IsMessage}

telemetry-line : (o : Object) → IsMessage telemetry o → (l : Bytes) × (telemetry_line o ≡ some l)
telemetry-line (telemetry_msg t) fit = (_, refl)
telemetry-line _ fit = absurd fit

alert-line : (o : Object) → IsMessage alert o → (l : Bytes) × (alert_line o ≡ some l)
alert-line (alert_msg a) fit = (_, refl)
alert-line _ fit = absurd fit

as_telemetry-lem : (o : Object) → IsMessage telemetry o → Consumer.as_telemetry o ≡ some o
as_telemetry-lem (telemetry_msg t) fit = refl
as_telemetry-lem _ fit = absurd fit

as_alert-lem : (o : Object) → IsMessage alert o → Consumer.as_alert o ≡ some o
as_alert-lem (alert_msg a) fit = refl
as_alert-lem _ fit = absurd fit

abbrev freed : Client → ℕ → Bytes → Client
freed c p out = record c { heap = record c.heap { cells = set c.heap.cells p none }; out = out }

-- A message whose block is live is sent and freed, unless `write` does not return.
release-cases :
    (item : Item) (sent : Sent) (c : Client) (p : ℕ) (o : Object)
    → item.payload ≡ heap p
    → get_or c.heap.cells p none ≡ some o
    → (release item sent c ≡ blocked)
      ⊎ ((going : Bool) × (release item sent c
            ≡ next going sent.left (freed c p (c.out ++ sent.out))))
unfolding free
release-cases item sent c p o at there = elim (Option-cases sent.verdict) [
  | inl stuck ↦ inl (rw stuck refl)
  | inr (going, e) ↦ inr (going, ground arith)
]

forward-cases :
    (line_of : Object → Option Bytes) (item : Item) (ws : List Write) (c : Client) (p : ℕ)
    (o : Object) (l : Bytes)
    → item.payload ≡ heap p
    → get_or c.heap.cells p none ≡ some o
    → line_of o ≡ some l
    → (forward line_of item ws c ≡ blocked)
      ⊎ ((going : Bool) × (ws' : List Write) × (out : Bytes) × (forward line_of item ws c
            ≡ next going ws' (freed c p out)))
forward-cases line_of item ws c p o l at there made =
    let shape : forward line_of item ws c ≡ release item (send_line ws l) c = ground arith in
    elim (release-cases item (send_line ws l) c p o at there) [
      | inl e ↦ inl (shape ∙ e)
      | inr (going, e) ↦
          inr (going, (send_line ws l).left, c.out ++ (send_line ws l).out, shape ∙ e)
    ]

module _ (kind : ℕ → MsgType) (subs : List ℕ) (once : (i : ℕ) → count i subs ≤ 1) (lost : ℕ → ℕ)
    (held : Slots) (ingest : Queue) where
  abbrev pub LedgerAt : Queues → Cells → Type 0
  LedgerAt queues cs = Ledger kind subs lost held ingest queues cs

  -- Queue `k` of the store is `q`, and gets the messages of type `m`.
  pub record IsAt (queues : Queues) (k : ℕ) (q : Queue) (m : MsgType) : Type 0 where
    pub there : queues k ≡ some q
    pub kinded : kind k ≡ m
    pub listed : 0 < count k subs

  IsAt-Holding :
      {queues : Queues} {cs : Cells} {k : ℕ} {q : Queue} {m : MsgType}
      → IsAt queues k q m
      → LedgerAt queues cs
      → Holding (λ x. IsMessage m) cs q
  IsAt-Holding {cs = cs} {k = k} {q = q} {m = m} e l =
      let (r, at, h) = l.stocked k e.listed in
      let same : r ≡ q = some-injective r q (sym at ∙ e.there) in
      subst (λ n. Holding (λ x. IsMessage n) cs q) e.kinded (rw (← same) h)

  read-at :
      {queues : Queues} {cs : Cells} {k : ℕ} {q q' : Queue} {m : MsgType} {x : Item} (p : ℕ)
      → IsAt queues k q m
      → Taken (λ x. IsMessage m) cs q x q'
      → x.payload ≡ heap p
      → LedgerAt queues cs
      → LedgerAt (update queues k q') (set cs p none)
  read-at {cs = cs} {k = k} {q = q} {q' = q'} {x = x} p e took at l =
      Ledger-read kind subs k q x q' p (omega (arith, once k, e.listed)) e.there
        (subst (λ n. Taken (λ x. IsMessage n) cs q x q') (sym e.kinded) took) at l

  -- The two queues of one reader: a telemetry queue `i` and an alert queue `j`.
  module _ (queues : Queues) (i j : ℕ) (t a : Queue) (e_i : IsAt queues i t telemetry)
      (e_j : IsAt queues j a alert) where
    abbrev pub LedgerWith : Queue → Queue → Cells → Type 0
    LedgerWith t' a' cs = LedgerAt (update (update queues i t') j a') cs

    i≢j : i ≢ j
    i≢j same = let e = ap kind same in ground (arith, e_i.kinded, e_j.kinded)

    -- Queue `j` as it is after a change of queue `i`.
    still_j : (t' : Queue) → IsAt (update queues i t') j a alert
    still_j t' = record {
      there = ground (arith, i≢j, e_j.there);
      kinded = e_j.kinded;
      listed = e_j.listed;
    }

    -- The store with one of the two changed, or none, when both are written back.
    only_telemetry :
        (t' : Queue) (cs : Cells) → LedgerAt (update queues i t') cs → LedgerWith t' a cs
    only_telemetry t' cs l =
        subst (λ f. LedgerAt f cs)
          (fun_ext {f = update queues i t'} {g = update (update queues i t') j a}
            (λ k. ground (arith, i≢j, e_j.there)))
          l

    only_alerts : (a' : Queue) (cs : Cells) → LedgerAt (update queues j a') cs → LedgerWith t a' cs
    only_alerts a' cs l =
        subst (λ f. LedgerAt f cs)
          (fun_ext {f = update queues j a'} {g = update (update queues i t) j a'}
            (λ k. ground (arith, i≢j, e_i.there)))
          l

    neither : (cs : Cells) → LedgerAt queues cs → LedgerWith t a cs
    neither cs l =
        subst (λ f. LedgerAt f cs)
          (fun_ext {f = queues} {g = update (update queues i t) j a}
            (λ k. ground (arith, i≢j, e_i.there, e_j.there)))
          l

    -- A round of `serve_client` on the two queues.
    abbrev pub ServeKeeps : Round → Type 0
    ServeKeeps blocked = Unit {0}
    ServeKeeps faulted = ⊥
    ServeKeeps (next going ws c) = LedgerWith c.telemetry_sub c.alerts_sub c.heap.cells

    -- The reader forwards the item that it has taken.
    forward-Keeps :
        (line_of : Object → Option Bytes) (x : Item) (ws : List Write) (c : Client) (p : ℕ)
        (o : Object) (l : Bytes)
        → x.payload ≡ heap p
        → get_or c.heap.cells p none ≡ some o
        → line_of o ≡ some l
        → LedgerWith c.telemetry_sub c.alerts_sub (set c.heap.cells p none)
        → ServeKeeps (forward line_of x ws c)
    forward-Keeps line_of x ws c p o l at there made kept =
        elim (forward-cases line_of x ws c p o l at there made) [
          | inl e ↦ rw e tt
          | inr (going, ws', out, e) ↦ rw e kept
        ]

    abbrev served : Heap → Bytes → Client
    served h out = record { telemetry_sub = t; alerts_sub = a; heap = h; out = out }

    from_alerts-Keeps :
        (ws : List Write) (h : Heap) (out : Bytes)
        → LedgerAt queues h.cells
        → ServeKeeps (from_alerts ws (served h out) (try_dequeue a))
    from_alerts-Keeps ws h out l =
        elim (try_dequeue-Taken (λ x. IsMessage alert) h.cells a (IsAt-Holding e_j l)) [
          | inl e ↦ rw e (neither h.cells l)
          | inr (x, a', e, took) ↦
              let (p, o, at, there, fit) = took.fit in
              let (line, made) = alert-line o fit in
              rw e (
                forward-Keeps alert_line x ws (record (served h out) { alerts_sub = a' }) p o line
                  at there made (only_alerts a' (set h.cells p none) (read-at p e_j took at l)))
        ]

    pub from_telemetry-Keeps :
        (ws : List Write) (h : Heap) (out : Bytes)
        → LedgerAt queues h.cells
        → ServeKeeps (from_telemetry ws (served h out) (try_dequeue t))
    from_telemetry-Keeps ws h out l =
        elim (try_dequeue-Taken (λ x. IsMessage telemetry) h.cells t (IsAt-Holding e_i l)) [
          | inl e ↦ rw e (from_alerts-Keeps ws h out l)
          | inr (x, t', e, took) ↦
              let (p, o, at, there, fit) = took.fit in
              let (line, made) = telemetry-line o fit in
              rw e (
                forward-Keeps telemetry_line x ws (record (served h out) { telemetry_sub = t' }) p o
                  line at there made
                  (only_telemetry t' (set h.cells p none) (read-at p e_i took at l)))
        ]

    -- A round of `consumer_routine` on them.
    abbrev pub ConsumeKeeps : Consumer.Round → Type 0
    ConsumeKeeps (Consumer.waiting c) = LedgerWith c.telemetry_queue c.alerts_queue c.heap.cells
    ConsumeKeeps (Consumer.left c) = LedgerWith c.telemetry_queue c.alerts_queue c.heap.cells
    ConsumeKeeps (Consumer.next c) = LedgerWith c.telemetry_queue c.alerts_queue c.heap.cells
    ConsumeKeeps Consumer.faulted = ⊥

    try_alert-Keeps :
        (t' : Queue) (h : Heap) (printed : List Object)
        → LedgerAt (update queues i t') h.cells
        → ConsumeKeeps (
            Consumer.try_alert
              (record { telemetry_queue = t'; alerts_queue = a; heap = h; printed = printed })
              (try_dequeue a))
    try_alert-Keeps t' h printed l =
        elim (try_dequeue-Taken (λ x. IsMessage alert) h.cells a (IsAt-Holding (still_j t') l)) [
          | inl e ↦ rw e (only_telemetry t' h.cells l)
          | inr (x, a', e, took) ↦
              let (p, o, at, there, fit) = took.fit in
              let shown =
                show-lem Consumer.as_alert x
                  (record { telemetry_queue = t'; alerts_queue = a'; heap = h; printed = printed })
                  p o (at, there) (as_alert-lem o fit) in
              rw (e, shown) (read-at p (still_j t') took at l)
        ]

    pub round-Keeps :
        (h : Heap) (printed : List Object)
        → LedgerAt queues h.cells
        → ConsumeKeeps (
            Consumer.round
              (record { telemetry_queue = t; alerts_queue = a; heap = h; printed = printed })
              (dequeue t))
    round-Keeps h printed l =
        elim (dequeue-Taken (λ x. IsMessage telemetry) h.cells t (IsAt-Holding e_i l)) [
          | inl e ↦ rw e (neither h.cells l)
          | inr (inl e) ↦ rw e (neither h.cells l)
          | inr (inr (x, t', e, took)) ↦
              let (p, o, at, there, fit) = took.fit in
              let c1 : Consumer.Consumer = record {
                telemetry_queue = t';
                alerts_queue = a;
                heap = h;
                printed = printed;
              } in
              let shown =
                show-lem Consumer.as_telemetry x c1 p o (at, there) (as_telemetry-lem o fit) in
              rw (e, shown)
                (try_alert-Keeps t' (record h { cells = set h.cells p none }) (printed ++ o ∷ [])
                  (read-at p e_i took at l))
        ]
