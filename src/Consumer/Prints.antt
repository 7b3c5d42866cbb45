-- ===== src/Consumer/Prints.antt =====
-- What the consumer prints, and what it leaves, when its telemetry queue is shut down.
use pub_sub_crawl.Base.{
  ℕ, zero, suc, ◌<◌, ◌≡◌, ◌∙◌, sym, refl, ap, subst, Bool, true, Option, none, some, List, [], ◌∷◌,
  ◌++◌, append_assoc, append-nil, arith, length, drop, get_or, set,
}
use pub_sub_crawl.Message.{Item, Object, TelemetryMsg, AlertMsg, telemetry_msg, alert_msg, heap}
use pub_sub_crawl.Memory.{free}
use pub_sub_crawl.MsgQueue.Refine.{Holds}
use pub_sub_crawl.MsgQueue.Drain.{dequeue-cons, dequeue-nil, try_dequeue-cons, try_dequeue-nil}
use pub_sub_crawl.Consumer.{Consumer, left, consumer_routine, show, as_telemetry, as_alert}

abbrev pub Cells : Type 0
Cells = List (Option Object)

-- `item` has the message `o` in the live block `p`.
abbrev pub Points : Cells → Item → ℕ → Object → Type 0
Points cs item p o = (item.payload ≡ heap p) × (get_or cs p none ≡ some o)

-- The items of the two queues carry messages, which are shown as `os`: each telemetry message, and
-- behind it an alert while there are any. `ds` is the heap without the blocks of those shown.
pub data Prints : Cells → List Item → List Item → List Object → Cells → Type 0 where
  nothing : {cs : Cells} {ms : List Item} → Prints cs [] ms [] cs
  alone :
      {cs ds : Cells} {x : Item} {xs : List Item} {os : List Object} {p : ℕ} {t : TelemetryMsg}
      → Points cs x p (telemetry_msg t)
      → Prints (set cs p none) xs [] os ds
      → Prints cs (x ∷ xs) [] (telemetry_msg t ∷ os) ds
  both :
      {cs ds : Cells} {x y : Item} {xs ys : List Item} {os : List Object} {p r : ℕ}
      {t : TelemetryMsg} {a : AlertMsg}
      → Points cs x p (telemetry_msg t)
      → Points (set cs p none) y r (alert_msg a)
      → Prints (set (set cs p none) r none) xs ys os ds
      → Prints cs (x ∷ xs) (y ∷ ys) (telemetry_msg t ∷ alert_msg a ∷ os) ds

abbrev pub shown : Consumer → ℕ → Object → Consumer
shown c p o = record c {
  heap = record c.heap { cells = set c.heap.cells p none };
  printed = c.printed ++ o ∷ [];
}

pub show-lem :
    (view : Object → Option Object) (item : Item) (c : Consumer) (p : ℕ) (o : Object)
    → Points c.heap.cells item p o
    → view o ≡ some o
    → show view item c ≡ some (shown c p o)
unfolding free
show-lem view item c p o (at, there) fit = ground (arith)

-- What a run of the loop leaves: the telemetry queue empty, the alerts `ms` in theirs.
pub record Left (c c' : Consumer) (closed : Bool) (ms : List Item) (os : List Object) (ds : Cells)
    : Type 0 where
  pub telemetry : Holds c'.telemetry_queue (record { contents = []; closed = true })
  pub alerts : Holds c'.alerts_queue (record { contents = ms; closed = closed })
  pub cells : c'.heap.cells ≡ ds
  pub printed : c'.printed ≡ c.printed ++ os

Left-shown :
    (c c1 c' : Consumer) {closed : Bool} {ms : List Item} {os : List Object} {ds : Cells}
    (front : List Object)
    → c1.printed ≡ c.printed ++ front
    → Left c1 c' closed ms os ds
    → Left c c' closed ms (front ++ os) ds
Left-shown c c1 c' {os = os} front e l = record {
  telemetry = l.telemetry;
  alerts = l.alerts;
  cells = l.cells;
  printed = l.printed ∙ ap (λ o. o ++ os) e ∙ append_assoc c.printed front os;
}

drop-nil : (n : ℕ) → drop {A = Item} n [] ≡ []
drop-nil zero = refl
drop-nil (suc n) = refl

-- When its telemetry queue is shut down the consumer shows every telemetry message in order, each
-- followed by one alert while there are any, frees the blocks of exactly those, and leaves its loop
-- within one round more than there are telemetry messages. Further alerts stay in their queue.
pub consumer_routine-Left :
    {cs ds : Cells} {ts ms : List Item} {os : List Object} {closed : Bool} (rounds : ℕ)
    (c : Consumer)
    → length ts < rounds
    → c.heap.cells ≡ cs
    → Prints cs ts ms os ds
    → Holds c.telemetry_queue (record { contents = ts; closed = true })
    → Holds c.alerts_queue (record { contents = ms; closed = closed })
    → (c' : Consumer) × (consumer_routine rounds c ≡ left c')
      × Left c c' closed (drop (length ts) ms) os ds
unfolding consumer_routine
consumer_routine-Left zero c few e prints t a = absurd (omega arith)
consumer_routine-Left (suc n) c few e nothing t a = (
  c,
  rw (dequeue-nil t refl refl, consumer_routine) refl,
  record { telemetry = t; alerts = a; cells = e; printed = sym (append-nil c.printed) },
)
consumer_routine-Left {ds = ds} {closed = closed} (suc n) c few e
      (alone {x = x} {xs = xs} {os = os} {p = p} {t = m} at more) t a =
    let (q, took, t') = dequeue-cons x xs t refl in
    let c1 : Consumer = shown (record c { telemetry_queue = q }) p (telemetry_msg m) in
    let first =
      show-lem as_telemetry x (record c { telemetry_queue = q }) p (telemetry_msg m)
        (at.0, rw e at.1) refl in
    let (c', run, l) =
      consumer_routine-Left n c1 (omega arith) (ap (λ k. set k p none) e) more t' a in
    (
      c',
      rw (took, first, try_dequeue-nil a refl, consumer_routine) run,
      Left-shown c c1 c' (telemetry_msg m ∷ []) refl
          (subst (λ k. Left c1 c' closed k os ds) (drop-nil (length xs)) l),
    )
consumer_routine-Left (suc n) c few e
      (both {x = x} {y = y} {xs = xs} {ys = ys} {p = p} {r = r} {t = m} {a = w} at at' more) t a =
    let (q, took, t') = dequeue-cons x xs t refl in
    let (q', took', a') = try_dequeue-cons y ys a refl in
    let c1 : Consumer = shown (record c { telemetry_queue = q }) p (telemetry_msg m) in
    let c2 : Consumer = shown (record c1 { alerts_queue = q' }) r (alert_msg w) in
    let first =
      show-lem as_telemetry x (record c { telemetry_queue = q }) p (telemetry_msg m)
        (at.0, rw e at.1) refl in
    let second =
      show-lem as_alert y (record c1 { alerts_queue = q' }) r (alert_msg w) (at'.0, rw e at'.1)
        refl in
    let (c', run, l) =
      consumer_routine-Left n c2 (omega arith) (ap (λ k. set (set k p none) r none) e) more t' a' in
    (
      c',
      rw (took, first, took', second, consumer_routine) run,
      Left-shown c c2 c' (telemetry_msg m ∷ alert_msg w ∷ [])
          (append_assoc c.printed (telemetry_msg m ∷ []) (alert_msg w ∷ [])) l,
    )
