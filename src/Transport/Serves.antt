-- ===== src/Transport/Serves.antt =====
-- What `serve_client` sends, and what it leaves, when the queues hold messages.
use pub_sub_crawl.Base.{
  ℕ, zero, suc, ◌<◌, ◌≡◌, ◌∙◌, sym, refl, ap, Bool, true, Option, none, some, List, [], ◌∷◌, ◌++◌,
  arith, append_assoc, append-nil, length, get_or, set, Bytes,
}
use pub_sub_crawl.Message.{Item, Object, heap}
use pub_sub_crawl.Memory.{free}
use pub_sub_crawl.MsgQueue.Refine.{Holds}
use pub_sub_crawl.MsgQueue.Drain.{try_dequeue-cons, try_dequeue-nil}
use pub_sub_crawl.Wire.{Write, write_all}
use pub_sub_crawl.Wire.Lines.{write_all-Split}
use pub_sub_crawl.Transport.{
  Client, next, serve_client, forward, telemetry_line, alert_line, line_size,
}

-- The items carry the lines, each in a live block of its own, and `ds` is the heap without the blocks.
pub data Carries (line_of : Object → Option Bytes)
    : List (Option Object) → List Item → List Bytes → List (Option Object) → Type 0 where
  nothing : {cs : List (Option Object)} → Carries line_of cs [] [] cs
  one :
      {cs ds : List (Option Object)} {x : Item} {xs : List Item} {l : Bytes} {ls : List Bytes}
      {p : ℕ} {o : Object}
      → x.payload ≡ heap p
      → get_or cs p none ≡ some o
      → line_of o ≡ some l
      → 0 < length l
      → length l < line_size
      → Carries line_of (set cs p none) xs ls ds
      → Carries line_of cs (x ∷ xs) (l ∷ ls) ds

-- `write` takes the lines, in as many pieces as it likes.
abbrev pub Accepts : List Write → List Bytes → Type 0
Accepts ws [] = Unit {0}
Accepts ws (l ∷ ls) = ((write_all ws l).verdict ≡ some true) × Accepts (write_all ws l).left ls

abbrev pub writes_left : List Write → List Bytes → List Write
writes_left ws [] = ws
writes_left ws (l ∷ ls) = writes_left (write_all ws l).left ls

abbrev pub joined : List Bytes → Bytes
joined [] = []
joined (l ∷ ls) = l ++ joined ls

-- `n` rounds in which nobody asks the loop to stop.
abbrev pub goes : ℕ → List Bool → List Bool
goes zero gos = gos
goes (suc n) gos = true ∷ goes n gos

abbrev sent : Client → ℕ → Bytes → Client
sent c p l = record c { heap = record c.heap { cells = set c.heap.cells p none }; out = c.out ++ l }

forward-lem :
    (line_of : Object → Option Bytes) (x : Item) (ws : List Write) (c : Client) (p : ℕ) (o : Object)
    (l : Bytes)
    → x.payload ≡ heap p
    → get_or c.heap.cells p none ≡ some o
    → line_of o ≡ some l
    → 0 < length l
    → length l < line_size
    → (write_all ws l).verdict ≡ some true
    → forward line_of x ws c ≡ next true (write_all ws l).left (sent c p l)
unfolding free
forward-lem line_of x ws c p o l at there made some_bytes fits taken =
    ground (arith, (write_all-Split ws l).2 taken)

-- Both queues are empty, the heap is `ds`, and `text` has been sent.
pub record Emptied (c c' : Client) (bt ba : Bool) (ds : List (Option Object)) (text : Bytes)
    : Type 0 where
  pub telemetry : Holds c'.telemetry_sub (record { contents = []; closed = bt })
  pub alerts : Holds c'.alerts_sub (record { contents = []; closed = ba })
  pub cells : c'.heap.cells ≡ ds
  pub out : c'.out ≡ c.out ++ text

-- What follows one sent line.
Emptied-sent :
    (c c1 c' : Client) {bt ba : Bool} {ds : List (Option Object)} {text : Bytes} (l : Bytes)
    → c1.out ≡ c.out ++ l
    → Emptied c1 c' bt ba ds text
    → Emptied c c' bt ba ds (l ++ text)
Emptied-sent c c1 c' {text = text} l e d = record {
  telemetry = d.telemetry;
  alerts = d.alerts;
  cells = d.cells;
  out = d.out ∙ ap (λ o. o ++ text) e ∙ append_assoc c.out l text;
}

serve_client-alerts :
    {cs ds : List (Option Object)} {ms : List Item} {ls : List Bytes} {bt ba : Bool}
    (gos : List Bool) (ws : List Write) (c : Client)
    → Carries alert_line cs ms ls ds
    → c.heap.cells ≡ cs
    → Holds c.telemetry_sub (record { contents = []; closed = bt })
    → Holds c.alerts_sub (record { contents = ms; closed = ba })
    → Accepts ws ls
    → (c' : Client) × (serve_client (goes (length ms) gos) ws c
        ≡ serve_client gos (writes_left ws ls) c')
      × Emptied c c' bt ba ds (joined ls)
unfolding serve_client
serve_client-alerts gos ws c nothing e t a accepts =
    (c, refl, record { telemetry = t; alerts = a; cells = e; out = sym (append-nil c.out) })
serve_client-alerts gos ws c
      (one {x = x} {xs = xs} {l = l} {p = p} {o = o} at there made pos fits more) e t a
      (taken, accepts) =
    let (q, took, a') = try_dequeue-cons x xs a refl in
    let c1 : Client = sent (record c { alerts_sub = q }) p l in
    let round =
      forward-lem alert_line x ws (record c { alerts_sub = q }) p o l at (rw e there) made pos fits
        taken in
    let (c', run, d) =
      serve_client-alerts gos (write_all ws l).left c1 more (ap (λ k. set k p none) e) t a'
        accepts in
    (c', rw (try_dequeue-nil t refl, took, round, serve_client) run, Emptied-sent c c1 c' l refl d)

-- With nobody asking it to stop and a client that takes all that is written, `serve_client` sends one
-- line for each message, the telemetry before the alerts and each queue in order; after as many
-- rounds as there are messages both queues are empty and exactly the blocks of the messages are freed.
pub serve_client-Emptied :
    {cs mid ds : List (Option Object)} {ts ms : List Item} {ls ks : List Bytes} {bt ba : Bool}
    (gos : List Bool) (ws : List Write) (c : Client)
    → c.heap.cells ≡ cs
    → Carries telemetry_line cs ts ls mid
    → Carries alert_line mid ms ks ds
    → Holds c.telemetry_sub (record { contents = ts; closed = bt })
    → Holds c.alerts_sub (record { contents = ms; closed = ba })
    → Accepts ws (ls ++ ks)
    → (c' : Client) × (serve_client (goes (length (ts ++ ms)) gos) ws c
        ≡ serve_client gos (writes_left ws (ls ++ ks)) c')
      × Emptied c c' bt ba ds (joined (ls ++ ks))
unfolding serve_client
serve_client-Emptied gos ws c e nothing alerts t a accepts =
    serve_client-alerts gos ws c alerts e t a accepts
serve_client-Emptied gos ws c e
      (one {x = x} {xs = xs} {l = l} {p = p} {o = o} at there made pos fits more) alerts t a
      (taken, accepts) =
    let (q, took, t') = try_dequeue-cons x xs t refl in
    let c1 : Client = sent (record c { telemetry_sub = q }) p l in
    let round =
      forward-lem telemetry_line x ws (record c { telemetry_sub = q }) p o l at (rw e there) made
        pos fits taken in
    let (c', run, d) =
      serve_client-Emptied gos (write_all ws l).left c1 (ap (λ k. set k p none) e) more alerts t' a
        accepts in
    (c', rw (took, round, serve_client) run, Emptied-sent c c1 c' l refl d)
