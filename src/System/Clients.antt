-- ===== src/System/Clients.antt =====
-- What a client that comes and one that goes do to the ledger and to the registry.
use pub_sub_crawl.Base.{
  ℕ, ◌≤◌, ◌≡◌, ◌≢◌, refl, ap, subst, true, false, Option, none, some, List, ◌++◌, arith,
}
use native.Mathlib.Decide.{ℕ_discrete}
use pub_sub_crawl.Message.{MsgType, telemetry, alert}
use pub_sub_crawl.MsgQueue.Slots.{Slots, refs}
use pub_sub_crawl.PubSub.Topics.{count}
use pub_sub_crawl.System.{
  System, Connection, IsFresh, hands, with_queue, without, without_queue, contents, create_queue,
  destroy_queue, connect, unsubscribe_client, disconnect,
}
use pub_sub_crawl.System.Queues.{
  Ledger-created, Ledger-destroyed, refs-contents, count-without_self, count-without_other,
  without-absent,
}
use pub_sub_crawl.System.Routing.{
  IsConnected, Connected, IsFresh-IsNew, IsFresh-next, Routed-enter, Routed-quit,
}
use pub_sub_crawl.System.Safety.{Sound, LedgerOf}
use pub_sub_crawl.System.Flags.{listed-with}

-- A queue that is there, once.
abbrev IsListed : List ℕ → Option ℕ → Type 0
IsListed subs none = Unit {0}
IsListed subs (some i) = count i subs ≡ 1

abbrev AtMostOnce : List ℕ → Type 0
AtMostOnce subs = (k : ℕ) → count k subs ≤ 1

AtMostOnce-without :
    (o : Option ℕ) (subs : List ℕ) → AtMostOnce subs → AtMostOnce (without_queue o subs)
AtMostOnce-without none subs h k = h k
AtMostOnce-without (some i) subs h k = elim (ℕ_discrete k i) [
  | yes same ↦
      let here : count k (without i subs) ≡ count i (without i subs) =
        ap (λ n. count n (without i subs)) same in
      omega (arith, count-without_self i subs, here)
  | no ne ↦ omega (arith, count-without_other i k subs ne, h k)
]

module _ (kind : ℕ → MsgType) where
  AtMostOnce-with :
      (m : MsgType) (o : Option ℕ) (subs : List ℕ)
      → IsFresh kind m subs o
      → AtMostOnce subs
      → AtMostOnce (with_queue o subs)
  unfolding count
  AtMostOnce-with m none subs f h k = h k
  AtMostOnce-with m (some i) subs f h k = ground (arith, f.0, h k)

  -- The two numbers are two.
  IsListed-both :
      (o p : Option ℕ) (rest subs : List ℕ)
      → subs ≡ with_queue p (with_queue o rest)
      → IsFresh kind telemetry rest o
      → IsFresh kind alert (with_queue o rest) p
      → IsListed subs o
        × IsListed (without_queue o subs) p
        × (without_queue p (without_queue o subs) ≡ rest)
  unfolding count
  IsListed-both none none rest subs e f g = (tt, tt, e)
  IsListed-both (some i) none rest subs e f g =
      rw e (ground (arith, f.0), tt, ground (arith, without-absent i rest f.0))
  IsListed-both none (some j) rest subs e f g =
      rw e (tt, ground (arith, g.0), ground (arith, without-absent j rest g.0))
  IsListed-both (some i) (some j) rest subs e f g =
      let gone : without i rest ≡ rest = without-absent i rest f.0 in
      let apart : i ≢ j = λ same. ground (arith, g.0) in
      let absent : count j rest ≡ 0 = ground (arith, g.0) in
      rw e (
        ground (arith, g.0, f.0),
        ground (arith, apart, gone, absent),
        ground (arith, apart, gone, without-absent j rest absent),
      )

  created-Ledger :
      (m : MsgType) (o : Option ℕ) (s : System) (held : Slots)
      → IsFresh kind m s.subs o
      → LedgerOf kind s held
      → LedgerOf kind (create_queue o s) held
  created-Ledger m none s held f l = l
  created-Ledger m (some i) s held f l = Ledger-created kind i f.0 l

  destroyed-Ledger :
      (o : Option ℕ) (s : System) (held : Slots)
      → IsListed s.subs o
      → LedgerOf kind s held
      → LedgerOf kind (destroy_queue o s) held
  destroyed-Ledger none s held h l = l
  destroyed-Ledger (some i) s held h l =
      Ledger-destroyed kind i (refs (contents (s.queues i) ++ s.lost)) h
        (λ p. refs-contents (s.queues i) s.lost p) l

  pub opens-Sound :
      (s : System) (o p : Option ℕ)
      → s.conn ≡ none
      → IsFresh kind telemetry s.subs o
      → IsFresh kind alert s.subs p
      → Sound kind s
      → Sound kind (connect o p s)
  opens-Sound s o p e f g h =
      let next = IsFresh-next kind s.subs o p f g in
      let alone : s.subs ≡ s.own_queues =
        subst (Connected kind s.own_queues s.subs s.pubsub_ctx) e h.connected in
      record {
        once =
            AtMostOnce-with alert p (with_queue o s.subs) next
              (AtMostOnce-with telemetry o s.subs f h.once);
        routed = Routed-enter kind s.subs s.pubsub_ctx o p h.routed f next;
        ledger =
            created-Ledger alert p (create_queue o s) (hands s) next
              (created-Ledger telemetry o s (hands s) f h.ledger);
        connected =
            subst
              (λ own.
                Connected kind own (with_queue p (with_queue o s.subs)) (connect o p s).pubsub_ctx
                  (connect o p s).conn)
              alone
              (record {
                before = s.pubsub_ctx;
                telemetry_new =
                    IsFresh-IsNew kind telemetry telemetry s.subs s.pubsub_ctx o h.routed f;
                alerts_new = IsFresh-IsNew kind alert alert s.subs s.pubsub_ctx p h.routed g;
                entered = refl;
                still = λ l m k. refl;
                parted = λ l. cc;
                routed = h.routed;
                telemetry_fresh = f;
                alerts_fresh = next;
                all = refl;
              });
      }

  pub unsubscribes-Sound :
      (s : System) (c : Connection)
      → s.conn ≡ some c
      → c.left ≡ false
      → Sound kind s
      → Sound kind (unsubscribe_client c s)
  unsubscribes-Sound s c e l h =
      let there : IsConnected kind s.own_queues s.subs s.pubsub_ctx c =
        subst (Connected kind s.own_queues s.subs s.pubsub_ctx) e h.connected in
      let parted = Routed-quit kind s.own_queues s.subs s.pubsub_ctx c there l in
      record {
        once = h.once;
        routed = λ t i listed.
            let (own, k) = parted t i listed in
            (
              rw there.all (
                  listed-with kind c.alerts_sub (with_queue c.telemetry_sub s.own_queues) i
                    (listed-with kind c.telemetry_sub s.own_queues i own)),
              k,
            );
        ledger = h.ledger;
        connected = record {
          before = there.before;
          telemetry_new = there.telemetry_new;
          alerts_new = there.alerts_new;
          entered = there.entered;
          still = λ l'. cc;
          parted = λ l'. parted;
          routed = there.routed;
          telemetry_fresh = there.telemetry_fresh;
          alerts_fresh = there.alerts_fresh;
          all = there.all;
        };
      }

  pub closes-Sound :
      (s : System) (c : Connection)
      → s.conn ≡ some c
      → c.left ≡ true
      → Sound kind s
      → Sound kind (disconnect c s)
  closes-Sound s c e l h =
      let there : IsConnected kind s.own_queues s.subs s.pubsub_ctx c =
        subst (Connected kind s.own_queues s.subs s.pubsub_ctx) e h.connected in
      let (first, second, left) =
        IsListed-both c.telemetry_sub c.alerts_sub s.own_queues s.subs there.all
          there.telemetry_fresh there.alerts_fresh in
      record {
        once =
            AtMostOnce-without c.alerts_sub (without_queue c.telemetry_sub s.subs)
              (AtMostOnce-without c.telemetry_sub s.subs h.once);
        routed = rw left (there.parted l);
        ledger =
            destroyed-Ledger c.alerts_sub (destroy_queue c.telemetry_sub s) (hands s) second
              (destroyed-Ledger c.telemetry_sub s (hands s) first h.ledger);
        connected = left;
      }
