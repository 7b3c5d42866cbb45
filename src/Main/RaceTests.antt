-- ===== src/Main/RaceTests.antt =====
-- A run in which a worker has taken an alert of c/src/command.c before the listener has printed it.
use pub_sub_crawl.Base.{some, [], ◌∷◌, ◌++◌, Bytes, codes}
use pub_sub_crawl.Message.{Item, AlertRaw, heap, alert}
use pub_sub_crawl.MsgQueue.{dequeue}
use pub_sub_crawl.Libc.{print}
use pub_sub_crawl.Command.Alert.{queued}
use pub_sub_crawl.System.{System, shared_of, set_shared}
use pub_sub_crawl.Main.Tests.{start, queue_of}

abbrev low : AlertRaw
low = record { code = codes "LOW"; antenna = 2 }

abbrev low_line : Bytes
low_line = codes "TRIGGER_ALERT " ++ (codes "LOW" ++ (32 ∷ (print 2 ++ [])))

abbrev commanded : System
commanded = record (set_shared start (queued (shared_of start) low)) { logging = some 0 }

abbrev low_item : Item
low_item = record { id = 0; type = alert; payload = heap 0; length = 36 }

abbrev raced : System
raced = record commanded {
  ingest_queue = queue_of (dequeue commanded.ingest_queue) commanded.ingest_queue;
  taken = low_item ∷ [];
}
