-- ===== src/Lib.antt =====
-- A model of radio_sim, the C program under c/: threads that pass messages through bounded
-- queues, and the theorems that make its parts correct.
--
-- The parts, and how they interact. Message: the items and payload structs of
-- c/include/msg_queue.h and c/include/radio_msg.h, and pointers to them. Memory: the heap with
-- malloc, free and memcpy; each call of malloc has a number, and the system's answer to it is
-- given by a function. MsgQueue: c/src/msg_queue.c; each function is a critical section on a
-- record, and MsgQueue.Monitor lists the threads that are parked on the two condition variables.
-- PubSub: c/src/pubsub.c; subscribers are numbers of queues in a store, and pubsub_publish
-- enqueues clones through MsgQueue.try_enqueue. Libc: what the program uses of the C library
-- (strtol, printf's %u and %d, strchr, sscanf's %s and %u). Wire: write_all and read_line of
-- c/src/handshake.c, against lists of what write and read answer; a list that ends is a call that
-- does not return. Handshake: c/src/handshake.c. RadioControl: c/src/radio_control.c. Command:
-- c/src/command.c, whose commands change a RadioControl and enqueue alerts on the ingest queue.
-- WorkerPool: c/src/worker_pool.c, which takes raw structs from the ingest queue and publishes
-- messages through PubSub.publish. Transport: c/src/transport.c, which sends the messages of two
-- subscriber queues to a client; Transport.Accept has its loop, against a list of what poll,
-- accept and the clients do. Producer: producer_routine and producer_sleep of c/src/main.c, which
-- feeds the ingest queue. Consumer: consumer_routine of c/src/main.c, which prints the messages
-- of two queues of its own. Main: what main of c/src/main.c sets up, how it fails, and what it
-- takes down. System: all of them together, as a relation Step between the states that they
-- share; one step is what a thread does between two points where it can wait: a turn of the
-- producer, its passes while the ingest queue is full, a worker's msg_queue_dequeue and, apart
-- from it, its work on the item, a command, a round of serve_client, a round of the consumer, a
-- client that comes or goes, and the msg_queue_shutdown of a queue. A field of the state that the
-- program does not have, lost, keeps what was in the queues that were destroyed. Threads: where
-- each thread is in its loop around the steps of System, with the flag of c/src/shutdown.c that
-- the loops test, the sigwait, the shutdown and the joins of main; a step there is what a thread
-- does between two tests or waits, and any thread may be the next; Threads.Control has the state,
-- Threads.Inner the producer, the workers, the consumer and main, and Threads.Serving the
-- transport and the listener. The models of single loops (Transport.serve_client,
-- Transport.Accept, Producer.producer_sleep, Command.listener) are given the answers of the flag
-- instead. Base: shared names, lists, texts.
--
-- Widths. size_t has 64 bits and uint32_t has 32; additions carry their % 2 ^ 64 or % 2 ^ 32. A
-- function answers none where C has undefined behaviour: a destroyed queue, a freed block.
--
-- Fuel. Handshake.parse_from has the length of the text as fuel, since each number takes a byte
-- at least; Libc.digits has 20, the digits of a number of 64 bits; Command.listener has one for
-- each line that it reads; Producer.producer_sleep has one for each slice of 100 ms and two more.
-- Threads.Weight counts what a shutdown has left to do: the joins of main, the items in the
-- queues and in the hands of the workers, and where the threads are.
--
-- Not modelled: logging (c/src/log.c), which is output only, but for the line behind a queued
-- alert of c/src/command.c: it reads a block that the listener has given away, and is a step of
-- its own in System, with the field logging, and in Threads; Command.apply_command has it where no
-- other thread runs in between. pubsub_destroy and radio_control_destroy, which only free. The
-- steps of System are coarser than the locks of the code in this: a worker numbers, publishes and
-- frees an item in one step, the coming of a client with its two subscriptions is one step, its
-- going is two, the unsubscriptions and then the end of its queues, and a message of serve_client
-- or of the consumer is taken and freed in one. In Main and in Threads the threads
-- have all returned before anything is destroyed; in the code the transport is joined only after
-- the consumer's queues are gone, which it does not use. The worker threads and the transport
-- start before the consumer has subscribed; the runs here begin when it has, with the ingest queue
-- still empty, so that a client who connects and triggers an alert before that is not in them.
pub mod Base
pub mod Message
pub mod Memory
pub mod Libc
pub mod Wire
pub mod Handshake
pub mod RadioControl
pub mod Command
pub mod MsgQueue
pub mod PubSub
pub mod WorkerPool
pub mod Transport
pub mod Producer
pub mod Consumer
pub mod System
pub mod Main
pub mod Threads
