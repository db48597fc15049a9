-- ===== src/Lib.antt =====
-- miniosv_apps: bench/smoltcp-s3, a benchmark that runs on a unikernel and fetches blocks of one S3
-- object over many TCP connections, one worker thread for each receive queue of the network card.
--
-- `osv_app_main` reads the constants of the build, asks the card for its queues and opens them, reads
-- the key and the table by which the card steers packets to queues, learns the program's address and
-- the gateway over queue 0, and starts the workers. A worker computes which source ports have their
-- return traffic steered to its own queue, opens its connections from such ports, each for one block
-- of the object, and counts the bytes of the bodies that come back. The accounts of all workers decide
-- whether the run is reported complete.
--
-- The files, all of them about bench/smoltcp-s3/src/lib.rs:
--   Prelude    what the others share: Boolean tests, casts to machine widths, lists, decimal notation,
--              bits, and lists that ascend.
--   Config     parse_size, parse_bool, bytes_eq, is_http, scheme_ok, parse_ipv4 and the constants
--              made of them. The variables of the build are the record `Env`.
--   Alloc      ShimAllocator: alloc, dealloc and realloc over a memory of bytes by address
--              (Alloc/Store). malloc, free and realloc of the shim are parameters.
--   Rss        toeplitz, predict_queue, queue_for_local_port, build_owned_ports, owns_port,
--              load_rss_config, and the loop of worker_thread that collects `my_ports`. The mutable
--              statics RSS_KEY, RSS_RETA and SINGLE_QUEUE are the record `RssState`.
--   Http       count_body (the connection's fields are the record `Tally`, the two counters the
--              record `StatusCounters`), BufWriter and build_range_request.
--   Arp        arp_frame, build_arp_request, build_arp_reply and parse_arp_reply_from.
--   Start      PktPool and probe_and_open, as the log of the shim's calls. Whether each of them
--              succeeds is the record `Nic`.
--   Device     DpdkDevice::receive, with its prefetch buffer and the counter MISROUTED_DROPS. What the
--              calls of shim_mbuf_rx_burst_n return, and the handles freed, are in the record `Shim`.
--              Device/Tokens is consume and drop of the receive token and consume of the transmit
--              token, Device/Serve a stack that takes its tokens until the queue is empty.
--   Network    MonoClock, dhcp_acquire and learn_network, round by round. What the DHCP socket says
--              and which packets queue 0 brings are arguments.
--   Plan       the guards and the clamp of osv_app_main, the blocks, and the loop of worker_thread
--              that opens the connections.
--   Conn       conn_step, a step of one connection. `Conn` is the struct, with the fields that
--              count_body is lent as a `Tally`; the socket, rustls and the clock are the record
--              `Answers`; the socket calls that only act (abort) and the printed lines are left out.
--   Worker     the poll loop of worker_thread over its connections, and the accounts it stores.
--              Worker/Shared is the loops of all workers at once, as a relation of single moves.
--   Thread     worker_thread from its device to the connections behind its loop. What rustls and
--              smoltcp answer to one worker is the record `WorkerAnswers`.
--   Console    print_line; Console/Lock is PRINT_LOCK, as a step relation of several threads.
--   Report     the accounts of a worker, their totals and the verdict.
--   Main       osv_app_main, composed of the others: the guards, Start, Rss, Network, the workers and
--              Report. The answers of a run are the record `Machine`. Main/Threads is its workers at
--              once, in any order of their moves.
-- Each file of tests has runs of the functions on concrete inputs.
--
-- Integers are natural numbers with the wrap-around of a release build written out (`u8`, `u16`,
-- `u32`, `u64`; usize has 64 bits). Loops are recursion on the input or on the number of rounds
-- left. Two have fuel: that of print_line is given the length of the line, since every round writes
-- a byte, and that of receive ends with more fuel than packets are waiting. The loops of conn_step
-- run over the lists of what the socket and rustls answer: a list of `recv` ends where `can_recv` is
-- false, one of rustls where it makes no more progress. The loops of a worker and of learn_network
-- run over the answers of each round, and their result is `none` where they have not ended behind
-- them: learn_network counts its rounds against ITER_BUDGET / 10 and ITER_BUDGET / 20. Byte arrays
-- and texts are lists of bytes. A panic (an index out of range, a full buffer of the library) is not
-- modelled.
--
-- Workers share only counters, and they never read them. In Thread and Main each worker runs by
-- itself, with the counters as it finds them; in Worker/Shared all of them run at once, and a move
-- is the step of one connection, which the code makes of single atomic additions. The sum of
-- MISROUTED_DROPS behind all workers is an answer of `Machine`.
--
-- Not modelled: what the shim, smoltcp and rustls do (their answers are arguments); the calls that
-- make an interface and its sockets, and `capabilities`, which hand constants to the library; the
-- TLS configuration, which only calls rustls; the measured times and throughput, the card's
-- statistics and the stop of the device, which are only printed or come behind the verdict. The C++
-- shim, the vendored smoltcp and the C++ benchmarks under bench/pmc-* are left out: they are other
-- programs, or libraries that this one calls.
pub mod Prelude
pub mod Config
pub mod Rss
pub mod Http
pub mod Arp
pub mod Plan
pub mod Report
pub mod Conn
pub mod Console
pub mod Device
pub mod Worker
pub mod Alloc
pub mod Start
pub mod Network
pub mod Thread
pub mod Main
