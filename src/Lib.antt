-- ===== src/Lib.antt =====
-- The worker of the filter. Its data plane, worker/src/dpdk_filter in C, receives bursts of
-- packets from a DPDK port, reads the destination and the name of a DNS query out of each, takes a
-- decision out of a cache or of the filter rules, and sends the packet to the other port or drops it.
--
-- Base      lists, integers and C strings over the native numbers, the scan of a table of rows that a
--           free row ends, and the result type `Run`: a value, `fault` for an access outside an array
--           or to an object that is not live (and for a division by zero), `no_fuel` for a loop that is
--           cut off.
-- Filter    worker/src/dpdk_filter/filtr_packets.c: the lists, the categories, the trust levels and
--           the verdict. The arrays of the policy are lists, of the sizes of types.h where a theorem
--           says so; a result is `none` where the code reads outside an array.
-- Parser    worker/src/dpdk_filter/pars_packets.c: `parsing_pakage`. `Parser.Dns` is its two loops
--           over the name of a query.
-- RteHash   what the caches take from DPDK's `rte_hash`: a record of its operations, and its
--           documented behaviour.
-- Cache     what worker/src/dpdk_filter/domain_cache.c and ip_cache.c have in common: lookup with
--           expiry, insertion, clear and the freeing of the entries, over a heap of nodes and keys. A cache stands for a map
--           with expiry, `view`.
-- DomainCache, IpCache   the keys of the two caches, and their operations as instances of Cache.
-- Load      the loading of both caches out of their databases (`load_cache_from_sqlite`,
--           `load_cache_ip_from_sqlite` and what they call); the rows are what SQLite gives.
-- Save      the saving of both caches, the opening of their databases and the initialisation of the
--           caches, over SQLite as a record of its calls with the documented effect of statements
--           that succeed. `Save.Caches` has the functions by their names in the two files, and
--           `Save.Caches.Released` the end of a cache, with its connection and its timer.
-- Packets   worker/src/dpdk_filter/proc_packets.c: `pakage_processing` and all that it calls. A
--           packet takes its decision from IpCache or DomainCache, or from Filter on a miss.
--           `Packets.Rewritten` says what of a packet is rewritten before it is sent.
-- Ports     worker/src/dpdk_filter/net_port.c: the building of a port, the search, the
--           initialisation, the start and the close, with the calls that they make on the device.
--           `Ports.Trio` is the three ports of a program and the chains of calls on them.
-- Metrics   worker/src/metrics_collector.cpp: the CPUs that the constructor registers, and the loop that
--           sets the gauges out of /proc/stat and /proc/self/statm and pushes them.
-- Worker    worker/src/worker.cpp and main.cpp, and the counters of metrics_collector.cpp.
--           `Worker.Policy` builds the tables of Filter from a message of the controller and empties
--           the caches; `Worker.Counters` has the local counters and the interleaving of their records
--           with the atomic steps of a flush; `Worker.Loop` runs Packets in rounds, with the timers, the
--           requests and the flushes between them; `Worker.Start` is `initDPDK` and the destructor,
--           over Ports.Trio and Save; `Worker.Program` is `main` with the constructor of `Worker`, from
--           the environment variables to the exit code.
-- Dataplane worker/src/dpdk_filter/main.c: the data plane as a program of its own, over the same packet
--           loop, ports and caches.
--
-- Loops over arrays are structural recursion. The two loops over a DNS name get 256 rounds: the first
-- one ends at 255 bytes and each of its rounds takes at least one, and the second one goes over the
-- labels that the first one went over.
--
-- Assumed: a little-endian machine; a read or a write behind the end of a packet buffer is a
-- fault; each cache has a heap of its own; what uninitialised memory holds is a parameter. The
-- spinlocks make the body of each cache operation one step. A packet is a single segment. The
-- classifier (`worker_classify`), the drivers, the allocator and the clock answer by the number of
-- the call, so that each answer may be a new one.
--
-- In the packet loop the counters are numbers without a bound; their width is that of
-- `Worker.Counters`. An answer of the controller is applied between two rounds of the loop; the code
-- applies it on a thread of its own, which may meet a round under way. Requests and classifications
-- that fail, time out or throw are `none`. The rounds of the main loop are a list, so that the loop
-- ends with it.
--
-- The loop over /proc/stat in the constructor of the collector gets fuel: one round more than there
-- are CPUs is enough for a file that has a line of another name behind them.
--
-- The main loop finds the hash tables and heaps that `initDPDK` opened, and the destructor those that
-- the loop leaves. A timer is stopped when the code asks for it. Memory that the process holds when
-- it ends otherwise, such as the buffer pool, is not followed.
--
-- Not modelled: the callbacks of the timers (each starts a thread for a saving), the start and the
-- join of the collector's thread and the registration with Prometheus, the signal handler beyond the
-- flag that ends the rounds, the classification of the test mode, log output, and the programs in Go
-- (controller) and Python (admin, scripts).
pub mod Base
pub mod Filter
pub mod Parser
pub mod RteHash
pub mod Cache
pub mod DomainCache
pub mod IpCache
pub mod Load
pub mod Save
pub mod Packets
pub mod Ports
pub mod Metrics
pub mod Worker
pub mod Dataplane
