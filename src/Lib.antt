-- ===== src/Lib.antt =====
-- btpd, a BitTorrent daemon in C: a verification of parts of its core.
--
-- The program. `btpd/` is the daemon. `btpd/net.c` owns the sockets of the peers: it reads bytes,
-- cuts them into messages, and hands the messages to `btpd/peer.c`, which keeps the state of a peer
-- and hands on to the download (`btpd/download.c`, `btpd/download_subr.c`) and to the upload, which
-- chokes and unchokes (`btpd/upload.c`). Messages that go out are buffers that `btpd/net_buf.c`
-- builds and counts references of. `btpd/content.c` keeps the pieces on disk, `btpd/torrent.c` and
-- `btpd/tlib.c` the torrents, `btpd/tracker_req.c` talks to trackers, `btpd/cli_if.c` to the tools of
-- `cli/`. `evloop/` is the event loop with its heap of timers, and `misc/` holds helpers: bytes and
-- bits, a growing buffer, bencoded data, torrent files, HTTP.
--
-- The files. Every function has the name of the C function that it models.
--   Prelude: shared names, tests, lists, words (`Prelude/Bits`), integers (`Prelude/Int`) and how a
--     call ends (`Prelude/Run`).
--   Evloop/Timeheap: `evloop/timeheap.c`. The static variables are the record `TimeHeap`, the
--     handles are numbers. Child modules are named for the operation whose laws they hold.
--   Misc/Subr: `misc/subr.c`, from `memfind` to `bin2hex`. A memory is a function from places to
--     bytes, and a pointer is a place in it.
--   Misc/Iobuf: `misc/iobuf.c`. The allocation is a memory, and `buf` a place in it, so that what
--     `skip` bytes in front of `buf` mean is written out.
--   Misc/Benc: `misc/benc.c`, over a memory. `Misc/Benc` has benc_validate, `Misc/Benc/Read` the
--     functions that read a value and `Misc/Benc/Lookup` those that look keys up. Text has bencoded
--     values as trees with their bytes, and what it is that bytes stand in a memory; Accepts, Scanned, Sound and
--     Exact compare benc_validate with them, Values, Keys, Paths and Counts the readers, and Faults
--     has lengths that wrap.
--   Misc/Metainfo: `misc/metainfo.c`, on top of Misc/Benc: mi_test and the functions that read one
--     value; `Misc/Metainfo/Announce` has mi_announce,
--     `Misc/Metainfo/Paths` mi_files and mi_filepath. Shape says what a torrent file is of values
--     and not of bytes; Reads, Files, Total, Trackers and Exact show that mi_test tests that, Written
--     what paths are built, and Faults
--     has a torrent file that mi_announce does not survive.
--   Misc/Htbl: `misc/hashtable.c`, whose functions lose the underscore in front. A chain is a list of objects, the
--     type of which, with that of the keys, is `Keys`; Find, Count and Laws compare the table with a map.
--   Daemon/NetBuf: `btpd/net_buf.c`.
--   Daemon/Net: `btpd/net.c` from `net_read`'s return of `readv` to the calls of the `peer_on_`
--     functions. Those are the record `Handlers`, over any state; the parser itself is in the record
--     `Input`, which is `in` of `struct peer`.
--   Daemon/Peer: `btpd/peer.c`, and `net_write` of `btpd/net.c`. `Daemon/Peer` has the queue of messages
--     to a peer (`peer_send`, `peer_unsend`, the loop of `peer_choke`) in the record `Out`;
--     `Daemon/Peer/Actions` has the record `Peer` and what the daemon does to a peer,
--     `Daemon/Peer/Handlers` what the messages of the peer and the timer do, `Daemon/Peer/Writing`
--     `net_write`. A buffer is known by its address, whose references `refs` counts; a link of the
--     queue and a request are known by their places. Queue, Sending, Unsending, Choking and Interest
--     hold the laws of the queue; `IsPeer` of Invariant is what holds of a peer that is not suspect,
--     with `told` for what the peer has been told of the interest in its pieces. Wanting, Cancelling,
--     Receiving, Blocks and Events keep it (Events over runs, without the calls at whose ends peer.c does
--     more), Written shows what is left of the queue behind `writev`,
--     Gathering what `writev` is given and the whole of `net_write`, and Faults has two ways out of
--     the bounds that the code takes for granted. The functions of download.c and upload.c that
--     peer.c calls are arguments.
--   Daemon/Upload: `btpd/upload.c`. `m_peerq` is a list of peers of any type, of which the record
--     `PeerOps` asks what the code asks; a pointer to a peer is its place in the list. What choking a
--     peer does to it is a law, `PeerLaws`, and the peers are not those of Daemon/Peer.
--     `Daemon/Upload/Events` has the ul_on_ functions and the timer, with the state that they share in the record `Upload`.
--
-- Words. Numbers are naturals; where C computes in a machine word that can wrap, the remainder by
-- 2^32 or 2^64 is written out. A subtraction in a word adds 2^32 or 2^64 first.
--
-- Loops. A loop without an evident end counts rounds and ends with `out_of_fuel` when they are used
-- up; the theorems about such a function say that it does not. `bubble_up` is allowed i + 1 rounds,
-- since i at least halves; `bubble_down` one more than the heap has entries, since its place grows;
-- `nb_create_multihave` one more than there are pieces; the loop of `net_read` twice as many as
-- there are bytes and two, since only a body can be empty, and after an empty one a unit has bytes.
-- `ishex` is given its rounds, since its text need not end. The loops over the queue of a peer (in
-- `peer_choke`, `peer_on_choke` and `net_write`) are allowed one round more than there are links,
-- since each round passes or removes one. benc_validate is allowed two calls or rounds for each
-- byte, and what reads bencoded data and torrent files more rounds than the value has bytes, since
-- each call and each round passes a byte. htbl_fillv is allowed one for each object and each bucket.
--
-- How a call ends. `Outcome` tells a result from a stop of the process, which a failed assert or a
-- call of `abort` is, and from rounds that are used up.
--
-- Not modelled. System calls (sockets, files, clocks, threads) are left out, and what they give is
-- an argument: the bytes that `readv` returned, whether `realloc` has memory, what `vsnprintf`
-- printed, the order that `qsort` gives. The limits on the bytes of one call of `readv` are left
-- out, since any bytes are allowed. Logging is left out, and that `btpd_malloc` ends the process
-- where there is no memory. In Daemon/Net the `peer_on_` functions are
-- operations of `Handlers`, over any state. The death of a peer is the result `none`: `peer_kill`,
-- the making of peers and the table of the peers of a torrent are not modelled, nor are the limits
-- on bandwidth and the rates of `btpd/net.c`. The command line tools, the tracker and control
-- protocols, the download and the content of torrents are not modelled. Of `misc/hashtable.c` the
-- iterator and _htbl_tov are left out. Of `misc/benc.c` benc_strcmp is left out, since the number
-- that strncmp gives is not specified, and of `misc/metainfo.c` what hashes, loads or frees. The library functions on texts (strtoul, strtoll, strncmp, isdigit,
-- memchr) are written out as the C standard has them; pointers are addresses of 64 bits, so that `p
-- + len` wraps.
pub mod Daemon
pub mod Evloop
pub mod Misc
pub mod Prelude
