-- ===== src/Lib.antt =====
-- rewofs, a remote file system. The client mounts, by FUSE, a directory that a server keeps; it talks to
-- the server over a network and keeps a cache of the tree and of the content.
--
-- The parts, and how they interact. The callbacks of `Fuse` call `CachedVfs`, which answers from the `Cache`
-- (a `Tree` of attributes and the `Content` of files) or calls `RemoteVfs` and then changes the cache to
-- match. `RemoteVfs` sends a command over the `Serializer` and waits for its answer in the `Deserializer`;
-- the server's `Worker` carries it out. A `BackgroundLoader` fills the cache, again when the server's
-- `Watcher` has seen a change that is no client's own.
--
-- Files:
--   Base: names and lemmas shared by all. `Base.Result` holds the exceptions as values, with the errno
--     numbers of Linux; `Base.Assoc` is `std::unordered_map` as an association list; `Base.Paths` is what
--     the code uses of `boost::filesystem::path`, an interface that every component takes as an instance.
--   Messages: `struct stat` and `timespec`, rewofs/messages/messages.fbs.
--   Content: the class `Content` of rewofs/client/cache.cpp. `Content.write` is `Content::write`, `merge`
--     the loop of `Content::flatten`, `Content.read` gives the span that the callback gets. `Content.Blocks`
--     reads a list of blocks as a partial function from offsets to bytes, `overlay`.
--   Tree: the classes `Node` and `Tree` of rewofs/client/cache.cpp. A reference into the tree is a path;
--     `find_node` and `update_node` read and write through it. `Tree.View` sees a tree as a partial function
--     from paths to attributes, and `Tree.Spec` says in that view what each operation does.
--   Cache: the class `Cache` of rewofs/client/cache.cpp.
--   Vfs: the interface `IVfs` of rewofs/client/vfs.hpp and `IdDispenser`. `Vfs.Call` is the type of a call,
--     which works on a state and may throw: what it has changed before it throws stays changed.
--   CachedVfs: the class `CachedVfs` of rewofs/client/vfs.cpp, one definition per member function, and one
--     for what each does under the lock; `ClientState` is its data, with the table of opened files.
--     `CachedVfs.Operations` has the operations as data, to state what holds of every sequence of them.
--   Channel: the tables of rewofs/messages/messages.fbs that the operations use, the interface by which
--     `RemoteVfs` sends a command and waits for its answer, and `SingleComm` of rewofs/client/transport.hpp.
--   Transport: the classes `Serializer`, `Distributor` and `Deserializer` of rewofs/transport.hpp and
--     rewofs/transport.cpp. `Transport.Order` has runs of the serializer as an indexed data type.
--   RemoteVfs: the class `RemoteVfs` of rewofs/client/vfs.cpp over that interface; `remote_vfs` is its
--     table of operations. `fragments` is the loop that cuts a read or a write.
--   Fuse: the callbacks of rewofs/client/fuse.cpp, one definition each, over any `Vfs`. A result is an `int`
--     of C as the number of its 32 bits; what a callback writes through a pointer is returned beside it.
--     `Fuse.Requests` has the calls as data, and `serve` is the table that libfuse is given. `Fuse.Stack`
--     puts the callbacks over `CachedVfs` over `RemoteVfs`.
--   BackgroundLoader: of rewofs/client/vfs.cpp, `populate_tree` on the server's answer, and the loop of
--     `tree_loader` as a state machine that other threads interrupt. `BackgroundLoader.Preload` is
--     `preload_files` and `preload_files_bulks`, over any server and any text of paths, and
--     `BackgroundLoader.Request` the request of the tree and the load that follows it.
--   Worker: the class `Worker` of rewofs/server/worker.hpp and worker.cpp. Worker itself has the handlers on
--     opened files and those that answer with an errno, `Worker.Inspect` those that read directories, links
--     and attributes, `Worker.Dispatch` the choice of the handler and the reply, `Worker.Queue` the class
--     `BlockingQueue`, `Worker.Renameat2` the replacement of `renameat2`. The calls of POSIX and of `boost::filesystem` are parameters.
--   TemporalIgnores: the class `TemporalIgnores` of rewofs/server/watcher.cpp.
--   Watcher: `Watcher::run` of rewofs/server/watcher.cpp, one round of its loop. What inotify, the clock and
--     the readings of the tree give in the round is a parameter.
--   Heartbeat: the loop of the class `Heartbeat` of rewofs/client/heartbeat.cpp, a turn at a time, between
--     those of the loader and of other threads.
--   Breadth: `breadth_first_tree` of rewofs/path.cpp, with which the watcher compares the tree.
--   Wire: rewofs/compression.cpp, `receive` of rewofs/nanomsg.cpp, the loops of `run_reader` and `run_writer`
--     of rewofs/client/transport.cpp, `send` and `recv` of rewofs/server/transport.cpp, and `recv_loop` of
--     rewofs/server/worker.cpp: what is between the `Serializer` of the client and the requests of the
--     server, and back to the `Deserializer`. zstd and the socket are parameters.
--   System: the client's stack over the server's `Worker`, with a network that delivers each command and
--     each answer, and the client's loader over it. It models no code: it joins the models of both sides.
--   Samples: paths as lists of names, for the tests.
--
-- Numbers. Offsets, sizes, handles, modes and flags are natural numbers. `size_t`, `off_t` and `uintmax_t`
-- have 64 bits: where a sum can wrap in the code, the model writes `% 2 ^ 64`, and the theorems that need
-- it say that a range ends below 2 ^ 64. A negative number of 32 or 64 bits is the number of its bits.
-- Every recursion is structural but these. `fragments` and `file_blocks` have one step of fuel for each
-- byte, since no fragment is empty, if the offset cannot wrap (`SizesFit`, for the second);
-- `fragments-Tiles` shows that this is enough. The halving of `lower_bound` has one step for each item; a
-- half is smaller than the whole. `build_fs_fbb_tree` has no bound in the code (a TODO there says so);
-- here a number bounds the depth, and a deeper tree gives `none`. So it is with the rounds of
-- `breadth_first_tree`, for which the number of entries is enough, and with those of `write_pending`, for
-- which the number of waiting messages is enough.
--
-- Not modelled: the mutexes and the threads themselves (a call runs alone, from its first lock to its last
-- unlock; `BackgroundLoader.Loop` and `Worker.Queue` interleave such calls), log output and asserts that
-- do not fail; the set-up of sockets and threads, `map_path`, and start-up. What `RemoteVfs` calls is a
-- parameter, any record of the interface `Channel`, and what `CachedVfs` calls is any record of the
-- interface `Vfs`; `RemoteVfs.InPlace` puts the one over the other. Where documented behaviour matters, it
-- is a hypothesis: a server of one file answers in order (`FileServer`), flatbuffers finds the id and the
-- type of a frame (`Frames`), zstd gives back what it has compressed (`IsLossless`), a sort puts the
-- queues in order (`Sorts`), a directory that nobody changes is read as it is (`Holds`). A use of a
-- reference or an iterator whose element has gone away is the exception `undefined`.
pub mod Base
pub mod Messages
pub mod Content
pub mod Tree
pub mod Cache
pub mod Vfs
pub mod Channel
pub mod Transport
pub mod RemoteVfs
pub mod ClientState
pub mod CachedVfs
pub mod BackgroundLoader
pub mod Worker
pub mod Fuse
pub mod TemporalIgnores
pub mod Watcher
pub mod Heartbeat
pub mod Breadth
pub mod Wire
pub mod System
mod Samples
