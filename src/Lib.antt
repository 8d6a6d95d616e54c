-- ===== src/Lib.antt =====
-- VeloxDFS: a distributed file system. A client cuts a file into blocks; the file leader of the file
-- keeps its metadata and plans logical blocks; block nodes keep the blocks, each on its own disk and
-- on those of its two neighbours in the ring.
--
-- Files:
--   Messages      the records exchanged (src/common/blockmetadata.hh,
--                 src/common/logical_block_metadata.hh, src/messages)
--   Histogram     which server owns a hash key (src/common/histogram.cc)
--   Hash          the hash of a name (src/common/hash.cc)
--   Scheduler     what the schedulers share, Scheduler.Base for src/stats/scheduler_base.cc,
--                 Scheduler.Steal for src/stats/scheduler_steal.cc, Scheduler.Simple for
--                 src/stats/scheduler_simple.cc, Scheduler.Lean for src/stats/scheduler_lean.cc,
--                 Scheduler.Multiwave for src/stats/scheduler_multiwave.cc
--   Directory     the metadata tables (src/fileleader/directory.cc)
--   FileLeader    the listing of a file's chunks (src/fileleader/file_leader.cc, `file_request`);
--                 FileLeader.Server its other operations, FileLeader.Server.Router what it answers
--                 (src/fileleader/file_leader_router.cc)
--   Disk          the disk of a node (src/blocknode/local_io.cc)
--   BlockNode     the operations and the handler of a block node (src/blocknode/block_node.cc,
--                 src/blocknode/block_node_router.cc) and a network of such nodes
--   Client        how a client reads a range of a file (src/client/dfs.cc, `read_physical`);
--                 Client.Upload how it cuts up and sends a file (`upload`) and gets it back (`download`);
--                 Client.Session the whole of `upload`, `exists`, `remove` and `download`, with the file
--                 leader and the nodes
--   TaskManager   the worker of a node, which hands chunks to a task through a ring of buffers
--                 (src/taskmanager/task_manager.cc, src/common/shared_memory.cc, and `read_chunk` of
--                 src/client/dfs.cc); TaskManager.Lock the locks by which workers share out chunks
--   Base          lists, Boolean tests, byte texts, neighbours in a ring
--
-- The block node calls the disk; the schedulers call the histogram for a random key. The file leader
-- keeps its tables in the directory and fills a description from them, which a scheduler (an argument
-- of the file leader) turns into logical blocks.
--
-- Numbers are naturals; where the source's unsigned arithmetic can wrap around, the remainder is
-- written out. A text is the list of its bytes. `none` stands for a fault: an index out of range, a
-- division by zero, an exception.
--
-- `rounds` of FileLeader runs on fuel, one unit for each round of a loop without a bound; two more
-- rounds than the longest primary file has chunks are enough on any input. `file_request` gives it two
-- more rounds than the table has chunks.
--
-- `upload_loop` runs on fuel, one unit for each chunk; one more than the file has bytes is enough, as
-- each chunk has a byte. `schedule` of Scheduler.Multiwave has one unit for each chunk and one more,
-- as each call has fewer chunks than the one before.
--
-- Two that run beside each other are steps of a relation: the messages of a network
-- (`BlockNode.Reaches`), and a worker and a task (`TaskManager.Steps`). A wait on a condition ends by a
-- signal, or by chance where the relation is told so.
--
-- Not modelled: sockets, serialisation, SQLite itself, the logger, the settings, ZooKeeper (an
-- argument with laws), the loop of `task_worker`, the other operations of the client (`rename`, `append`, `write`, `touch`), the
-- Java binding, and the arithmetic on doubles of the histogram, which `initialize` takes as an
-- argument. The random numbers are an argument of what draws them.
pub mod Base
pub mod Messages
pub mod Histogram
pub mod Scheduler
pub mod Directory
pub mod FileLeader
pub mod Disk
pub mod Hash
pub mod BlockNode
pub mod Client
pub mod TaskManager
