-- ===== src/Scheduler/Lean.antt =====
-- src/stats/scheduler_lean.cc: several logical blocks for each node. The first chunks go to the least
-- loaded of the three nodes that hold them, the others to all three.
pub mod Placing
pub mod Conserve
use velox_dfs.Base.{
  ℕ, zero, suc, ◌+◌, List, [], ◌∷◌, ◌++◌, Option, none, some, Text, concat, set, get_elem?, length,
  range_from, replicate, ltb, if◌then◌else◌, ◌>>=◌,
}
use velox_dfs.Messages.{BlockInfo, LogicalBlock, FileDescription}
use velox_dfs.Histogram.{Histogram}
use velox_dfs.Scheduler.{get_replicas_id_left_first, chunk_at, add_primary, at_host}
use velox_dfs.Scheduler.Steal.{Progress, int_max, find_candidate, remainder, init_slots}

-- `lblock.size += …; lblock.physical_blocks.push_back(…)`, where the chunk's node is the block's host.
unfoldable pub add_block : LogicalBlock → BlockInfo → LogicalBlock
add_block lblock block = record lblock {
  size = lblock.size + block.size;
  physical_blocks = lblock.physical_blocks ++ (at_host lblock.host_name block ∷ []);
}

-- The chunk goes to node `id`, to the block whose turn it is.
unfoldable pub assign_at :
    (LogicalBlock → BlockInfo → LogicalBlock) → ℕ → BlockInfo → Progress → ℕ → Option Progress
unfolding remainder
assign_at add slots block p id = do
  count ← get_elem? p.counters id
  index ← remainder count slots
  row ← get_elem? p.dist id
  lblock ← get_elem? row index
  some (record {
    counters = set p.counters id (count + 1);
    dist = set p.dist id (set row index (add lblock block));
  })

-- The loop over the replicas.
unfoldable pub assign_all : ℕ → BlockInfo → Progress → List ℕ → Option Progress
unfolding assign_at add_block
assign_all slots block p [] = some p
assign_all slots block p (id ∷ ids) = do
  p' ← assign_at add_block slots block p id
  assign_all slots block p' ids

-- The branch for a chunk that is determined beforehand.
unfoldable pub assign_least : ℕ → BlockInfo → Progress → List ℕ → Option Progress
unfolding assign_at
assign_least slots block p ids = do
  chosen ← find_candidate p.counters ids none int_max
  target ← chosen
  assign_at add_primary slots block p target

-- One round of the loop over the chunks.
unfoldable pub assign_chunk : FileDescription → List Text → ℕ → ℕ → Progress → ℕ → Option Progress
unfolding assign_all assign_least
assign_chunk fd nodes slots cut p i = do
  host ← get_elem? fd.block_hosts i
  block ← chunk_at fd i
  if ltb i cut
      then assign_least slots block p (get_replicas_id_left_first nodes host)
      else assign_all slots block p (get_replicas_id_left_first nodes host)

unfoldable pub assign_chunks :
    FileDescription → List Text → ℕ → ℕ → Progress → List ℕ → Option Progress
unfolding assign_chunk
assign_chunks fd nodes slots cut p [] = some p
assign_chunks fd nodes slots cut p (i ∷ is) = do
  p' ← assign_chunk fd nodes slots cut p i
  assign_chunks fd nodes slots cut p' is

-- `scheduler_lean::generate`. `cores` is the setting `addons.cores`, and `cut n` is
-- `int(n * input_split)`.
unfoldable pub generate :
    ℕ → (ℕ → ℕ) → Histogram → (ℕ → ℕ) → FileDescription → List Text → Option FileDescription
unfolding init_slots assign_chunks
generate cores cut hist draws fd nodes = do
  let chunks = length fd.blocks
  dist ← init_slots hist draws fd.name cores 0 0 nodes
  p ←
      assign_chunks fd nodes cores (cut chunks)
        (record { counters = replicate (length nodes) 0; dist = dist }) (range_from 0 chunks)
  some (record fd {
    num_static_blocks = cut chunks;
    logical_blocks = fd.logical_blocks ++ concat p.dist;
    info = record (fd.info) { n_lblock = length (fd.logical_blocks ++ concat p.dist) };
  })
