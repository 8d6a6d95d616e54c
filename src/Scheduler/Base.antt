-- ===== src/Scheduler/Base.antt =====
-- src/stats/scheduler_base.cc: one logical block for each node. A chunk goes to the node that stores
-- it, and a block also lists the chunks of its two neighbours, which it may steal.
pub mod Route
pub mod Placement
pub mod Listing
pub mod Generate
pub mod Conserve
use velox_dfs.Base.{
  ℕ, zero, suc, ◌+◌, ◌%◌, List, [], ◌∷◌, ◌++◌, Option, none, some, Text, reverse, take, set,
  get_elem?, length, range_from, ltb, ◌==◌, if◌then◌else◌, ◌>>=◌,
}
use velox_dfs.Messages.{BlockInfo, LogicalBlock, FileDescription, FileInfo, empty_logical_block}
use velox_dfs.Histogram.{Histogram}
use velox_dfs.Scheduler.{index_of, get_replicas_id, chunk_at, new_logical_block, add_primary}

-- `lblocks_dist` is a map from `int`. Its keys are always 0, 1, … without a gap, so it is a list.

-- The first loop: a block for each node from number i on. `draws i` is what `rand()` returns then.
pub init_blocks : Histogram → (ℕ → ℕ) → Text → ℕ → List Text → Option (List LogicalBlock)
init_blocks hist draws file_name i [] = some []
init_blocks hist draws file_name i (node ∷ nodes) = do
  lblock ← new_logical_block hist file_name i (draws i) i node
  rest ← init_blocks hist draws file_name (i + 1) nodes
  some (lblock ∷ rest)

-- `lblocks_dist[k]`, which makes a default block at a new key. (The only new key is the next one.)
at_or_create : List LogicalBlock → ℕ → List LogicalBlock
at_or_create lblocks k =
    if k == length lblocks then lblocks ++ (empty_logical_block ∷ []) else lblocks

-- One round of the second loop.
pub assign_chunk : FileDescription → List Text → List LogicalBlock → ℕ → Option (List LogicalBlock)
unfolding at_or_create
assign_chunk fd nodes lblocks i = do
  host ← get_elem? fd.block_hosts i
  block ← chunk_at fd i
  let target = index_of host nodes
  lblock ← get_elem? (at_or_create lblocks target) target
  some (set (at_or_create lblocks target) target (add_primary lblock block))

pub assign_chunks :
    FileDescription → List Text → List LogicalBlock → List ℕ → Option (List LogicalBlock)
assign_chunks fd nodes lblocks [] = some lblocks
assign_chunks fd nodes lblocks (i ∷ is) = do
  lblocks' ← assign_chunk fd nodes lblocks i
  assign_chunks fd nodes lblocks' is

-- The third loop, for block k and one replica `id`: note its number of chunks, and list them
-- backwards, as the reverse iterators do.
pub steal_from : ℕ → ℕ → LogicalBlock → List LogicalBlock → ℕ → Option LogicalBlock
steal_from n k lblock lblocks id = if n == 0 then none else do
  source ← get_elem? lblocks id
  let count = source.primary_chunk_num
  let noted =
      if k == (id + 1) % n
      then record lblock { replica_chunk_num_0 = some count }
      else record lblock { replica_chunk_num_1 = some count }
  some (
      if id == k then noted else record noted {
        physical_blocks = noted.physical_blocks ++ reverse (take count source.physical_blocks);
      })

pub steal_all : ℕ → ℕ → List LogicalBlock → List ℕ → Option (List LogicalBlock)
unfolding steal_from
steal_all n k lblocks [] = some lblocks
steal_all n k lblocks (id ∷ ids) = do
  lblock ← get_elem? lblocks k
  lblock' ← steal_from n k lblock lblocks id
  steal_all n k (set lblocks k lblock') ids

pub list_replicas : List Text → List LogicalBlock → List ℕ → Option (List LogicalBlock)
unfolding steal_all
list_replicas nodes lblocks [] = some lblocks
list_replicas nodes lblocks (k ∷ ks) = do
  lblock ← get_elem? lblocks k
  lblocks' ← steal_all (length nodes) k lblocks (get_replicas_id nodes lblock.host_name)
  list_replicas nodes lblocks' ks

-- `scheduler_base::generate`.
pub generate : Histogram → (ℕ → ℕ) → FileDescription → List Text → Option FileDescription
generate hist draws fd nodes = do
  let chunks = length fd.blocks
  fresh ← init_blocks hist draws fd.name 0 nodes
  placed ← assign_chunks fd nodes fresh (range_from 0 chunks)
  listed ← list_replicas nodes placed (range_from 0 (length placed))
  some (record fd {
    num_static_blocks = chunks;
    logical_blocks = fd.logical_blocks ++ listed;
    info = record (fd.info) { n_lblock = length (fd.logical_blocks ++ listed) };
  })
