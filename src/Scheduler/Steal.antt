-- ===== src/Scheduler/Steal.antt =====
-- src/stats/scheduler_steal.cc: several logical blocks for each node. A chunk goes to the least loaded
-- of the three nodes that hold it, and there to the blocks in turn.
pub mod Candidate
pub mod Faults
use velox_dfs.Base.{
  concat, ℕ, zero, suc, ◌+◌, ◌-◌, ◌%◌, ◌/◌, List, [], ◌∷◌, ◌++◌, Option, none, some, Text, take,
  set, get_elem?, length, range_from, replicate, ltb, ◌==◌, if◌then◌else◌, ◌>>=◌,
}
use velox_dfs.Messages.{LogicalBlock, FileDescription}
use velox_dfs.Histogram.{Histogram}
use velox_dfs.Scheduler.{index_of, get_replicas_id, chunk_at, new_logical_block, add_primary}

-- `lblocks_dist`: entry i holds the blocks of node i.
abbrev pub Slots : Type 0
Slots = List (List LogicalBlock)

-- `INT_MAX`.
abbrev pub int_max : ℕ
int_max = 2147483647

-- The number of blocks for each node; `cores` is the setting `addons.cores`. `none`: no nodes.
pub slots_for : ℕ → ℕ → ℕ → Option ℕ
slots_for chunks cores n =
    if n == 0
    then none
    else (let min_slots = chunks / n in some (if ltb min_slots cores then min_slots else cores))

-- The inner loop over j, with `left` rounds to go.
unfoldable pub init_node :
    Histogram → (ℕ → ℕ) → Text → ℕ → Text → ℕ → ℕ → Option (List LogicalBlock)
init_node hist draws file_name i node counter zero = some []
init_node hist draws file_name i node counter (suc left) = do
  lblock ← new_logical_block hist file_name counter (draws counter) i node
  rest ← init_node hist draws file_name i node (counter + 1) left
  some (lblock ∷ rest)

unfoldable pub init_slots : Histogram → (ℕ → ℕ) → Text → ℕ → ℕ → ℕ → List Text → Option Slots
unfolding init_node
init_slots hist draws file_name slots i counter [] = some []
init_slots hist draws file_name slots i counter (node ∷ nodes) = do
  row ← init_node hist draws file_name i node counter slots
  rest ← init_slots hist draws file_name slots (i + 1) (counter + slots) nodes
  some (row ∷ rest)

-- "Find good candidate": the target so far (none for -1) and the least count so far.
pub find_candidate : List ℕ → List ℕ → Option ℕ → ℕ → Option (Option ℕ)
find_candidate counters [] target min_size = some target
find_candidate counters (id ∷ ids) target min_size = do
  count ← get_elem? counters id
  find_candidate counters ids (if ltb count min_size then some id else target)
      (if ltb count min_size then count else min_size)

-- `x % slots`.
unfoldable pub remainder : ℕ → ℕ → Option ℕ
remainder x slots = if slots == 0 then none else some (x % slots)

pub record Progress : Type 0 where
  pub counters : List ℕ
  pub dist : Slots

-- One round of the loop over the chunks.
pub assign_chunk : FileDescription → List Text → ℕ → Progress → ℕ → Option Progress
unfolding remainder
assign_chunk fd nodes slots p i = do
  host ← get_elem? fd.block_hosts i
  block ← chunk_at fd i
  chosen ← find_candidate p.counters (get_replicas_id nodes host) none int_max
  target ← chosen
  count ← get_elem? p.counters target
  index ← remainder count slots
  row ← get_elem? p.dist target
  lblock ← get_elem? row index
  some (record {
    counters = set p.counters target (count + 1);
    dist = set p.dist target (set row index (add_primary lblock block));
  })

pub assign_chunks : FileDescription → List Text → ℕ → Progress → List ℕ → Option Progress
assign_chunks fd nodes slots p [] = some p
assign_chunks fd nodes slots p (i ∷ is) = do
  p' ← assign_chunk fd nodes slots p i
  assign_chunks fd nodes slots p' is

-- The loop over the replicas of block i of node k.
steal_all : ℕ → ℕ → ℕ → Slots → List ℕ → Option Slots
steal_all k i which dist [] = some dist
steal_all k i which dist (id ∷ ids) = if id == which then steal_all k i which dist ids else do
  sources ← get_elem? dist id
  source ← get_elem? sources i
  row ← get_elem? dist k
  lblock ← get_elem? row i
  steal_all k i which
      (set dist k (
        set row i (record lblock {
          physical_blocks =
              lblock.physical_blocks ++ take source.primary_chunk_num source.physical_blocks;
        })))
      ids

list_node : List Text → ℕ → Slots → List ℕ → Option Slots
unfolding steal_all
list_node nodes k dist [] = some dist
list_node nodes k dist (i ∷ is) = do
  row ← get_elem? dist k
  lblock ← get_elem? row i
  dist' ←
      steal_all k i (index_of lblock.host_name nodes) dist (get_replicas_id nodes lblock.host_name)
  list_node nodes k dist' is

list_replicas : List Text → ℕ → Slots → List ℕ → Option Slots
unfolding list_node
list_replicas nodes slots dist [] = some dist
list_replicas nodes slots dist (k ∷ ks) = do
  dist' ← list_node nodes k dist (range_from 0 slots)
  list_replicas nodes slots dist' ks

-- `scheduler_steal::generate`. `input_split` is 1.0, so that the cut is the number of chunks.
pub generate : ℕ → Histogram → (ℕ → ℕ) → FileDescription → List Text → Option FileDescription
unfolding slots_for init_slots list_replicas
generate cores hist draws fd nodes = do
  let chunks = length fd.blocks
  slots ← slots_for chunks cores (length nodes)
  dist ← init_slots hist draws fd.name slots 0 0 nodes
  p ←
      assign_chunks fd nodes slots (record { counters = replicate (length nodes) 0; dist = dist })
        (range_from 0 chunks)
  dist' ← list_replicas nodes slots p.dist (range_from 0 (length nodes))
  some (record fd {
    num_static_blocks = chunks;
    logical_blocks = fd.logical_blocks ++ concat dist';
    info = record (fd.info) { n_lblock = length (fd.logical_blocks ++ concat dist') };
  })
