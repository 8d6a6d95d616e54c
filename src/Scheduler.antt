-- ===== src/Scheduler.antt =====
-- src/stats: what the block schedulers share. A scheduler turns the chunks of a file description into
-- logical blocks, one or more for each node. `none` is a fault: an index out of range or a division
-- by zero.
pub mod Replicas
pub mod Base
pub mod Steal
pub mod Simple
pub mod Lean
pub mod Multiwave
pub mod Tests
use velox_dfs.Base.{
  ℕ, zero, suc, ◌+◌, ◌-◌, ◌%◌, ◌^◌, List, [], ◌∷◌, ◌++◌, Option, none, some, Text, text, text_eq,
  to_string, get_elem?, length, leb, ◌==◌, if◌then◌else◌, ◌>>=◌,
}
use velox_dfs.Messages.{BlockInfo, LogicalBlock, FileDescription, empty_logical_block}
use velox_dfs.Histogram.{Histogram, random_within_boundaries}

-- `find(nodes.begin(), nodes.end(), node) - nodes.begin()`.
pub index_of : Text → List Text → ℕ
index_of node [] = 0
index_of node (x ∷ xs) = if text_eq x node then 0 else suc (index_of node xs)

-- The left neighbour of a node among n. `nodes.size() - 1` is unsigned, and cut to 32 bits.
pub left_of : ℕ → ℕ → ℕ
left_of n which = if which == 0 then (n + 2 ^ 32 - 1) % 2 ^ 32 else which - 1

pub right_of : ℕ → ℕ → ℕ
right_of n which = if leb n (which + 1) then 0 else which + 1

-- `get_replicas_id` of the schedulers base and steal: the node itself, its left, its right.
pub get_replicas_id : List Text → Text → List ℕ
unfolding index_of left_of right_of
get_replicas_id nodes node =
    let which = index_of node nodes in
    which ∷ left_of (length nodes) which ∷ right_of (length nodes) which ∷ []

-- The same function of the schedulers lean and vlmb lists the left neighbour first.
pub get_replicas_id_left_first : List Text → Text → List ℕ
unfolding index_of left_of right_of
get_replicas_id_left_first nodes node =
    let which = index_of node nodes in
    left_of (length nodes) which ∷ which ∷ right_of (length nodes) which ∷ []

-- A block record as the loops fill it; they leave the other fields unset.
abbrev pub block_info : Text → ℕ → Text → Text → ℕ → ℕ → ℕ → ℕ → ℕ → BlockInfo
block_info file_name seq name primary_file hash_key size offset foffset primary_seq = record {
  name = name;
  primary_file = primary_file;
  file_name = file_name;
  seq = some seq;
  hash_key = hash_key;
  size = size;
  primary_seq = some primary_seq;
  offset = some offset;
  foffset = some foffset;
  node = [];
  l_node = [];
  r_node = [];
  content = [];
}

-- The `BlockInfo` that the loop builds for chunk i, before its node is chosen.
pub chunk_at : FileDescription → ℕ → Option BlockInfo
chunk_at fd i = do
  name ← get_elem? fd.blocks i
  primary_file ← get_elem? fd.primary_files i
  hash_key ← get_elem? fd.hash_keys i
  size ← get_elem? fd.block_size i
  offset ← get_elem? fd.offsets i
  foffset ← get_elem? fd.offsets_in_file i
  primary_seq ← get_elem? fd.primary_sequences i
  some (block_info fd.name i name primary_file hash_key size offset foffset primary_seq)

-- A fresh logical block number `counter` for node i. `draw` is what `rand()` returns for it.
pub new_logical_block : Histogram → Text → ℕ → ℕ → ℕ → Text → Option LogicalBlock
new_logical_block hist file_name counter draw i host = do
  key ← random_within_boundaries hist draw i
  some (record empty_logical_block {
    seq = counter;
    name = text "logical_" ++ (file_name ++ (text "_" ++ to_string counter));
    file_name = file_name;
    hash_key = key;
    host_name = host;
  })

abbrev pub at_host : Text → BlockInfo → BlockInfo
at_host host block = record block { node = host }

-- `lblock.size += …; lblock.primary_chunk_num += 1; lblock.physical_blocks.push_back(…)`, where the
-- chunk's node is the block's host.
pub add_primary : LogicalBlock → BlockInfo → LogicalBlock
add_primary lblock block = record lblock {
  size = lblock.size + block.size;
  primary_chunk_num = lblock.primary_chunk_num + 1;
  physical_blocks = lblock.physical_blocks ++ (at_host lblock.host_name block ∷ []);
}
