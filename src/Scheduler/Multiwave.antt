-- ===== src/Scheduler/Multiwave.antt =====
-- src/stats/scheduler_multiwave.cc: the chunks are split again and again into waves, and each wave is
-- spread over all slots, some for each node.
pub mod Spread
pub mod Waves
use velox_dfs.Base.{
  ℕ, zero, suc, ◌+◌, ◌*◌, ◌/◌, Bool, true, false, List, [], ◌∷◌, ◌++◌, Option, none, some, Text,
  text, to_string, take, drop, set, get_elem?, length, range_from, replicate, ltb, leb,
  if◌then◌else◌, ◌>>=◌,
}
use velox_dfs.Messages.{BlockInfo, LogicalBlock, FileDescription, empty_logical_block}
use velox_dfs.Histogram.{Histogram, random_within_boundaries}
use velox_dfs.Scheduler.{index_of, left_of, right_of, chunk_at, at_host}

-- `none`: the second half begins behind the end.
unfoldable pub split_blocks : List ℕ → Option (List ℕ × List ℕ)
split_blocks chunks =
    if ltb (length chunks) (length chunks / 2 + 1)
    then none
    else some (take (length chunks / 2) chunks, drop (length chunks / 2 + 1) chunks)

-- `get_replicas_id`: the slots of the left neighbour, of the node, and of the right neighbour.
unfoldable pub replica_slots : ℕ → List Text → Text → List ℕ
unfolding index_of left_of right_of
replica_slots slots nodes node =
    let which = index_of node nodes in
    range_from (left_of (length nodes) which * slots) slots
    ++ (range_from (which * slots) slots
        ++ range_from (right_of (length nodes) which * slots) slots)

-- `min_element`, with the first least slot so far.
unfoldable pub least_slot : List (List ℕ) → List ℕ → ℕ → ℕ → Option ℕ
least_slot dist [] best least = some best
least_slot dist (id ∷ ids) best least = do
  row ← get_elem? dist id
  least_slot dist ids (if ltb (length row) least then id else best)
      (if ltb (length row) least then length row else least)

unfoldable pub min_slot : List (List ℕ) → List ℕ → Option ℕ
unfolding least_slot
min_slot dist [] = none
min_slot dist (id ∷ ids) = do row ← get_elem? dist id; least_slot dist ids id (length row)

-- "Equally fill every bucket", from number i on. It is i that is put in, not `chunks[i]`. (A node that
-- is not found makes slots without a node, which fault below.)
unfoldable pub fill_slots :
    ℕ → FileDescription → List Text → ℕ → ℕ → List (List ℕ) → Option (List (List ℕ))
unfolding min_slot replica_slots
fill_slots slots fd nodes i zero dist = some dist
fill_slots slots fd nodes i (suc count) dist = do
  host ← get_elem? fd.block_hosts i
  id ← min_slot dist (replica_slots slots nodes host)
  row ← get_elem? dist id
  fill_slots slots fd nodes (i + 1) count (set dist id (row ++ (i ∷ [])))

-- The inner loop over the chunks of a slot.
unfoldable pub slot_blocks : FileDescription → Text → List ℕ → Option (List BlockInfo)
slot_blocks fd host [] = some []
slot_blocks fd host (index ∷ is) = do
  block ← chunk_at fd index
  rest ← slot_blocks fd host is
  some (at_host host block ∷ rest)

abbrev pub size_of_chunks : List BlockInfo → ℕ
size_of_chunks [] = 0
size_of_chunks (b ∷ bs) = b.size + size_of_chunks bs

-- The loop "Append to the FD" from slot `core_id` and block number `seq` on. `draws seq` is what
-- `rand()` returns then. The division by the number of slots is not by zero where there is a slot.
unfoldable pub slot_lblocks :
    ℕ
    → Histogram
    → (ℕ → ℕ)
    → FileDescription
    → List Text
    → ℕ
    → ℕ
    → List (List ℕ)
    → Option (List LogicalBlock)
unfolding slot_blocks
slot_lblocks slots hist draws fd nodes core_id seq [] = some []
slot_lblocks slots hist draws fd nodes core_id seq (row ∷ dist) = do
  host ← get_elem? nodes (core_id / slots)
  key ← random_within_boundaries hist (draws seq) (core_id / slots)
  blocks ← slot_blocks fd host row
  rest ← slot_lblocks slots hist draws fd nodes (core_id + 1) (seq + 1) dist
  some (
      record empty_logical_block {
        name = text "logical_" ++ (fd.name ++ (text "_" ++ to_string seq));
        file_name = fd.name;
        seq = seq;
        hash_key = key;
        host_name = host;
        size = size_of_chunks blocks;
        physical_blocks = blocks;
      }
      ∷ rest)

-- `assign_chunks_to_slots`, for a wave of `count` chunks.
unfoldable pub assign_chunks_to_slots :
    ℕ → Histogram → (ℕ → ℕ) → List Text → ℕ → FileDescription → Option FileDescription
unfolding fill_slots slot_lblocks
assign_chunks_to_slots slots hist draws nodes count fd = do
  dist ← fill_slots slots fd nodes 0 count (replicate (slots * length nodes) [])
  new ← slot_lblocks slots hist draws fd nodes 0 fd.n_lblock dist
  some (record fd {
    logical_blocks = fd.logical_blocks ++ new;
    info = record (fd.info) { n_lblock = fd.n_lblock + slots * length nodes };
  })

-- `schedule`. Each call has fewer chunks than the one before; `none`: a fault, or the fuel ran out.
unfoldable pub schedule :
    ℕ
    → ℕ
    → Histogram
    → (ℕ → ℕ)
    → List Text
    → List ℕ
    → FileDescription
    → Option (Bool × FileDescription)
unfolding split_blocks assign_chunks_to_slots
schedule zero slots hist draws nodes chunks fd = none
schedule (suc fuel) slots hist draws nodes chunks fd =
    let waves =
      (split_blocks chunks >>= (λ parts.
        schedule fuel slots hist draws nodes parts.1 fd >>= (λ result.
          let first = if result.0 then parts.0 else parts.0 ++ parts.1 in
          assign_chunks_to_slots slots hist draws nodes (length first) result.1
          >>= (λ fd'. some (true, fd'))))) in
    if ltb (length chunks) (slots * length nodes) then some (false, fd) else waves

-- `scheduler_multiwave::generate`. `slots` is the setting `addons.cores`.
unfoldable pub generate :
    ℕ → Histogram → (ℕ → ℕ) → FileDescription → List Text → Option FileDescription
unfolding schedule
generate slots hist draws fd nodes = do
  (is_done, fd') ←
      schedule (length fd.blocks + 1) slots hist draws nodes (range_from 0 (length fd.blocks))
        (record fd { info = record (fd.info) { n_lblock = 0 } })
  some fd'
