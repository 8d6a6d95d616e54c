-- ===== src/TaskManager/Delivery.antt =====
-- What a task gets from a worker that runs beside it.
use velox_dfs.Base.{
  ℕ, ◌^◌, ◌≤◌, ◌<◌, ◌≡◌, ap, ◌∙◌, List, [], Text, All, IsZeroFree, take, length, replicate, sum,
  length-replicate, arith,
}
use velox_dfs.Messages.{BlockInfo, LogicalBlock}
use velox_dfs.TaskManager.{Buffer, semaphore_create}
use velox_dfs.TaskManager.Queue.{IsQueue}
use velox_dfs.TaskManager.Working.{slices, sizes, replicate-get_elem?}

-- A node's own chunks and the settings that the worker runs with.
pub record IsStatic (file : Text) (lblock : LogicalBlock) (queue_size block_size : ℕ) : Type 0 where
  pub two_buffers : 1 < queue_size
  pub zero_free : IsZeroFree file
  pub fit :
      All
        (λ (md : BlockInfo). md.size ≤ block_size)
        (take lblock.primary_chunk_num lblock.physical_blocks)
  pub long : sum (sizes (take lblock.primary_chunk_num lblock.physical_blocks)) ≤ length file
  pub few : length (take lblock.primary_chunk_num lblock.physical_blocks) < 2 ^ 32

-- The ring is empty at the start.
pub start-IsQueue :
    (queue_size block_size : ℕ)
    → 0 < queue_size
    → IsQueue block_size (semaphore_create queue_size block_size) []
start-IsQueue queue_size block_size some_buffers =
    let zeros : length (replicate {A = ℕ} block_size 0) ≡ block_size =
      length-replicate block_size 0 in
    record {
      nonempty = some_buffers;
      complete = length-replicate queue_size _;
      counted = omega arith;
      room = omega arith;
      below = omega arith;
      stored = λ j c e. absurd (cc);
      wide =
          λ i b e. ap (λ x. length (Buffer.buf x)) (replicate-get_elem? queue_size _ i b e) ∙ zeros;
    }

module _ (file : Text) (lblock : LogicalBlock) (queue_size block_size : ℕ)
    (ok : IsStatic file lblock queue_size block_size) where
  abbrev chunks : List Text
  chunks = slices (take lblock.primary_chunk_num lblock.physical_blocks) file
