-- ===== src/TaskManager/Tests.antt =====
-- A worker with three chunks and a ring of two buffers.
use velox_dfs.Base.{ℕ, refl, false, [], ◌∷◌, text, arith}
use velox_dfs.Messages.{BlockInfo, LogicalBlock, empty_logical_block}
use velox_dfs.Scheduler.{block_info}
use velox_dfs.TaskManager.{Work, static_worker, Steps}
use velox_dfs.TaskManager.Deadlock.{IsStuck, static_worker-deadlock}
use velox_dfs.TaskManager.Delivery.{IsStatic}

abbrev chunk : ℕ → ℕ → BlockInfo
chunk seq size = block_info (text "f") seq (text "c") (text "p") 0 size 0 0 0

abbrev lblock : LogicalBlock
lblock = record empty_logical_block {
  primary_chunk_num = 3;
  physical_blocks = chunk 0 2 ∷ chunk 1 2 ∷ chunk 2 1 ∷ chunk 3 2 ∷ [];
}

abbrev start : Work
start = static_worker (text "abcde") lblock 2 2

is_static : IsStatic (text "abcde") lblock 2 2
is_static = record {
  two_buffers = omega arith;
  zero_free = (omega arith, (omega arith, (omega arith, (omega arith, (omega arith, tt)))));
  fit = (omega arith, (omega arith, (omega arith, tt)));
  long = omega arith;
  few = omega arith;
}

static_worker-deadlock_example :
    (s : Work) × Steps false (static_worker (text "abcde") lblock 1 2) s × IsStuck (text "ab") s
static_worker-deadlock_example =
    static_worker-deadlock (text "abcde") lblock 2 (chunk 0 2) (chunk 1 2) (chunk 2 1) [] refl
      is_static.zero_free (omega arith) (omega arith) (omega arith)
