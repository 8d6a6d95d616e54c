-- ===== src/TaskManager.antt =====
-- src/taskmanager/task_manager.cc, src/common/shared_memory.cc and `read_chunk` of src/client/dfs.cc: a
-- worker of the node reads the chunks of a logical block from the disk into a ring of buffers in shared
-- memory, and a task takes them out. A call holds the mutex up to its end or to the wait on the
-- condition, so each such part is one step. Both wait on the same condition: a signal wakes the other,
-- if it waits there, and else is lost.
pub mod Queue
pub mod Working
pub mod Moves
pub mod Progress
pub mod Delivery
pub mod Deadlock
pub mod Lock
pub mod Tests
use velox_dfs.Base.{
  ℕ, zero, suc, ◌+◌, ◌-◌, ◌*◌, ◌%◌, ◌^◌, ◌≡◌, Bool, true, false, not, ◌&&◌, ◌||◌, List, [], ◌∷◌,
  ◌++◌, Option, none, some, Text, take, drop, length, replicate, get_elem?, set, leb, ltb, ◌==◌,
  if◌then◌else◌, ◌>>=◌,
}
use velox_dfs.Messages.{BlockInfo, LogicalBlock}

-- `struct shm_buf` with the memory it points to.
pub record Buffer : Type 0 where
  pub buf : Text
  pub chunk_size : ℕ
  pub chunk_index : Option ℕ

-- `struct semaphore` and the shared memory; `is_done` is the flag at `shm_status_addr`. (`count` is not
-- used.)
pub record Ring : Type 0 where
  pub head : ℕ
  pub tail : ℕ
  pub queue_size : ℕ
  pub buffers : List Buffer
  pub is_done : Bool

-- `semaphore_create`, and the memory set to zero.
abbrev pub semaphore_create : ℕ → ℕ → Ring
semaphore_create queue_size block_size = record {
  head = 0;
  tail = 0;
  queue_size = queue_size;
  buffers =
      replicate queue_size
        (record { buf = replicate block_size 0; chunk_size = 0; chunk_index = some 0 });
  is_done = false;
}

-- `tail - head`, of unsigned numbers.
unfoldable pub in_use : Ring → ℕ
in_use r = (r.tail + 2 ^ 32 - r.head) % 2 ^ 32

unfoldable pub slot : Ring → ℕ → Option ℕ
slot r i = if r.queue_size == 0 then none else some (i % r.queue_size)

-- The part of `produce` behind the test: read the chunk from the stream, of which `ifs` is the rest, into
-- the buffer at the tail. `none`: a remainder by zero, or a read past the buffer.
unfoldable pub put_chunk : Text → BlockInfo → Ring → Option (Ring × Text)
unfolding slot
put_chunk ifs md r =
    let bytes = take md.size ifs in
    slot r r.tail >>= (λ i. get_elem? r.buffers i >>= (λ b.
      if ltb (length b.buf) (length bytes)
      then none
      else some (
        record r {
          buffers = set r.buffers i (record {
            buf = bytes ++ drop (length bytes) b.buf;
            chunk_size = md.size;
            chunk_index = md.seq;
          });
          tail = (r.tail + 1) % 2 ^ 32;
        },
        drop md.size ifs,
      )))

-- What a part of `produce` does: it waits, or it puts the chunk in, with or without a signal.
pub data Produced : Type 0 where
  must_wait : Produced
  wrote : Ring → Text → (signals : Bool) → Produced

-- `produce` up to its end, or to the wait.
unfoldable pub produce : Text → BlockInfo → Ring → Option Produced
unfolding in_use put_chunk
produce ifs md r =
    if ltb (in_use r) r.queue_size
    then (put_chunk ifs md r >>= (λ put. some (wrote put.0 put.1 true)))
    else some must_wait

-- `produce` behind the wait: it does not look again, and signals nothing.
unfoldable pub after_wait : Text → BlockInfo → Ring → Option Produced
unfolding put_chunk
after_wait ifs md r = put_chunk ifs md r >>= (λ put. some (wrote put.0 put.1 false))

-- `strncpy` of n bytes: after a zero only zeros follow.
unfoldable pub strncpy : ℕ → Text → Text
strncpy zero s = []
strncpy (suc n) [] = []
strncpy (suc n) (c ∷ s) = let rest = strncpy n s in if c == 0 then replicate (suc n) 0 else c ∷ rest

pub data Taken : Type 0 where
  is_empty : Taken
  no_more : Taken
  took : Text → Ring → Taken

-- `read_chunk`: the bytes that it copies out of the buffer at the head, which it then clears. `no_more`
-- is the return of 0, `is_empty` the way into the wait. `none`: as above, or a copy past the buffer.
unfoldable pub read_chunk : Ring → Option Taken
unfolding in_use slot strncpy
read_chunk r =
    if in_use r == 0
    then some (if r.is_done then no_more else is_empty)
    else (slot r r.head >>= (λ i. get_elem? r.buffers i >>= (λ b.
        if ltb (length b.buf) b.chunk_size
        then none
        else some (
            took (strncpy b.chunk_size b.buf) (record r {
              buffers =
                  set r.buffers i
                    (record b { buf = replicate b.chunk_size 0 ++ drop b.chunk_size b.buf });
              head = (r.head + 1) % 2 ^ 32;
            })))))

-- Where the worker is: before a chunk, in the wait of `produce`, or behind it.
pub data Phase : Type 0 where
  ready waiting woken : Phase

-- A worker and a task: what the worker has still to read, and what the task has taken. `task_waits`: the
-- task is in the wait of `read_chunk`.
pub record Work : Type 0 where
  pub todo : List BlockInfo
  pub ifs : Text
  pub ring : Ring
  pub phase : Phase
  pub task_waits : Bool
  pub got : List Text
  pub is_over : Bool

-- `static_worker`: the chunks that the node itself stores, from the start of its primary file.
abbrev pub static_worker : Text → LogicalBlock → ℕ → ℕ → Work
static_worker file lblock queue_size block_size = record {
  todo = take lblock.primary_chunk_num lblock.physical_blocks;
  ifs = file;
  ring = semaphore_create queue_size block_size;
  phase = ready;
  task_waits = false;
  got = [];
  is_over = false;
}

abbrev pub after_produce : Work → List BlockInfo → Produced → Option Work
after_produce s todo must_wait = some (record s { phase = waiting })
after_produce s todo (wrote ring ifs signals) = some (record s {
  todo = todo;
  ifs = ifs;
  ring = ring;
  phase = ready;
  task_waits = not signals && s.task_waits;
})

-- A part of a pass of the loop of `static_worker`, or, behind the loop, the end: the flag is set once, and
-- the task is woken. `none`: the worker waits or has ended.
unfoldable pub worker_from : List BlockInfo → Phase → Work → Option Work
unfolding produce after_wait
worker_from [] phase s =
    if (s.ring).is_done
    then none
    else some (record s { ring = record (s.ring) { is_done = true }; task_waits = false })
worker_from (md ∷ todo) ready s = produce s.ifs md s.ring >>= after_produce s todo
worker_from (md ∷ todo) waiting s = none
worker_from (md ∷ todo) woken s = after_wait s.ifs md s.ring >>= after_produce s todo

unfoldable pub worker_step : Work → Option Work
unfolding worker_from
worker_step s = worker_from s.todo s.phase s

-- What the signal of `read_chunk` does to the worker.
abbrev pub wake : Phase → Phase
wake ready = ready
wake waiting = woken
wake woken = woken

abbrev pub after_read : Work → Taken → Option Work
after_read s is_empty = some (record s { task_waits = true })
after_read s no_more = some (record s { is_over = true })
after_read s (took bytes ring) =
    some (record s { ring = ring; phase = wake s.phase; got = s.got ++ (bytes ∷ []) })

-- A call of `read_chunk` up to its end or to the wait, until one has returned 0. (Behind the wait it begins
-- again.)
unfoldable pub task_step : Work → Option Work
unfolding read_chunk
task_step s = if s.is_over || s.task_waits then none else read_chunk s.ring >>= after_read s

-- A wait may also end by chance, without a signal.
abbrev pub worker_by_chance : Phase → Work → Option Work
worker_by_chance waiting s = some (record s { phase = woken })
worker_by_chance _ s = none

abbrev pub task_by_chance : Work → Option Work
task_by_chance s = if s.task_waits then some (record s { task_waits = false }) else none

-- `chance`: whether waits may end by chance.
pub data Step (chance : Bool) : Work → Work → Type 0 where
  by_worker : {s t : Work} → worker_step s ≡ some t → Step chance s t
  by_task : {s t : Work} → task_step s ≡ some t → Step chance s t
  worker_wakes :
      {s t : Work} → chance ≡ true → worker_by_chance s.phase s ≡ some t → Step chance s t
  task_wakes : {s t : Work} → chance ≡ true → task_by_chance s ≡ some t → Step chance s t

-- Any number of steps of the two, in any order.
pub data Steps (chance : Bool) : Work → Work → Type 0 where
  done : {s : Work} → Steps chance s s
  step : {s t u : Work} → Step chance s t → Steps chance t u → Steps chance s u
