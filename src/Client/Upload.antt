-- ===== src/Client/Upload.antt =====
-- src/client/dfs.cc: how `upload` cuts a local file into chunks and sends them to the nodes, and how
-- `download` asks for them again. Settings, draws and the local file are the record `Job`. Messages
-- to nodes are handled in the order sent; the source waits for the replies only at the end.
pub mod Cut
pub mod Store
pub mod Invariant
pub mod Step
pub mod Pass
pub mod Loop
pub mod RoundTrip
pub mod Endless
pub mod First
pub mod Tests
use velox_dfs.Base.{
  ℕ, zero, suc, ◌+◌, ◌-◌, ◌%◌, ◌^◌, Bool, true, false, not, ◌&&◌, List, [], ◌∷◌, ◌++◌, Option, none,
  some, Text, text, to_string, take, drop, length, replicate, get_elem?, get_or, set, leb, ltb,
  ◌==◌, if◌then◌else◌, ◌>>=◌,
}
use velox_dfs.Messages.{
  FileDescription, BlockMetadata, ChunkMetadata, IoOperation, block_insert, block_update,
  block_request,
}
use velox_dfs.Histogram.{Histogram, get_index, random_within_boundaries}
use velox_dfs.Disk.{Disk}
use velox_dfs.BlockNode.{io_operation, message, Outcome, Answer, reply, transfer}

-- The settings are `block_size` (`BLOCK_SIZE`), `replica`, `is_equal_sized` and `nodes`. `hash_key` is
-- `h(file_name)`, `draw k` is what `rand()` returns for server k, `behind` is the memory behind the
-- vector `chunk`, and `garbage` is what a number that is not set holds.
pub record Job : Type 0 where
  pub name : Text
  pub bytes : Text
  pub block_size : ℕ
  pub replica : ℕ
  pub is_equal_sized : Bool
  pub hash_key : ℕ
  pub nodes : List Text
  pub boundaries : Histogram
  pub draw : ℕ → ℕ
  pub behind : Text
  pub garbage : ℕ

-- The loop back to the last newline, from position p. At position 0 the seek fails and the loop never
-- ends (`none`).
unfoldable pub back_up : Text → ℕ → Option ℕ
back_up bytes zero = if get_or bytes 0 0 == 10 then some 0 else none
back_up bytes (suc p) =
    let rest = back_up bytes p in if get_or bytes (suc p) 0 == 10 then some (suc p) else rest

-- Where the chunk that begins at `start` ends.
unfoldable pub block_end : Job → ℕ → Option ℕ
unfolding back_up
block_end job start =
    let end = (start + job.block_size) % 2 ^ 64 in
    if ltb end (length job.bytes)
    then (if job.is_equal_sized then some end else back_up job.bytes end)
    else some (length job.bytes)

-- A string made from a `char*`: the bytes before the first zero. `none`: there is no zero in memory.
unfoldable pub c_string : Text → Option Text
c_string [] = none
c_string (c ∷ s) = let rest = c_string s in if c == 0 then some [] else rest >>= (λ t. some (c ∷ t))

-- The newline in front of the first chunk.
unfoldable pub first_newline : Job → ℕ → Text
first_newline job i = if i == 0 && not job.is_equal_sized then 10 ∷ [] else []

unfoldable pub chunk_bytes : Job → ℕ → ℕ → ℕ → Text
unfolding first_newline
chunk_bytes job i start end = first_newline job i ++ take (end - start) (drop start job.bytes)

-- `block.second`: the vector `chunk` with what follows it in memory, read as a string. `none`: the read
-- from the file writes past the vector.
unfoldable pub block_content : Job → Text → Option Text
unfolding c_string
block_content job bytes =
    if leb (length bytes) job.block_size
    then c_string (bytes ++ (replicate (job.block_size - length bytes) 0 ++ job.behind))
    else none

-- `std::map<int, BlockMetadata>`, in the order of the keys.
unfoldable pub find_block : ℕ → List (ℕ × BlockMetadata) → Option BlockMetadata
find_block k [] = none
find_block k ((j, block) ∷ m) = let rest = find_block k m in if j == k then some block else rest

unfoldable pub put_block : ℕ → BlockMetadata → List (ℕ × BlockMetadata) → List (ℕ × BlockMetadata)
put_block k block [] = (k, block) ∷ []
put_block k block ((j, other) ∷ m) =
    let later = (j, other) ∷ put_block k block m in
    if j == k then (k, block) ∷ m else (if ltb k j then (k, block) ∷ (j, other) ∷ m else later)

-- The variables of the loop, with the messages sent: the node of each, and the message.
pub record State : Type 0 where
  pub block_seq : ℕ
  pub blocks_metadata : List (ℕ × BlockMetadata)
  pub primary_seq : ℕ
  pub sent : List (ℕ × IoOperation)

unfoldable pub primary_name : Job → ℕ → Text
primary_name job k = text "Primary_" ++ (to_string k ++ (text "_" ++ job.name))

-- The number of the node that `connect(GET_INDEX(key))` connects to, among n. (-1 becomes 2^32 - 1.)
unfoldable pub target : ℕ → Option ℕ → ℕ
target n none = (2 ^ 32 - 1) % n
target n (some k) = k % n

-- The metadata of a chunk, of which the size is a `uint32_t`.
abbrev pub chunk_metadata : Job → ℕ → ℕ → ℕ → ℕ → BlockMetadata → ChunkMetadata
chunk_metadata job seq start size offset block = record {
  size = size % 2 ^ 32;
  offset = offset;
  foffset = start;
  chunk_seq = seq;
  name = job.name ++ (text "_" ++ to_string seq);
  primary_file = block.name;
  primary_seq = block.seq;
}

-- The first chunk for server k: a new primary file.
unfoldable pub first_chunk : Job → ℕ → ℕ → ℕ → ℕ → Text → State → Option State
unfolding put_block target primary_name
first_chunk job k seq start size content u = do
  hash_key ← random_within_boundaries job.boundaries (job.draw k) k
  node ← get_elem? job.nodes k
  l_node ← get_elem? job.nodes ((k + length job.nodes - 1) % length job.nodes)
  r_node ← get_elem? job.nodes ((k + 1 + length job.nodes) % length job.nodes)
  let block : BlockMetadata = record {
    name = primary_name job k;
    file_name = job.name;
    seq = u.primary_seq;
    hash_key = hash_key;
    size = size;
    type = job.garbage;
    replica = job.replica;
    node = node;
    l_node = l_node;
    r_node = r_node;
    is_committed = 1;
    chunks = [];
  }
  some (record {
    block_seq = seq;
    blocks_metadata =
        put_block k (record block { chunks = chunk_metadata job seq start size 0 block ∷ [] })
          u.blocks_metadata;
    primary_seq = (u.primary_seq + 1) % 2 ^ 32;
    sent =
        u.sent
        ++ ((
          target (length job.nodes) (get_index job.boundaries hash_key),
          message block_insert (primary_name job k) content 0 0,
        )
            ∷ []);
  })

-- A later chunk for server k: an update at the end of its primary file.
unfoldable pub next_chunk : Job → ℕ → BlockMetadata → ℕ → ℕ → ℕ → Text → State → State
unfolding put_block target
next_chunk job k block seq start size content u = record u {
  block_seq = seq;
  blocks_metadata =
      put_block k
        (record block {
          chunks = block.chunks ++ (chunk_metadata job seq start size block.size block ∷ []);
          size = (block.size + size) % 2 ^ 64;
        })
        u.blocks_metadata;
  sent =
      u.sent
      ++ ((
        target (length job.nodes) (get_index job.boundaries block.hash_key),
        message block_update block.name content block.size size,
      )
          ∷ []);
}

-- The branches on `blocks_metadata.find(which_server)`.
unfoldable pub store_chunk : Job → ℕ → ℕ → ℕ → ℕ → Text → State → Option State
unfolding find_block first_chunk next_chunk
store_chunk job k seq start size content u = elim (find_block k u.blocks_metadata) [
  | none ↦ first_chunk job k seq start size content u
  | some block ↦ some (next_chunk job k block seq start size content u)
]

-- One pass of the loop. `i` is also `block_seq`; the size is a `uint64_t`.
unfoldable pub upload_chunk : Job → ℕ → ℕ → ℕ → State → Option State
unfolding block_content chunk_bytes first_newline store_chunk
upload_chunk job i start end u =
    let n = length job.nodes in
    let k = (job.hash_key % n + i) % n in
    let size = (end + 2 ^ 64 - start + length (first_newline job i)) % 2 ^ 64 in
    if n == 0
    then none
    else block_content job (chunk_bytes job i start end)
      >>= (λ content. store_chunk job k i start size content u)

-- The loop. `none`: it does not end, or it faults.
unfoldable pub upload_loop : ℕ → Job → ℕ → ℕ → State → Option State
unfolding block_end upload_chunk
upload_loop zero job i start u = none
upload_loop (suc fuel) job i start u = do
  end ← block_end job start
  u' ← upload_chunk job i start end u
  let rest = upload_loop fuel job ((i + 1) % 2 ^ 32) end u'
  if leb (length job.bytes) end then some u' else rest

-- The loop from the start. There are at most as many chunks as bytes, or one.
unfoldable pub upload_blocks : Job → Option State
unfolding upload_loop
upload_blocks job =
    upload_loop (length job.bytes + 1) job 0 0
      (record { block_seq = 0; blocks_metadata = []; primary_seq = 0; sent = [] })

-- The nodes handle the messages in order.
unfoldable pub perform : List (ℕ × IoOperation) → List Disk → Option (List Disk)
perform [] disks = some disks
perform ((k, m) ∷ ms) disks = do
  d ← get_elem? disks k
  o ← io_operation (length disks) k m d
  perform ms (set disks k o.disk)

-- The block of a reply.
unfoldable pub answer_text : Option Answer → Option Text
answer_text (some (transfer name bytes)) = some bytes
answer_text _ = none

-- `download` from the chunk number i of the description on, with `count` to go: what it writes to the
-- local file.
unfoldable pub download_from : Histogram → List Disk → FileDescription → ℕ → ℕ → Option Text
unfolding target answer_text
download_from boundaries disks fd zero i = some []
download_from boundaries disks fd (suc count) i = do
  name ← get_elem? fd.primary_files i
  offset ← get_elem? fd.offsets i
  size ← get_elem? fd.block_size i
  hash_key ← get_elem? fd.hash_keys i
  let k = target (length disks) (get_index boundaries hash_key)
  d ← get_elem? disks k
  o ← io_operation (length disks) k (message block_request name [] offset size) d
  bytes ← answer_text o.answer
  rest ← download_from boundaries disks fd count (i + 1)
  some (bytes ++ rest)

unfoldable pub download : Histogram → List Disk → FileDescription → Option Text
unfolding download_from
download boundaries disks fd = download_from boundaries disks fd (length fd.blocks) 0
