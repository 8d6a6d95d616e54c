-- ===== src/Client.antt =====
-- src/client/dfs.cc: how a client that runs on a node reads a range of a file (`read_physical`). A block
-- that the node or a neighbour owns is read from the node's own disk, any other is requested from its
-- owner. The caller's buffer is a text; a write past its end is a fault (`none`), as are an index out
-- of range and a connection to no node.
pub mod Range
pub mod Blocks
pub mod Loop
pub mod Fetch
pub mod Upload
pub mod Session
pub mod Tests
use velox_dfs.Base.{
  ℕ, zero, suc, ◌+◌, ◌-◌, ◌%◌, ◌^◌, min, max, Bool, true, false, ◌&&◌, ◌||◌, List, [], ◌∷◌, ◌++◌,
  Option, none, some, Text, take, drop, length, get_elem?, leb, ltb, ◌==◌, if◌then◌else◌, ◌>>=◌,
}
use velox_dfs.Messages.{FileDescription, block_request}
use velox_dfs.Histogram.{Histogram, get_index}
use velox_dfs.Disk.{Disk, content_of}
use velox_dfs.BlockNode.{io_operation, message, Outcome, Answer, reply, transfer}

-- What the client sees: its node, the owners of keys, and all disks.
pub record Cluster : Type 0 where
  pub id : ℕ
  pub boundaries : Histogram
  pub disks : List Disk

-- The search for the first block: its number, and where it begins in the file.
unfoldable pub find_begin : ℕ → ℕ → ℕ → List ℕ → ℕ × ℕ
find_begin off total i [] = (0, 0)
find_begin off total i (size ∷ sizes) =
    let total' = (total + size) % 2 ^ 64 in
    let later = find_begin off total' (i + 1) sizes in
    if ltb off total' then (i, (total' + 2 ^ 64 - size) % 2 ^ 64) else later

-- The search for the last block; `bound` is `off+len-1`.
unfoldable pub find_end : ℕ → ℕ → ℕ → List ℕ → ℕ
find_end bound total i [] = 0
find_end bound total i (size ∷ []) = i
find_end bound total i (size ∷ next ∷ sizes) =
    let total' = (total + size) % 2 ^ 64 in
    let later = find_end bound total' (i + 1) (next ∷ sizes) in
    if leb bound total' then i else later

-- Whether node b has the blocks of node a, among `size`. (none is -1, for a key without an owner.)
unfoldable pub is_replica : Option ℕ → ℕ → ℕ → Bool
is_replica none b size = b == 0
is_replica (some a) b size =
    a == b || b == a + 1 || b + 1 == a || (b == 0 && a + 1 == size) || (b + 1 == size && a == 0)

-- A write of bytes into the buffer.
unfoldable pub put_at : Text → ℕ → Text → Option Text
put_at buf pos bytes =
    if ltb (length buf) (pos + length bytes)
    then none
    else some (take pos buf ++ (bytes ++ drop (pos + length bytes) buf))

-- The bytes that come for one block. The inner `none`: the local file did not open.
unfoldable pub fetch_local : Cluster → Text → ℕ → ℕ → Option (Option Text)
fetch_local c name cursor len = do
  disk ← get_elem? c.disks c.id
  some (content_of name disk >>= (λ bytes. some (take len (drop cursor bytes))))

-- The bytes of the answer to a request.
unfoldable pub answer_bytes : Option Answer → Option (Option Text)
answer_bytes none = none
answer_bytes (some (reply text)) = none
answer_bytes (some (transfer name bytes)) = some (some bytes)

unfoldable pub fetch_remote : Cluster → Option ℕ → Text → ℕ → ℕ → Option (Option Text)
unfolding answer_bytes
fetch_remote c which name cursor len = do
  node ← which
  disk ← get_elem? c.disks node
  o ← io_operation (length c.disks) node (message block_request name [] cursor len) disk
  answer_bytes o.answer

unfoldable pub fetch : Cluster → ℕ → Text → ℕ → ℕ → Option (Option Text)
unfolding is_replica fetch_local fetch_remote
fetch c hash_key name cursor len =
    let which = get_index c.boundaries hash_key in
    if is_replica which c.id (length c.disks)
    then fetch_local c name cursor len
    else fetch_remote c which name cursor len

-- What the loop does with the bytes of a block: stop if the file did not open, or go on with `next`.
unfoldable pub received : Text → ℕ → Option Text → (Text → Option (ℕ × Text)) → Option (ℕ × Text)
unfolding put_at
received buf read_bytes none next = some (read_bytes, buf)
received buf read_bytes (some bytes) next = put_at buf read_bytes bytes >>= next

-- The loop from block i on, with `count` blocks to go: the number of bytes read, and the buffer.
-- `first` and `begin` are the first block and where it begins.
unfoldable pub read_blocks :
    Cluster → FileDescription → ℕ → ℕ → ℕ → ℕ → ℕ → ℕ → ℕ → Text → Option (ℕ × Text)
unfolding fetch received
read_blocks c fd off first begin zero i remain_len read_bytes buf = some (read_bytes, buf)
read_blocks c fd off first begin (suc count) i remain_len read_bytes buf = do
  hash_key ← get_elem? fd.hash_keys i
  size ← get_elem? fd.block_size i
  name ← get_elem? fd.blocks i
  let cursor = if i == first && ltb 0 size then (off + 2 ^ 64 - begin) % 2 ^ 64 else 0
  let len = min ((size + 2 ^ 64 - cursor) % 2 ^ 64) remain_len
  bytes ← fetch c hash_key name cursor len
  received buf read_bytes bytes (λ buf'.
      let rest =
        read_blocks c fd off first begin count (i + 1) (remain_len - len) (read_bytes + len) buf' in
      if remain_len - len == 0 then some (read_bytes + len, buf') else rest)

-- `read_physical`: the number of bytes read, and the buffer.
pub read_physical : Cluster → FileDescription → ℕ → ℕ → Text → Option (ℕ × Text)
unfolding find_begin find_end read_blocks
read_physical c fd off len buf =
    let at = min off fd.size in
    let begin = find_begin at 0 0 fd.block_size in
    let last = find_end ((at + len + 2 ^ 64 - 1) % 2 ^ 64) 0 0 fd.block_size in
    if leb fd.size at
    then some (0, buf)
    else read_blocks c fd at begin.0 begin.1 (last + 1 - begin.0) begin.0 len 0 buf
