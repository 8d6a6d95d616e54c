-- ===== src/Client/Session.antt =====
-- src/client/dfs.cc: the whole `upload`, `exists`, `remove` and `download`, with the messages that they
-- exchange with the file leader and with the nodes. A name belongs to one file leader, the one of the
-- node `h(name)` modulo the number of nodes: it is the leader of the world. A result `true` is
-- EXIT_SUCCESS; `none` is a fault, or a loop that does not end.
pub mod Sent
pub mod Removed
pub mod Short
pub mod Tests
use velox_dfs.Base.{
  ℕ, ◌+◌, Bool, true, false, List, [], ◌∷◌, Option, none, some, Text, text, text_eq, map, length,
  set, get_elem?, ◌==◌, if◌then◌else◌, ◌>>=◌,
}
use velox_dfs.Messages.{FileInfo, FileDescription, BlockMetadata, FileRequest, block_delete}
use velox_dfs.Histogram.{Histogram, get_index}
use velox_dfs.Directory.{empty_file_info}
use velox_dfs.Disk.{Disk}
use velox_dfs.BlockNode.{io_operation, message, Answer}
use velox_dfs.BlockNode
use velox_dfs.FileLeader.Server.{Site, Leader}
use velox_dfs.FileLeader.Server.Router.{
  Request, Response, handle, file_info, file_request_of, file_del, file_exists, description, reply,
}
use velox_dfs.Client.Upload.{Job, State, target, upload_blocks, perform}
use velox_dfs.Client.Upload

pub record World : Type 0 where
  pub leader : Leader
  pub disks : List Disk

-- The test of the `message` of a `Reply` of the file leader, and of a node.
abbrev pub is_reply : Text → Response → Bool
is_reply expected (reply m details) = text_eq m expected
is_reply expected _ = false

abbrev pub is_answer : Text → Option Answer → Bool
is_answer expected (some (BlockNode.reply m)) = text_eq m expected
is_answer expected _ = false

abbrev pub description_of : Response → Option FileDescription
description_of (description fd) = some fd
description_of _ = none

unfoldable pub exists : Site → Text → World → Option Bool
unfolding handle
exists site name w = do
  answered ← handle site (file_exists name) w.leader
  some (is_reply (text "TRUE") answered.0)

-- The start of `upload`: a block size of 0 is that of the settings, and a binary has a replica on each
-- node. (The settings are those of the job.)
abbrev pub with_arguments : Job → Bool → ℕ → Job
with_arguments job is_binary block_size = record job {
  block_size = if block_size == 0 then job.block_size else block_size;
  replica = if is_binary then length job.nodes else job.replica;
}

-- `file_info` as it is first sent.
abbrev pub announcement : Job → FileInfo
announcement job = record empty_file_info {
  name = job.name;
  hash_key = job.hash_key;
  replica = job.replica;
  size = length job.bytes;
  is_input = true;
  uploading = 1;
  intended_block_size = job.block_size;
}

-- `file_info` as it is sent at the end, after the loop.
abbrev pub confirmation : Job → State → FileInfo
confirmation job u = record (announcement job) {
  num_primary_file = u.primary_seq;
  num_block = u.block_seq;
  blocks_metadata = map (λ entry. entry.1) u.blocks_metadata;
  uploading = 0;
}

-- `upload` from the first `send_message` on.
unfoldable pub send_file : Site → Job → World → Option (Bool × World)
unfolding upload_blocks perform handle
send_file site job w = do
  announced ← handle site (file_info (announcement job)) w.leader
  u ← upload_blocks job
  disks ← perform u.sent w.disks
  confirmed ← handle site (file_info (confirmation job u)) announced.1
  some (is_reply (text "TRUE") confirmed.0, record { leader = confirmed.1; disks = disks })

-- `is_local` is the result of `file_exists_local`.
unfoldable pub upload : Site → Job → Bool → ℕ → Bool → World → Option (Bool × World)
unfolding exists send_file
upload site job is_binary block_size is_local w = elim is_local [
  | false ↦ some (false, w)
  | true ↦ exists site job.name w >>= (λ there.
      if there then some (false, w) else send_file site (with_arguments job is_binary block_size) w)
]

-- `fr` as `remove` and `download` send it.
abbrev pub request : Text → FileRequest
request name = record { name = name; generate = false }

-- The loop over `primary_files`, with `block_seq`.
unfoldable pub remove_blocks :
    Histogram → FileDescription → List Text → ℕ → List Disk → Option (Bool × List Disk)
unfolding target
remove_blocks boundaries fd [] block_seq disks = some (true, disks)
remove_blocks boundaries fd (name ∷ names) block_seq disks = do
  hash_key ← get_elem? fd.hash_keys block_seq
  let k : ℕ = target (length disks) (get_index boundaries hash_key)
  d ← get_elem? disks k
  o ← io_operation (length disks) k (message block_delete name [] 0 0) d
  let changed : List Disk = set disks k o.disk
  let rest = remove_blocks boundaries fd names (block_seq + 1) changed
  if is_answer (text "TRUE") o.answer then rest else some (false, changed)

-- The end of `remove`.
abbrev pub remove_file : Site → Text → World → Option (Bool × World)
remove_file site name w = do
  answered ← handle site (file_del name) w.leader
  some (is_reply (text "OK") answered.0, record w { leader = answered.1 })

unfoldable pub remove : Site → Text → World → Option (Bool × World)
unfolding remove_blocks handle
remove site name w = do
  answered ← handle site (file_request_of (request name)) w.leader
  fd ← description_of answered.0
  removed ← remove_blocks site.boundaries fd fd.primary_files 0 w.disks
  let w' : World = record { leader = answered.1; disks = removed.1 }
  if removed.0 then remove_file site name w' else some (false, w')

-- What `download` writes to the local file (none: EXIT_FAILURE).
unfoldable pub download : Site → Text → World → Option (Option Text)
unfolding exists handle Upload.download
download site name w = do
  there ← exists site name w
  let fetched = (do
    answered ← handle site (file_request_of (request name)) w.leader
    fd ← description_of answered.0
    bytes ← Upload.download site.boundaries w.disks fd
    some (some bytes))
  if there then fetched else some none
