-- ===== src/BlockNode.antt =====
-- src/blocknode/block_node.cc and block_node_router.cc: a node stores blocks on its disk and passes
-- changes on to its two neighbours. The handler gives the new disk, the messages sent and the answer
-- to the peer. `none` is a fault of the disk's operations or a remainder by zero.
-- src/network/client_handler.cc: `send` drops a message to a node that does not exist. The network
-- delivers every message that is sent, in any order; connections and the logger are not modelled.
pub mod Replicate
pub mod Cluster
pub mod Spread
pub mod Serve
pub mod Tests
use velox_dfs.Base.{
  ℕ, zero, suc, ◌+◌, ◌-◌, ◌/◌, ◌%◌, ◌≡◌, Bool, true, false, ◌&&◌, List, [], ◌∷◌, ◌++◌, Option, none,
  some, Text, text, get_elem?, length, set, ltb, ◌==◌, if◌then◌else◌, ◌>>=◌,
}
use velox_dfs.Messages.{
  OpType, IoOperation, block_insert, block_insert_replica, block_delete, block_delete_replica,
  block_request, block_transfer, block_update, block_update_replica, logical_block_request,
  lblock_manager_init, lblock_manager_read, lblock_stop, lblock_manager_destroy,
}
use velox_dfs.Disk.{Disk, write, read, remove, update}

-- What a node writes on the connection of a request: a `Reply`, or an `IOoperation` with a block.
pub data Answer : Type 0 where
  reply : Text → Answer
  transfer : Text → Text → Answer

pub record Outcome : Type 0 where
  pub disk : Disk
  pub sent : List (ℕ × IoOperation)
  pub answer : Option Answer

-- `ClientHandler::send` in a network of n nodes.
pub send : ℕ → ℕ → IoOperation → List (ℕ × IoOperation)
send n target m = if ltb target n then (target, m) ∷ [] else []

pub send_and_replicate : ℕ → List ℕ → IoOperation → List (ℕ × IoOperation)
unfolding send
send_and_replicate n [] m = []
send_and_replicate n (target ∷ targets) m = send n target m ++ send_and_replicate n targets m

-- The loop of `replicate_message` for i from `i` on, `count` rounds. (id - i/2 + n is not negative.)
unfoldable pub replica_nodes : ℕ → ℕ → ℕ → ℕ → List ℕ
replica_nodes n id i zero = []
replica_nodes n id i (suc count) =
    let rest = replica_nodes n id (i + 1) count in
    (if i % 2 == 1 then (id + (i + 1) / 2 + n) % n else (id + n - i / 2) % n) ∷ rest

pub replicate_message : ℕ → ℕ → IoOperation → Option (List (ℕ × IoOperation))
unfolding replica_nodes send_and_replicate
replicate_message n id m =
    if n == 0 then none else some (send_and_replicate n (replica_nodes n id 1 2) m)

-- The message that the three changes pass on.
abbrev pub message : OpType → Text → Text → ℕ → ℕ → IoOperation
message operation name content pos len = record {
  operation = operation;
  pos = pos;
  length = len;
  block_name = name;
  block_content = content;
}

-- The end of the three changes: pass the change on, or not.
pub changed : ℕ → ℕ → Bool → IoOperation → Disk → Option Outcome
unfolding replicate_message
changed n id false m d = some (record { disk = d; sent = []; answer = none })
changed n id true m d = do
  sent ← replicate_message n id m
  some (record { disk = d; sent = sent; answer = none })

unfoldable pub block_insert_local : ℕ → ℕ → Text → Text → Bool → Disk → Option Outcome
unfolding changed
block_insert_local n id name content is_replicated d =
    changed n id is_replicated (message block_insert_replica name content 0 0)
      (write name content d)

unfoldable pub block_delete_local : ℕ → ℕ → Text → Text → Bool → Disk → Option Outcome
unfolding changed
block_delete_local n id name content is_replicated d =
    changed n id is_replicated (message block_delete_replica name content 0 0) (remove name d)

unfoldable pub block_update_local : ℕ → ℕ → Text → Text → ℕ → ℕ → Bool → Disk → Option Outcome
unfolding changed
block_update_local n id name content pos len is_replicated d = do
  d' ← update name content pos len d
  changed n id is_replicated (message block_update_replica name content pos len) d'

pub block_read_local : Text → ℕ → ℕ → Bool → Disk → Option Text
block_read_local name off len ignore_params d = read name off len ignore_params d

-- The local operations return true, so the reply is always `TRUE`.
pub answered : Option Outcome → Option Outcome
answered result = do o ← result; some (record o { answer = some (reply (text "TRUE")) })

-- `BlockNodeRouter::io_operation`.
pub io_operation : ℕ → ℕ → IoOperation → Disk → Option Outcome
unfolding block_insert_local block_delete_local block_update_local block_read_local answered
io_operation n id m d = elim m.operation [
  | block_insert ↦ answered (block_insert_local n id m.block_name m.block_content true d)
  | block_insert_replica ↦ block_insert_local n id m.block_name m.block_content false d
  | block_delete ↦ answered (block_delete_local n id m.block_name m.block_content true d)
  | block_delete_replica ↦ block_delete_local n id m.block_name m.block_content false d
  | block_request ↦
      block_read_local m.block_name m.pos m.length (m.pos == 0 && m.length == 0) d >>= (λ content.
        some (record { disk = d; sent = []; answer = some (transfer m.block_name content) }))
  | block_update ↦
      answered (block_update_local n id m.block_name m.block_content m.pos m.length true d)
  | block_update_replica ↦
      block_update_local n id m.block_name m.block_content m.pos m.length false d
  | _ ↦ some (record { disk = d; sent = []; answer = none })
]

-- All nodes, and the messages that are sent and not yet delivered.
pub record Network : Type 0 where
  pub disks : List Disk
  pub in_flight : List (ℕ × IoOperation)

-- A message reaches its node: the node handles it.
pub receive : ℕ → IoOperation → Network → Option (Network × Option Answer)
unfolding io_operation
receive id m net = do
  d ← get_elem? net.disks id
  o ← io_operation (length net.disks) id m d
  some (record { disks = set net.disks id o.disk; in_flight = net.in_flight ++ o.sent }, o.answer)

abbrev pub without : ℕ → List (ℕ × IoOperation) → List (ℕ × IoOperation)
without i [] = []
without zero (x ∷ xs) = xs
without (suc i) (x ∷ xs) = x ∷ without i xs

-- Message number i in flight is delivered.
pub deliver : ℕ → Network → Option Network
unfolding receive
deliver i net = do
  (id, m) ← get_elem? net.in_flight i
  result ← receive id m (record net { in_flight = without i net.in_flight })
  some result.0

-- Any number of deliveries, in any order.
pub data Reaches : Network → Network → Type 0 where
  done : {net : Network} → Reaches net net
  step :
      {net next last : Network}
      → (i : ℕ) → deliver i net ≡ some next
      → Reaches next last
      → Reaches net last
