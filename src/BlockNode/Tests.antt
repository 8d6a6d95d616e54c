-- ===== src/BlockNode/Tests.antt =====
-- Runs of a cluster of three nodes.
use mathlib.Core.Option
use velox_dfs.Base.{ℕ, ◌<◌, ◌≡◌, ◌≢◌, refl, [], ◌∷◌, some, text, arith}
use velox_dfs.Messages.{block_insert, block_insert_replica, block_delete, block_request}
use velox_dfs.Disk.{Disk, write, remove, lookup, ends_in_slash, path_tokens, file}
use velox_dfs.Disk.Write.{IsStorable}
use velox_dfs.BlockNode.{Network, Reaches, receive, message, reply, transfer, replicate_message}
use velox_dfs.BlockNode.Replicate.{replicate_message_lem}
use velox_dfs.BlockNode.Cluster.{IsSpread}
use velox_dfs.BlockNode.Spread.{around, insert_spreads, delete_spreads, request-insert}

abbrev small : Disk
small = (text "x" ∷ [], file (text "abcde")) ∷ []

abbrev quiet : Network
quiet = record { disks = [] ∷ small ∷ [] ∷ []; in_flight = [] }

replicate_message_lem_example :
    (replicate_message 3 0 (message block_insert_replica (text "x") (text "hi") 0 0)
      ≡ some (
          (1, message block_insert_replica (text "x") (text "hi") 0 0)
          ∷ (2, message block_insert_replica (text "x") (text "hi") 0 0)
          ∷ []))
    × (1 < 3)
    × (2 < 3)
    × (◌≢◌ {A = ℕ} 1 0)
    × (◌≢◌ {A = ℕ} 2 0)
    × (◌≢◌ {A = ℕ} 1 2)
replicate_message_lem_example =
    replicate_message_lem 3 0 (message block_insert_replica (text "x") (text "hi") 0 0)
      (omega arith) (omega arith)

insert_spreads_example :
    (next : Network) × (receive 1 (message block_insert (text "y") (text "hi") 0 0) quiet
      ≡ some (next, some (reply (text "TRUE"))))
    × ((last : Network)
        → Reaches next last
        → last.in_flight ≡ []
        → IsSpread (write (text "y") (text "hi")) (around 3 1) quiet.disks last.disks)
    × ((last : Network) × Reaches next last × (last.in_flight ≡ []))
insert_spreads_example =
    insert_spreads quiet 1 0 0 (text "y") (text "hi") small (omega arith) refl refl

delete_spreads_example :
    (next : Network) × (receive 1 (message block_delete (text "x") [] 0 0) quiet
      ≡ some (next, some (reply (text "TRUE"))))
    × ((last : Network)
        → Reaches next last
        → last.in_flight ≡ []
        → IsSpread (remove (text "x")) (around 3 1) quiet.disks last.disks)
    × ((last : Network) × Reaches next last × (last.in_flight ≡ []))
delete_spreads_example = delete_spreads quiet 1 0 0 (text "x") [] small (omega arith) refl refl

storable : IsStorable (text "y") []
unfolding lookup path_tokens ends_in_slash
storable = record { writable = record { last_once = refl; open_way = λ e. cc }; bare = refl }

request-insert_example :
    Option.map
      (λ result. result.1)
      (receive 2 (message block_request (text "y") [] 0 0) insert_spreads_example.3.0)
    ≡ some (some (transfer (text "y") (text "hi")))
request-insert_example =
    request-insert quiet insert_spreads_example.0 insert_spreads_example.3.0 1 2 0 0 (text "y")
      (text "hi") [] small [] (some (reply (text "TRUE"))) (omega arith) refl refl
      insert_spreads_example.1 insert_spreads_example.3.1 insert_spreads_example.3.2 refl refl
      storable (omega arith)
