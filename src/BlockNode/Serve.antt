-- ===== src/BlockNode/Serve.antt =====
-- What a node does to its disk when a client asks it to insert, update or delete a block.
use velox_dfs.Base.{ℕ, ◌≢◌, ◌≡◌, refl, false, true, some, Text, text, ◌>>=◌, ◌==◌, arith}
use velox_dfs.Messages.{
  IoOperation, block_delete, block_delete_replica, block_insert, block_insert_replica, block_update,
  block_update_replica,
}
use velox_dfs.Disk.{Disk, write, update, remove}
use velox_dfs.BlockNode.{
  Outcome, reply, io_operation, message, answered, changed, block_insert_local, block_update_local,
  block_delete_local, replicate_message, replica_nodes, send_and_replicate,
}

module _ (n id : ℕ) (some_nodes : n ≢ 0) where
  change_served :
      (m : IoOperation) (d : Disk)
      → (o : Outcome) × (answered (changed n id true m d) ≡ some o) × (o.disk ≡ d)
  unfolding answered changed replicate_message
  change_served m d =
      let there : (n == 0) ≡ false = ground arith in
      (
        record {
          disk = d;
          sent = send_and_replicate n (replica_nodes n id 1 2) m;
          answer = some (reply (text "TRUE"));
        },
        rw (there, ◌>>=◌) refl,
        refl,
      )

  pub insert_served :
      (name v : Text) (pos len : ℕ) (d : Disk)
      → (o : Outcome) × (io_operation n id (message block_insert name v pos len) d ≡ some o)
        × (o.disk ≡ write name v d)
  unfolding io_operation block_insert_local
  insert_served name v pos len d =
      change_served (message block_insert_replica name v 0 0) (write name v d)

  pub update_served :
      (name v : Text) (pos len : ℕ) (d d' : Disk)
      → update name v pos len d ≡ some d'
      → (o : Outcome) × (io_operation n id (message block_update name v pos len) d ≡ some o)
        × (o.disk ≡ d')
  unfolding io_operation block_update_local
  update_served name v pos len d d' e =
      let (o, done, same) = change_served (message block_update_replica name v pos len) d' in
      (o, rw (e, ◌>>=◌) done, same)

  -- A deletion is always answered with `TRUE`.
  pub delete_served :
      (name v : Text) (pos len : ℕ) (d : Disk)
      → (o : Outcome) × (io_operation n id (message block_delete name v pos len) d ≡ some o)
        × (o.disk ≡ remove name d)
        × (o.answer ≡ some (reply (text "TRUE")))
  unfolding io_operation block_delete_local answered changed replicate_message
  delete_served name v pos len d =
      let there : (n == 0) ≡ false = ground arith in
      (
        record {
          disk = remove name d;
          sent =
              send_and_replicate n (replica_nodes n id 1 2)
                (message block_delete_replica name v 0 0);
          answer = some (reply (text "TRUE"));
        },
        rw (there, ◌>>=◌) refl,
        refl,
        refl,
      )
