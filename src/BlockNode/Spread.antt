-- ===== src/BlockNode/Spread.antt =====
-- An insertion and a deletion on the whole cluster.
use mathlib.Core.Option
use mathlib.Core.Option
use velox_dfs.Base.{
  arith, ◌<◌, ◌==◌, ◌&&◌, false, Option, ℕ, ◌+◌, ◌-◌, ◌%◌, ◌^◌, ◌<◌, ◌≤◌, ◌≡◌, ◌≢◌, refl, ap, sym,
  ◌∙◌, subst, true, false, List, [], ◌∷◌, Option, none, some, Text, text, ◌>>=◌, length, get_elem?,
  set, get_elem?-set_ne, get_elem?-lt, lt-get_elem?, some-injective,
}
use velox_dfs.Messages.{
  IoOperation, block_insert, block_insert_replica, block_delete, block_delete_replica,
  block_request,
}
use velox_dfs.Disk.{Disk, write, remove, read}
use velox_dfs.Disk.Write.{IsStorable}
use velox_dfs.Disk.Slice.{read-write}
use velox_dfs.BlockNode.{
  Answer, reply, transfer, Network, Reaches, receive, io_operation, message, answered, changed,
  block_insert_local, block_delete_local, block_read_local, replicate_message,
}
use velox_dfs.BlockNode.Replicate.{replicate_message_lem}
use velox_dfs.BlockNode.Cluster.{IsSpread, elem, IsSpread-set, eq_other, reach_two, reach_end}

-- A node with its right and its left neighbour.
abbrev pub around : ℕ → ℕ → List ℕ
around n id = (id + 1) % n ∷ (id + n - 1) % n ∷ id ∷ []

module _ (asked passed : IoOperation) (f : Disk → Disk)
    (starts : (n id : ℕ) (d : Disk)
      → io_operation n id asked d ≡ answered (changed n id true passed (f d)))
    (handles : (n id : ℕ) (d : Disk)
      → io_operation n id passed d ≡ some (record { disk = f d; sent = []; answer = none })) where
  change_lem :
      (n id : ℕ) (d : Disk) (sent : List (ℕ × IoOperation))
      → replicate_message n id passed ≡ some sent
      → io_operation n id asked d
        ≡ some (record { disk = f d; sent = sent; answer = some (reply (text "TRUE")) })
  unfolding changed answered
  change_lem n id d sent e = starts n id d ∙ rw (e, ◌>>=◌) refl

  pub spread_from :
      (net : Network) (id a b : ℕ) (d : Disk)
      → get_elem? net.disks id ≡ some d
      → net.in_flight ≡ []
      → replicate_message (length net.disks) id passed ≡ some ((a, passed) ∷ (b, passed) ∷ [])
      → a < length net.disks
      → b < length net.disks
      → a ≢ id
      → b ≢ id
      → a ≢ b
      → (next : Network) × (receive id asked net ≡ some (next, some (reply (text "TRUE"))))
        × ((last : Network)
            → Reaches next last
            → last.in_flight ≡ []
            → IsSpread f (a ∷ b ∷ id ∷ []) net.disks last.disks)
        × ((last : Network) × Reaches next last × (last.in_flight ≡ []))
  unfolding receive
  spread_from net id a b d found quiet sent a_in b_in a_ne b_ne apart =
      let flight : List (ℕ × IoOperation) = (a, passed) ∷ (b, passed) ∷ [] in
      let next : Network = record { disks = set net.disks id (f d); in_flight = flight } in
      let (da, at_a) = get_elem?-lt net.disks a a_in in
      let (db, at_b) = get_elem?-lt net.disks b b_in in
      let kept_a = get_elem?-set_ne net.disks id a (f d) (λ e. a_ne (sym e)) ∙ at_a in
      let kept_b = get_elem?-set_ne net.disks id b (f d) (λ e. b_ne (sym e)) ∙ at_b in
      let own = IsSpread-set f id [] net.disks net.disks d (λ k. refl) refl found in
      let new_a : elem a (id ∷ []) ≡ false = rw (eq_other id a (λ e. a_ne (sym e))) refl in
      let new_b : elem b (id ∷ []) ≡ false = rw (eq_other id b (λ e. b_ne (sym e))) refl in
      (
        next,
        rw (found, change_lem (length net.disks) id d flight sent, ◌>>=◌, quiet) refl,
        λ last r empty.
            reach_two passed f handles next last a b da db (id ∷ []) net.disks refl kept_a kept_b
              apart new_a new_b own r empty,
        reach_end passed f handles next a b da db refl kept_a kept_b apart,
      )

  pub change_spreads :
      (net : Network) (id : ℕ) (d : Disk)
      → 3 ≤ length net.disks
      → get_elem? net.disks id ≡ some d
      → net.in_flight ≡ []
      → (next : Network) × (receive id asked net ≡ some (next, some (reply (text "TRUE"))))
        × ((last : Network)
            → Reaches next last
            → last.in_flight ≡ []
            → IsSpread f (around (length net.disks) id) net.disks last.disks)
        × ((last : Network) × Reaches next last × (last.in_flight ≡ []))
  change_spreads net id d three found quiet =
      let n = length net.disks in
      let (sent, right_in, left_in, right_ne, left_ne, apart) =
        replicate_message_lem n id passed three (lt-get_elem? net.disks id d found) in
      spread_from net id ((id + 1) % n) ((id + n - 1) % n) d found quiet sent right_in left_in
        right_ne left_ne apart

-- A client's insertion, in a quiet network of three nodes or more: the node answers `TRUE`; the
-- messages it sends can all be delivered; and in whatever order they are, in the end the node and its
-- two neighbours have written the block, and no other disk has changed.
pub insert_spreads :
    (net : Network) (id pos len : ℕ) (name v : Text) (d : Disk)
    → 3 ≤ length net.disks
    → get_elem? net.disks id ≡ some d
    → net.in_flight ≡ []
    → (next : Network) × (receive id (message block_insert name v pos len) net
        ≡ some (next, some (reply (text "TRUE"))))
      × ((last : Network)
          → Reaches next last
          → last.in_flight ≡ []
          → IsSpread (write name v) (around (length net.disks) id) net.disks last.disks)
      × ((last : Network) × Reaches next last × (last.in_flight ≡ []))
unfolding io_operation block_insert_local changed
insert_spreads net id pos len name v d three found quiet =
    change_spreads (message block_insert name v pos len) (message block_insert_replica name v 0 0)
      (write name v) (λ n i e. refl) (λ n i e. refl) net id d three found quiet

-- A client's deletion, in a quiet network of three nodes or more: the node answers `TRUE`; the messages
-- it sends can all be delivered; and in whatever order they are, in the end the name has been removed
-- at the node and its two neighbours, and no other disk has changed.
pub delete_spreads :
    (net : Network) (id pos len : ℕ) (name v : Text) (d : Disk)
    → 3 ≤ length net.disks
    → get_elem? net.disks id ≡ some d
    → net.in_flight ≡ []
    → (next : Network) × (receive id (message block_delete name v pos len) net
        ≡ some (next, some (reply (text "TRUE"))))
      × ((last : Network)
          → Reaches next last
          → last.in_flight ≡ []
          → IsSpread (remove name) (around (length net.disks) id) net.disks last.disks)
      × ((last : Network) × Reaches next last × (last.in_flight ≡ []))
unfolding io_operation block_delete_local changed
delete_spreads net id pos len name v d three found quiet =
    change_spreads (message block_delete name v pos len) (message block_delete_replica name v 0 0)
      (remove name) (λ n i e. refl) (λ n i e. refl) net id d three found quiet

-- The request of a whole block, at a disk that holds it.
receive_request :
    (net : Network) (k : ℕ) (name c v : Text) (d : Disk)
    → get_elem? net.disks k ≡ some d
    → read name 0 0 true d ≡ some v
    → Option.map (λ result. result.1) (receive k (message block_request name c 0 0) net)
      ≡ some (some (transfer name v))
unfolding receive io_operation block_read_local
receive_request net k name c v d found e = rw (found, ◌>>=◌, e, ◌>>=◌) refl

-- The request of a part of a block.
pub request_part :
    (n id pos len : ℕ) (name c v : Text) (d : Disk)
    → 0 < len
    → read name pos len false d ≡ some v
    → io_operation n id (message block_request name c pos len) d
      ≡ some (record { disk = d; sent = []; answer = some (transfer name v) })
unfolding io_operation block_read_local
request_part n id pos len name c v d some_len e =
    let part : (pos == 0 && len == 0) ≡ false = ground arith in rw (part, e, ◌>>=◌) refl

-- After an insertion whose messages are all delivered, a request of the block at any of the three
-- nodes is answered with exactly the bytes inserted, provided that the name can be written on that
-- node's disk and does not end in a slash, and the block is shorter than 2^63 bytes.
pub request-insert :
    (net next last : Network) (id k pos len : ℕ) (name v c : Text) (d dk : Disk) (a : Option Answer)
    → 3 ≤ length net.disks
    → get_elem? net.disks id ≡ some d
    → net.in_flight ≡ []
    → receive id (message block_insert name v pos len) net ≡ some (next, a)
    → Reaches next last
    → last.in_flight ≡ []
    → elem k (around (length net.disks) id) ≡ true
    → get_elem? net.disks k ≡ some dk
    → IsStorable name dk
    → length v < 2 ^ 63
    → Option.map (λ result. result.1) (receive k (message block_request name c 0 0) last)
      ≡ some (some (transfer name v))
request-insert net next last id k pos len name v c d dk a three found quiet sent r empty near at_k w
      fits =
    let (next', sent', spread, ends) = insert_spreads net id pos len name v d three found quiet in
    let same : next ≡ next' = ap (λ x. x.0) (some-injective _ _ (sym sent ∙ sent')) in
    let r' = subst (λ x. Reaches x last) same r in
    let holds : get_elem? last.disks k ≡ some (write name v dk) =
      spread last r' empty k ∙ rw (near, at_k) refl in
    receive_request last k name c v (write name v dk) holds (read-write name v 0 dk w fits)
