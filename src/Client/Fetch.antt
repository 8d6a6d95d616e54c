-- ===== src/Client/Fetch.antt =====
-- What a client gets of a block from the disk that it turns to.
use velox_dfs.Base.{
  ℕ, ◌+◌, ◌-◌, ◌%◌, ◌==◌, ◌||◌, Bool, ◌^◌, arith, ◌∙◌, succ_mod, pred_mod, ◌<◌, ◌≤◌, ◌≡◌, refl,
  Bool-cases, inl, inr, [], some, Text, take, drop, length, get_elem?, if◌then◌else◌, ◌>>=◌,
}
use velox_dfs.Histogram.{get_index}
use velox_dfs.Disk.{Disk, content_of}
use velox_dfs.Disk.Slice.{read_within}
use velox_dfs.BlockNode.Spread.{request_part}
use velox_dfs.Client.{Cluster, is_replica, fetch_local, fetch_remote, answer_bytes, fetch}

fetch_local_lem :
    (c : Cluster) (name b : Text) (cursor len : ℕ) (d : Disk)
    → get_elem? c.disks c.id ≡ some d
    → content_of name d ≡ some b
    → fetch_local c name cursor len ≡ some (some (take len (drop cursor b)))
unfolding fetch_local
fetch_local_lem c name b cursor len d at holds = rw (at, ◌>>=◌, holds, ◌>>=◌) refl

fetch_remote_lem :
    (c : Cluster) (a : ℕ) (name b : Text) (cursor len : ℕ) (d : Disk)
    → get_elem? c.disks a ≡ some d
    → content_of name d ≡ some b
    → length b < 2 ^ 63
    → 0 < len
    → cursor + len ≤ length b
    → fetch_remote c (some a) name cursor len ≡ some (some (take len (drop cursor b)))
unfolding fetch_remote answer_bytes
fetch_remote_lem c a name b cursor len d at holds small some_len inside =
    let answer =
      request_part (length c.disks) a cursor len name [] (take len (drop cursor b)) d some_len
        (read_within name b cursor len d holds inside small) in
    rw (at, ◌>>=◌, answer, ◌>>=◌) refl

-- Node b, of n, is node a or one of its two neighbours around the ring.
abbrev pub is_near : ℕ → ℕ → ℕ → Bool
is_near a b n = b == a || b == (a + 1) % n || b == (a + n - 1) % n

-- The test of the source is the one around the ring.
is_replica_lem : (a b n : ℕ) → a < n → b < n → is_replica (some a) b n ≡ is_near a b n
unfolding is_replica
is_replica_lem a b n h k = ground (arith, succ_mod n a h, pred_mod n a h)

-- A block of less than 2^63 bytes whose key node a owns: a part of it that is not empty comes from the
-- client's own disk, if the client's node is a or the node before or behind a around the ring, and
-- else from the disk of a; if that disk holds the block, the bytes are that part of the block.
pub fetch_lem :
    (c : Cluster) (key a cursor len : ℕ) (name b : Text) (d : Disk)
    → get_index c.boundaries key ≡ some a
    → a < length c.disks
    → c.id < length c.disks
    → get_elem? c.disks (if is_near a c.id (length c.disks) then c.id else a) ≡ some d
    → content_of name d ≡ some b
    → length b < 2 ^ 63
    → 0 < len
    → cursor + len ≤ length b
    → fetch c key name cursor len ≡ some (some (take len (drop cursor b)))
unfolding fetch
fetch_lem c key a cursor len name b d owner a_in id_in at holds small some_len inside =
    let same = is_replica_lem a c.id (length c.disks) a_in id_in in
    elim (Bool-cases (is_near a c.id (length c.disks))) [
      | inl near ↦
          rw (owner, same ∙ near) (fetch_local_lem c name b cursor len d (rw near at at) holds)
      | inr far ↦
          rw (owner, same ∙ far)
            (fetch_remote_lem c a name b cursor len d (rw far at at) holds small some_len inside)
    ]
