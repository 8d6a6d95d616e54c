-- ===== src/BlockNode/Replicate.antt =====
-- Which nodes a change is passed on to.
use velox_dfs.Base.{
  ℕ, ◌+◌, ◌-◌, ◌%◌, ◌<◌, ◌≤◌, ◌≡◌, ◌≢◌, refl, ap, ◌∙◌, false, [], ◌∷◌, some, lt→ltb, ring_facts,
  arith, ◌==◌,
}
use velox_dfs.Messages.{IoOperation}
use velox_dfs.BlockNode.{replica_nodes, replicate_message, send_and_replicate, send}
use native.Mathlib.Nat.{add-mod_right}

replica_nodes_lem : (n id : ℕ) → replica_nodes n id 1 2 ≡ (id + 1 + n) % n ∷ (id + n - 1) % n ∷ []
unfolding replica_nodes
replica_nodes_lem n id = refl

send_two :
    (n a b : ℕ) (m : IoOperation)
    → a < n
    → b < n
    → send_and_replicate n (a ∷ b ∷ []) m ≡ (a, m) ∷ (b, m) ∷ []
unfolding send_and_replicate send
send_two n a b m h k =
    let first = lt→ltb a n h in let second = lt→ltb b n k in rw (first, second) refl

-- A change is sent once to the right and once to the left neighbour in the ring, and, among three
-- nodes or more, these are two nodes and neither is the sender.
pub replicate_message_lem :
    (n id : ℕ) (m : IoOperation)
    → 3 ≤ n
    → id < n
    → (replicate_message n id m ≡ some (((id + 1) % n, m) ∷ ((id + n - 1) % n, m) ∷ []))
      × ((id + 1) % n < n)
      × ((id + n - 1) % n < n)
      × ((id + 1) % n ≢ id)
      × ((id + n - 1) % n ≢ id)
      × ((id + 1) % n ≢ (id + n - 1) % n)
unfolding replicate_message
replicate_message_lem n id m h f =
    let (a, b, c, d, left, right, apart) = ring_facts n id h f in
    let some_nodes : (n == 0) ≡ false = ground arith in
    let targets : replica_nodes n id 1 2 ≡ (id + 1) % n ∷ (id + n - 1) % n ∷ [] =
      replica_nodes_lem n id ∙ ap (λ x. x ∷ (id + n - 1) % n ∷ []) (add-mod_right (id + 1) n) in
    let sent =
      ap (λ ts. send_and_replicate n ts m) targets
      ∙ send_two n ((id + 1) % n) ((id + n - 1) % n) m right left in
    (rw some_nodes (ap some sent), right, left, a, b, apart)
