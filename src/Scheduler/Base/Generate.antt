-- ===== src/Scheduler/Base/Generate.antt =====
-- `scheduler_base::generate` as a whole.
use native.Mathlib.Nat.{le_refl}
use velox_dfs.Base.{
  ℕ, ◌+◌, ◌-◌, ◌%◌, ◌≤◌, ◌<◌, ◌≡◌, ◌≢◌, refl, ap, sym, ◌∙◌, List, [], ◌∷◌, ◌++◌, some, Text,
  get_elem?, get_or, get_or-get_elem?, length, range_from, ◌>>=◌, arith, All, get_elem?-lt,
  lt-get_elem?, subst, take_all, reverse, leb, length-append, length-map, some-injective, true,
  get_elem?-append_right, ring_facts,
}
use velox_dfs.Messages.{BlockInfo, LogicalBlock, FileDescription}
use velox_dfs.Histogram.{Histogram}
use velox_dfs.Histogram.Random.{IsRising}
use velox_dfs.Scheduler.{get_replicas_id, at_host}
use velox_dfs.Scheduler.Replicas.{AllDistinct, index_of-get_elem?, get_replicas_id_lem}
use velox_dfs.Scheduler.Base.{generate, init_blocks, assign_chunks, list_replicas}
use velox_dfs.Scheduler.Base.Route.{
  Routed, route, routed_to, place_all, fill, assign_chunks-place_all, get_elem?-place_all,
  length-place_all,
}
use velox_dfs.Scheduler.Base.Placement.{
  IsWellFormed, Holds, fill-Holds, AllFresh, AllFresh-Holds, AllFresh-length, init_blocks_total,
  route_total, hosted, sizes,
}
use velox_dfs.Scheduler.Base.Listing.{AllOwn, list_many, list_replicas_lem}

-- The chunks that node j stores, as its logical block holds them.
abbrev pub own_of : List Text → List Routed → ℕ → List BlockInfo
own_of nodes r j = hosted (get_or nodes j []) (routed_to j r)

-- The finished block of node k: its own chunks first, in order, then those of its left and of its
-- right neighbour, each backwards; with the number of chunks of each.
pub record IsScheduled (nodes : List Text) (r : List Routed) (k : ℕ) (l : LogicalBlock)
    : Type 0 where
  pub host : get_elem? nodes k ≡ some l.host_name
  pub count : l.primary_chunk_num ≡ length (routed_to k r)
  pub total : l.size ≡ sizes (routed_to k r)
  pub left_count :
      l.replica_chunk_num_0 ≡ some (length (routed_to ((k + length nodes - 1) % length nodes) r))
  pub right_count : l.replica_chunk_num_1 ≡ some (length (routed_to ((k + 1) % length nodes) r))
  pub blocks :
      l.physical_blocks
      ≡ (own_of nodes r k ++ reverse (own_of nodes r ((k + length nodes - 1) % length nodes)))
        ++ reverse (own_of nodes r ((k + 1) % length nodes))

list_three :
    (n k left right : ℕ) (own : ℕ → List BlockInfo) (l : LogicalBlock)
    → (k + 1) % n ≢ k
    → left ≢ k
    → (left + 1) % n ≡ k
    → right ≢ k
    → (right + 1) % n ≢ k
    → list_many n k own l (k ∷ left ∷ right ∷ []) ≡ record l {
      replica_chunk_num_0 = some (length (own left));
      replica_chunk_num_1 = some (length (own right));
      physical_blocks = (l.physical_blocks ++ reverse (own left)) ++ reverse (own right);
    }
list_three n k left right own l a b c d e = ground arith

-- After the second loop the block of node k holds its own chunks.
placed-Holds :
    (nodes : List Text) (r : List Routed) (fresh : List LogicalBlock) (k : ℕ) (l : LogicalBlock)
    → AllFresh nodes fresh
    → get_elem? (place_all fresh r) k ≡ some l
    → (t : Text) × (get_elem? nodes k ≡ some t) × Holds t (routed_to k r) l
placed-Holds nodes r fresh k l f e =
    let inside : k < length nodes = omega (
      arith,
      lt-get_elem? (place_all fresh r) k l e,
      length-place_all fresh r,
      AllFresh-length nodes fresh f,
    ) in
    let (t, l₀, p, q, h) = AllFresh-Holds nodes fresh k f inside in
    let filled : get_elem? (place_all fresh r) k ≡ some (fill l₀ (routed_to k r)) =
      get_elem?-place_all r fresh k ∙ rw q refl in
    (
      t,
      p,
      subst (Holds t (routed_to k r)) (some-injective _ _ (sym filled ∙ e))
          (fill-Holds t [] (routed_to k r) l₀ h),
    )

placed-AllOwn :
    (nodes : List Text) (r : List Routed) (fresh : List LogicalBlock)
    → AllFresh nodes fresh
    → AllOwn nodes (own_of nodes r) (place_all fresh r)
placed-AllOwn nodes r fresh f = (
  length-place_all fresh r ∙ AllFresh-length nodes fresh f,
  λ k l e.
      let (t, p, h) = placed-Holds nodes r fresh k l f e in
      let own : own_of nodes r k ≡ l.physical_blocks =
        rw (get_or-get_elem? nodes k t [] p) (sym h.blocks) in
      record {
        host = rw h.host_name p;
        count = h.count ∙ sym (length-map (at_host (get_or nodes k [])) (routed_to k r));
        first = rw own (take_all l.physical_blocks);
        long = rw own (le_refl _);
      },
)

-- The description that the scheduler leaves, with the new blocks `rs`.
abbrev described : FileDescription → List LogicalBlock → FileDescription
described fd rs = record fd {
  num_static_blocks = length fd.blocks;
  logical_blocks = fd.logical_blocks ++ rs;
  info = record (fd.info) { n_lblock = length (fd.logical_blocks ++ rs) };
}

generate_stages :
    (hist : Histogram) (draws : ℕ → ℕ) (fd : FileDescription) (nodes : List Text)
    (fresh placed rs : List LogicalBlock)
    → init_blocks hist draws fd.name 0 nodes ≡ some fresh
    → assign_chunks fd nodes fresh (range_from 0 (length fd.blocks)) ≡ some placed
    → list_replicas nodes placed (range_from 0 (length placed)) ≡ some rs
    → generate hist draws fd nodes ≡ some (described fd rs)
unfolding generate
generate_stages hist draws fd nodes fresh placed rs p q s = rw (p, ◌>>=◌, q, s)

-- The whole run, for distinct nodes (three or more, fewer than 2^32) and a histogram of as many
-- strictly rising boundaries.
module _ (hist : Histogram) (draws : ℕ → ℕ) (fd : FileDescription) (nodes : List Text)
    (well : IsWellFormed fd nodes) (distinct : AllDistinct nodes) (three : 3 ≤ length nodes)
    (few : length nodes < 4294967296) (rising : IsRising 0 hist.boundaries)
    (servers : length hist.boundaries ≡ length nodes) where
  replicas_of :
      (k : ℕ) (t : Text)
      → get_elem? nodes k ≡ some t
      → get_replicas_id nodes t
        ≡ k ∷ (k + length nodes - 1) % length nodes ∷ (k + 1) % length nodes ∷ []
  replicas_of k t e =
      let at = index_of-get_elem? nodes k t distinct e in
      rw at at (get_replicas_id_lem nodes t (rw at (lt-get_elem? nodes k t e)) few)

  replicas_below :
      (k : ℕ) (t : Text)
      → get_elem? nodes k ≡ some t
      → All (λ id. id < length nodes) (get_replicas_id nodes t)
  replicas_below k t e =
      let inside = lt-get_elem? nodes k t e in
      let facts = ring_facts (length nodes) k three inside in
      rw (replicas_of k t e) (inside, (facts.4, (facts.5, tt)))

  finished-IsScheduled :
      (r : List Routed) (k : ℕ) (l : LogicalBlock) (t : Text)
      → get_elem? nodes k ≡ some t
      → Holds t (routed_to k r) l
      → IsScheduled nodes r k
          (list_many (length nodes) k (own_of nodes r) l (get_replicas_id nodes l.host_name))
  finished-IsScheduled r k l t e h =
      let n = length nodes in
      let left = (k + n - 1) % n in
      let right = (k + 1) % n in
      let own = own_of nodes r in
      let facts = ring_facts n k three (lt-get_elem? nodes k t e) in
      let counted = λ (j : ℕ). length-map (at_host (get_or nodes j [])) (routed_to j r) in
      let ids : get_replicas_id nodes l.host_name ≡ k ∷ left ∷ right ∷ [] =
        ap (get_replicas_id nodes) h.host_name ∙ replicas_of k t e in
      subst (λ i. IsScheduled nodes r k (list_many n k own l i)) (sym ids)
        (subst (IsScheduled nodes r k)
          (sym (list_three n k left right own l facts.0 facts.1 facts.2 facts.0 facts.3))
          (record {
            host = rw h.host_name e;
            count = h.count;
            total = h.total;
            left_count = ap some (counted left);
            right_count = ap some (counted right);
            blocks =
                ap (λ xs. (xs ++ reverse (own left)) ++ reverse (own right))
                  (h.blocks
                    ∙ ap (λ x. hosted x (routed_to k r)) (sym (get_or-get_elem? nodes k t [] e)));
          }))

  -- For a well-formed description, distinct nodes (three or more, fewer than 2^32) and strictly rising
  -- boundaries, one for each node, the scheduler goes through, and appends one block for each node, in
  -- the order of the nodes: the block of node k holds exactly the chunks whose host is node k, in
  -- order, with their total size and number, and then lists those of its two neighbours, each
  -- backwards, with their numbers.
  pub generate_lem :
      (r : List Routed) × (fd' : FileDescription) × (route fd nodes
          (range_from 0 (length fd.blocks))
        ≡ some r)
      × (generate hist draws fd nodes ≡ some fd')
      × (length fd'.logical_blocks ≡ length fd.logical_blocks + length nodes)
      × ((k : ℕ)
          → k < length nodes
          → (l : LogicalBlock) × (get_elem? fd'.logical_blocks (length fd.logical_blocks + k)
              ≡ some l)
            × IsScheduled nodes r k l)
  generate_lem =
      let n = length nodes in
      let (fresh, p, f) = init_blocks_total hist draws fd.name 0 nodes rising (omega arith) in
      let (r, q, below, _) = route_total fd nodes 0 (length fd.blocks) well (omega arith) in
      let placed = place_all fresh r in
      let size : length placed ≡ n = length-place_all fresh r ∙ AllFresh-length nodes fresh f in
      let assigned =
        assign_chunks-place_all fd nodes (range_from 0 (length fd.blocks)) fresh r q
          (rw (AllFresh-length nodes fresh f) below) in
      let (rs, s, len, spec) =
        list_replicas_lem nodes (own_of nodes r) 0 n placed replicas_below
          (placed-AllOwn nodes r fresh f) (omega arith) in
      (
        r,
        described fd rs,
        q,
        generate_stages hist draws fd nodes fresh placed rs p assigned
            (subst (λ m. list_replicas nodes placed (range_from 0 m) ≡ some rs) (sym size) s),
        omega (arith, length-append fd.logical_blocks rs),
        λ k h.
            let (l, e) = get_elem?-lt placed k (omega arith) in
            let (t, at, holds) = placed-Holds nodes r fresh k l f e in
            let zero_le : leb 0 k ≡ true = ground arith in
            (
              list_many n k (own_of nodes r) l (get_replicas_id nodes l.host_name),
              get_elem?-append_right fd.logical_blocks rs k ∙ (spec k l e ∙ rw zero_le refl),
              finished-IsScheduled r k l t at holds,
            ),
      )
