-- ===== src/Scheduler/Multiwave/Spread.antt =====
-- One wave of scheduler_multiwave.cc: which chunks it spreads over the slots.
use velox_dfs.Base.{
  ℕ, zero, suc, ◌+◌, ◌*◌, ◌/◌, ◌≤◌, ◌<◌, ◌≡◌, inl, inr, refl, sym, ◌∙◌, List, [], ◌∷◌, ◌++◌, some,
  Text, text, to_string, All, All-append, All-set, length-range_from, range_from-below, set,
  get_elem?-lt, All-get_elem?, length, length-set, length-append, length-replicate, range_from,
  replicate, ltb, ◌>>=◌, arith, Bool-cases,
}
use velox_dfs.Messages.{BlockInfo, LogicalBlock, FileDescription, empty_logical_block}
use velox_dfs.Histogram.{Histogram}
use velox_dfs.Histogram.Random.{IsRising, random_total}
use velox_dfs.Scheduler.{index_of, left_of, right_of, at_host}
use velox_dfs.Scheduler.Replicas.{neighbours-below}
use velox_dfs.Scheduler.Base.Placement.{IsWellFormed, chunk_at_total}
use velox_dfs.Scheduler.Multiwave.{
  replica_slots, least_slot, min_slot, fill_slots, slot_blocks, size_of_chunks, slot_lblocks,
  assign_chunks_to_slots,
}

least_slot_lem :
    (dist : List (List ℕ)) (ids : List ℕ) (best least : ℕ)
    → best < length dist
    → All (λ id. id < length dist) ids
    → (id : ℕ) × (least_slot dist ids best least ≡ some id) × (id < length dist)
unfolding least_slot
least_slot_lem dist [] best least h all = (best, refl, h)
least_slot_lem dist (id ∷ ids) best least h all =
    let (row, at) = get_elem?-lt dist id all.0 in
    elim (Bool-cases (ltb (length row) least)) [
      | inl lower ↦
          let (k, e, below) = least_slot_lem dist ids id (length row) all.0 all.1 in
          (k, rw (at, ◌>>=◌, lower) e, below)
      | inr upper ↦
          let (k, e, below) = least_slot_lem dist ids best least h all.1 in
          (k, rw (at, ◌>>=◌, upper) e, below)
    ]

min_slot_lem :
    (dist : List (List ℕ)) (ids : List ℕ)
    → 0 < length ids
    → All (λ id. id < length dist) ids
    → (id : ℕ) × (min_slot dist ids ≡ some id) × (id < length dist)
unfolding min_slot
min_slot_lem dist [] some_id all = absurd (omega arith)
min_slot_lem dist (id ∷ ids) some_id all =
    let (row, at) = get_elem?-lt dist id all.0 in
    let (k, e, below) = least_slot_lem dist ids id (length row) all.0 all.1 in
    (k, rw (at, ◌>>=◌) e, below)

-- The slots of a node are below the number of all slots.
node_slots : (k slots n : ℕ) → k < n → k * slots + slots ≤ slots * n
node_slots k slots n h = grind arith

-- The block is that of a chunk before number `bound`.
abbrev pub IsEarly : ℕ → BlockInfo → Type 0
IsEarly bound b = (k : ℕ) × (b.seq ≡ some k) × (k < bound)

abbrev pub AllEarly : ℕ → List LogicalBlock → Type 0
AllEarly bound lblocks = All (λ (l : LogicalBlock). All (IsEarly bound) l.physical_blocks) lblocks

module _ (slots : ℕ) (hist : Histogram) (draws : ℕ → ℕ) (fd : FileDescription) (nodes : List Text)
    (bound : ℕ) (some_slots : 0 < slots) (well : IsWellFormed fd nodes)
    (few : length nodes < 4294967296) (rising : IsRising 0 hist.boundaries)
    (servers : length hist.boundaries ≡ length nodes) (inside : bound ≤ length fd.blocks) where
  abbrev IsSpread : List (List ℕ) → Type 0
  IsSpread dist = (length dist ≡ slots * length nodes) × All (All (λ k. k < bound)) dist

  below_all :
      (k m : ℕ)
      → k < length nodes
      → slots * length nodes ≡ m
      → All (λ id. id < m) (range_from (k * slots) slots)
  below_all k m h e =
      range_from-below (k * slots) slots m (omega (arith, node_slots k slots (length nodes) h))

  fill_slots_lem :
      (count i : ℕ) (dist : List (List ℕ))
      → i + count ≤ bound
      → IsSpread dist
      → (dist' : List (List ℕ)) × (fill_slots slots fd nodes i count dist ≡ some dist')
        × IsSpread dist'
  unfolding fill_slots replica_slots
  fill_slots_lem zero i dist h s = (dist, refl, s)
  fill_slots_lem (suc count) i dist h s =
      let (host, at_host) =
        get_elem?-lt fd.block_hosts i (omega (arith, well.block_hosts_length)) in
      let which = index_of host nodes in
      let own = well.hosts_known i host at_host in
      let (left, right) = neighbours-below nodes host own few in
      let m = length dist in
      let ids =
        range_from (left_of (length nodes) which * slots) slots
        ++ (range_from (which * slots) slots
            ++ range_from (right_of (length nodes) which * slots) slots) in
      let size = sym s.0 in
      let all : All (λ id. id < m) ids =
        All-append (λ id. id < m) _ _ (below_all _ m left size)
          (All-append (λ id. id < m) _ _ (below_all _ m own size) (below_all _ m right size)) in
      let some_id : 0 < length ids = omega (
        arith,
        length-append (range_from (left_of (length nodes) which * slots) slots) (
            range_from (which * slots) slots
            ++ range_from (right_of (length nodes) which * slots) slots),
        length-range_from (left_of (length nodes) which * slots) slots,
      ) in
      let (id, chosen, below) = min_slot_lem dist ids some_id all in
      let (row, at_row) = get_elem?-lt dist id below in
      let early = All-get_elem? (All (λ k. k < bound)) dist id row s.1 at_row in
      let row' = row ++ (i ∷ []) in
      let (dist', e, s') = fill_slots_lem count (i + 1) (set dist id row') (omega arith) (
        length-set dist id row' ∙ s.0,
        All-set (All (λ k. k < bound)) dist id row' s.1
            (All-append (λ k. k < bound) row (i ∷ []) early (omega arith, tt)),
      ) in
      (dist', rw (at_host, ◌>>=◌, chosen, at_row) e, s')

  slot_blocks_lem :
      (host : Text) (is : List ℕ)
      → All (λ k. k < bound) is
      → (blocks : List BlockInfo) × (slot_blocks fd host is ≡ some blocks)
        × All (IsEarly bound) blocks
  unfolding slot_blocks
  slot_blocks_lem host [] all = ([], refl, tt)
  slot_blocks_lem host (i ∷ is) all =
      let (block, at, sized, numbered) = chunk_at_total fd nodes i well (omega (arith, all.0)) in
      let (blocks, e, early) = slot_blocks_lem host is all.1 in
      (at_host host block ∷ blocks, rw (at, ◌>>=◌, e) refl, ((i, numbered, all.0), early))

  slot_lblocks_lem :
      (core_id seq : ℕ) (dist : List (List ℕ))
      → core_id + length dist ≤ slots * length nodes
      → All (All (λ k. k < bound)) dist
      → (new : List LogicalBlock) × (slot_lblocks slots hist draws fd nodes core_id seq dist
          ≡ some new)
        × AllEarly bound new
  unfolding slot_lblocks
  slot_lblocks_lem core_id seq [] h all = ([], refl, tt)
  slot_lblocks_lem core_id seq (row ∷ dist) h all =
      let node = core_id / slots in
      let below : node < length nodes = grind arith in
      let (host, at) = get_elem?-lt nodes node below in
      let (key, drawn) = random_total hist (draws seq) node rising (omega arith) in
      let (blocks, e, early) = slot_blocks_lem host row all.0 in
      let (new, e', early') = slot_lblocks_lem (core_id + 1) (seq + 1) dist (omega arith) all.1 in
      (
        record empty_logical_block {
          name = text "logical_" ++ (fd.name ++ (text "_" ++ to_string seq));
          file_name = fd.name;
          seq = seq;
          hash_key = key;
          host_name = host;
          size = size_of_chunks blocks;
          physical_blocks = blocks;
        }
            ∷ new,
        rw (at, ◌>>=◌, drawn, e, e') refl,
        (early, early'),
      )

  pub assign_lem :
      (count : ℕ)
      → count ≤ bound
      → AllEarly bound fd.logical_blocks
      → (fd' : FileDescription) × (assign_chunks_to_slots slots hist draws nodes count fd
          ≡ some fd')
        × AllEarly bound fd'.logical_blocks
        × IsWellFormed fd' nodes
        × (fd'.blocks ≡ fd.blocks)
  unfolding assign_chunks_to_slots
  assign_lem count h before =
      let empty : List (List ℕ) = replicate (slots * length nodes) [] in
      let size : length empty ≡ slots * length nodes = length-replicate (slots * length nodes) [] in
      let (dist, filled, spread) =
        fill_slots_lem count 0 empty (omega arith) (size, empty_rows (slots * length nodes)) in
      let (new, made, early) =
        slot_lblocks_lem 0 fd.n_lblock dist (omega (arith, spread.0)) spread.1 in
      (
        record fd {
          logical_blocks = fd.logical_blocks ++ new;
          info = record (fd.info) { n_lblock = fd.n_lblock + slots * length nodes };
        },
        rw (filled, ◌>>=◌, made) refl,
        All-append (λ (l : LogicalBlock). All (IsEarly bound) l.physical_blocks) fd.logical_blocks
            new before early,
        record {
          primary_files_length = well.primary_files_length;
          hash_keys_length = well.hash_keys_length;
          block_size_length = well.block_size_length;
          offsets_length = well.offsets_length;
          offsets_in_file_length = well.offsets_in_file_length;
          primary_sequences_length = well.primary_sequences_length;
          block_hosts_length = well.block_hosts_length;
          hosts_known = well.hosts_known;
        },
        refl,
      )
    where
      empty_rows : (m : ℕ) → All (All (λ k. k < bound)) (replicate m [])
      empty_rows zero = tt
      empty_rows (suc m) = (tt, empty_rows m)
