-- ===== src/Scheduler/Tests.antt =====
-- Runs of the schedulers on three nodes and two chunks.
use velox_dfs.Base.{
  ℕ, zero, suc, ◌+◌, ◌*◌, ◌<◌, ◌≡◌, ◌-◌, refl, ap, min, List, [], ◌∷◌, ◌++◌, none, some, Text, text,
  arith, get_elem?, get_or, length, false, range_from, drop, sum, map, All,
}
use velox_dfs.Messages.{FileInfo, FileDescription, LogicalBlock}
use velox_dfs.Histogram.{Histogram}
use velox_dfs.Histogram.Random.{IsRising}
use velox_dfs.Scheduler.{index_of}
use velox_dfs.Scheduler.Replicas.{AllDistinct}
use velox_dfs.Scheduler.Base.{generate}
use velox_dfs.Scheduler.Base.Route.{Routed, route}
use velox_dfs.Scheduler.Base.Placement.{IsWellFormed}
use velox_dfs.Scheduler.Base.Generate.{IsScheduled, generate_lem}
use velox_dfs.Scheduler.Base.Conserve.{generate_conserves}
use velox_dfs.Scheduler.Steal
use velox_dfs.Scheduler.Simple
use velox_dfs.Scheduler.Simple.{hosts_of}
use velox_dfs.Scheduler.Simple.Conserve.{IsEven, simple_conserves}
use velox_dfs.Scheduler.Lean
use velox_dfs.Scheduler.Lean.Conserve.{lean_conserves}
use velox_dfs.Scheduler.Lean.Placing.{listed}
use velox_dfs.Scheduler.Multiwave
use velox_dfs.Scheduler.Multiwave.Spread.{AllEarly}
use velox_dfs.Scheduler.Multiwave.Waves.{multiwave-last_chunk}
use velox_dfs.Scheduler.Steal.{find_candidate, int_max}
use velox_dfs.Scheduler.Steal.Faults.{generate-too_few_chunks}

abbrev nodes : List Text
nodes = text "a" ∷ text "b" ∷ text "c" ∷ []

abbrev hist : Histogram
hist = record { numserver = 3; boundaries = 10 ∷ 20 ∷ 30 ∷ [] }

abbrev draws : ℕ → ℕ
draws i = 5

abbrev info : FileInfo
info = record {
  name = text "f";
  hash_key = 15;
  size = 30;
  num_block = 2;
  num_primary_file = 3;
  n_lblock = 0;
  type = 0;
  replica = 3;
  reducer_output = false;
  job_id = 0;
  uploading = 0;
  is_input = false;
  intended_block_size = 0;
  blocks_metadata = [];
}

abbrev fd : FileDescription
fd = record {
  info = info;
  primary_files = text "f_0" ∷ text "f_1" ∷ [];
  blocks = text "f_0_0" ∷ text "f_1_0" ∷ [];
  hash_keys = 5 ∷ 15 ∷ [];
  block_size = 10 ∷ 20 ∷ [];
  offsets = 0 ∷ 0 ∷ [];
  offsets_in_file = 0 ∷ 10 ∷ [];
  chunk_sequences = 0 ∷ 1 ∷ [];
  primary_sequences = 0 ∷ 0 ∷ [];
  block_hosts = text "b" ∷ text "a" ∷ [];
  logical_blocks = [];
  num_static_blocks = 0;
}

hosts_known :
    (i : ℕ) (host : Text) → get_elem? fd.block_hosts i ≡ some host → index_of host nodes < 3
unfolding index_of
hosts_known zero host e = let same : host ≡ text "b" = cc in rw same (omega arith)
hosts_known (suc zero) host e = let same : host ≡ text "a" = cc in rw same (omega arith)
hosts_known (suc (suc i)) host e = absurd (cc)

well : IsWellFormed fd nodes
well = record {
  primary_files_length = refl;
  hash_keys_length = refl;
  block_size_length = refl;
  offsets_length = refl;
  offsets_in_file_length = refl;
  primary_sequences_length = refl;
  block_hosts_length = refl;
  hosts_known = hosts_known;
}

distinct : AllDistinct nodes
distinct = (
  (λ e. omega (arith, first e), (λ e. omega (arith, first e), tt)),
  ((λ e. omega (arith, first e), tt), (tt, tt)),
)
  where
    first : {s t : Text} → s ≡ t → get_or s 0 0 ≡ get_or t 0 0
    first e = ap (λ t. get_or t 0 0) e

rising : IsRising 0 hist.boundaries
rising = (omega arith, omega arith, (omega arith, omega arith, (omega arith, omega arith, tt)))

generate_lem_example :
    (r : List Routed) × (fd' : FileDescription) × (route fd nodes (range_from 0 2) ≡ some r)
    × (generate hist draws fd nodes ≡ some fd')
    × (length fd'.logical_blocks ≡ 3)
    × ((k : ℕ)
        → k < 3
        → (l : LogicalBlock) × (get_elem? fd'.logical_blocks (0 + k) ≡ some l)
          × IsScheduled nodes r k l)
generate_lem_example =
    generate_lem hist draws fd nodes well distinct (omega arith) (omega arith) rising refl

generate_conserves_example :
    (fd' : FileDescription) × (generate hist draws fd nodes ≡ some fd')
    × (sum (map (λ l. l.primary_chunk_num) (drop 0 fd'.logical_blocks)) ≡ 2)
    × (sum (map (λ l. l.size) (drop 0 fd'.logical_blocks)) ≡ 30)
generate_conserves_example =
    generate_conserves hist draws fd nodes well distinct (omega arith) (omega arith) rising refl

generate-too_few_chunks_example : Steal.generate 4 hist draws fd nodes ≡ none
generate-too_few_chunks_example =
    generate-too_few_chunks 4 hist draws fd nodes (omega arith) (omega arith)

even : IsEven fd
even = record { blocks_length = refl; hash_keys_length = refl; block_size_length = refl }

known : All (λ host. index_of host nodes < 3) (hosts_of fd.block_hosts)
unfolding index_of
known = (omega arith, (omega arith, tt))

simple_conserves_example :
    (fd' : FileDescription) × (Simple.generate hist draws fd nodes ≡ some fd')
    × (map (λ l. l.host_name) (drop 0 fd'.logical_blocks) ≡ text "a" ∷ text "b" ∷ [])
    × (sum (map (λ l. l.size) (drop 0 fd'.logical_blocks)) ≡ 30)
simple_conserves_example = simple_conserves hist draws fd nodes even rising known

-- The first chunk goes to one node, the second to all three.
lean_conserves_example :
    (new : List LogicalBlock) × (fd' : FileDescription) × (Lean.generate 2
        (λ n. n - 1)
        hist
        draws
        fd
        nodes
      ≡ some fd')
    × (fd'.logical_blocks ≡ fd.logical_blocks ++ new)
    × (listed new + 2 * min 1 2 ≡ 3 * 2)
lean_conserves_example =
    lean_conserves 2 (λ n. n - 1) hist draws fd nodes well (omega arith) (omega arith) (omega arith)
      rising refl

-- Two nodes with one slot each.
abbrev two_nodes : List Text
two_nodes = text "a" ∷ text "b" ∷ []

abbrev two_hist : Histogram
two_hist = record { numserver = 2; boundaries = 10 ∷ 20 ∷ [] }

two_known :
    (i : ℕ) (host : Text) → get_elem? fd.block_hosts i ≡ some host → index_of host two_nodes < 2
unfolding index_of
two_known zero host e = let same : host ≡ text "b" = cc in rw same (omega arith)
two_known (suc zero) host e = let same : host ≡ text "a" = cc in rw same (omega arith)
two_known (suc (suc i)) host e = absurd (cc)

two_well : IsWellFormed fd two_nodes
two_well = record {
  primary_files_length = refl;
  hash_keys_length = refl;
  block_size_length = refl;
  offsets_length = refl;
  offsets_in_file_length = refl;
  primary_sequences_length = refl;
  block_hosts_length = refl;
  hosts_known = two_known;
}

multiwave-last_chunk_example :
    (fd' : FileDescription) × (Multiwave.generate 1 two_hist draws fd two_nodes ≡ some fd')
    × AllEarly 1 fd'.logical_blocks
multiwave-last_chunk_example =
    multiwave-last_chunk 1 two_hist draws fd two_nodes two_well refl (omega arith) (omega arith)
      (omega arith) (omega arith) (omega arith, omega arith, (omega arith, omega arith, tt)) refl
