-- ===== src/Scheduler/Lean/Conserve.antt =====
-- `scheduler_lean::generate` lists each chunk as often as it means to.
use velox_dfs.Base.{
  ℕ, zero, suc, ◌+◌, ◌*◌, ◌≤◌, ◌<◌, min, ◌≡◌, refl, ap, List, [], ◌∷◌, ◌++◌, some, Text, text,
  to_string, All, concat, length, length-replicate, replicate, ◌>>=◌, arith,
}
use velox_dfs.Messages.{LogicalBlock, FileDescription, empty_logical_block}
use velox_dfs.Histogram.{Histogram}
use velox_dfs.Histogram.Random.{IsRising, random_total}
use velox_dfs.Scheduler.{new_logical_block}
use velox_dfs.Scheduler.Base.Placement.{IsWellFormed}
use velox_dfs.Scheduler.Steal.{Progress, Slots, int_max, init_node, init_slots}
use velox_dfs.Scheduler.Lean.{generate}
use velox_dfs.Scheduler.Lean.Placing.{
  listed, held, IsFitted, listed-concat, copies_lem, assign_chunks_lem,
}

-- Fresh blocks list nothing.
init_node_lem :
    (hist : Histogram) (draws : ℕ → ℕ) (file_name : Text) (i : ℕ) (node : Text) (counter left : ℕ)
    → IsRising 0 hist.boundaries
    → i < length hist.boundaries
    → (row : List LogicalBlock) × (init_node hist draws file_name i node counter left ≡ some row)
      × (length row ≡ left)
      × (listed row ≡ 0)
unfolding init_node new_logical_block
init_node_lem hist draws file_name i node counter zero rising inside = ([], refl, refl, refl)
init_node_lem hist draws file_name i node counter (suc left) rising inside =
    let (key, e) = random_total hist (draws counter) i rising inside in
    let (row, made, long, none_listed) =
      init_node_lem hist draws file_name i node (counter + 1) left rising inside in
    (
      record empty_logical_block {
        seq = counter;
        name = text "logical_" ++ (file_name ++ (text "_" ++ to_string counter));
        file_name = file_name;
        hash_key = key;
        host_name = node;
      }
          ∷ row,
      rw (e, ◌>>=◌, made) refl,
      ap suc long,
      omega (arith, none_listed),
    )

init_slots_lem :
    (hist : Histogram) (draws : ℕ → ℕ) (file_name : Text) (slots i counter : ℕ) (nodes : List Text)
    → IsRising 0 hist.boundaries
    → i + length nodes ≤ length hist.boundaries
    → (dist : Slots) × (init_slots hist draws file_name slots i counter nodes ≡ some dist)
      × (length dist ≡ length nodes)
      × All (λ (row : List LogicalBlock). length row ≡ slots) dist
      × (held dist ≡ 0)
unfolding init_slots
init_slots_lem hist draws file_name slots i counter [] rising inside = ([], refl, refl, tt, refl)
init_slots_lem hist draws file_name slots i counter (node ∷ nodes) rising inside =
    let (row, e, long, nothing) =
      init_node_lem hist draws file_name i node counter slots rising (omega arith) in
    let (dist, e', long', wide, nothing') =
      init_slots_lem hist draws file_name slots (i + 1) (counter + slots) nodes rising
        (omega arith) in
    (
      row ∷ dist,
      rw (e, ◌>>=◌, e') refl,
      ap suc long',
      (long, wide),
      omega (arith, nothing, nothing'),
    )

zeros-All : (n : ℕ) → All (λ c. c ≤ 0) (replicate n 0)
zeros-All zero = tt
zeros-All (suc n) = (omega arith, zeros-All n)

-- For a well-formed description with one core or more, fewer than 2^32 nodes, at most INT_MAX / 3 chunks
-- and strictly rising boundaries, one for each node, the scheduler goes through, and appends blocks
-- that together list as many chunks as there are before the cut, and three times as many as there are
-- behind it.
pub lean_conserves :
    (cores : ℕ) (cut : ℕ → ℕ) (hist : Histogram) (draws : ℕ → ℕ) (fd : FileDescription)
    (nodes : List Text)
    → IsWellFormed fd nodes
    → 0 < cores
    → length nodes < 4294967296
    → 3 * length fd.blocks ≤ int_max
    → IsRising 0 hist.boundaries
    → length hist.boundaries ≡ length nodes
    → (new : List LogicalBlock) × (fd' : FileDescription) × (generate cores cut hist draws fd nodes
        ≡ some fd')
      × (fd'.logical_blocks ≡ fd.logical_blocks ++ new)
      × (listed new + 2 * min (cut (length fd.blocks)) (length fd.blocks) ≡ 3 * length fd.blocks)
unfolding generate
lean_conserves cores cut hist draws fd nodes well some_cores few small rising servers =
    let n = length fd.blocks in
    let (dist, made, rows, wide, nothing) =
      init_slots_lem hist draws fd.name cores 0 0 nodes rising (omega arith) in
    let start : Progress = record { counters = replicate (length nodes) 0; dist = dist } in
    let fitted : IsFitted (length nodes) cores 0 start = record {
      counted = length-replicate (length nodes) _;
      rows = rows;
      wide = wide;
      small = zeros-All (length nodes);
      total = nothing;
    } in
    let (p, assigned, f) =
      assign_chunks_lem fd nodes cores (cut n) some_cores well few n 0 0 start (omega arith)
        (omega arith) fitted in
    (
      concat p.dist,
      record fd {
        num_static_blocks = cut n;
        logical_blocks = fd.logical_blocks ++ concat p.dist;
        info = record (fd.info) { n_lblock = length (fd.logical_blocks ++ concat p.dist) };
      },
      rw (made, ◌>>=◌, assigned) refl,
      refl,
      omega (arith, listed-concat p.dist, f.total, copies_lem (cut n) 0 n),
    )
