-- ===== src/Scheduler/Multiwave/Waves.antt =====
-- What the waves of scheduler_multiwave.cc leave out.
use velox_dfs.Base.{
  ℕ, zero, suc, ◌+◌, ◌-◌, ◌*◌, ◌/◌, ◌≤◌, ◌<◌, ◌≡◌, inl, inr, refl, ap, sym, ◌∙◌, subst, Bool, true,
  false, List, [], ◌++◌, some, Text, length-range_from, take, drop, length, length-append,
  length-take, length-drop, range_from, ltb, if◌then◌else◌, ◌>>=◌, arith, Bool-cases,
}
use velox_dfs.Messages.{FileDescription}
use velox_dfs.Histogram.{Histogram}
use velox_dfs.Histogram.Random.{IsRising}
use velox_dfs.Scheduler.Base.Placement.{IsWellFormed}
use velox_dfs.Scheduler.Multiwave.{split_blocks, schedule, generate}
use velox_dfs.Scheduler.Multiwave.Spread.{AllEarly, assign_lem}

split_blocks_lem :
    (chunks : List ℕ)
    → 0 < length chunks
    → (first : List ℕ) × (second : List ℕ) × (split_blocks chunks ≡ some (first, second))
      × (length first + length second + 1 ≡ length chunks)
unfolding split_blocks
split_blocks_lem chunks h =
    let n = length chunks in
    let there : ltb n (n / 2 + 1) ≡ false = ground arith in
    (
      take (n / 2) chunks,
      drop (n / 2 + 1) chunks,
      rw there refl,
      omega (arith, length-take (n / 2) chunks, length-drop (n / 2 + 1) chunks),
    )

module _ (slots : ℕ) (hist : Histogram) (draws : ℕ → ℕ) (nodes : List Text) (bound : ℕ)
    (some_slots : 0 < slots) (some_nodes : 0 < length nodes) (few : length nodes < 4294967296)
    (rising : IsRising 0 hist.boundaries) (servers : length hist.boundaries ≡ length nodes) where
  -- Without the chunk in the middle there is always one chunk less.
  schedule_lem :
      (fuel : ℕ) (chunks : List ℕ) (fd : FileDescription)
      → length chunks < fuel
      → length chunks ≤ bound + 1
      → bound ≤ length fd.blocks
      → IsWellFormed fd nodes
      → AllEarly bound fd.logical_blocks
      → (is_done : Bool) × (fd' : FileDescription) × (schedule fuel slots hist draws nodes chunks fd
          ≡ some (is_done, fd'))
        × AllEarly bound fd'.logical_blocks
        × IsWellFormed fd' nodes
        × (fd'.blocks ≡ fd.blocks)
  unfolding schedule
  schedule_lem zero chunks fd h wave inside well early = absurd (omega arith)
  schedule_lem (suc fuel) chunks fd h wave inside well early =
      elim (Bool-cases (ltb (length chunks) (slots * length nodes))) [
        | inl small ↦ (false, fd, rw small refl, early, well, refl)
        | inr large ↦
            let some_chunk : 0 < length chunks = grind arith in
            let (first, second, split, sum_up) = split_blocks_lem chunks some_chunk in
            let (is_done, fd', e, early', well', same) =
              schedule_lem fuel second fd (omega arith) (omega arith) inside well early in
            let first' = if is_done then first else first ++ second in
            let shorter : length first' ≤ bound = wave_length is_done first second sum_up in
            let still : bound ≤ length fd'.blocks = omega (arith, ap (λ xs. length xs) same) in
            let (fd'', e', early'', well'', same') =
              assign_lem slots hist draws fd' nodes bound some_slots well' few rising servers still
                (length first') shorter early' in
            (true, fd'', rw (large, split, ◌>>=◌, e, e') refl, early'', well'', same' ∙ same)
      ]
    where
      wave_length :
          (is_done : Bool) (first second : List ℕ)
          → length first + length second + 1 ≡ length chunks
          → length (if is_done then first else first ++ second) ≤ bound
      wave_length true first second e = omega arith
      wave_length false first second e = omega (arith, length-append first second)

-- The bug: for a well-formed description of one chunk or more, without logical blocks, with one slot or
-- more for each node, nodes from one on, fewer than 2^32, and strictly rising boundaries, one for each
-- node, the scheduler goes through, and no logical block lists the last chunk of the file.
pub multiwave-last_chunk :
    (slots : ℕ) (hist : Histogram) (draws : ℕ → ℕ) (fd : FileDescription) (nodes : List Text)
    → IsWellFormed fd nodes
    → fd.logical_blocks ≡ []
    → 0 < length fd.blocks
    → 0 < slots
    → 0 < length nodes
    → length nodes < 4294967296
    → IsRising 0 hist.boundaries
    → length hist.boundaries ≡ length nodes
    → (fd' : FileDescription) × (generate slots hist draws fd nodes ≡ some fd')
      × AllEarly (length fd.blocks - 1) fd'.logical_blocks
unfolding generate
multiwave-last_chunk slots hist draws fd nodes well none_yet some_chunk some_slots some_nodes few
      rising servers =
    let n = length fd.blocks in
    let fresh : FileDescription = record fd { info = record (fd.info) { n_lblock = 0 } } in
    let well' : IsWellFormed fresh nodes = record {
      primary_files_length = well.primary_files_length;
      hash_keys_length = well.hash_keys_length;
      block_size_length = well.block_size_length;
      offsets_length = well.offsets_length;
      offsets_in_file_length = well.offsets_in_file_length;
      primary_sequences_length = well.primary_sequences_length;
      block_hosts_length = well.block_hosts_length;
      hosts_known = well.hosts_known;
    } in
    let early : AllEarly (n - 1) fresh.logical_blocks =
      subst (AllEarly (n - 1)) (sym none_yet) tt in
    let size = length-range_from 0 n in
    let (is_done, fd', e, early', well'', same) =
      schedule_lem slots hist draws nodes (n - 1) some_slots some_nodes few rising servers (n + 1)
        (range_from 0 n) fresh (omega arith) (omega arith) (omega arith) well' early in
    (fd', rw (e, ◌>>=◌) refl, early')
