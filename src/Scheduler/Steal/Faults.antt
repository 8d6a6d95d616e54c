-- ===== src/Scheduler/Steal/Faults.antt =====
-- Where scheduler_steal.cc divides by zero.
use velox_dfs.Base.{
  ℕ, zero, suc, ◌/◌, ◌<◌, ◌≡◌, List, none, some, Text, length, range_from, ◌>>=◌, arith,
  Option-cases, inl, inr,
}
use native.Mathlib.Nat.{div-eq_of_lt}
use velox_dfs.Messages.{FileDescription}
use velox_dfs.Histogram.{Histogram}
use velox_dfs.Scheduler.Steal.{
  generate, slots_for, init_slots, assign_chunk, assign_chunks, Progress,
}

assign_chunk-no_slots :
    (fd : FileDescription) (nodes : List Text) (p : Progress) (i : ℕ)
    → assign_chunk fd nodes 0 p i ≡ none
unfolding assign_chunk
assign_chunk-no_slots fd nodes p i = ground arith

assign_chunks-no_slots :
    (fd : FileDescription) (nodes : List Text) (p : Progress) (i n : ℕ)
    → 0 < n
    → assign_chunks fd nodes 0 p (range_from i n) ≡ none
unfolding assign_chunks
assign_chunks-no_slots fd nodes p i zero h = absurd (omega arith)
assign_chunks-no_slots fd nodes p i (suc n) h = rw (assign_chunk-no_slots fd nodes p i, ◌>>=◌)

slots_for-few : (chunks cores n : ℕ) → chunks < n → slots_for chunks cores n ≡ some 0
unfolding slots_for
slots_for-few chunks cores n h =
    let none_each : chunks / n ≡ 0 = div-eq_of_lt h in rw none_each (ground arith)

-- A file of fewer chunks than nodes, but not empty: the scheduler gives each node no block, and the
-- first chunk that it places (or an earlier fault) ends the run. It returns for no such file.
pub generate-too_few_chunks :
    (cores : ℕ) (hist : Histogram) (draws : ℕ → ℕ) (fd : FileDescription) (nodes : List Text)
    → 0 < length fd.blocks
    → length fd.blocks < length nodes
    → generate cores hist draws fd nodes ≡ none
unfolding generate
generate-too_few_chunks cores hist draws fd nodes h f =
    let few = slots_for-few (length fd.blocks) cores (length nodes) f in
    elim (Option-cases (init_slots hist draws fd.name 0 0 0 nodes)) [
      | inl e ↦ rw (few, ◌>>=◌, e)
      | inr (dist, e) ↦ rw (few, ◌>>=◌, e, assign_chunks-no_slots fd nodes _ 0 (length fd.blocks) h)
    ]
