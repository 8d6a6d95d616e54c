-- ===== src/Scheduler/Lean/Placing.antt =====
-- What one chunk after another changes in the blocks of scheduler_lean.cc.
use velox_dfs.Base.{
  ℕ, zero, suc, ◌+◌, ◌-◌, ◌*◌, ◌%◌, ◌≤◌, ◌<◌, min, ◌≡◌, inl, inr, refl, ap, sym, ◌∙◌, subst, false,
  List, [], ◌∷◌, map, some, Text, All, All-set, concat, sum, sum-map-set, sum-append, set,
  get_elem?-lt, All-get_elem?, length, length-set, length-append, range_from, ltb, ◌==◌,
  if◌then◌else◌, ◌>>=◌, arith, Bool-cases,
}
use mathlib.Core.List.{map-append}
use velox_dfs.Messages.{BlockInfo, LogicalBlock, FileDescription}
use velox_dfs.Scheduler.{
  index_of, left_of, right_of, get_replicas_id_left_first, add_primary, at_host,
}
use velox_dfs.Scheduler.Replicas.{left_first-below}
use velox_dfs.Scheduler.Base.Placement.{IsWellFormed, chunk_at_total}
use velox_dfs.Scheduler.Steal.{Progress, Slots, int_max, remainder}
use velox_dfs.Scheduler.Steal.Candidate.{OneOf, find_candidate-least}
use velox_dfs.Scheduler.Lean.{
  add_block, assign_at, assign_all, assign_least, assign_chunk, assign_chunks,
}

-- How many chunks the blocks list, one by one.
abbrev pub listed : List LogicalBlock → ℕ
listed lblocks = sum (map (λ l. length l.physical_blocks) lblocks)

abbrev pub held : Slots → ℕ
held dist = sum (map listed dist)

pub listed-concat : (dist : Slots) → listed (concat dist) ≡ held dist
listed-concat [] = refl
listed-concat (row ∷ dist) =
    let one = λ (l : LogicalBlock). length l.physical_blocks in
    ap sum (map-append one row (concat dist))
    ∙ sum-append (map one row) (map one (concat dist))
    ∙ ap (λ x. listed row + x) (listed-concat dist)

-- Each node has as many blocks as there are slots, and no count is more than the chunks placed.
pub record IsFitted (n slots placed : ℕ) (p : Progress) : Type 0 where
  pub counted : length p.counters ≡ n
  pub rows : length p.dist ≡ n
  pub wide : All (λ (row : List LogicalBlock). length row ≡ slots) p.dist
  pub small : All (λ c. c ≤ placed) p.counters
  pub total : held p.dist ≡ placed

weaken : (a b : ℕ) (cs : List ℕ) → a ≤ b → All (λ c. c ≤ a) cs → All (λ c. c ≤ b) cs
weaken a b [] h all = tt
weaken a b (c ∷ cs) h all = (omega arith, weaken a b cs h all.1)

remainder_lem : (x slots : ℕ) → 0 < slots → remainder x slots ≡ some (x % slots)
unfolding remainder
remainder_lem x slots h = let some_slots : (slots == 0) ≡ false = ground arith in rw some_slots refl

OneOf-All : (P : ℕ → Type 0) (u : ℕ) (ids : List ℕ) → OneOf u ids → All P ids → P u
OneOf-All P u [] h all = absurd h
OneOf-All P u (x ∷ xs) (inl e) all = subst P (sym e) all.0
OneOf-All P u (x ∷ xs) (inr h) all = OneOf-All P u xs h all.1

below_max :
    (placed : ℕ) (cs : List ℕ)
    → placed < int_max
    → All (λ c. c ≤ placed) cs
    → All (λ c. c < int_max) cs
below_max placed [] h all = tt
below_max placed (c ∷ cs) h all = (omega arith, below_max placed cs h all.1)

-- How many times chunk i and the n - 1 after it are listed.
pub copies : ℕ → ℕ → ℕ → ℕ
copies cut i zero = 0
copies cut i (suc n) = (if ltb i cut then 1 else 3) + copies cut (i + 1) n

pub copies_lem : (cut i n : ℕ) → copies cut i n + 2 * min (cut - i) n ≡ 3 * n
unfolding copies
copies_lem cut i zero = omega arith
copies_lem cut i (suc n) = ground (arith, copies_lem cut (i + 1) n)

module _ (n slots : ℕ) (some_slots : 0 < slots) where
  assign_at_lem :
      (add : LogicalBlock → BlockInfo → LogicalBlock) (placed : ℕ) (block : BlockInfo)
      (p : Progress) (id : ℕ)
      → ((l : LogicalBlock) → length ((add l block).physical_blocks) ≡ length l.physical_blocks + 1)
      → IsFitted n slots placed p
      → id < n
      → (p' : Progress) × (assign_at add slots block p id ≡ some p')
        × IsFitted n slots (placed + 1) p'
  unfolding assign_at
  assign_at_lem add placed block p id adds f below =
      let (count, at_count) = get_elem?-lt p.counters id (omega (arith, f.counted)) in
      let (row, at_row) = get_elem?-lt p.dist id (omega (arith, f.rows)) in
      let size : length row ≡ slots =
        All-get_elem? (λ (r : List LogicalBlock). length r ≡ slots) p.dist id row f.wide at_row in
      let (lblock, at_lblock) = get_elem?-lt row (count % slots) (omega arith) in
      let row' = set row (count % slots) (add lblock block) in
      let bounded : count ≤ placed =
        All-get_elem? (λ c. c ≤ placed) p.counters id count f.small at_count in
      let inner =
        sum-map-set (λ (l : LogicalBlock). length l.physical_blocks) row (count % slots) lblock
          (add lblock block) at_lblock in
      let outer = sum-map-set listed p.dist id row row' at_row in
      (
        record { counters = set p.counters id (count + 1); dist = set p.dist id row' },
        rw (at_count, ◌>>=◌, remainder_lem count slots some_slots, at_row, at_lblock) refl,
        record {
          counted = length-set p.counters id (count + 1) ∙ f.counted;
          rows = length-set p.dist id row' ∙ f.rows;
          wide =
              All-set (λ (r : List LogicalBlock). length r ≡ slots) p.dist id row' f.wide
                (length-set row (count % slots) (add lblock block) ∙ size);
          small =
              All-set (λ c. c ≤ placed + 1) p.counters id (count + 1)
                (weaken placed (placed + 1) p.counters (omega arith) f.small) (omega arith);
          total = omega (arith, inner, outer, adds lblock, f.total);
        },
      )

  assign_all_lem :
      (placed : ℕ) (block : BlockInfo) (p : Progress) (ids : List ℕ)
      → IsFitted n slots placed p
      → All (λ id. id < n) ids
      → (p' : Progress) × (assign_all slots block p ids ≡ some p')
        × IsFitted n slots (placed + length ids) p'
  unfolding assign_all add_block
  assign_all_lem placed block p [] f below =
      let same : placed + 0 ≡ placed = omega arith in
      (p, refl, subst (λ m. IsFitted n slots m p) (sym same) f)
  assign_all_lem placed block p (id ∷ ids) f below =
      let (p', e, f') =
        assign_at_lem add_block placed block p id
          (λ l. length-append l.physical_blocks (at_host l.host_name block ∷ [])) f below.0 in
      let (p'', e', f'') = assign_all_lem (placed + 1) block p' ids f' below.1 in
      let sum_up : placed + 1 + length ids ≡ placed + length (id ∷ ids) = omega arith in
      (p'', rw (e, ◌>>=◌) e', subst (λ m. IsFitted n slots m p'') sum_up f'')

  assign_least_lem :
      (placed : ℕ) (block : BlockInfo) (p : Progress) (id : ℕ) (ids : List ℕ)
      → placed < int_max
      → IsFitted n slots placed p
      → All (λ j. j < n) (id ∷ ids)
      → (p' : Progress) × (assign_least slots block p (id ∷ ids) ≡ some p')
        × IsFitted n slots (placed + 1) p'
  unfolding assign_least add_primary
  assign_least_lem placed block p id ids few f below =
      let inside : All (λ j. j < length p.counters) (id ∷ ids) =
        subst (λ m. All (λ j. j < m) (id ∷ ids)) (sym f.counted) below in
      let (u, count, chosen, at, least, from) =
        find_candidate-least p.counters id ids inside (below_max placed p.counters few f.small) in
      let (p', e, f') =
        assign_at_lem add_primary placed block p u
          (λ l. length-append l.physical_blocks (at_host l.host_name block ∷ [])) f
          (OneOf-All (λ j. j < n) u (id ∷ ids) from below) in
      (p', rw (chosen, ◌>>=◌) e, f')

module _ (fd : FileDescription) (nodes : List Text) (slots cut : ℕ) (some_slots : 0 < slots)
    (well : IsWellFormed fd nodes) (few : length nodes < 4294967296) where
  assign_chunk_lem :
      (placed i : ℕ) (p : Progress)
      → placed < int_max
      → i < length fd.blocks
      → IsFitted (length nodes) slots placed p
      → (p' : Progress) × (assign_chunk fd nodes slots cut p i ≡ some p')
        × IsFitted (length nodes) slots (placed + (if ltb i cut then 1 else 3)) p'
  unfolding assign_chunk get_replicas_id_left_first
  assign_chunk_lem placed i p small inside f =
      let (host, at_host) =
        get_elem?-lt fd.block_hosts i (omega (arith, well.block_hosts_length)) in
      let (block, at_block, sized, numbered) = chunk_at_total fd nodes i well inside in
      let size = length nodes in
      let which = index_of host nodes in
      let ids = left_of size which ∷ which ∷ right_of size which ∷ [] in
      let below = left_first-below nodes host (well.hosts_known i host at_host) few in
      elim (Bool-cases (ltb i cut)) [
        | inl early ↦
            let (p', e, f') =
              assign_least_lem (length nodes) slots some_slots placed block p (left_of size which)
                (which ∷ right_of size which ∷ []) small f below in
            (p', rw (at_host, ◌>>=◌, at_block, early) e, rw early f')
        | inr late ↦
            let (p', e, f') =
              assign_all_lem (length nodes) slots some_slots placed block p ids f below in
            (p', rw (at_host, ◌>>=◌, at_block, late) e, rw late f')
      ]

  pub assign_chunks_lem :
      (count placed i : ℕ) (p : Progress)
      → placed + 3 * count ≤ int_max
      → i + count ≤ length fd.blocks
      → IsFitted (length nodes) slots placed p
      → (p' : Progress) × (assign_chunks fd nodes slots cut p (range_from i count) ≡ some p')
        × IsFitted (length nodes) slots (placed + copies cut i count) p'
  unfolding assign_chunks copies
  assign_chunks_lem zero placed i p small inside f =
      let same : placed + 0 ≡ placed = omega arith in
      (p, refl, subst (λ m. IsFitted (length nodes) slots m p) (sym same) f)
  assign_chunks_lem (suc count) placed i p small inside f =
      let step : ℕ = if ltb i cut then 1 else 3 in
      let at_most : step ≤ 3 = ground arith in
      let (p', e, f') = assign_chunk_lem placed i p (omega arith) (omega arith) f in
      let (p'', e', f'') =
        assign_chunks_lem count (placed + step) (i + 1) p' (omega arith) (omega arith) f' in
      let sum_up : placed + step + copies cut (i + 1) count
          ≡ placed + (step + copies cut (i + 1) count) =
        omega arith in
      (p'', rw (e, ◌>>=◌) e', subst (λ m. IsFitted (length nodes) slots m p'') sum_up f'')
