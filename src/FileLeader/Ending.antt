-- ===== src/FileLeader/Ending.antt =====
-- The loop of `file_request` ends on any rows; on rows of uneven lengths it may end too early.
use velox_dfs.Base.{
  ℕ, zero, suc, ◌+◌, ◌%◌, ◌≤◌, ◌<◌, ◌≡◌, refl, ap, List, [], ◌∷◌, ◌++◌, some, none, get_elem?,
  length, arith, get_elem?-lt, leb, inl, inr, true, false, ◌>>=◌, All, All-get_elem?, dec_lt,
  Option-cases, lt-get_elem?,
}
use velox_dfs.Messages.{BlockMetadata, ChunkMetadata}
use velox_dfs.FileLeader.{Row, Pick, cell, round, rounds}

-- No row has more than `top` chunks.
abbrev pub AllShort : ℕ → List Row → Type 0
AllShort top = All λ row. length row.1 ≤ top

cell-none : (row : Row) (i : ℕ) → length row.1 ≤ i → cell row i ≡ none
cell-none row i h = elim (Option-cases (get_elem? row.1 i)) [
  | inl e ↦ rw (e, ◌>>=◌) refl
  | inr (c, e) ↦ absurd (omega (arith, lt-get_elem? row.1 i c e))
]

round-ended :
    (rows : List Row) (top i j left : ℕ)
    → 0 < length rows
    → AllShort top rows
    → top ≤ i
    → round rows i j left ≡ ([], left)
unfolding round
round-ended rows top i j zero h a t = refl
round-ended rows top i j (suc left) h a t =
    let inside : j % length rows < length rows = grind arith in
    let (row, e) = get_elem?-lt rows (j % length rows) inside in
    let short = All-get_elem? (λ r. length r.1 ≤ top) rows _ row a e in
    rw (e, round-ended rows top i (j + 1) left h a t, cell-none row i (omega arith))
      (ap (λ n. ([], n)) (omega arith))

module _ (rows : List Row) (start top : ℕ) (some_row : 0 < length rows)
    (short : AllShort top rows) where
  stopped :
      (fuel ended i : ℕ) → length rows ≤ ended → rounds (suc fuel) rows start ended i ≡ some []
  unfolding rounds
  stopped fuel ended i h = let e : leb (length rows) ended ≡ true = ground arith in rw e refl

  step :
      (fuel ended i : ℕ)
      → ended < length rows
      → (out : List Pick) × (rounds fuel rows start
            (ended + (round rows i start (length rows)).1)
            (i + 1)
          ≡ some out)
      → (out : List Pick) × (rounds (suc fuel) rows start ended i ≡ some out)
  unfolding rounds
  step fuel ended i h (out, p) =
      let e : leb (length rows) ended ≡ false = ground arith in
      ((round rows i start (length rows)).0 ++ out, rw (e, p, ◌>>=◌) refl)

  ends_from :
      (k ended i : ℕ)
      → top ≤ i + k
      → (out : List Pick) × (rounds (suc (suc k)) rows start ended i ≡ some out)
  ends_from zero ended i h = elim (dec_lt ended (length rows)) [
    | no full ↦ ([], stopped 1 ended i (omega arith))
    | yes open_ ↦
        let quiet = round-ended rows top i start (length rows) some_row short (omega arith) in
        let all : length rows ≤ ended + (round rows i start (length rows)).1 =
          rw quiet (omega arith) in
        step 1 ended i open_ ([], stopped 0 _ (i + 1) all)
  ]
  ends_from (suc k) ended i h = elim (dec_lt ended (length rows)) [
    | no full ↦ ([], stopped (suc (suc k)) ended i (omega arith))
    | yes open_ ↦
        step (suc (suc k)) ended i open_
          (ends_from k (ended + (round rows i start (length rows)).1) (i + 1) (omega arith))
  ]

-- Whatever the rows hold, the loop ends when it has fuel for two more rounds than the longest row has
-- chunks.
pub rounds-total :
    (rows : List Row) (start top : ℕ)
    → 0 < length rows
    → AllShort top rows
    → (out : List Pick) × (rounds (top + 2) rows start 0 0 ≡ some out)
rounds-total rows start top h a =
    let (out, e) = ends_from rows start top h a top 0 0 (omega arith) in
    let fuel : top + 2 ≡ suc (suc top) = omega arith in (out, rw fuel e)

-- `EOP` counts a row again in every round after its last chunk. So when the first of two primary
-- files has three chunks or more and the second has one, the loop stops after three rounds and
-- leaves out the rest, whatever it is.
pub rounds_lose_chunks :
    (a b : BlockMetadata) (c₀ c₁ c₂ d : ChunkMetadata) (rest : List ChunkMetadata) (fuel : ℕ)
    → rounds (suc (suc (suc (suc fuel)))) ((a, c₀ ∷ c₁ ∷ c₂ ∷ rest) ∷ (b, d ∷ []) ∷ []) 0 0 0
      ≡ some ((a, c₀) ∷ (b, d) ∷ (a, c₁) ∷ (a, c₂) ∷ [])
unfolding rounds
rounds_lose_chunks a b c₀ c₁ c₂ d rest fuel = refl
