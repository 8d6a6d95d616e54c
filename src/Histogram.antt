-- ===== src/Histogram.antt =====
-- src/common/histogram.cc: which server owns a hash key.
-- `boundaries[i]` is the last key of server i. The query counts (`querycount`, `count_query`,
-- `updateboundary`) are doubles and are left out. The arithmetic of `initialize` on doubles is the
-- record `Double`, an argument.
pub mod Lookup
pub mod Random
pub mod Tests
use velox_dfs.Base.{
  ℕ, zero, suc, ◌+◌, ◌-◌, ◌%◌, ◌^◌, List, [], ◌∷◌, ◌++◌, Option, none, some, get_elem?, leb, ◌==◌,
  if◌then◌else◌, ◌>>=◌,
}

-- `MAX_UINT`.
abbrev pub max_uint : ℕ
max_uint = 4294967295

pub record Histogram : Type 0 where
  pub numserver : ℕ
  pub boundaries : List ℕ

-- The loop of `get_index` from server i on; `none` is the return of -1.
get_index_from : ℕ → List ℕ → ℕ → Option ℕ
get_index_from i [] query = none
get_index_from i (b ∷ bs) query =
    let rest = get_index_from (i + 1) bs query in if leb query b then some i else rest

-- The array has `numserver` entries.
pub get_index : Histogram → ℕ → Option ℕ
unfolding get_index_from
get_index hist query = get_index_from 0 hist.boundaries query

-- `none` is the return of -1, with the message that the index is out of range.
pub get_boundary : Histogram → ℕ → Option ℕ
get_boundary hist index = if leb hist.numserver index then none else get_elem? hist.boundaries index

-- The lower end that `random_within_boundaries` draws from.
unfoldable lower_boundary : Histogram → ℕ → Option ℕ
lower_boundary hist zero = some 0
lower_boundary hist (suc i) = get_elem? hist.boundaries i

-- `draw % range + lower`. `range` is an unsigned difference; `none` is a division by zero.
unfoldable draw_within : ℕ → ℕ → ℕ → Option ℕ
draw_within draw lower upper =
    let range = (upper + 2 ^ 32 - lower) % 2 ^ 32 in
    if range == 0 then none else some ((draw % range + lower) % 2 ^ 32)

-- `rand()` returned `draw`. `none` is a read past the array, or a division by zero.
unfoldable pub random_within_boundaries : Histogram → ℕ → ℕ → Option ℕ
unfolding lower_boundary draw_within
random_within_boundaries hist draw index = do
  lower ← lower_boundary hist index
  upper ← get_elem? hist.boundaries index
  draw_within draw lower upper

-- The operations on `double` that `initialize` uses: the conversion of an `unsigned`, division,
-- multiplication, and the conversion to `uint32_t`.
pub record Double : Type 1 where
  pub D : Type 0
  pub of_uint : ℕ → D
  pub div : D → D → D
  pub mul : D → D → D
  pub to_uint : D → ℕ

module _ (d : Double) where
  open d use {of_uint, div, mul, to_uint}

  -- The loop over i, with `left` rounds to go.
  unfoldable initial_boundaries : ℕ → ℕ → ℕ → List ℕ
  initial_boundaries numserver i zero = []
  initial_boundaries numserver i (suc left) =
      to_uint (mul (div (of_uint max_uint) (of_uint numserver)) (of_uint (i + 1)))
      ∷ initial_boundaries numserver (i + 1) left

  -- `none` is the write to `boundaries[-1]`, for no server.
  unfoldable pub initialize : ℕ → Option Histogram
  unfolding initial_boundaries
  initialize zero = none
  initialize (suc n) =
      some
        (record { numserver = suc n; boundaries = initial_boundaries (suc n) 0 n ++ max_uint ∷ [] })
