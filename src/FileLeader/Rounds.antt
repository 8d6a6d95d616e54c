-- ===== src/FileLeader/Rounds.antt =====
-- One round of `file_request`: it visits every primary file once, from the start around.
use velox_dfs.Base.{
  ℕ, zero, suc, ◌+◌, ◌-◌, ◌*◌, ◌%◌, ◌≤◌, ◌<◌, ◌≡◌, refl, ap, ◌∙◌, List, [], ◌∷◌, none, some,
  get_elem?, length, take, drop, arith, lt-get_elem?, drop-get_elem?, drop_all, Option-cases, inl,
  inr,
}
use velox_dfs.FileLeader.{Row, Pick, cell, count_cell, round}

-- The chunks of a file, `picks`, are dealt to the rows one by one, from row `start` around.
abbrev pub IsDealt : List Row → ℕ → List Pick → Type 0
IsDealt rows start picks =
    (m i : ℕ)
    → m < length rows
    → (row : Row) × (get_elem? rows ((start + m) % length rows) ≡ some row)
      × (cell row i ≡ get_elem? picks (i * length rows + m))

take-get_elem? {ℓ} :
    {A : Type ℓ} (xs : List A) (k n : ℕ) (x : A)
    → get_elem? xs k ≡ some x
    → take (suc n) (drop k xs) ≡ x ∷ take n (drop (suc k) xs)
take-get_elem? xs k n x e = rw (drop-get_elem? xs k x e) refl

pub take_nil {ℓ} : {A : Type ℓ} (n : ℕ) → take {A = A} n [] ≡ []
take_nil zero = refl
take_nil (suc n) = refl

past_end {ℓ} : {A : Type ℓ} (xs : List A) (k : ℕ) → get_elem? xs k ≡ none → length xs ≤ k
past_end [] k e = omega arith
past_end (x ∷ xs) zero e = absurd (cc)
past_end (x ∷ xs) (suc k) e = omega (arith, past_end xs k e)

count_cell_lem :
    (picks : List Pick) (k left : ℕ)
    → count_cell (get_elem? picks k) (take left (drop (suc k) picks), left - (length picks - suc k))
      ≡ (take (suc left) (drop k picks), suc left - (length picks - k))
count_cell_lem picks k left = elim (Option-cases (get_elem? picks k)) [
  | inl e ↦
      let over = past_end picks k e in
      rw (e, drop_all k picks over, drop_all (suc k) picks (omega arith))
        (rw (take_nil left) (ap (λ t. ([], t)) (omega arith)))
  | inr (p, e) ↦
      let inside = lt-get_elem? picks k p e in
      rw (e, take-get_elem? picks k left p e)
        (ap (λ t. (p ∷ take left (drop (suc k) picks), t)) (omega arith))
]

-- Round i lists the next chunks of the file, one for each row, and counts the rows that have none.
pub round_lem :
    (rows : List Row) (start : ℕ) (picks : List Pick) (i m left : ℕ)
    → IsDealt rows start picks
    → m + left ≡ length rows
    → round rows i (start + m) left ≡ (
      take left (drop (i * length rows + m) picks),
      left - (length picks - (i * length rows + m)),
    )
unfolding round
round_lem rows start picks i m zero d h = ground arith
round_lem rows start picks i m (suc left) d h =
    let n = length rows in
    let k = i * n + m in
    let (row, e, c) = d m i (omega arith) in
    let next : start + m + 1 ≡ start + (m + 1) = omega arith in
    let ih : round rows i (start + m + 1) left
        ≡ (take left (drop (suc k) picks), left - (length picks - suc k)) =
      rw next (
        round_lem rows start picks i (m + 1) left d (omega arith)
        ∙ ap (λ j. (take left (drop j picks), left - (length picks - j))) (omega arith)) in
    rw (e, ih, c) (count_cell_lem picks k left)
