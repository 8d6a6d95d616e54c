-- ===== src/FileLeader/Order.antt =====
-- `file_request` lists the chunks of a file in the order of the file.
use velox_dfs.Base.{
  ℕ, zero, suc, ◌+◌, ◌-◌, ◌*◌, ◌≤◌, ◌<◌, ◌≡◌, refl, ap, sym, ◌∙◌, List, [], ◌++◌, some, length,
  take, drop, arith, drop_all, drop-drop, take-append-drop, dec_lt, leb, true, false, ◌>>=◌,
}
use velox_dfs.FileLeader.{Row, Pick, round, rounds}
use velox_dfs.FileLeader.Rounds.{IsDealt, round_lem, take_nil}

module _ (rows : List Row) (start : ℕ) (picks : List Pick) (dealt : IsDealt rows start picks) where
  whole_round :
      (i : ℕ)
      → round rows i start (length rows) ≡ (
        take (length rows) (drop (i * length rows) picks),
        length rows - (length picks - i * length rows),
      )
  whole_round i =
      let n = length rows in
      let at : start ≡ start + 0 = omega arith in
      ap (λ j. round rows i j n) at
      ∙ (round_lem rows start picks i 0 n dealt (omega arith)
          ∙ ap (λ j. (take n (drop j picks), n - (length picks - j))) (omega arith))

  -- Past the end of the file one more round lists nothing and ends the loop.
  rounds_past_end :
      (fuel ended i : ℕ)
      → ended < length rows
      → length picks ≤ i * length rows
      → rounds (suc (suc fuel)) rows start ended i ≡ some (drop (i * length rows) picks)
  unfolding rounds
  rounds_past_end fuel ended i e z =
      let n = length rows in
      let gone = drop_all (i * n) picks z in
      let quiet : round rows i start n ≡ ([], n) =
        whole_round i ∙ rw (gone, take_nil {A = Pick} n) (ap (λ t. ([], t)) (omega arith)) in
      let open_ : leb n ended ≡ false = ground arith in
      let shut : leb n (ended + n) ≡ true = ground arith in rw (gone, open_, quiet, shut) refl

  rounds_step :
      (fuel ended i : ℕ) (pass : List Pick × ℕ) (rest : List Pick)
      → ended < length rows
      → round rows i start (length rows) ≡ pass
      → rounds fuel rows start (ended + pass.1) (i + 1) ≡ some rest
      → rounds (suc fuel) rows start ended i ≡ some (pass.0 ++ rest)
  unfolding rounds
  rounds_step fuel ended i pass rest h p e =
      let open_ : leb (length rows) ended ≡ false = ground arith in rw (open_, p, e, ◌>>=◌) refl

  -- Once the loop is at round i with no row counted as ended, it lists the rest of the file.
  rounds_from :
      (fuel i : ℕ)
      → 0 < length rows
      → (length picks - i * length rows) + 2 ≤ fuel
      → rounds fuel rows start 0 i ≡ some (drop (i * length rows) picks)
  rounds_from zero i h f = absurd (omega arith)
  rounds_from (suc zero) i h f = absurd (omega arith)
  rounds_from (suc (suc fuel)) i h f =
      let n = length rows in
      let size = length picks in
      let joined : take n (drop (i * n) picks) ++ drop ((i + 1) * n) picks ≡ drop (i * n) picks =
        ap (λ t. take n (drop (i * n) picks) ++ t)
          (ap (λ j. drop j picks) (omega arith) ∙ sym (drop-drop n (i * n) picks))
        ∙ take-append-drop n (drop (i * n) picks) in
      let finish : rounds (suc fuel) rows start (0 + (n - (size - i * n))) (i + 1)
            ≡ some (drop ((i + 1) * n) picks)
          → rounds (suc (suc fuel)) rows start 0 i ≡ some (drop (i * n) picks) =
        λ rest. rounds_step (suc fuel) 0 i _ _ h (whole_round i) rest ∙ ap some joined in
      elim (dec_lt (i * n) size) [
        | no past ↦ rounds_past_end fuel 0 i h (omega arith)
        | yes more ↦ finish (elim (dec_lt (size - i * n) n) [
          | yes short ↦ last_round fuel i more short f
          | no full ↦
              let none_ended : 0 + (n - (size - i * n)) ≡ 0 = omega arith in
              rw none_ended (rounds_from (suc fuel) (i + 1) h (omega arith))
        ])
      ]
    where
      last_round :
          (fuel i : ℕ)
          → i * length rows < length picks
          → length picks - i * length rows < length rows
          → (length picks - i * length rows) + 2 ≤ suc (suc fuel)
          → rounds
              (suc fuel)
              rows
              start
              (0 + (length rows - (length picks - i * length rows)))
              (i + 1)
            ≡ some (drop ((i + 1) * length rows) picks)
      last_round zero i more short f = absurd (omega arith)
      last_round (suc fuel) i more short f =
          rounds_past_end fuel _ (i + 1) (omega arith) (omega arith)

-- If the chunks of a file are dealt to its primary files one by one around the ring, then the loop of
-- `file_request`, with fuel for two more rounds than there are chunks, ends, and lists every chunk
-- once, with its primary file, in the order of the file.
pub rounds-dealt :
    (rows : List Row) (start : ℕ) (picks : List Pick) (fuel : ℕ)
    → IsDealt rows start picks
    → 0 < length rows
    → length picks + 2 ≤ fuel
    → rounds fuel rows start 0 0 ≡ some picks
rounds-dealt rows start picks fuel d h f =
    let at : 0 * length rows ≡ 0 = omega arith in
    rounds_from rows start picks d fuel 0 h (omega arith) ∙ ap (λ j. some (drop j picks)) at
