-- ===== src/Client/Upload/Endless.antt =====
-- A line that is longer than a block, when the blocks end at newlines.
use velox_dfs.Base.{
  ℕ, zero, suc, ◌+◌, ◌%◌, ◌^◌, ◌≤◌, ◌<◌, ◌≡◌, ◌≢◌, ◌⊎◌, inl, inr, refl, ap, ◌∙◌, true, false, none,
  some, Text, get_or, length, leb, lt→ltb, ◌==◌, ◌>>=◌, Option-cases, arith, Bool-cases,
}
use velox_dfs.Client.Upload.{Job, State, back_up, block_end, upload_chunk, upload_loop}

-- Over bytes that are no newlines the loop goes back.
back_up_over :
    (bytes : Text) (start n : ℕ)
    → ((p : ℕ) → start < p → p ≤ start + n → get_or bytes p 0 ≢ 10)
    → back_up bytes (start + n) ≡ back_up bytes start
unfolding back_up
back_up_over bytes start zero h = ap (back_up bytes) (omega arith)
back_up_over bytes start (suc n) h =
    let at : start + suc n ≡ suc (start + n) = omega arith in
    let other : (get_or bytes (suc (start + n)) 0 == 10) ≡ false =
      ground (arith, h (suc (start + n)) (omega arith) (omega arith)) in
    rw (at, other) (back_up_over bytes start n (λ p a b. h p a (omega arith)))

back_up_stays :
    (bytes : Text) (start : ℕ)
    → (start ≡ 0) ⊎ (get_or bytes start 0 ≡ 10)
    → (back_up bytes start ≡ none) ⊎ (back_up bytes start ≡ some start)
unfolding back_up
back_up_stays bytes zero h = elim (Bool-cases (get_or bytes 0 0 == 10)) [
  | inl e ↦ inr (rw e refl)
  | inr e ↦ inl (rw e refl)
]
back_up_stays bytes (suc p) (inl e) = absurd (omega arith)
back_up_stays bytes (suc p) (inr e) =
    let found : (get_or bytes (suc p) 0 == 10) ≡ true = ground arith in inr (rw found refl)

module _ (job : Job) (start : ℕ) (lines : job.is_equal_sized ≡ false)
    (inside : start + job.block_size < length job.bytes)
    (small : start + job.block_size < 2 ^ 64) where
  end_is : block_end job start ≡ back_up job.bytes (start + job.block_size)
  unfolding block_end
  end_is =
      let e : (start + job.block_size) % 2 ^ 64 ≡ start + job.block_size = omega arith in
      let more = lt→ltb (start + job.block_size) (length job.bytes) inside in
      rw (e, more, lines) refl

  no_end :
      (fuel i : ℕ) (u : State) → block_end job start ≡ none → upload_loop fuel job i start u ≡ none
  unfolding upload_loop
  no_end zero i u e = refl
  no_end (suc fuel) i u e = rw (e, ◌>>=◌) refl

  stays :
      (fuel i : ℕ) (u : State)
      → block_end job start ≡ some start
      → upload_loop fuel job i start u ≡ none
  unfolding upload_loop
  stays zero i u e = refl
  stays (suc fuel) i u e =
      let goes : leb (length job.bytes) start ≡ false = ground arith in
      elim (Option-cases (upload_chunk job i start start u)) [
        | inl faults ↦ rw (e, ◌>>=◌, faults) refl
        | inr (u', made) ↦ rw (e, ◌>>=◌, made, goes) (stays fuel ((i + 1) % 2 ^ 32) u' e)
      ]

-- With blocks that end at newlines, if a chunk begins at the start of the file or at a newline, and the
-- file goes on for more than a block behind it without another newline up to there, then the search
-- for the end of the chunk never ends, or it ends where the chunk begins. So the loop of `upload` from
-- there on has no result, whatever the fuel: it makes one empty chunk after another, unless it hangs in
-- the search or faults.
pub upload-long_line :
    (job : Job) (fuel i start : ℕ) (u : State)
    → job.is_equal_sized ≡ false
    → start + job.block_size < length job.bytes
    → start + job.block_size < 2 ^ 64
    → (start ≡ 0) ⊎ (get_or job.bytes start 0 ≡ 10)
    → ((p : ℕ) → start < p → p ≤ start + job.block_size → get_or job.bytes p 0 ≢ 10)
    → ((back_up job.bytes (start + job.block_size) ≡ none) ⊎ (block_end job start ≡ some start))
      × (upload_loop fuel job i start u ≡ none)
upload-long_line job fuel i start u lines inside small begins long =
    let over = back_up_over job.bytes start job.block_size long in
    let end = end_is job start lines inside small ∙ over in
    elim (back_up_stays job.bytes start begins) [
      | inl e ↦ (inl (over ∙ e), no_end job start lines inside small fuel i u (end ∙ e))
      | inr e ↦ (inr (end ∙ e), stays job start lines inside small fuel i u (end ∙ e))
    ]
