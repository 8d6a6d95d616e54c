-- ===== src/Client/Upload/Loop.antt =====
-- The whole loop of `upload`, with equal-sized blocks.
use velox_dfs.Base.{
  ℕ, zero, suc, ◌+◌, ◌-◌, ◌%◌, ◌^◌, ◌≤◌, ◌<◌, ◌≡◌, refl, ap, sym, ◌∙◌, subst, true, false, List, [],
  ◌∷◌, ◌++◌, some, length, take, drop, length-drop, take-append-drop, take_all, drop-drop, leb,
  ◌>>=◌, arith, dec_lt,
}
use mathlib.Core.List.{append-nil}
use velox_dfs.Disk.{Disk}
use velox_dfs.FileLeader.{Pick}
use velox_dfs.Client.Upload.{Job, State, block_end, upload_chunk, upload_loop}
use velox_dfs.Client.Upload.Cut.{equal_end}
use velox_dfs.Client.Upload.Invariant.{IsLater, IsSent}
use velox_dfs.Client.Upload.Pass.{
  IsUploadable, IsTiled, AreServed, IsServed-later, upload_chunk_lem, IsLater-trans,
}

module _ (job : Job) (before : List Disk) (ok : IsUploadable job before) where
  pub record IsDone (i start : ℕ) (u : State) (disks : List Disk) (u' : State) : Type 0 where
    pub disks' : List Disk
    pub picks : List Pick
    pub sent : IsSent job before u' disks' (length job.bytes)
    pub later : IsLater job u disks u' disks'
    pub tiled : IsTiled (length job.bytes) i start picks
    pub served : AreServed job u' disks' picks (drop start job.bytes)

  loop_end :
      (fuel i start : ℕ) (u u1 : State) (disks : List Disk)
      → block_end job start ≡ some (length job.bytes)
      → upload_chunk job i start (length job.bytes) u ≡ some u1
      → upload_loop (suc fuel) job i start u ≡ some u1
  unfolding upload_loop
  loop_end fuel i start u u1 disks ends chunk =
      let stops : leb (length job.bytes) (length job.bytes) ≡ true = ground arith in
      rw (ends, ◌>>=◌, chunk, stops) refl

  loop_more :
      (fuel i start end : ℕ) (u u1 u' : State)
      → block_end job start ≡ some end
      → end < length job.bytes
      → upload_chunk job i start end u ≡ some u1
      → upload_loop fuel job ((i + 1) % 2 ^ 32) end u1 ≡ some u'
      → upload_loop (suc fuel) job i start u ≡ some u'
  unfolding upload_loop
  loop_more fuel i start end u u1 u' ends more chunk rest =
      let goes : leb (length job.bytes) end ≡ false = ground arith in
      rw (ends, ◌>>=◌, chunk, goes) rest

  unfoldable pub Ends : ℕ → ℕ → ℕ → State → List Disk → Type 0
  Ends fuel i start u disks =
      (u' : State) × (upload_loop fuel job i start u ≡ some u') × IsDone i start u disks u'

  last_lem :
      (fuel i start : ℕ) (u : State) (disks : List Disk)
      → IsSent job before u disks start
      → start < length job.bytes
      → length job.bytes ≤ start + job.block_size
      → Ends (suc fuel) i start u disks
  unfolding Ends
  last_lem fuel i start u disks sent below last =
      let size = length job.bytes in
      let bytes = drop start job.bytes in
      let ends : block_end job start ≡ some size =
        equal_end job start ok.equal ok.small (omega arith) ∙ ap some (omega arith) in
      let (u1, chunk, step) =
        upload_chunk_lem job before ok u disks i start size sent below (omega arith)
          (omega arith) in
      let whole : start + (size - start) ≡ size = omega arith in
      let all : size - start ≡ length bytes = omega (arith, length-drop start job.bytes) in
      (
        u1,
        loop_end fuel i start u u1 disks ends chunk,
        record {
          disks' = step.disks';
          picks = step.pick ∷ [];
          sent = subst (IsSent job before u1 step.disks') whole step.sent;
          later = step.later;
          tiled = (step.numbered, step.at, omega (arith, step.sized));
          served = (
            take (size - start) bytes,
            [],
            sym (
                append-nil (take (size - start) bytes)
                ∙ ap (λ m. take m bytes) all
                ∙ take_all bytes),
            step.served,
            refl,
          );
        },
      )

  next_lem :
      (fuel i start end : ℕ) (u : State) (disks : List Disk)
      → IsSent job before u disks start
      → start + job.block_size ≡ end
      → end < length job.bytes
      → ((u1 : State) (disks1 : List Disk)
          → IsSent job before u1 disks1 end
          → Ends fuel ((i + 1) % 2 ^ 32) end u1 disks1)
      → Ends (suc fuel) i start u disks
  unfolding Ends
  next_lem fuel i start end u disks sent at more goes_on =
      let size = length job.bytes in
      let bytes = drop start job.bytes in
      let ends : block_end job start ≡ some end =
        equal_end job start ok.equal ok.small (omega arith) ∙ ap some (omega arith) in
      let (u1, chunk, step) =
        upload_chunk_lem job before ok u disks i start end sent (omega (arith, ok.some_block))
          (omega arith) (omega arith) in
      let up : start + (end - start) ≡ end = omega arith in
      let (u', rest, done) =
        goes_on u1 step.disks' (subst (IsSent job before u1 step.disks') up step.sent) in
      let (b, served) =
        IsServed-later job before ok u1 u' step.disks' done.disks' step.pick
          (take (end - start) bytes) step.served done.later step.sent.same_length done.sent in
      (
        u',
        loop_more fuel i start end u u1 u' ends more chunk rest,
        record {
          disks' = done.disks';
          picks = (b, step.pick.1) ∷ done.picks;
          sent = done.sent;
          later = IsLater-trans job u u1 u' disks step.disks' done.disks' step.later done.later;
          tiled = (
            step.numbered,
            step.at,
            subst (λ x. IsTiled size ((i + 1) % 2 ^ 32) x done.picks) (omega (arith, step.sized))
                done.tiled,
          );
          served = (
            take (end - start) bytes,
            drop end job.bytes,
            sym (take-append-drop (end - start) bytes)
                ∙ ap (λ t. take (end - start) bytes ++ t)
                    (drop-drop (end - start) start job.bytes ∙ ap (λ m. drop m job.bytes) up),
            served,
            done.served,
          );
        },
      )

  -- From any chunk on the loop ends, if the fuel is more than the bytes left.
  pub loop_lem :
      (fuel i start : ℕ) (u : State) (disks : List Disk)
      → IsSent job before u disks start
      → start < length job.bytes
      → length job.bytes - start < fuel
      → Ends fuel i start u disks
  loop_lem zero i start u disks sent below enough = absurd (omega arith)
  loop_lem (suc fuel) i start u disks sent below enough =
      let end = start + job.block_size in
      elim (dec_lt end (length job.bytes)) [
        | yes more ↦ next_lem fuel i start end u disks sent refl more (λ u1 disks1 sent1.
            loop_lem fuel ((i + 1) % 2 ^ 32) end u1 disks1 sent1 more
              (omega (arith, ok.some_block)))
        | no last ↦ last_lem fuel i start u disks sent below (omega arith)
      ]
