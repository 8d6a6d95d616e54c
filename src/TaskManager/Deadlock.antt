-- ===== src/TaskManager/Deadlock.antt =====
-- A worker and a task that share one buffer.
use velox_dfs.Base.{
  ℕ, ◌+◌, ◌≤◌, ◌≡◌, refl, sym, ◌∙◌, subst, true, false, List, [], ◌∷◌, none, Text, IsZeroFree, take,
  drop, take-All, length, length-drop, ◌>>=◌, arith,
}
use velox_dfs.Messages.{BlockInfo, LogicalBlock}
use velox_dfs.TaskManager.{
  Ring, Work, ready, waiting, woken, semaphore_create, static_worker, worker_from, worker_step,
  task_step, by_worker, by_task, Steps, done, step,
}
use velox_dfs.TaskManager.Queue.{
  put_chunk_lem, produce_room, produce_full, after_wait_lem, read_lem, read_empty,
}
use velox_dfs.TaskManager.Delivery.{start-IsQueue}

-- `static_worker` with one buffer, when these are its chunks.
abbrev on_chunks : Text → ℕ → List BlockInfo → Work
on_chunks file block_size mds = record {
  todo = mds;
  ifs = file;
  ring = semaphore_create 1 block_size;
  phase = ready;
  task_waits = false;
  got = [];
  is_over = false;
}

-- Neither can go on, and the task has got the first chunk only.
abbrev pub IsStuck : Text → Work → Type 0
IsStuck first s =
    (worker_step s ≡ none) × (task_step s ≡ none) × (s.is_over ≡ false) × (s.got ≡ first ∷ [])

module _ (file : Text) (block_size : ℕ) (a b c : BlockInfo) (rest : List BlockInfo)
    (solid : IsZeroFree file) (fit_a : a.size ≤ block_size) (fit_b : b.size ≤ block_size)
    (long : a.size + b.size ≤ length file) where
  on_chunks-IsStuck :
      (s : Work) × Steps false (on_chunks file block_size (a ∷ b ∷ c ∷ rest)) s
      × IsStuck (take a.size file) s
  unfolding worker_step worker_from task_step
  on_chunks-IsStuck =
      let r0 : Ring = semaphore_create 1 block_size in
      let s0 : Work = on_chunks file block_size (a ∷ b ∷ c ∷ rest) in
      let ifs1 : Text = drop a.size file in
      let q0 = start-IsQueue 1 block_size (omega arith) in
      let (r1, put1, q1, same1, width1, tail1) =
        put_chunk_lem block_size r0 [] file a q0 (omega arith) (omega (arith, long)) fit_a
          (omega arith) in
      let s1 : Work = record s0 { todo = b ∷ c ∷ rest; ifs = ifs1; ring = r1 } in
      let s2 : Work = record s1 { phase = waiting } in
      let (r2, read2, q2, same2, width2, tail2) =
        read_lem block_size r1 (take a.size file) [] q1 (take-All a.size file solid) in
      let s3 : Work = record s2 { ring = r2; phase = woken; got = take a.size file ∷ [] } in
      let s4 : Work = record s3 { task_waits = true } in
      let open_ : r2.is_done ≡ false = same2 ∙ same1 in
      let (r3, put3, q3, same3, width3, tail3) =
        put_chunk_lem block_size r2 [] ifs1 b q2 (omega (arith, width1, width2))
          (omega (arith, long, length-drop a.size file)) fit_b (omega (arith, tail1, tail2)) in
      let s5 : Work = record s4 {
        todo = c ∷ rest;
        ifs = drop b.size ifs1;
        ring = r3;
        phase = ready;
      } in
      (
        record s5 { phase = waiting },
        step {t = s1}
            (by_worker
              (rw (produce_room block_size r0 [] file a r1 q0 (omega arith) put1, ◌>>=◌) refl))
            (step {t = s2}
              (by_worker
                (rw (produce_full block_size r1 _ ifs1 b q1 (omega (arith, width1)), ◌>>=◌) refl))
              (step {t = s3} (by_task (rw (read2, ◌>>=◌) refl)) (
                step {t = s4} (by_task (rw (read_empty block_size r2 q2, open_) refl)) (
                  step {t = s5}
                    (by_worker (rw (after_wait_lem block_size r2 ifs1 b r3 put3, ◌>>=◌) refl))
                    (step
                      (by_worker (
                        rw
                          (
                            produce_full block_size r3 _ (drop b.size ifs1) c q3
                                (omega (arith, width1, width2, width3)),
                            ◌>>=◌,
                          )
                          refl))
                      done))))),
        (refl, refl, refl, refl),
      )

-- The bug: with one buffer, a worker with three chunks or more, of which the first two are at most a block
-- each and in the file, where no byte is zero, and a task can come to a state where both wait for ever,
-- without any wait that ends by chance: the task has got the first chunk only. (The chunk behind the
-- wait of `produce` is put in without a signal.)
pub static_worker-deadlock :
    (file : Text) (lblock : LogicalBlock) (block_size : ℕ) (a b c : BlockInfo)
    (rest : List BlockInfo)
    → take lblock.primary_chunk_num lblock.physical_blocks ≡ a ∷ b ∷ c ∷ rest
    → IsZeroFree file
    → a.size ≤ block_size
    → b.size ≤ block_size
    → a.size + b.size ≤ length file
    → (s : Work) × Steps false (static_worker file lblock 1 block_size) s
      × IsStuck (take a.size file) s
static_worker-deadlock file lblock block_size a b c rest e solid fit_a fit_b long =
    subst
      (λ mds.
        (s : Work) × Steps false (on_chunks file block_size mds) s × IsStuck (take a.size file) s)
      (sym e) (on_chunks-IsStuck file block_size a b c rest solid fit_a fit_b long)
