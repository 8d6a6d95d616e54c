-- ===== src/TaskManager/Progress.antt =====
-- The steps of a task beside a worker, and the steps of both together.
use velox_dfs.Base.{
  ℕ, ◌<◌, ◌≡◌, ◌⊎◌, inl, inr, refl, ap, sym, ◌∙◌, subst, true, false, ◌||◌, List, [], ◌∷◌, ◌++◌,
  some, Option, Text, All, IsZeroFree, drop, length, ◌>>=◌, arith, some-injective, Bool-cases,
}
use mathlib.Core.List.{append_assoc, append-nil}
use velox_dfs.Messages.{BlockInfo}
use velox_dfs.TaskManager.{
  Phase, ready, waiting, woken, wake, read_chunk, Work, after_read, worker_from, worker_step,
  task_step, Step, by_worker, by_task, worker_wakes, task_wakes, Steps, done, step,
}
use velox_dfs.TaskManager.Queue.{IsQueue, produce_room, after_wait_lem, read_lem, read_empty}
use velox_dfs.TaskManager.Working.{
  slices, open_flag, is_waiting, is_woken, rank, measure, IsWorking, put_in, task_step_open,
  wake-waiting, rank-wake,
}
use velox_dfs.TaskManager.Moves.{Moves, put_in-IsWorking, worker-Moves}

module _ (block_size : ℕ) (all : List Text) where
  task_reads :
      (s : Work) (pending : List Text)
      → (w : IsWorking block_size all s) → w.pending ≡ pending
      → s.is_over ≡ false
      → s.task_waits ≡ false
      → (t : Work) × ((read_chunk s.ring >>= after_read s) ≡ some t)
        × IsWorking block_size all t
        × (measure t < measure s)
  task_reads s [] w e going up =
      let queue = subst (IsQueue block_size s.ring) e w.queue in
      let outcome = read_empty block_size s.ring queue in
      elim (Bool-cases (s.ring).is_done) [
        | inr d ↦ (
          record s { task_waits = true },
          rw (outcome, d) refl,
          record {
            pending = w.pending;
            queue = w.queue;
            complete = w.complete;
            solid = w.solid;
            solid_ifs = w.solid_ifs;
            fit = w.fit;
            long = w.long;
            few = w.few;
            at_end = w.at_end;
            at_over = w.at_over;
            two = w.two;
            full = w.full;
            room = w.room;
            idle = λ x. (omega (arith, ap length e), d, not_waiting, λ y. e);
          },
          omega (arith, ap open_flag up),
        )
        | inl d ↦ (
          record s { is_over = true },
          rw (outcome, d) refl,
          record {
            pending = w.pending;
            queue = w.queue;
            complete = w.complete;
            solid = w.solid;
            solid_ifs = w.solid_ifs;
            fit = w.fit;
            long = w.long;
            few = w.few;
            at_end = w.at_end;
            at_over = λ x. (d, e);
            two = w.two;
            full = w.full;
            room = w.room;
            idle = w.idle;
          },
          omega (arith, ap open_flag going),
        )
      ]
    where
      not_waiting : is_waiting s.phase ≡ false
      not_waiting = elim (Bool-cases (is_waiting s.phase)) [
        | inl waits ↦ absurd (omega (arith, w.full waits, ap length e, w.two))
        | inr other ↦ other
      ]
  task_reads s (c ∷ rest) w e going up =
      let queue = subst (IsQueue block_size s.ring) e w.queue in
      let solid = subst (All IsZeroFree) e w.solid in
      let (ring, read, queue', same, width, tail) =
        read_lem block_size s.ring c rest queue solid.0 in
      let awake = wake-waiting s.phase in
      (
        record s { ring = ring; phase = wake s.phase; got = s.got ++ (c ∷ []) },
        rw (read, ◌>>=◌) refl,
        record {
          pending = rest;
          queue = queue';
          complete =
              w.complete
              ∙ ap (λ x. s.got ++ (x ++ slices s.todo s.ifs)) e
              ∙ sym (append_assoc s.got (c ∷ []) (rest ++ slices s.todo s.ifs));
          solid = solid.1;
          solid_ifs = w.solid_ifs;
          fit = w.fit;
          long = w.long;
          few = omega (arith, tail, w.few);
          at_end = λ x. w.at_end (sym same ∙ x);
          at_over = λ x. absurd (cc);
          two = omega (arith, width, w.two);
          full = λ x. absurd (cc);
          room = λ x. omega (arith, width, queue.room);
          idle = λ x. absurd (cc);
        },
        omega (arith, tail, queue'.counted, queue.counted, ap open_flag same, rank-wake s.phase),
      )

  task-Moves : (s : Work) → IsWorking block_size all s → Moves block_size all s (task_step s)
  unfolding task_step
  task-Moves s w = elim (Bool-cases (s.is_over || s.task_waits)) [
    | inl stuck ↦ inl (rw stuck refl)
    | inr runs ↦
        let going : s.is_over ≡ false = ground (arith, runs) in
        let up : s.task_waits ≡ false = ground (arith, runs) in
        let (t, reads, working, less) = task_reads s w.pending w refl going up in
        inr (t, task_step_open s going up ∙ reads, working, less)
  ]

  Moves-IsWorking :
      (s t : Work) (o : Option Work)
      → Moves block_size all s o
      → o ≡ some t
      → IsWorking block_size all t × (measure t < measure s)
  Moves-IsWorking s t o (inl stuck) e = absurd (cc)
  Moves-IsWorking s t o (inr (t', e', w, less)) e =
      let same : t' ≡ t = some-injective _ _ (sym e' ∙ e) in
      subst (λ x. IsWorking block_size all x × (measure x < measure s)) same (w, less)

  pub Step-IsWorking :
      (s t : Work)
      → IsWorking block_size all s
      → Step false s t
      → IsWorking block_size all t × (measure t < measure s)
  unfolding worker_step
  Step-IsWorking s t w (by_worker e) =
      Moves-IsWorking s t (worker_step s) (worker-Moves block_size all s s.todo s.phase refl refl w)
        e
  Step-IsWorking s t w (by_task e) = Moves-IsWorking s t (task_step s) (task-Moves s w) e
  Step-IsWorking s t w (worker_wakes chance e) = absurd (cc)
  Step-IsWorking s t w (task_wakes chance e) = absurd (cc)

  pub Steps-IsWorking :
      (s t : Work) → IsWorking block_size all s → Steps false s t → IsWorking block_size all t
  Steps-IsWorking s t w done = w
  Steps-IsWorking s t w (step {t = u} first rest) =
      Steps-IsWorking u t (Step-IsWorking s u w first).0 rest

  -- While the task waits, the worker can go on.
  worker_ready :
      (s : Work) (todo : List BlockInfo) (phase : Phase)
      → s.todo ≡ todo
      → s.phase ≡ phase
      → IsWorking block_size all s
      → s.task_waits ≡ true
      → (t : Work) × (worker_from todo phase s ≡ some t)
  unfolding worker_from
  worker_ready s [] phase e at w waits = (
    record s { ring = record (s.ring) { is_done = true }; task_waits = false },
    rw (w.idle waits).1 refl,
  )
  worker_ready s (md ∷ todo) waiting e at w waits =
      let no_wait = (w.idle waits).2 in
      let waits_too : is_waiting s.phase ≡ true = ap is_waiting at in absurd (cc)
  worker_ready s (md ∷ todo) woken e at w waits =
      let woke : is_woken s.phase ≡ true = ap is_woken at in
      let (ring, put, working, less) =
        put_in-IsWorking block_size all s md todo false e w (w.room woke) (λ x. (w.idle x).3 woke)
          (omega (arith, ap rank at)) in
      (
        put_in s todo ring (drop md.size s.ifs) false,
        rw (after_wait_lem block_size s.ring s.ifs md ring put, ◌>>=◌) refl,
      )
  worker_ready s (md ∷ todo) ready e at w waits =
      let room : length w.pending < (s.ring).queue_size = omega (arith, (w.idle waits).0, w.two) in
      let (ring, put, working, less) =
        put_in-IsWorking block_size all s md todo true e w room (λ x. absurd (cc))
          (omega (arith, ap rank at)) in
      (
        put_in s todo ring (drop md.size s.ifs) true,
        rw (produce_room block_size s.ring w.pending s.ifs md ring w.queue room put, ◌>>=◌) refl,
      )

  -- Unless the task has got everything, one of the two can go on.
  pub goes_on :
      (s : Work)
      → IsWorking block_size all s
      → ((s.is_over ≡ true) × (s.got ≡ all)) ⊎ ((t : Work) × Step false s t)
  unfolding worker_step
  goes_on s w = elim (Bool-cases s.is_over) [
    | inr going ↦ inr (elim (Bool-cases s.task_waits) [
      | inl waits ↦
          let (t, moved) = worker_ready s s.todo s.phase refl refl w waits in (t, by_worker moved)
      | inr up ↦
          let (t, reads, working, less) = task_reads s w.pending w refl going up in
          (t, by_task (task_step_open s going up ∙ reads))
    ])
    | inl over ↦
        let (d, nothing) = w.at_over over in
        inl (
          over,
          sym (
              w.complete
              ∙ ap (λ x. s.got ++ (x ++ slices s.todo s.ifs)) nothing
              ∙ ap (λ x. s.got ++ slices x s.ifs) (w.at_end d)
              ∙ append-nil s.got),
        )
  ]
