-- ===== src/TaskManager/Moves.antt =====
-- The steps of a worker beside a task.
use velox_dfs.Base.{
  ℕ, ◌+◌, ◌^◌, ◌≤◌, ◌<◌, ◌≡◌, ◌⊎◌, inl, inr, refl, ap, sym, ◌∙◌, subst, Bool, true, false, not,
  ◌&&◌, List, [], ◌∷◌, ◌++◌, none, some, Option, Text, All, All-append, IsZeroFree, take-All,
  drop-All, take, drop, length, sum, length-append, length-drop, ◌>>=◌, arith, dec_lt, Bool-cases,
}
use mathlib.Core.List.{append_assoc}
use velox_dfs.Messages.{BlockInfo}
use velox_dfs.TaskManager.{Ring, Phase, ready, waiting, woken, put_chunk, Work, worker_from}
use velox_dfs.TaskManager.Queue.{put_chunk_lem, produce_room, produce_full, after_wait_lem}
use velox_dfs.TaskManager.Working.{
  slices, sizes, open_flag, is_woken, rank, measure, IsWorking, put_in, open_flag-le,
}

module _ (block_size : ℕ) (all : List Text) where
  -- A step that is possible, or none.
  abbrev pub Moves : Work → Option Work → Type 0
  Moves s o =
      (o ≡ none)
      ⊎ ((t : Work) × (o ≡ some t) × IsWorking block_size all t × (measure t < measure s))

  pub put_in-IsWorking :
      (s : Work) (md : BlockInfo) (todo : List BlockInfo) (signals : Bool)
      → s.todo ≡ md ∷ todo
      → (w : IsWorking block_size all s) → length w.pending < (s.ring).queue_size
      → ((not signals && s.task_waits) ≡ true → w.pending ≡ [])
      → 2 + open_flag (not signals && s.task_waits) ≤ rank s.phase + open_flag s.task_waits + 1
      → (ring : Ring) × (put_chunk s.ifs md s.ring ≡ some (ring, drop md.size s.ifs))
        × IsWorking block_size all (put_in s todo ring (drop md.size s.ifs) signals)
        × (measure (put_in s todo ring (drop md.size s.ifs) signals) < measure s)
  put_in-IsWorking s md todo signals e w room empty less =
      let fit = subst (All (λ (x : BlockInfo). x.size ≤ block_size)) e w.fit in
      let long : sum (sizes (md ∷ todo)) ≤ length s.ifs =
        subst (λ x. sum (sizes x) ≤ length s.ifs) e w.long in
      let few : (s.ring).tail + length (md ∷ todo) < 2 ^ 32 =
        subst (λ x. (s.ring).tail + length x < 2 ^ 32) e w.few in
      let (ring, put, queue, same, width, tail) =
        put_chunk_lem block_size s.ring w.pending s.ifs md w.queue room (omega arith) fit.0
          (omega arith) in
      let bytes = take md.size s.ifs in
      let more = length-append w.pending (bytes ∷ []) in
      (
        ring,
        put,
        record {
          pending = w.pending ++ (bytes ∷ []);
          queue = queue;
          complete =
              w.complete
              ∙ ap (λ x. s.got ++ (w.pending ++ slices x s.ifs)) e
              ∙ ap (λ x. s.got ++ x)
                  (sym (append_assoc w.pending (bytes ∷ []) (slices todo (drop md.size s.ifs))));
          solid =
              All-append IsZeroFree w.pending (bytes ∷ []) w.solid
                (take-All md.size s.ifs w.solid_ifs, tt);
          solid_ifs = drop-All md.size s.ifs w.solid_ifs;
          fit = fit.1;
          long = omega (arith, length-drop md.size s.ifs);
          few = omega arith;
          at_end = λ x. absurd (cc (w.at_end (sym same ∙ x)));
          at_over = λ x. absurd (cc (w.at_end (w.at_over x).0));
          two = omega (arith, width, w.two);
          full = λ x. absurd (cc);
          room = λ x. absurd (cc);
          idle = λ x. (
            omega (arith, more, ap length (empty x)),
            not_done ring same,
            refl,
            λ y. absurd (cc),
          );
        },
        omega (
          arith,
          ap (λ x. length x) e,
          queue.counted,
          (w.queue).counted,
          more,
          ap open_flag same,
          less,
        ),
      )
    where
      not_done : (ring : Ring) → ring.is_done ≡ (s.ring).is_done → ring.is_done ≡ false
      not_done ring same = elim (Bool-cases (s.ring).is_done) [
        | inl d ↦ absurd (cc (w.at_end d))
        | inr d ↦ same ∙ d
      ]

  pub worker-Moves :
      (s : Work) (todo : List BlockInfo) (phase : Phase)
      → s.todo ≡ todo
      → s.phase ≡ phase
      → IsWorking block_size all s
      → Moves s (worker_from todo phase s)
  unfolding worker_from
  worker-Moves s [] phase e at w = elim (Bool-cases (s.ring).is_done) [
    | inl d ↦ inl (rw d refl)
    | inr d ↦ inr (
      record s { ring = record (s.ring) { is_done = true }; task_waits = false },
      rw d refl,
      record {
        pending = w.pending;
        queue = record {
          nonempty = (w.queue).nonempty;
          complete = (w.queue).complete;
          counted = (w.queue).counted;
          room = (w.queue).room;
          below = (w.queue).below;
          stored = (w.queue).stored;
          wide = (w.queue).wide;
        };
        complete = w.complete;
        solid = w.solid;
        solid_ifs = w.solid_ifs;
        fit = w.fit;
        long = w.long;
        few = w.few;
        at_end = λ x. e;
        at_over = λ x. (refl, (w.at_over x).1);
        two = w.two;
        full = w.full;
        room = w.room;
        idle = λ x. absurd (cc);
      },
      omega (arith, ap open_flag d, open_flag-le s.task_waits),
    )
  ]
  worker-Moves s (md ∷ todo) waiting e at w = inl refl
  worker-Moves s (md ∷ todo) woken e at w =
      let woke : is_woken s.phase ≡ true = ap is_woken at in
      let (ring, put, working, less) =
        put_in-IsWorking s md todo false e w (w.room woke) (λ x. (w.idle x).3 woke)
          (omega (arith, ap rank at)) in
      inr (
        put_in s todo ring (drop md.size s.ifs) false,
        rw (after_wait_lem block_size s.ring s.ifs md ring put, ◌>>=◌) refl,
        working,
        less,
      )
  worker-Moves s (md ∷ todo) ready e at w = elim (dec_lt (length w.pending) (s.ring).queue_size) [
    | no full ↦ inr (
      record s { phase = waiting },
      rw (produce_full block_size s.ring w.pending s.ifs md w.queue (omega arith), ◌>>=◌) refl,
      record {
        pending = w.pending;
        queue = w.queue;
        complete = w.complete;
        solid = w.solid;
        solid_ifs = w.solid_ifs;
        fit = w.fit;
        long = w.long;
        few = w.few;
        at_end = w.at_end;
        at_over = w.at_over;
        two = w.two;
        full = λ x. omega (arith, (w.queue).room);
        room = λ x. absurd (cc);
        idle = λ x. absurd (omega (arith, (w.idle x).0, w.two));
      },
      omega (arith, ap rank at),
    )
    | yes room ↦
        let (ring, put, working, less) =
          put_in-IsWorking s md todo true e w room (λ x. absurd (cc)) (omega (arith, ap rank at)) in
        inr (
          put_in s todo ring (drop md.size s.ifs) true,
          rw (produce_room block_size s.ring w.pending s.ifs md ring w.queue room put, ◌>>=◌) refl,
          working,
          less,
        )
  ]
