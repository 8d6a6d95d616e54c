-- ===== src/TaskManager/Working.antt =====
-- What is so between a worker and a task, and the measure of what is left to do.
use velox_dfs.Base.{
  ℕ, zero, suc, ◌+◌, ◌-◌, ◌*◌, ◌^◌, ◌≤◌, ◌<◌, ◌≡◌, refl, ap, sym, Bool, true, false, not, ◌&&◌,
  ◌||◌, List, [], ◌∷◌, ◌++◌, map, none, some, Text, All, IsZeroFree, take, drop, length, replicate,
  get_elem?, sum, if◌then◌else◌, ◌>>=◌, arith, some-injective,
}
use velox_dfs.Messages.{BlockInfo}
use velox_dfs.TaskManager.{
  Ring, Phase, ready, waiting, woken, wake, read_chunk, Work, after_read, task_step,
}
use velox_dfs.TaskManager.Queue.{IsQueue}

-- The chunks of a file, by their sizes.
abbrev pub slices : List BlockInfo → Text → List Text
slices [] s = []
slices (md ∷ mds) s = take md.size s ∷ slices mds (drop md.size s)

abbrev pub sizes : List BlockInfo → List ℕ
sizes mds = map (λ md. md.size) mds

abbrev pub open_flag : Bool → ℕ
open_flag true = 0
open_flag false = 1

abbrev pub is_waiting : Phase → Bool
is_waiting waiting = true
is_waiting _ = false

abbrev pub is_woken : Phase → Bool
is_woken woken = true
is_woken _ = false

abbrev pub rank : Phase → ℕ
rank ready = 2
rank waiting = 1
rank woken = 1

-- What is left to do. A wait counts too: each is entered once for each chunk at most.
abbrev pub measure : Work → ℕ
measure s =
    3 * length s.todo
    + ((s.ring).tail - (s.ring).head)
    + rank s.phase
    + open_flag s.task_waits
    + 2 * open_flag (s.ring).is_done
    + open_flag s.is_over

-- The task waits only while there is nothing for it, or one chunk that the worker put in without a signal.
pub record IsWorking (block_size : ℕ) (all : List Text) (s : Work) : Type 0 where
  pub pending : List Text
  pub queue : IsQueue block_size s.ring pending
  pub complete : all ≡ s.got ++ (pending ++ slices s.todo s.ifs)
  pub solid : All IsZeroFree pending
  pub solid_ifs : IsZeroFree s.ifs
  pub fit : All (λ (md : BlockInfo). md.size ≤ block_size) s.todo
  pub long : sum (sizes s.todo) ≤ length s.ifs
  pub few : (s.ring).tail + length s.todo < 2 ^ 32
  pub at_end : (s.ring).is_done ≡ true → s.todo ≡ []
  pub at_over : s.is_over ≡ true → ((s.ring).is_done ≡ true) × (pending ≡ [])
  pub two : 1 < (s.ring).queue_size
  pub full : is_waiting s.phase ≡ true → length pending ≡ (s.ring).queue_size
  pub room : is_woken s.phase ≡ true → length pending < (s.ring).queue_size
  pub idle :
      s.task_waits ≡ true
      → (length pending ≤ 1)
        × ((s.ring).is_done ≡ false)
        × (is_waiting s.phase ≡ false)
        × (is_woken s.phase ≡ true → pending ≡ [])

pub replicate-get_elem? {ℓ} :
    {A : Type ℓ} (n : ℕ) (a : A) (i : ℕ) (b : A) → get_elem? (replicate n a) i ≡ some b → b ≡ a
replicate-get_elem? zero a i b e = absurd (cc)
replicate-get_elem? (suc n) a zero b e = sym (some-injective _ _ e)
replicate-get_elem? (suc n) a (suc i) b e = replicate-get_elem? n a i b e

pub task_step_open :
    (s : Work)
    → s.is_over ≡ false
    → s.task_waits ≡ false
    → task_step s ≡ (read_chunk s.ring >>= after_read s)
unfolding task_step
task_step_open s going up =
    let runs : (s.is_over || s.task_waits) ≡ false = ground (arith, going, up) in
    ap (λ (b : Bool). if b then none else (read_chunk s.ring >>= after_read s)) runs

pub wake-waiting : (p : Phase) → is_waiting (wake p) ≡ false
wake-waiting ready = refl
wake-waiting waiting = refl
wake-waiting woken = refl

pub rank-wake : (p : Phase) → rank (wake p) ≤ rank p
rank-wake ready = omega arith
rank-wake waiting = omega arith
rank-wake woken = omega arith

pub open_flag-le : (b : Bool) → open_flag b ≤ 1
open_flag-le true = omega arith
open_flag-le false = omega arith

-- The state after a chunk is put in.
abbrev pub put_in : Work → List BlockInfo → Ring → Text → Bool → Work
put_in s todo ring ifs signals = record s {
  todo = todo;
  ifs = ifs;
  ring = ring;
  phase = ready;
  task_waits = not signals && s.task_waits;
}
