-- ===== src/TaskManager/Lock.antt =====
-- src/taskmanager/task_manager.cc: the locks by which workers share out the chunks of a file. They are
-- nodes of ZooKeeper, which is an argument with laws for its documented
-- behaviour. No session ends in a run: the nodes are ephemeral.
pub mod Exclusion
pub mod Tests
use velox_dfs.Base.{
  ℕ, ◌+◌, ◌≡◌, ◌⊎◌, Bool, true, false, not, ◌&&◌, ◌||◌, List, [], ◌∷◌, Option, none, some, Text,
  text, text_eq, ◌==◌, if◌then◌else◌, ◌>>=◌,
}

-- The results of a call that are told apart here; `failed` stands for all other errors.
pub data Rc : Type 0 where
  zok znodeexists failed : Rc

-- The calls of the client's library, on the state of the server. `get` gives the content, if the call
-- succeeds, and `exists` says whether the call returned ZOK. `held` is the content of a node on the
-- server.
pub record ZooKeeper : Type 1 where
  pub State : Type 0
  pub create : Text → Text → State → Rc × State
  pub get : Text → State → Option Text
  pub set : Text → Text → State → State
  pub exists : Text → State → Bool
  pub held : Text → State → Option Text

-- A `zoo_create` that returns ZOK has made a node that was not there. One that returns ZNODEEXISTS has
-- found it there, and changes nothing. Of any other error nothing is said.
pub record IsLawful (zk : ZooKeeper) : Type 0 where
  pub create-ok :
      (p v : Text) (s : zk.State)
      → (zk.create p v s).0 ≡ zok
      → (zk.held p s ≡ none)
        × ((q : Text)
            → zk.held q (zk.create p v s).1 ≡ (if text_eq p q then some v else zk.held q s))
  pub create-exists :
      (p v : Text) (s : zk.State)
      → (zk.create p v s).0 ≡ znodeexists
      → ((w : Text) × (zk.held p s ≡ some w))
        × ((q : Text) → zk.held q (zk.create p v s).1 ≡ zk.held q s)

pub data DistLockStatus : Type 0 where
  dist_lock end_of_file try_next_dist_lock zoo_create_error : DistLockStatus

-- `strncmp(buffer, "1", n)` finds no difference in the n bytes of the content.
unfoldable pub is_one : Text → Bool
is_one [] = true
is_one (c ∷ []) = c == 49
is_one (c ∷ d ∷ s) = c == 49 && d == 0

abbrev pub is_lock : DistLockStatus → Bool
is_lock dist_lock = true
is_lock end_of_file = false
is_lock try_next_dist_lock = false
is_lock zoo_create_error = false

abbrev pub znode_contents : Bool → Text
znode_contents is_primary = if is_primary then text "1" else text "0"

module _ (zk : ZooKeeper) where
  -- `get_Dlock` behind `zoo_create`.
  unfoldable pub after_create : Text → Bool → Rc × zk.State → DistLockStatus × zk.State
  unfolding is_one
  after_create znode is_primary (zok, s) = (dist_lock, s)
  after_create znode is_primary (_, s) = elim (zk.get znode s) [
    | none ↦ (dist_lock, s)
    | some content ↦ (if is_one content || is_primary then end_of_file else try_next_dist_lock, s)
  ]

  -- `get_Dlock`.
  unfoldable pub get_dlock : Text → Bool → zk.State → DistLockStatus × zk.State
  unfolding after_create
  get_dlock znode is_primary s =
      after_create znode is_primary (zk.create znode (znode_contents is_primary) s)

  -- The status, the new value of `Stealing`, and the state. `none`: the loop waits for `Done`.
  unfoldable pub get_dist_lock :
      Text → Text → Bool → zk.State → Option (DistLockStatus × Bool × zk.State)
  unfolding get_dlock
  get_dist_lock target_node znode true s = elim (zk.get target_node s) [
    | none ↦ none
    | some content ↦
        if text_eq content (text "Done")
        then (let (rc, s') = get_dlock znode false s in some (rc, true, s'))
        else none
  ]
  get_dist_lock target_node znode false s =
      let (rc, s') = get_dlock znode true s in
      if zk.exists target_node s
      then some (rc, true, zk.set target_node (text "Done") s')
      else some (dist_lock, false, s)

  -- How many calls get the lock of a node, when the workers' calls follow in this order.
  unfoldable pub locks_given : Text → List (Text × Bool) → zk.State → ℕ
  unfolding get_dlock
  locks_given znode [] s = 0
  locks_given znode ((p, is_primary) ∷ calls) s =
      let (rc, s') = get_dlock p is_primary s in
      (if text_eq p znode && is_lock rc then 1 else 0) + locks_given znode calls s'

abbrev pub asks : Text → List (Text × Bool) → Bool
asks znode [] = false
asks znode ((p, is_primary) ∷ calls) = text_eq p znode || asks znode calls

-- How many of the calls ask for a node.
abbrev pub asked : Text → List (Text × Bool) → ℕ
asked znode [] = 0
asked znode ((p, is_primary) ∷ calls) = (if text_eq p znode then 1 else 0) + asked znode calls

module _ (zk : ZooKeeper) where
  -- In the run each `zoo_create` makes the node or finds it there, and then `zoo_get` succeeds.
  pub AreAnswered : List (Text × Bool) → zk.State → Type 0
  unfolding get_dlock
  AreAnswered [] s = Unit
  AreAnswered ((p, is_primary) ∷ calls) s =
      let made = zk.create p (znode_contents is_primary) s in
      ((made.0 ≡ zok) ⊎ ((made.0 ≡ znodeexists) × ((w : Text) × (zk.get p made.1 ≡ some w))))
      × AreAnswered calls (get_dlock zk p is_primary s).1
