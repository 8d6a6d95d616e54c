-- ===== src/TaskManager/Lock/Exclusion.antt =====
-- Each lock is given once, while the server answers; and to every caller when it cannot be reached.
use velox_dfs.Base.{
  ◌≡◌, refl, ap, sym, ◌∙◌, Bool, true, false, ◌||◌, List, [], ◌∷◌, none, some, Text, text_eq,
  text_eq→eq, if◌then◌else◌, arith, Bool-cases, Option-cases, inl, inr,
}
use velox_dfs.TaskManager.Lock.{
  ZooKeeper, IsLawful, Rc, zok, znodeexists, failed, DistLockStatus, dist_lock, end_of_file,
  try_next_dist_lock, is_one, znode_contents, after_create, get_dlock, is_lock, locks_given, asks,
  asked, AreAnswered,
}

module _ (zk : ZooKeeper) where
  created :
      (p : Text) (b : Bool) (made : Rc × zk.State)
      → made.0 ≡ zok
      → after_create zk p b made ≡ (dist_lock, made.1)
  unfolding after_create
  created p b (zok, s) e = refl
  created p b (znodeexists, s) e = absurd (cc)
  created p b (failed, s) e = absurd (cc)

  refused : Text → Bool → DistLockStatus
  refused w b = if is_one w || b then end_of_file else try_next_dist_lock

  refused-no_lock : (w : Text) (b : Bool) → is_lock (refused w b) ≡ false
  unfolding refused
  refused-no_lock w b = ground arith

  found :
      (p w : Text) (b : Bool) (made : Rc × zk.State)
      → made.0 ≡ znodeexists
      → zk.get p made.1 ≡ some w
      → after_create zk p b made ≡ (refused w b, made.1)
  unfolding after_create refused
  found p w b (zok, s) e there = absurd (cc)
  found p w b (znodeexists, s) e there = rw (there, after_create) refl
  found p w b (failed, s) e there = absurd (cc)

  lost :
      (p : Text) (b : Bool) (made : Rc × zk.State)
      → made.0 ≡ failed
      → zk.get p made.1 ≡ none
      → after_create zk p b made ≡ (dist_lock, made.1)
  unfolding after_create
  lost p b (zok, s) e nothing = refl
  lost p b (znodeexists, s) e nothing = rw (nothing, after_create) refl
  lost p b (failed, s) e nothing = rw (nothing, after_create) refl

module _ (zk : ZooKeeper) (lawful : IsLawful zk) where
  -- What one call does: it makes the node and gets the lock, or it finds the node and gets none.
  data Called (p : Text) (b : Bool) (s : zk.State) : Type 0 where
    made :
        zk.held p s ≡ none
        → is_lock (get_dlock zk p b s).0 ≡ true
        → ((q : Text)
            → zk.held q (get_dlock zk p b s).1
              ≡ (if text_eq p q then some (znode_contents b) else zk.held q s))
        → Called p b s
    there :
        (w : Text)
        → zk.held p s ≡ some w
        → is_lock (get_dlock zk p b s).0 ≡ false
        → ((q : Text) → zk.held q (get_dlock zk p b s).1 ≡ zk.held q s)
        → Called p b s

  get_dlock-Called :
      (p : Text) (b : Bool) (calls : List (Text × Bool)) (s : zk.State)
      → AreAnswered zk ((p, b) ∷ calls) s
      → Called p b s
  unfolding AreAnswered get_dlock
  get_dlock-Called p b calls s answered = elim answered.0 [
    | inl ok ↦
        let (absent, next) = lawful.create-ok p (znode_contents b) s ok in
        let result = created zk p b (zk.create p (znode_contents b) s) ok in
        made absent (ap (λ r. is_lock r.0) result) (λ q. ap (λ r. zk.held q r.1) result ∙ next q)
    | inr (exists, answer) ↦
        let (v, got) = answer in
        let ((w, present), same) = lawful.create-exists p (znode_contents b) s exists in
        let result = found zk p v b (zk.create p (znode_contents b) s) exists got in
        there w present (ap (λ r. is_lock r.0) result ∙ refused-no_lock zk v b)
          (λ q. ap (λ r. zk.held q r.1) result ∙ same q)
  ]

  rest_answered :
      (p : Text) (b : Bool) (calls : List (Text × Bool)) (s : zk.State)
      → AreAnswered zk ((p, b) ∷ calls) s
      → AreAnswered zk calls (get_dlock zk p b s).1
  unfolding AreAnswered
  rest_answered p b calls s answered = answered.1

  none_left :
      (znode w : Text) (calls : List (Text × Bool)) (s : zk.State)
      → zk.held znode s ≡ some w
      → AreAnswered zk calls s
      → locks_given zk znode calls s ≡ 0
  unfolding locks_given
  none_left znode w [] s held answered = refl
  none_left znode w ((p, b) ∷ calls) s held answered =
      let later = rest_answered p b calls s answered in
      elim (get_dlock-Called p b calls s answered) [
        | made absent lock next ↦ elim (Bool-cases (text_eq p znode)) [
          | inl same ↦
              let nothing : zk.held znode s ≡ none =
                ap (λ q. zk.held q s) (sym (text_eq→eq p znode same)) ∙ absent in
              absurd (cc)
          | inr other ↦
              let stays : zk.held znode (get_dlock zk p b s).1 ≡ some w =
                next znode ∙ rw other held in
              let rest = none_left znode w calls (get_dlock zk p b s).1 stays later in
              rw (other, rest) refl
        ]
        | there v present no_lock next ↦
            let rest = none_left znode w calls (get_dlock zk p b s).1 (next znode ∙ held) later in
            rw (no_lock, rest) (ground arith)
      ]

  given_once :
      (znode : Text) (calls : List (Text × Bool)) (s : zk.State)
      → zk.held znode s ≡ none
      → AreAnswered zk calls s
      → locks_given zk znode calls s ≡ (if asks znode calls then 1 else 0)
  unfolding locks_given
  given_once znode [] s absent answered = refl
  given_once znode ((p, b) ∷ calls) s absent answered =
      let later = rest_answered p b calls s answered in
      elim (get_dlock-Called p b calls s answered) [
        | made nothing lock next ↦ elim (Bool-cases (text_eq p znode)) [
          | inl same ↦
              let stays : zk.held znode (get_dlock zk p b s).1 ≡ some (znode_contents b) =
                next znode ∙ rw same refl in
              let rest =
                none_left znode (znode_contents b) calls (get_dlock zk p b s).1 stays later in
              rw (same, lock, rest) refl
          | inr other ↦
              let still : zk.held znode (get_dlock zk p b s).1 ≡ none =
                next znode ∙ rw other absent in
              let rest = given_once znode calls (get_dlock zk p b s).1 still later in
              rw other (omega (arith, rest))
        ]
        | there w present no_lock next ↦ elim (Bool-cases (text_eq p znode)) [
          | inl same ↦
              let nothing : zk.held p s ≡ none =
                ap (λ q. zk.held q s) (text_eq→eq p znode same) ∙ absent in
              absurd (cc)
          | inr other ↦
              let rest =
                given_once znode calls (get_dlock zk p b s).1 (next znode ∙ absent) later in
              rw other (omega (arith, rest))
        ]
      ]

-- Whatever calls of `get_Dlock` the workers make, in whatever order, on a lawful server that answers them:
-- each `zoo_create` makes the node or finds it there, and then `zoo_get` succeeds. If a node is not there
-- before them, exactly one call gets its lock when one asks for it, and if it is there, none does.
pub get_dlock-once :
    (zk : ZooKeeper) (znode : Text) (calls : List (Text × Bool)) (s : zk.State)
    → IsLawful zk
    → AreAnswered zk calls s
    → locks_given zk znode calls s
      ≡ (elim (zk.held znode s) [ none ↦ if asks znode calls then 1 else 0 | some w ↦ 0 ])
get_dlock-once zk znode calls s lawful answered = elim (Option-cases (zk.held znode s)) [
  | inl absent ↦ rw absent (given_once zk lawful znode calls s absent answered)
  | inr (w, held) ↦ rw held (none_left zk lawful znode w calls s held answered)
]

-- The bug: while the server cannot be reached, so that `zoo_create` and `zoo_get` fail, every call of
-- `get_Dlock` gets the lock that it asks for.
pub get_dlock-unreachable :
    (zk : ZooKeeper) (znode : Text) (calls : List (Text × Bool)) (s : zk.State)
    → ((p v : Text) (t : zk.State)
        → ((zk.create p v t).0 ≡ failed) × (zk.get p (zk.create p v t).1 ≡ none))
    → locks_given zk znode calls s ≡ asked znode calls
unfolding locks_given get_dlock
get_dlock-unreachable zk znode [] s down = refl
get_dlock-unreachable zk znode ((p, b) ∷ calls) s down =
    let (fails, nothing) = down p (znode_contents b) s in
    let result = lost zk p b (zk.create p (znode_contents b) s) fails nothing in
    let rest = get_dlock-unreachable zk znode calls (zk.create p (znode_contents b) s).1 down in
    rw (result, rest) (ground arith)
