-- ===== src/Client/Session/Removed.antt =====
-- What a client finds after a removal.
use velox_dfs.Base.{
  ℕ, ◌+◌, ◌<◌, ◌≤◌, ◌≢◌, ◌≡◌, ap, sym, ◌∙◌, refl, subst, true, false, List, [], ◌∷◌, Option, none,
  some, Text, length, set, get_elem?, get_elem?-lt, get_elem?-set_self, get_elem?-set_ne,
  length-set, Bool-cases, inl, inr, ◌>>=◌, arith, lt-get_elem?, ◌==◌,
}
use mathlib.Core.Option.{some-injective}
use velox_dfs.Messages.{FileDescription}
use velox_dfs.Histogram.{Histogram, get_index}
use velox_dfs.Disk.{Disk, content_of}
use velox_dfs.Disk.Removal.{content_of-remove, content_of-remove_other}
use velox_dfs.Directory.{filter, named}
use velox_dfs.FileLeader.Server.{Site, Leader, file_exist, file_delete, file_request}
use velox_dfs.FileLeader.Server.Router.{handle}
use velox_dfs.FileLeader.Server.Lifecycle.{delete_lem, delete-rows}
use velox_dfs.FileLeader.Server.Reading.{file_request-Keeps}
use velox_dfs.BlockNode.Serve.{delete_served}
use velox_dfs.Client.Upload.{target}
use velox_dfs.Client.Session.Sent.{exists_lem}
use velox_dfs.Client.Session.{World, exists, request, remove_blocks, remove_file, remove}

target_below : (n : ℕ) (o : Option ℕ) → n ≢ 0 → target n o < n
unfolding target
target_below n none h = grind arith
target_below n (some k) h = grind arith

-- A file that is not on a node stays away.
abbrev StayAway : List Disk → List Disk → Type 0
StayAway disks disks' =
    (k : ℕ) (d : Disk) (name : Text)
    → get_elem? disks k ≡ some d
    → content_of name d ≡ none
    → (d' : Disk) × (get_elem? disks' k ≡ some d') × (content_of name d' ≡ none)

-- No file of the list is on the node, of n, that its key belongs to.
abbrev pub AreGone : Histogram → FileDescription → ℕ → List Text → ℕ → List Disk → Type 0
AreGone boundaries fd n [] block_seq disks = Unit
AreGone boundaries fd n (name ∷ names) block_seq disks =
    ((key : ℕ) × (d : Disk) × (get_elem? fd.hash_keys block_seq ≡ some key)
      × (get_elem? disks (target n (get_index boundaries key)) ≡ some d)
      × (content_of name d ≡ none))
    × AreGone boundaries fd n names (block_seq + 1) disks

remove-StayAway :
    (disks : List Disk) (j : ℕ) (d : Disk) (name : Text) (d' : Disk)
    → get_elem? disks j ≡ some d
    → ((other : Text) → content_of other d ≡ none → content_of other d' ≡ none)
    → StayAway disks (set disks j d')
remove-StayAway disks j d name d' at away k e other at_k absent = elim (Bool-cases (j == k)) [
  | inl here ↦
      let same : j ≡ k = ground (arith, here) in
      let inside : j < length disks = lt-get_elem? disks j d at in
      let found : get_elem? (set disks j d') k ≡ some d' =
        ap (get_elem? (set disks j d')) (sym same) ∙ get_elem?-set_self disks j d' inside in
      let before : d ≡ e = some-injective _ _ (sym at ∙ ap (get_elem? disks) same ∙ at_k) in
      (d', found, away other (ap (content_of other) before ∙ absent))
  | inr there ↦
      let apart : j ≢ k = ground (arith, there) in
      (e, get_elem?-set_ne disks j k d' apart ∙ at_k, absent)
]

remove_blocks_lem :
    (boundaries : Histogram) (fd : FileDescription) (names : List Text) (block_seq : ℕ)
    (disks : List Disk)
    → length disks ≢ 0
    → block_seq + length names ≤ length fd.hash_keys
    → (disks' : List Disk) × (remove_blocks boundaries fd names block_seq disks
        ≡ some (true, disks'))
      × StayAway disks disks'
      × AreGone boundaries fd (length disks) names block_seq disks'
unfolding remove_blocks
remove_blocks_lem boundaries fd [] i disks some_nodes enough =
    (disks, refl, λ k d name at absent. (d, at, absent), tt)
remove_blocks_lem boundaries fd (name ∷ names) i disks some_nodes enough =
    let n = length disks in
    let (key, keyed) = get_elem?-lt fd.hash_keys i (omega (arith, enough)) in
    let k = target n (get_index boundaries key) in
    let below = target_below n (get_index boundaries key) some_nodes in
    let (d, at) = get_elem?-lt disks k below in
    let (o, done, left, answer) = delete_served n k some_nodes name [] 0 0 d in
    let changed = set disks k o.disk in
    let same : length changed ≡ n = length-set disks k o.disk in
    let (disks', removed, later, gone) =
      remove_blocks_lem boundaries fd names (i + 1) changed (λ e. some_nodes (sym same ∙ e))
        (omega (arith, enough)) in
    let away =
      remove-StayAway disks k d name o.disk at (λ other absent.
        ap (content_of other) left ∙ content_of-remove_other name other d absent) in
    let here : get_elem? changed k ≡ some o.disk = get_elem?-set_self disks k o.disk below in
    let (d', at', absent) =
      later k o.disk name here (ap (content_of name) left ∙ content_of-remove name d) in
    (
      disks',
      rw (keyed, ◌>>=◌, at, done, answer) removed,
      λ j e other at_j away_j.
          let (e', at_e, absent_e) = away j e other at_j away_j in later j e' other at_e absent_e,
      (
        (key, d', keyed, at', absent),
        subst (λ m. AreGone boundaries fd m names (i + 1) disks') same gone,
      ),
    )

module _ (site : Site) (name : Text) (w : World) where
  -- The end of a removal, when every primary file is removed.
  pub remove_file_lem :
      (disks : List Disk)
      → file_exist name w.leader ≡ true
      → remove_file site name (record { leader = w.leader; disks = disks })
        ≡ some (true, record { leader = (file_delete site name w.leader).1; disks = disks })
  unfolding handle file_delete
  remove_file_lem disks there = rw (there, ◌>>=◌) refl

  -- The removal of a file that exists, when a request of it is answered with a key for each primary file,
  -- succeeds. Then the file does not exist, its name is free for another upload, and no node that a
  -- primary file of the answer belongs to has it.
  pub remove_lem :
      (fd : FileDescription) (l : Leader)
      → length w.disks ≢ 0
      → file_exist name w.leader ≡ true
      → file_request site (request name) w.leader ≡ some (fd, l)
      → length fd.primary_files ≤ length fd.hash_keys
      → (w' : World) × (remove site name w ≡ some (true, w'))
        × (exists site name w' ≡ some false)
        × (filter (named name) w'.leader.tables.file_table ≡ [])
        × AreGone site.boundaries fd (length w.disks) fd.primary_files 0 w'.disks
  unfolding remove handle
  remove_lem fd l some_nodes there answer enough =
      let same : l ≡ w.leader =
        file_request-Keeps site (request name) w.leader (fd, l) refl answer in
      let (disks, removed, away, gone) =
        remove_blocks_lem site.boundaries fd fd.primary_files 0 w.disks some_nodes
          (omega (arith, enough)) in
      let w' : World = record { leader = (file_delete site name w.leader).1; disks = disks } in
      let (done, absent, blocks, unknown, others) = delete_lem site name w.leader there in
      (
        w',
        rw (answer, ◌>>=◌, removed)
            (ap (λ x. remove_file site name (record { leader = x; disks = disks })) same
              ∙ remove_file_lem disks there),
        exists_lem site name w' ∙ ap some absent,
        delete-rows site name w.leader there,
        gone,
      )
