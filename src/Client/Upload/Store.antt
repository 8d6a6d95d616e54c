-- ===== src/Client/Upload/Store.antt =====
-- The primary files on the nodes while an upload goes on, against its metadata.
use velox_dfs.Base.{
  ℕ, ◌+◌, ◌<◌, ◌≡◌, ◌≢◌, refl, ap, sym, ◌∙◌, List, [], ◌∷◌, ◌++◌, some, Text, get_elem?, length,
  take, drop, set, get_elem?-set_self, get_elem?-set_ne, take-append-drop, drop_all, ◌==◌,
  if◌then◌else◌, ◌>>=◌, >>=-eq-some, arith, some-injective, drop-drop, take_all,
}
use mathlib.Core.List.{append-nil}
use velox_dfs.Messages.{BlockMetadata, IoOperation, block_insert, block_update}
use velox_dfs.Disk.{Disk, content_of}
use velox_dfs.Disk.Write.{IsStorable, write-content_of}
use velox_dfs.Disk.Slice.{update_lem}
use velox_dfs.BlockNode.{io_operation, message, Outcome}
use velox_dfs.BlockNode.Serve.{insert_served, update_served}
use velox_dfs.Client.Upload.{Job, find_block, put_block, primary_name, perform}

pub find-put :
    (j k : ℕ) (b : BlockMetadata) (m : List (ℕ × BlockMetadata))
    → find_block j (put_block k b m) ≡ (if k == j then some b else find_block j m)
unfolding find_block put_block
find-put j k b [] = ground arith
find-put j k b ((i, other) ∷ m) = ground (arith, find-put j k b m)

pub perform-append :
    (ms : List (ℕ × IoOperation)) (k : ℕ) (m : IoOperation) (before disks : List Disk) (d : Disk)
    (o : Outcome)
    → perform ms before ≡ some disks
    → get_elem? disks k ≡ some d
    → io_operation (length disks) k m d ≡ some o
    → perform (ms ++ ((k, m) ∷ [])) before ≡ some (set disks k o.disk)
unfolding perform
perform-append [] k m before disks d o e at h =
    let same : before ≡ disks = some-injective _ _ e in rw (same, at, ◌>>=◌, h) refl
perform-append ((j, m') ∷ ms) k m before disks d o e at h =
    let (d', found, next) = >>=-eq-some (get_elem? before j) _ e in
    let (o', done, rest) = >>=-eq-some (io_operation (length before) j m' d') _ next in
    rw (found, ◌>>=◌, done) (perform-append ms k m (set before j o'.disk) disks d o rest at h)

-- All of a text is what is before a position, what is in a range from there on, and the rest.
pub append_at_end :
    (old v new : Text)
    → take (length old) new ≡ take (length old) old
    → take (length v) (drop (length old) new) ≡ v
    → drop (length old + length v) new ≡ drop (length old + length v) old
    → new ≡ old ++ v
append_at_end old v new before written after =
    let tail = drop (length old) new in
    let none_left : drop (length v) tail ≡ [] =
      drop-drop (length v) (length old) new
      ∙ after
      ∙ drop_all (length old + length v) old (omega arith) in
    sym (take-append-drop (length old) new)
    ∙ ap (λ t. t ++ tail) (before ∙ take_all old)
    ∙ ap (λ t. old ++ t)
        (sym (take-append-drop (length v) tail)
          ∙ ap (λ t. t ++ drop (length v) tail) written
          ∙ ap (λ t. v ++ t) none_left
          ∙ append-nil v)

module _ (job : Job) where
  -- Node k has the bytes in the primary file of server k.
  abbrev pub Holds : List Disk → ℕ → Text → Type 0
  Holds disks k v =
      (d : Disk) × (get_elem? disks k ≡ some d) × (content_of (primary_name job k) d ≡ some v)

  abbrev pub IsFree : List Disk → ℕ → Type 0
  IsFree disks k = (d : Disk) × (get_elem? disks k ≡ some d) × IsStorable (primary_name job k) d

  pub Holds-unique :
      (disks : List Disk) (k : ℕ) (v w : Text) → Holds disks k v → Holds disks k w → v ≡ w
  Holds-unique disks k v w (d, at, has) (e, at', has') =
      let same : d ≡ e = some-injective _ _ (sym at ∙ at') in
      some-injective _ _ (sym has ∙ ap (content_of (primary_name job k)) same ∙ has')

  pub Holds-set_ne :
      (disks : List Disk) (j k : ℕ) (d : Disk) (v : Text)
      → j ≢ k
      → Holds disks k v
      → Holds (set disks j d) k v
  Holds-set_ne disks j k d v apart (dk, at, has) =
      (dk, get_elem?-set_ne disks j k d apart ∙ at, has)

  pub IsFree-set_ne :
      (disks : List Disk) (j k : ℕ) (d : Disk) → j ≢ k → IsFree disks k → IsFree (set disks j d) k
  IsFree-set_ne disks j k d apart (dk, at, w) = (dk, get_elem?-set_ne disks j k d apart ∙ at, w)

  -- One more message to server k: an insertion into a free place.
  pub perform-insert :
      (ms : List (ℕ × IoOperation)) (k : ℕ) (v : Text) (before disks : List Disk)
      → perform ms before ≡ some disks
      → k < length disks
      → IsFree disks k
      → (d : Disk) × (perform
            (ms ++ ((k, message block_insert (primary_name job k) v 0 0) ∷ []))
            before
          ≡ some (set disks k d))
        × Holds (set disks k d) k v
  perform-insert ms k v before disks e below (d, at, w) =
      let nodes : length disks ≢ 0 = λ z. absurd (omega arith) in
      let (o, served, wrote) = insert_served (length disks) k nodes (primary_name job k) v 0 0 d in
      (
        o.disk,
        perform-append ms k _ before disks d o e at served,
        (
          o.disk,
          get_elem?-set_self disks k o.disk below,
          ap (content_of (primary_name job k)) wrote ∙ write-content_of (primary_name job k) v d w,
        ),
      )

  -- An update at the end of the bytes that are there.
  pub perform-update :
      (ms : List (ℕ × IoOperation)) (k : ℕ) (old v : Text) (before disks : List Disk)
      → perform ms before ≡ some disks
      → k < length disks
      → Holds disks k old
      → (d : Disk) × (perform
            (ms ++ ((k, message block_update (primary_name job k) v (length old) (length v)) ∷ []))
            before
          ≡ some (set disks k d))
        × Holds (set disks k d) k (old ++ v)
  perform-update ms k old v before disks e below (d, at, has) =
      let nodes : length disks ≢ 0 = λ z. absurd (omega arith) in
      let (d', new, updated, has', kept, written, after) =
        update_lem (primary_name job k) old v (length old) d has (omega arith) in
      let (o, served, same) =
        update_served (length disks) k nodes (primary_name job k) v (length old) (length v) d d'
          updated in
      (
        o.disk,
        perform-append ms k _ before disks d o e at served,
        (
          o.disk,
          get_elem?-set_self disks k o.disk below,
          ap (content_of (primary_name job k)) same
              ∙ has'
              ∙ ap some (append_at_end old v new kept written after),
        ),
      )
