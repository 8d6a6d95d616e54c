-- ===== src/Client/Upload/Invariant.antt =====
-- What holds between two chunks of an upload, and how one message changes it.
use velox_dfs.Base.{
  ℕ, zero, suc, ◌+◌, ◌^◌, ◌≤◌, ◌<◌, ◌≡◌, ◌≢◌, refl, ap, sym, ◌∙◌, subst, true, false, List, [], ◌∷◌,
  ◌++◌, none, some, Text, get_elem?, length, take, drop, set, length-set, take-append_le, ◌==◌,
  arith, ℕ_discrete,
}
use mathlib.Core.List.{append-nil}
use velox_dfs.Messages.{BlockMetadata, ChunkMetadata}
use velox_dfs.Histogram.{get_index}
use velox_dfs.Disk.{Disk}
use velox_dfs.FileLeader.{Pick}
use velox_dfs.Client.Upload.{Job, State, find_block, put_block, primary_name, perform}
use velox_dfs.Client.Upload.Store.{find-put, Holds, IsFree, Holds-set_ne, IsFree-set_ne}

pub get_elem?-append_left {ℓ} :
    {A : Type ℓ} (xs ys : List A) (i : ℕ) (a : A)
    → get_elem? xs i ≡ some a
    → get_elem? (xs ++ ys) i ≡ some a
get_elem?-append_left [] ys i a e = absurd (cc)
get_elem?-append_left (x ∷ xs) ys zero a e = e
get_elem?-append_left (x ∷ xs) ys (suc i) a e = get_elem?-append_left xs ys i a e

pub get_elem?-last {ℓ} :
    {A : Type ℓ} (xs : List A) (a : A) → get_elem? (xs ++ (a ∷ [])) (length xs) ≡ some a
get_elem?-last [] a = refl
get_elem?-last (x ∷ xs) a = get_elem?-last xs a

pub slice_before :
    (v w : Text) (offset size : ℕ)
    → offset + size ≤ length v
    → take size (drop offset (v ++ w)) ≡ take size (drop offset v)
slice_before v w zero size h = take-append_le size v w (omega arith)
slice_before [] w (suc offset) size h = absurd (omega arith)
slice_before (c ∷ v) w (suc offset) size h = slice_before v w offset size (omega arith)

-- A chunk is listed in the metadata of its primary file, and its range of that file, on the node that
-- owns the file's key, holds the content.
pub record IsServed (job : Job) (u : State) (disks : List Disk) (pick : Pick) (content : Text)
    : Type 0 where
  pub server : ℕ
  pub index : ℕ
  pub stored : Text
  pub below : server < length disks
  pub found : find_block server u.blocks_metadata ≡ some pick.0
  pub named : (pick.0).name ≡ primary_name job server
  pub owned : get_index job.boundaries (pick.0).hash_key ≡ some server
  pub listed : get_elem? (pick.0).chunks index ≡ some pick.1
  pub holds : Holds job disks server stored
  pub short : length stored < 2 ^ 63
  pub nonempty : 0 < (pick.1).size
  pub inside : (pick.1).offset + (pick.1).size ≤ length stored
  pub slice : take (pick.1).size (drop (pick.1).offset stored) ≡ content

-- What server k has when the bytes before `start` are sent: a place for its primary file, or the file.
pub data Slot (job : Job) (u : State) (disks : List Disk) (start k : ℕ) : Type 0 where
  fresh : find_block k u.blocks_metadata ≡ none → IsFree job disks k → Slot job u disks start k
  used :
      (b : BlockMetadata) (v : Text)
      → find_block k u.blocks_metadata ≡ some b
      → b.name ≡ primary_name job k
      → get_index job.boundaries b.hash_key ≡ some k
      → b.size ≡ length v
      → Holds job disks k v
      → length v ≤ start
      → Slot job u disks start k

-- Later states keep each primary file, with more chunks and more bytes.
unfoldable pub IsLater : Job → State → List Disk → State → List Disk → Type 0
IsLater job u disks u' disks' =
    (k : ℕ) (b : BlockMetadata) (v : Text)
    → find_block k u.blocks_metadata ≡ some b
    → Holds job disks k v
    → (b' : BlockMetadata) × (w : Text) × (find_block k u'.blocks_metadata ≡ some b')
      × (b'.name ≡ b.name)
      × (b'.hash_key ≡ b.hash_key)
      × ((j : ℕ) (c : ChunkMetadata)
          → get_elem? b.chunks j ≡ some c
          → get_elem? b'.chunks j ≡ some c)
      × Holds job disks' k (v ++ w)

module _ (job : Job) (before : List Disk) where
  pub record IsSent (u : State) (disks : List Disk) (start : ℕ) : Type 0 where
    pub performed : perform u.sent before ≡ some disks
    pub same_length : length disks ≡ length job.nodes
    pub slots : (k : ℕ) → k < length job.nodes → Slot job u disks start k

  -- One step for server k, whose primary file has the record b and the bytes v afterwards.
  module _ (u u' : State) (disks : List Disk) (k : ℕ) (b : BlockMetadata) (d : Disk) (v : Text)
      (start size : ℕ) (made : u'.blocks_metadata ≡ put_block k b u.blocks_metadata)
      (sent : IsSent u disks start) where
    other_slot :
        (j : ℕ) → k ≢ j → Slot job u disks start j → Slot job u' (set disks k d) (start + size) j
    other_slot j apart (fresh absent free) =
        fresh (ap (find_block j) made ∙ find-put j k b u.blocks_metadata ∙ rw other absent)
          (IsFree-set_ne job disks k j d apart free)
      where
        other : (k == j) ≡ false
        other = ground arith
    other_slot j apart (used b0 v0 found named owned counts holds short) =
        used b0 v0 (ap (find_block j) made ∙ find-put j k b u.blocks_metadata ∙ rw other found)
          named owned counts (Holds-set_ne job disks k j d v0 apart holds) (omega arith)
      where
        other : (k == j) ≡ false
        other = ground arith

    pub found_self : find_block k u'.blocks_metadata ≡ some b
    found_self =
        let same : (k == k) ≡ true = ground arith in
        ap (find_block k) made ∙ find-put k k b u.blocks_metadata ∙ rw same refl

    pub step-IsSent :
        perform u'.sent before ≡ some (set disks k d)
        → b.name ≡ primary_name job k
        → get_index job.boundaries b.hash_key ≡ some k
        → b.size ≡ length v
        → Holds job (set disks k d) k v
        → length v ≤ start + size
        → IsSent u' (set disks k d) (start + size)
    step-IsSent performed named owned counts holds short = record {
      performed = performed;
      same_length = length-set disks k d ∙ sent.same_length;
      slots = λ j below. elim (ℕ_discrete k j) [
        | yes same ↦
            subst (Slot job u' (set disks k d) (start + size)) same
              (used b v found_self named owned counts holds short)
        | no apart ↦ other_slot j apart (sent.slots j below)
      ];
    }

    pub step-IsLater :
        ((b0 : BlockMetadata) (v0 : Text)
          → find_block k u.blocks_metadata ≡ some b0
          → Holds job disks k v0
          → (w : Text) × (b.name ≡ b0.name)
            × (b.hash_key ≡ b0.hash_key)
            × ((j : ℕ) (c : ChunkMetadata)
                → get_elem? b0.chunks j ≡ some c
                → get_elem? b.chunks j ≡ some c)
            × Holds job (set disks k d) k (v0 ++ w))
        → IsLater job u disks u' (set disks k d)
    unfolding IsLater
    step-IsLater own j b0 v0 found holds = elim (ℕ_discrete k j) [
      | yes same ↦ here same
      | no apart ↦ there apart
    ]
      where
        Later : ℕ → Type 0
        Later i =
            (b' : BlockMetadata) × (w : Text) × (find_block i u'.blocks_metadata ≡ some b')
            × (b'.name ≡ b0.name)
            × (b'.hash_key ≡ b0.hash_key)
            × ((j : ℕ) (c : ChunkMetadata)
                → get_elem? b0.chunks j ≡ some c
                → get_elem? b'.chunks j ≡ some c)
            × Holds job (set disks k d) i (v0 ++ w)

        here : k ≡ j → Later j
        here same =
            let (w, named, keyed, kept, has) =
              own b0 v0 (ap (λ i. find_block i u.blocks_metadata) same ∙ found)
                (subst (λ i. Holds job disks i v0) (sym same) holds) in
            subst Later same (b, w, found_self, named, keyed, kept, has)

        there : k ≢ j → Later j
        there apart =
            let other : (k == j) ≡ false = ground arith in
            (
              b0,
              [],
              ap (find_block j) made ∙ find-put j k b u.blocks_metadata ∙ rw other found,
              refl,
              refl,
              λ i c e. e,
              subst (Holds job (set disks k d) j) (sym (append-nil v0))
                  (Holds-set_ne job disks k j d v0 apart holds),
            )
