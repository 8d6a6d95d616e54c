-- ===== src/Scheduler/Base/Listing.antt =====
-- The third loop of scheduler_base.cc: what a block lists of its neighbours' chunks.
use velox_dfs.Base.{
  ℕ, zero, suc, ◌+◌, ◌%◌, ◌≤◌, ◌<◌, ◌≡◌, refl, ap, sym, ◌∙◌, List, [], ◌∷◌, ◌++◌, some, Text,
  get_elem?, length, range_from, ◌>>=◌, arith, All, get_elem?-lt, subst, set, take, reverse, ◌==◌,
  leb, if◌then◌else◌, take-append_le, length-set, get_elem?-set_self, get_elem?-set_ne, true, false,
  length-append, lt-get_elem?, some-injective, ℕ_discrete, set_same, set-set,
}
use velox_dfs.Messages.{BlockInfo, LogicalBlock}
use velox_dfs.Scheduler.{get_replicas_id}
use velox_dfs.Scheduler.Base.{steal_from, steal_all, list_replicas}

-- Block k holds `own k` first, as its own, at the host numbered k.
pub record Owns (nodes : List Text) (own : ℕ → List BlockInfo) (k : ℕ) (l : LogicalBlock)
    : Type 0 where
  pub host : get_elem? nodes k ≡ some l.host_name
  pub count : l.primary_chunk_num ≡ length (own k)
  pub first : take (length (own k)) l.physical_blocks ≡ own k
  pub long : length (own k) ≤ length l.physical_blocks

abbrev pub AllOwn : List Text → (ℕ → List BlockInfo) → List LogicalBlock → Type 0
AllOwn nodes own ls =
    (length ls ≡ length nodes)
    × ((k : ℕ) (l : LogicalBlock) → get_elem? ls k ≡ some l → Owns nodes own k l)

-- What one replica adds, when every block holds its own chunks.
abbrev pub list_one : ℕ → ℕ → (ℕ → List BlockInfo) → LogicalBlock → ℕ → LogicalBlock
list_one n k own l id =
    let noted =
      if k == (id + 1) % n
      then record l { replica_chunk_num_0 = some (length (own id)) }
      else record l { replica_chunk_num_1 = some (length (own id)) } in
    if id == k
    then noted
    else record noted { physical_blocks = noted.physical_blocks ++ reverse (own id) }

abbrev pub list_many : ℕ → ℕ → (ℕ → List BlockInfo) → LogicalBlock → List ℕ → LogicalBlock
list_many n k own l [] = l
list_many n k own l (id ∷ ids) = list_many n k own (list_one n k own l id) ids

steal_from-list_one :
    (nodes : List Text) (own : ℕ → List BlockInfo) (k : ℕ) (l : LogicalBlock)
    (ls : List LogicalBlock) (id : ℕ)
    → AllOwn nodes own ls
    → id < length nodes
    → steal_from (length nodes) k l ls id ≡ some (list_one (length nodes) k own l id)
unfolding steal_from
steal_from-list_one nodes own k l ls id a h =
    let (source, e) = get_elem?-lt ls id (omega (arith, a.0)) in
    let o : Owns nodes own id source = a.1 id source e in
    let full : (length nodes == 0) ≡ false = ground arith in rw (full, e, ◌>>=◌, o.count, o.first)

list_one-Owns :
    (nodes : List Text) (n : ℕ) (own : ℕ → List BlockInfo) (k : ℕ) (l : LogicalBlock) (id : ℕ)
    → Owns nodes own k l
    → Owns nodes own k (list_one n k own l id)
list_one-Owns nodes n own k l id o = ground (
  arith,
  take-append_le (length (own k)) l.physical_blocks (reverse (own id)),
  length-append l.physical_blocks (reverse (own id)),
)

set-AllOwn :
    (nodes : List Text) (own : ℕ → List BlockInfo) (ls : List LogicalBlock) (k : ℕ)
    (l : LogicalBlock)
    → AllOwn nodes own ls
    → Owns nodes own k l
    → AllOwn nodes own (set ls k l)
set-AllOwn nodes own ls k l a o = (
  length-set ls k l ∙ a.0,
  λ j m e. elim (ℕ_discrete k j) [
    | yes same ↦
        let inside : k < length ls =
          rw (same, ← length-set ls j l) (lt-get_elem? (set ls j l) j m (rw same at e)) in
        let found : get_elem? (set ls k l) j ≡ some l =
          rw (← same) (get_elem?-set_self ls k l inside) in
        subst (λ x. Owns nodes own j x) (some-injective _ _ (sym found ∙ e))
          (subst (λ x. Owns nodes own x l) same o)
    | no differ ↦ a.1 j m (sym (get_elem?-set_ne ls k j l differ) ∙ e)
  ],
)

steal_all-list_many :
    (nodes : List Text) (own : ℕ → List BlockInfo) (k : ℕ) (l : LogicalBlock)
    (ls : List LogicalBlock) (ids : List ℕ)
    → AllOwn nodes own ls
    → get_elem? ls k ≡ some l
    → All (λ id. id < length nodes) ids
    → (steal_all (length nodes) k ls ids ≡ some (set ls k (list_many (length nodes) k own l ids)))
      × AllOwn nodes own (set ls k (list_many (length nodes) k own l ids))
unfolding steal_all
steal_all-list_many nodes own k l ls [] a e h =
    let same = set_same ls k l e in (ap some (sym same), rw same a)
steal_all-list_many nodes own k l ls (id ∷ ids) a e h =
    let n = length nodes in
    let l' = list_one n k own l id in
    let a' = set-AllOwn nodes own ls k l' a (list_one-Owns nodes n own k l id (a.1 k l e)) in
    let e' = get_elem?-set_self ls k l' (lt-get_elem? ls k l e) in
    let (p, b) = steal_all-list_many nodes own k l' (set ls k l') ids a' e' h.1 in
    let twice = set-set ls k l' (list_many n k own l' ids) in
    (
      rw (e, ◌>>=◌, steal_from-list_one nodes own k l ls id a h.0) (p ∙ ap some twice),
      rw (← twice) b,
    )

-- When every block holds its own chunks, the loop goes through, and each block from number j on gets
-- the lists of its replicas.
pub list_replicas_lem :
    (nodes : List Text) (own : ℕ → List BlockInfo) (j m : ℕ) (ls : List LogicalBlock)
    → ((k : ℕ) (t : Text)
        → get_elem? nodes k ≡ some t
        → All (λ id. id < length nodes) (get_replicas_id nodes t))
    → AllOwn nodes own ls
    → j + m ≡ length nodes
    → (rs : List LogicalBlock) × (list_replicas nodes ls (range_from j m) ≡ some rs)
      × (length rs ≡ length ls)
      × ((k : ℕ) (l : LogicalBlock)
          → get_elem? ls k ≡ some l
          → get_elem? rs k
            ≡ some (
                if leb j k
                then list_many (length nodes) k own l (get_replicas_id nodes l.host_name)
                else l))
unfolding list_replicas
list_replicas_lem nodes own j zero ls ids a h =
    (ls, refl, refl, λ k l e. ground (arith, lt-get_elem? ls k l e))
list_replicas_lem nodes own j (suc m) ls ids a h =
    let (l, e) = get_elem?-lt ls j (omega (arith, a.0)) in
    let n = length nodes in
    let listed = list_many n j own l (get_replicas_id nodes l.host_name) in
    let (p, b) =
      steal_all-list_many nodes own j l ls (get_replicas_id nodes l.host_name) a e
        (ids j l.host_name (a.1 j l e).host) in
    let (rs, q, len, spec) =
      list_replicas_lem nodes own (j + 1) m (set ls j listed) ids b (omega arith) in
    (
      rs,
      rw (e, ◌>>=◌, p) q,
      len ∙ length-set ls j listed,
      λ k x f. elim (ℕ_discrete j k) [
        | yes same ↦
            let self = get_elem?-set_self ls j listed (lt-get_elem? ls j l e) in
            let past : leb (j + 1) j ≡ false = ground arith in
            let here : leb j j ≡ true = ground arith in
            let found : get_elem? rs j ≡ some listed = rw past at (spec j listed self) in
            let old : l ≡ x = some-injective _ _ (sym e ∙ rw (← same) at f) in
            subst
              (λ i.
                get_elem? rs i
                ≡ some (
                    if leb j i then list_many n i own x (get_replicas_id nodes x.host_name) else x))
              same
              (rw here (
                subst
                  (λ y.
                    get_elem? rs j ≡ some (list_many n j own y (get_replicas_id nodes y.host_name)))
                  old found))
        | no differ ↦
            let next : leb (j + 1) k ≡ leb j k = ground arith in
            rw next at (spec k x (get_elem?-set_ne ls j k listed differ ∙ f))
      ],
    )
