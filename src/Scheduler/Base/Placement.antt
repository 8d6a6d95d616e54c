-- ===== src/Scheduler/Base/Placement.antt =====
-- What the first two loops of scheduler_base.cc leave in each logical block.
use velox_dfs.Base.{
  ℕ, zero, suc, ◌+◌, ◌<◌, ◌≡◌, refl, ap, sym, List, [], ◌∷◌, ◌++◌, map, some, Text, get_elem?,
  length, sum, range_from, ◌>>=◌, arith, get_elem?-lt, subst, length-append, sum-append, text,
  to_string,
}
use mathlib.Core.List.{append-nil, append_assoc, map-append}
use velox_dfs.Messages.{BlockInfo, LogicalBlock, FileDescription, empty_logical_block}
use velox_dfs.Histogram.{Histogram}
use velox_dfs.Histogram.Random.{IsRising, random_total}
use velox_dfs.Scheduler.{index_of, chunk_at, add_primary, new_logical_block, at_host, block_info}
use velox_dfs.Scheduler.Base.{init_blocks}
use velox_dfs.Scheduler.Base.Route.{Routed, route, AllBelow, fill}

abbrev pub sizes : List BlockInfo → ℕ
sizes bs = sum (map (λ b. b.size) bs)

-- The chunks with their node set to the host of the block that takes them.
abbrev pub hosted : Text → List BlockInfo → List BlockInfo
hosted host = map (at_host host)

-- A block that holds these chunks as its own, at this host, and nothing else.
pub record Holds (host : Text) (bs : List BlockInfo) (l : LogicalBlock) : Type 0 where
  pub host_name : l.host_name ≡ host
  pub count : l.primary_chunk_num ≡ length bs
  pub total : l.size ≡ sizes bs
  pub blocks : l.physical_blocks ≡ hosted host bs

pub sizes-append : (xs ys : List BlockInfo) → sizes (xs ++ ys) ≡ sizes xs + sizes ys
sizes-append xs ys =
    rw (map-append (λ b. b.size) xs ys) (sum-append (map (λ b. b.size) xs) (map (λ b. b.size) ys))

add_primary-Holds :
    (host : Text) (bs : List BlockInfo) (l : LogicalBlock) (b : BlockInfo)
    → Holds host bs l
    → Holds host (bs ++ b ∷ []) (add_primary l b)
unfolding add_primary
add_primary-Holds host bs l b h = record {
  host_name = h.host_name;
  count = omega (arith, h.count, length-append bs (b ∷ []));
  total = omega (arith, h.total, sizes-append bs (b ∷ []));
  blocks = rw (h.blocks, h.host_name) (sym (map-append (at_host host) bs (b ∷ [])));
}

pub fill-Holds :
    (host : Text) (bs cs : List BlockInfo) (l : LogicalBlock)
    → Holds host bs l
    → Holds host (bs ++ cs) (fill l cs)
fill-Holds host bs [] l h = rw append-nil h
fill-Holds host bs (c ∷ cs) l h =
    subst (λ xs. Holds host xs (fill l (c ∷ cs))) (append_assoc bs (c ∷ []) cs)
      (fill-Holds host (bs ++ c ∷ []) cs (add_primary l c) (add_primary-Holds host bs l c h))

-- Each node has an empty block.
abbrev pub AllFresh : List Text → List LogicalBlock → Type 0
AllFresh [] [] = Unit {0}
AllFresh (t ∷ ts) (l ∷ ls) = Holds t [] l × AllFresh ts ls
AllFresh _ _ = ⊥

pub init_blocks_total :
    (hist : Histogram) (draws : ℕ → ℕ) (file_name : Text) (i : ℕ) (nodes : List Text)
    → IsRising 0 hist.boundaries
    → i + length nodes ≡ length hist.boundaries
    → (ls : List LogicalBlock) × (init_blocks hist draws file_name i nodes ≡ some ls)
      × AllFresh nodes ls
unfolding init_blocks new_logical_block
init_blocks_total hist draws file_name i [] r h = ([], refl, tt)
init_blocks_total hist draws file_name i (t ∷ ts) r h =
    let (key, e) = random_total hist (draws i) i r (omega arith) in
    let (ls, p, f) = init_blocks_total hist draws file_name (i + 1) ts r (omega arith) in
    (
      record empty_logical_block {
        seq = i;
        name = text "logical_" ++ (file_name ++ (text "_" ++ to_string i));
        file_name = file_name;
        hash_key = key;
        host_name = t;
      }
          ∷ ls,
      rw (e, ◌>>=◌, p),
      (ground arith, f),
    )

pub AllFresh-Holds :
    (nodes : List Text) (ls : List LogicalBlock) (k : ℕ)
    → AllFresh nodes ls
    → k < length nodes
    → (t : Text) × (l : LogicalBlock) × (get_elem? nodes k ≡ some t)
      × (get_elem? ls k ≡ some l)
      × Holds t [] l
AllFresh-Holds [] ls k f h = elim h [ ]
AllFresh-Holds (t ∷ ts) [] k f h = absurd f
AllFresh-Holds (t ∷ ts) (l ∷ ls) zero f h = (t, l, refl, refl, f.0)
AllFresh-Holds (t ∷ ts) (l ∷ ls) (suc k) f h = AllFresh-Holds ts ls k f.1 (omega arith)

-- A description whose lists are as long as its list of blocks, and whose hosts are nodes.
pub record IsWellFormed (fd : FileDescription) (nodes : List Text) : Type 0 where
  pub primary_files_length : length fd.primary_files ≡ length fd.blocks
  pub hash_keys_length : length fd.hash_keys ≡ length fd.blocks
  pub block_size_length : length fd.block_size ≡ length fd.blocks
  pub offsets_length : length fd.offsets ≡ length fd.blocks
  pub offsets_in_file_length : length fd.offsets_in_file ≡ length fd.blocks
  pub primary_sequences_length : length fd.primary_sequences ≡ length fd.blocks
  pub block_hosts_length : length fd.block_hosts ≡ length fd.blocks
  pub hosts_known :
      (i : ℕ) (host : Text)
      → get_elem? fd.block_hosts i ≡ some host
      → index_of host nodes < length nodes

pub chunk_at_total :
    (fd : FileDescription) (nodes : List Text) (i : ℕ)
    → IsWellFormed fd nodes
    → i < length fd.blocks
    → (b : BlockInfo) × (chunk_at fd i ≡ some b)
      × (get_elem? fd.block_size i ≡ some b.size)
      × (b.seq ≡ some i)
unfolding chunk_at
chunk_at_total fd nodes i w h =
    let (a₁, e₁) = get_elem?-lt fd.blocks i h in
    let (a₂, e₂) = get_elem?-lt fd.primary_files i (omega (arith, w.primary_files_length)) in
    let (a₃, e₃) = get_elem?-lt fd.hash_keys i (omega (arith, w.hash_keys_length)) in
    let (a₄, e₄) = get_elem?-lt fd.block_size i (omega (arith, w.block_size_length)) in
    let (a₅, e₅) = get_elem?-lt fd.offsets i (omega (arith, w.offsets_length)) in
    let (a₆, e₆) = get_elem?-lt fd.offsets_in_file i (omega (arith, w.offsets_in_file_length)) in
    let (a₇, e₇) =
      get_elem?-lt fd.primary_sequences i (omega (arith, w.primary_sequences_length)) in
    (block_info fd.name i a₁ a₂ a₃ a₄ a₅ a₆ a₇, rw (e₁, ◌>>=◌, e₂, e₃, e₄, e₅, e₆, e₇), e₄, refl)

pub route_total :
    (fd : FileDescription) (nodes : List Text) (i n : ℕ)
    → IsWellFormed fd nodes
    → i + n ≡ length fd.blocks
    → (r : List Routed) × (route fd nodes (range_from i n) ≡ some r)
      × AllBelow (length nodes) r
      × (length r ≡ n)
unfolding route
route_total fd nodes i zero w h = ([], refl, tt, refl)
route_total fd nodes i (suc n) w h =
    let (b, p, _, _) = chunk_at_total fd nodes i w (omega arith) in
    let (host, q) = get_elem?-lt fd.block_hosts i (omega (arith, w.block_hosts_length)) in
    let (r, s, below, len) = route_total fd nodes (i + 1) n w (omega arith) in
    ((index_of host nodes, b) ∷ r, rw (q, p, s, ◌>>=◌), (w.hosts_known i host q, below), ap suc len)

pub AllFresh-length :
    (nodes : List Text) (ls : List LogicalBlock) → AllFresh nodes ls → length ls ≡ length nodes
AllFresh-length [] [] f = refl
AllFresh-length [] (l ∷ ls) f = absurd f
AllFresh-length (t ∷ ts) [] f = absurd f
AllFresh-length (t ∷ ts) (l ∷ ls) f = ap suc (AllFresh-length ts ls f.1)
