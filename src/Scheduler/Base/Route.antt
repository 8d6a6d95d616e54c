-- ===== src/Scheduler/Base/Route.antt =====
-- The second loop of scheduler_base.cc, seen as one pass that routes each chunk to a node.
use mathlib.Core.Option
use mathlib.Core.Option.{some-injective}
use velox_dfs.Base.{
  ℕ, zero, suc, ◌<◌, ◌≡◌, refl, ap, ◌∙◌, List, [], ◌∷◌, Option, some, Text, set, get_elem?, length,
  ◌==◌, if◌then◌else◌, ◌>>=◌, >>=-eq-some, arith, All, get_elem?-lt, subst,
}
use velox_dfs.Messages.{BlockInfo, LogicalBlock, FileDescription}
use velox_dfs.Scheduler.{index_of, chunk_at, add_primary}
use velox_dfs.Scheduler.Base.{at_or_create, assign_chunk, assign_chunks}

-- A chunk with the number of the node that stores it.
abbrev pub Routed : Type 0
Routed = ℕ × BlockInfo

-- The chunks numbered `is`, each with the place of its host among the nodes.
unfoldable pub route : FileDescription → List Text → List ℕ → Option (List Routed)
route fd nodes [] = some []
route fd nodes (i ∷ is) = do
  host ← get_elem? fd.block_hosts i
  block ← chunk_at fd i
  rest ← route fd nodes is
  some ((index_of host nodes, block) ∷ rest)

-- The chunks routed to node k, in their order.
abbrev pub routed_to : ℕ → List Routed → List BlockInfo
routed_to k [] = []
routed_to k ((j, b) ∷ r) = if j == k then b ∷ routed_to k r else routed_to k r

abbrev pub modify : List LogicalBlock → ℕ → (LogicalBlock → LogicalBlock) → List LogicalBlock
modify [] k f = []
modify (x ∷ xs) zero f = f x ∷ xs
modify (x ∷ xs) (suc k) f = x ∷ modify xs k f

abbrev pub place_all : List LogicalBlock → List Routed → List LogicalBlock
place_all lblocks [] = lblocks
place_all lblocks ((k, b) ∷ r) = place_all (modify lblocks k (λ l. add_primary l b)) r

abbrev pub fill : LogicalBlock → List BlockInfo → LogicalBlock
fill lblock [] = lblock
fill lblock (b ∷ bs) = fill (add_primary lblock b) bs

abbrev pub AllBelow : ℕ → List Routed → Type 0
AllBelow n = All λ r. r.0 < n

set-modify :
    (xs : List LogicalBlock) (k : ℕ) (x : LogicalBlock) (f : LogicalBlock → LogicalBlock)
    → get_elem? xs k ≡ some x
    → set xs k (f x) ≡ modify xs k f
set-modify [] k x f e = refl
set-modify (y ∷ ys) zero x f e = ground arith
set-modify (y ∷ ys) (suc k) x f e = ap (◌∷◌ y) (set-modify ys k x f e)

pub length-modify :
    (xs : List LogicalBlock) (k : ℕ) (f : LogicalBlock → LogicalBlock)
    → length (modify xs k f) ≡ length xs
length-modify [] k f = refl
length-modify (x ∷ xs) zero f = refl
length-modify (x ∷ xs) (suc k) f = ap suc (length-modify xs k f)

pub length-place_all :
    (lblocks : List LogicalBlock) (r : List Routed) → length (place_all lblocks r) ≡ length lblocks
length-place_all lblocks [] = refl
length-place_all lblocks ((k, b) ∷ r) =
    length-place_all (modify lblocks k (λ l. add_primary l b)) r
    ∙ length-modify lblocks k (λ l. add_primary l b)

assign_chunk-modify :
    (fd : FileDescription) (nodes : List Text) (lblocks : List LogicalBlock) (i : ℕ) (host : Text)
    (block : BlockInfo)
    → get_elem? fd.block_hosts i ≡ some host
    → chunk_at fd i ≡ some block
    → index_of host nodes < length lblocks
    → assign_chunk fd nodes lblocks i
      ≡ some (modify lblocks (index_of host nodes) (λ l. add_primary l block))
unfolding assign_chunk
assign_chunk-modify fd nodes lblocks i host block p q h =
    let target = index_of host nodes in
    let (l, at) = get_elem?-lt lblocks target h in
    let old : at_or_create lblocks target ≡ lblocks = ground arith in
    rw (p, q, ◌>>=◌, old, at) (ap some (set-modify lblocks target l (λ l. add_primary l block) at))

-- When every host is a node, the loop places the routed chunks and makes no new key.
pub assign_chunks-place_all :
    (fd : FileDescription) (nodes : List Text) (is : List ℕ) (lblocks : List LogicalBlock)
    (r : List Routed)
    → route fd nodes is ≡ some r
    → AllBelow (length lblocks) r
    → assign_chunks fd nodes lblocks is ≡ some (place_all lblocks r)
unfolding route assign_chunks
assign_chunks-place_all fd nodes [] lblocks r e h = ground arith
assign_chunks-place_all fd nodes (i ∷ is) lblocks r e h =
    let (host, p, e₁) = >>=-eq-some (get_elem? fd.block_hosts i) _ e in
    let (block, q, e₂) = >>=-eq-some (chunk_at fd i) _ e₁ in
    let (rest, s, e₃) = >>=-eq-some (route fd nodes is) _ e₂ in
    let target = index_of host nodes in
    let f : LogicalBlock → LogicalBlock = λ l. add_primary l block in
    let c : ◌≡◌ {A = List Routed} ((target, block) ∷ rest) r = some-injective _ _ e₃ in
    subst
      (λ t.
        AllBelow (length lblocks) t
        → assign_chunks fd nodes lblocks (i ∷ is) ≡ some (place_all lblocks t))
      c
      (λ b.
        rw (assign_chunk-modify fd nodes lblocks i host block p q b.0, ◌>>=◌)
          (assign_chunks-place_all fd nodes is (modify lblocks target f) rest s
            (rw (length-modify lblocks target f) b.1)))
      h

modified :
    (xs : List LogicalBlock) (k j : ℕ) (f : LogicalBlock → LogicalBlock)
    → get_elem? (modify xs j f) k
      ≡ (if j == k then Option.map f (get_elem? xs k) else get_elem? xs k)
modified [] k j f = ground arith
modified (x ∷ xs) zero zero f = refl
modified (x ∷ xs) zero (suc j) f = ground arith
modified (x ∷ xs) (suc k) zero f = ground arith
modified (x ∷ xs) (suc k) (suc j) f = ground (arith, modified xs k j f)

-- Each block is filled with the chunks of its node, in their order.
pub get_elem?-place_all :
    (r : List Routed) (lblocks : List LogicalBlock) (k : ℕ)
    → get_elem? (place_all lblocks r) k
      ≡ Option.map (λ l. fill l (routed_to k r)) (get_elem? lblocks k)
get_elem?-place_all [] lblocks k = ground arith
get_elem?-place_all ((j, b) ∷ r) lblocks k =
    get_elem?-place_all r (modify lblocks j (λ l. add_primary l b)) k
    ∙ (rw (modified lblocks k j (λ l. add_primary l b)) (ground arith))
