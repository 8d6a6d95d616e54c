-- ===== src/Scheduler/Replicas.antt =====
-- The three nodes that hold a chunk.
use velox_dfs.Base.{
  ℕ, zero, suc, ◌+◌, ◌-◌, ◌%◌, ◌<◌, ◌≡◌, ◌≢◌, ap, List, [], ◌∷◌, some, Text, arith, length, All,
  get_elem?, text_eq, text_eq_refl, text_eq→eq, Bool-cases, inl, inr,
}
use velox_dfs.Scheduler.{index_of, left_of, right_of, get_replicas_id, get_replicas_id_left_first}

-- No text occurs twice.
abbrev pub IsFresh : Text → List Text → Type 0
IsFresh t [] = Unit {0}
IsFresh t (x ∷ xs) = (x ≢ t) × IsFresh t xs

abbrev pub AllDistinct : List Text → Type 0
AllDistinct [] = Unit {0}
AllDistinct (x ∷ xs) = IsFresh x xs × AllDistinct xs

IsFresh-get_elem? : (t : Text) (xs : List Text) (i : ℕ) → IsFresh t xs → get_elem? xs i ≢ some t
IsFresh-get_elem? t [] i f e = cc
IsFresh-get_elem? t (x ∷ xs) zero f e = f.0 (cc)
IsFresh-get_elem? t (x ∷ xs) (suc i) f e = IsFresh-get_elem? t xs i f.1 e

-- Among distinct nodes, `find` returns the place at which a node stands.
pub index_of-get_elem? :
    (nodes : List Text) (i : ℕ) (t : Text)
    → AllDistinct nodes
    → get_elem? nodes i ≡ some t
    → index_of t nodes ≡ i
unfolding index_of
index_of-get_elem? [] i t d e = absurd (cc)
index_of-get_elem? (x ∷ xs) zero t d e = ground (arith, text_eq_refl t)
index_of-get_elem? (x ∷ xs) (suc i) t d e = elim (Bool-cases (text_eq x t)) [
  | inl h ↦ let same : x ≡ t = text_eq→eq x t h in absurd (IsFresh-get_elem? x xs i d.0 (rw same e))
  | inr h ↦ rw h (ap suc (index_of-get_elem? xs i t d.1 e))
]

left_of_lem : (n which : ℕ) → which < n → n < 4294967296 → left_of n which ≡ (which + n - 1) % n
unfolding left_of
left_of_lem n zero h f = let e : (0 + n - 1) % n ≡ n - 1 = grind arith in rw e (ground arith)
left_of_lem n (suc which) h f =
    let e : (suc which + n - 1) % n ≡ which = grind arith in rw e (ground arith)

right_of_lem : (n which : ℕ) → which < n → right_of n which ≡ (which + 1) % n
unfolding right_of
right_of_lem n which h = grind arith

-- For a node of a ring of n (below 2^32) nodes the three replicas are itself and its neighbours
-- around the ring.
pub get_replicas_id_lem :
    (nodes : List Text) (node : Text)
    → index_of node nodes < length nodes
    → length nodes < 4294967296
    → let n = length nodes in
      let which = index_of node nodes in
      get_replicas_id nodes node ≡ which ∷ ((which + n - 1) % n) ∷ ((which + 1) % n) ∷ []
unfolding get_replicas_id
get_replicas_id_lem nodes node h f = cc (left_of_lem _ _ h f, right_of_lem _ _ h)

pub neighbours-below :
    (nodes : List Text) (node : Text)
    → index_of node nodes < length nodes
    → length nodes < 4294967296
    → (left_of (length nodes) (index_of node nodes) < length nodes)
      × (right_of (length nodes) (index_of node nodes) < length nodes)
neighbours-below nodes node h f = (
  omega (arith, left_of_lem (length nodes) (index_of node nodes) h f),
  omega (arith, right_of_lem (length nodes) (index_of node nodes) h),
)

pub left_first-below :
    (nodes : List Text) (node : Text)
    → index_of node nodes < length nodes
    → length nodes < 4294967296
    → All (λ id. id < length nodes) (get_replicas_id_left_first nodes node)
unfolding get_replicas_id_left_first
left_first-below nodes node h f =
    let (left, right) = neighbours-below nodes node h f in (left, (h, (right, tt)))
