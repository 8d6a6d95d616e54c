-- ===== src/Histogram/Lookup.antt =====
-- What `get_index` finds: the one server that owns a key.
use velox_dfs.Base.{
  ℕ, zero, suc, ◌+◌, ◌≤◌, ◌<◌, ◌≡◌, ◌↔◌, refl, List, [], ◌∷◌, ◌++◌, some, length, arith,
  length-append, Bool-cases, leb, inl, inr, subst, ap, ◌∙◌,
}
use velox_dfs.Histogram.{
  Histogram, get_index, get_index_from, max_uint, Double, initialize, initial_boundaries,
}

-- What it means that server i owns a key: it is at most the boundary of i, and above all before.
abbrev pub Owns : List ℕ → ℕ → ℕ → Type 0
Owns [] i query = ⊥
Owns (b ∷ bs) zero query = query ≤ b
Owns (b ∷ bs) (suc i) query = (b < query) × Owns bs i query

get_index_from-Owns :
    (bs : List ℕ) (start query i : ℕ)
    → Owns bs i query
    → get_index_from start bs query ≡ some (start + i)
unfolding get_index_from
get_index_from-Owns [] start query i h = absurd h
get_index_from-Owns (b ∷ bs) start query zero h = ground arith
get_index_from-Owns (b ∷ bs) start query (suc i) h =
    ground (arith, get_index_from-Owns bs (start + 1) query i h.1)

Owns-get_index_from :
    (bs : List ℕ) (start query r : ℕ)
    → get_index_from start bs query ≡ some r
    → (i : ℕ) × (r ≡ start + i) × Owns bs i query
unfolding get_index_from
Owns-get_index_from [] start query r e = absurd (cc)
Owns-get_index_from (b ∷ bs) start query r e = elim (Bool-cases (leb query b)) [
  | inl h ↦ (zero, ground arith, ground arith)
  | inr h ↦
      let (i, p, o) = Owns-get_index_from bs (start + 1) query r (ground arith) in
      (suc i, omega arith, (ground arith, o))
]

-- `get_index` returns server i exactly for the keys that i owns: those up to its boundary and above
-- the boundaries of all servers before it.
pub get_index_iff :
    (hist : Histogram) (query i : ℕ)
    → (get_index hist query ≡ some i) ↔ Owns hist.boundaries i query
unfolding get_index
get_index_iff hist query i = (
  λ e.
      let (j, p, o) = Owns-get_index_from hist.boundaries 0 query i e in
      let q : j ≡ i = omega arith in subst (λ k. Owns hist.boundaries k query) q o,
  λ o. get_index_from-Owns hist.boundaries 0 query i o ∙ ap some (omega arith),
)

Owns-last :
    (bs : List ℕ) (top query : ℕ)
    → query ≤ top
    → (i : ℕ) × (i < length (bs ++ top ∷ [])) × Owns (bs ++ top ∷ []) i query
Owns-last [] top query h = (zero, omega arith, h)
Owns-last (b ∷ bs) top query h = elim (Bool-cases (leb query b)) [
  | inl e ↦ (zero, omega arith, ground arith)
  | inr e ↦ let (i, p, o) = Owns-last bs top query h in (suc i, omega arith, (ground arith, o))
]

length-initial_boundaries :
    (d : Double) (numserver i left : ℕ) → length (initial_boundaries d numserver i left) ≡ left
unfolding initial_boundaries
length-initial_boundaries d numserver i zero = refl
length-initial_boundaries d numserver i (suc left) =
    ap suc (length-initial_boundaries d numserver (i + 1) left)

-- Whatever the arithmetic on doubles gives: once a histogram is initialised for one server or more,
-- every 32-bit key has an owner, whose index is below the number of servers.
pub get_index-initialize :
    (d : Double) (n query : ℕ) {hist : Histogram}
    → initialize d n ≡ some hist
    → query ≤ max_uint
    → (i : ℕ) × (get_index hist query ≡ some i) × (i < n)
unfolding initialize
get_index-initialize d zero query e h = absurd (cc)
get_index-initialize d (suc n) query {hist} e h =
    let bs : List ℕ = initial_boundaries d (suc n) 0 n in
    let same : bs ++ max_uint ∷ [] ≡ hist.boundaries = ground arith in
    let (i, p, o) = Owns-last bs max_uint query h in
    let (l, k) = (get_index_iff hist query i) in
    (
      i,
      k (subst (λ xs. Owns xs i query) same o),
      omega (arith, length-append bs (max_uint ∷ []), length-initial_boundaries d (suc n) 0 n),
    )
