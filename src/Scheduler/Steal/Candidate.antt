-- ===== src/Scheduler/Steal/Candidate.antt =====
-- The candidate of scheduler_steal.cc is a least loaded replica.
use velox_dfs.Base.{
  ℕ, ◌≤◌, ◌<◌, ◌≡◌, ◌⊎◌, inl, inr, refl, List, [], ◌∷◌, none, some, get_elem?, get_or,
  get_or-get_elem?, All-get_elem?, length, ltb, ◌>>=◌, arith, All, get_elem?-lt, Bool-cases, lt→ltb,
  true,
}
use velox_dfs.Scheduler.Steal.{find_candidate, int_max}

-- An id among those listed, by a predicate that computes.
abbrev pub OneOf : ℕ → List ℕ → Type 0
OneOf a [] = ⊥
OneOf a (x ∷ xs) = (a ≡ x) ⊎ OneOf a xs

-- From a target of count `least` the search ends at one that is no more loaded than that target and
-- any replica in the list, and is the target or in the list.
find_from :
    (counters ids : List ℕ) (t least : ℕ)
    → All (λ id. id < length counters) ids
    → get_elem? counters t ≡ some least
    → (u : ℕ) × (count : ℕ) × (find_candidate counters ids (some t) least ≡ some (some u))
      × (get_elem? counters u ≡ some count)
      × (count ≤ least)
      × All (λ id. count ≤ get_or counters id 0) ids
      × ((u ≡ t) ⊎ OneOf u ids)
unfolding find_candidate
find_from counters [] t least h e = (t, least, refl, e, omega arith, tt, inl refl)
find_from counters (id ∷ ids) t least h e =
    let (c, at) = get_elem?-lt counters id h.0 in
    let read = get_or-get_elem? counters id c 0 at in
    elim (Bool-cases (ltb c least)) [
      | inl lower ↦
          let (u, n, p, q, le, all, from) = find_from counters ids id c h.1 at in
          (u, n, rw (at, ◌>>=◌, lower) p, q, ground arith, (omega arith, all), ground arith)
      | inr upper ↦
          let (u, n, p, q, le, all, from) = find_from counters ids t least h.1 e in
          (u, n, rw (at, ◌>>=◌, upper) p, q, le, (ground arith, all), ground arith)
    ]

-- With counts below INT_MAX the search over a list that is not empty succeeds, at a replica of the
-- list whose count is the least.
pub find_candidate-least :
    (counters : List ℕ) (id : ℕ) (ids : List ℕ)
    → All (λ j. j < length counters) (id ∷ ids)
    → All (λ c. c < int_max) counters
    → (u : ℕ) × (count : ℕ) × (find_candidate counters (id ∷ ids) none int_max ≡ some (some u))
      × (get_elem? counters u ≡ some count)
      × All (λ j. count ≤ get_or counters j 0) (id ∷ ids)
      × OneOf u (id ∷ ids)
unfolding find_candidate
find_candidate-least counters id ids h small =
    let (c, at) = get_elem?-lt counters id h.0 in
    let low : ltb c int_max ≡ true =
      lt→ltb c int_max (All-get_elem? (λ x. x < int_max) counters id c small at) in
    let (u, n, p, q, le, all, from) = find_from counters ids id c h.1 at in
    let read = get_or-get_elem? counters id c 0 at in
    (u, n, rw (at, ◌>>=◌, low) p, q, (omega arith, all), from)
