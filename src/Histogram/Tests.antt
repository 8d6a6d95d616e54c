-- ===== src/Histogram/Tests.antt =====
-- Runs of the histogram on three servers.
use velox_dfs.Base.{ℕ, arith, ◌/◌, ◌*◌, ◌%◌, ◌^◌, ◌≡◌, ◌↔◌, ◌<◌, refl, [], ◌∷◌, some}
use velox_dfs.Histogram.{
  Histogram, Double, get_index, initialize, draw_within, random_within_boundaries,
}
use velox_dfs.Histogram.Lookup.{Owns, get_index_iff, get_index-initialize}
use velox_dfs.Histogram.Random.{IsRising, random_later_owned}

abbrev three_servers : Histogram
three_servers = record { numserver = 3; boundaries = 10 ∷ 20 ∷ 30 ∷ [] }

rising : IsRising 0 (10 ∷ 20 ∷ 30 ∷ [])
rising = (omega arith, omega arith, (omega arith, omega arith, (omega arith, omega arith, tt)))

-- Whole numbers in place of doubles.
abbrev whole : Double
whole = record {
  D = ℕ;
  of_uint = λ n. n;
  div = λ a b. a / b;
  mul = λ a b. a * b;
  to_uint = λ n. n % 2 ^ 32;
}

get_index_iff_example : (get_index three_servers 15 ≡ some 1) ↔ Owns (10 ∷ 20 ∷ 30 ∷ []) 1 15
get_index_iff_example = get_index_iff three_servers 15 1

two_servers :
    initialize whole 2 ≡ some (record { numserver = 2; boundaries = 2147483647 ∷ 4294967295 ∷ [] })
unfolding initialize
two_servers = refl

get_index-initialize_example :
    (i : ℕ) × (get_index
        (record { numserver = 2; boundaries = 2147483647 ∷ 4294967295 ∷ [] })
        3000000000
      ≡ some i)
    × (i < 2)
get_index-initialize_example = get_index-initialize whole 2 3000000000 two_servers (omega arith)

random_later_owned_example : get_index three_servers 10 ≡ some 0
unfolding random_within_boundaries draw_within
random_later_owned_example = random_later_owned three_servers 40 0 10 10 20 rising refl refl refl
