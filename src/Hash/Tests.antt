-- ===== src/Hash/Tests.antt =====
-- Runs of the hash on short names.
use velox_dfs.Base.{◌≡◌, refl, [], ◌∷◌, ◌++◌, Text, text, replicate, arith}
use velox_dfs.Hash.{h_string, hash_ruby}
use velox_dfs.Hash.Names.{h_string-same, hash_ruby-h_string}

h_string-same_example :
    h_string (text "abc" ++ replicate 1 0) ≡ h_string (text "abc" ++ replicate 2 0)
h_string-same_example = h_string-same (text "abc") (text "abc") 1 2 refl

abbrev short_name : Text
short_name = 97 ∷ 98 ∷ []

hash_ruby-h_string_example : hash_ruby short_name ≡ h_string short_name
hash_ruby-h_string_example =
    hash_ruby-h_string short_name (λ e. omega (arith, e), (λ e. omega (arith, e), tt))
