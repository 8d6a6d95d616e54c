-- ===== src/Disk/Lookup.antt =====
-- Lookups after a change of the disk.
use velox_dfs.Base.{
  ◌≡◌, [], ◌∷◌, none, some, FilePath, path_eq, path_eq_refl, path_eq→eq, arith, if◌then◌else◌,
}
use velox_dfs.Disk.{Disk, Entry, lookup, erase, put}

pub lookup-erase :
    (p q : FilePath) (d : Disk) → lookup q (erase p d) ≡ (if path_eq p q then none else lookup q d)
unfolding lookup erase
lookup-erase p q [] = ground arith
lookup-erase p q ((r, e) ∷ d) = ground (
  arith,
  lookup-erase p q d,
  path_eq→eq r p,
  path_eq→eq r q,
  path_eq→eq p q,
  path_eq_refl p,
  path_eq_refl q,
  path_eq_refl r,
)

pub lookup-put :
    (p q : FilePath) (e : Entry) (d : Disk)
    → lookup q (put p e d) ≡ (if path_eq p q then some e else lookup q d)
unfolding lookup put
lookup-put p q e d = ground (arith, lookup-erase p q d)
