-- ===== src/Disk/Removal.antt =====
-- src/blocknode/local_io.cc: what `remove` leaves.
use velox_dfs.Base.{
  ◌≡◌, ap, sym, ◌∙◌, ◌⊎◌, refl, Bool-cases, inl, inr, none, some, Option, Text, FilePath, path_eq,
  path_eq_refl,
}
use velox_dfs.Disk.{
  Disk, Entry, dir, file, lookup, erase, content_of, entry_at, denoted, ends_in_slash, path_tokens,
  has_child, remove,
}
use velox_dfs.Disk.Lookup.{lookup-erase}
use velox_dfs.Disk.Write.{content_of-absent}

-- What `content_of` makes of an entry.
abbrev stored : Option Entry → Option Text
stored (some (file v)) = some v
stored _ = none

content_of-lookup : (name : Text) (d : Disk) → content_of name d ≡ stored (entry_at name d)
unfolding content_of
content_of-lookup name d = elim (entry_at name d) [
  | none ↦ refl
  | some dir ↦ refl
  | some (file v) ↦ refl
]

content_of-erase :
    (p : FilePath) (other : Text) (d : Disk)
    → content_of other d ≡ none
    → content_of other (erase p d) ≡ none
unfolding entry_at
content_of-erase p other d e =
    let q = path_tokens other in
    elim (Bool-cases (path_eq p q)) [
      | inl hit ↦ content_of-absent other (erase p d) (lookup-erase p q d ∙ rw hit refl)
      | inr miss ↦
          let same : lookup q (erase p d) ≡ lookup q d = lookup-erase p q d ∙ rw miss refl in
          content_of-lookup other (erase p d)
          ∙ ap (λ o. stored (denoted (ends_in_slash other) o)) same
          ∙ sym (content_of-lookup other d)
          ∙ e
    ]

-- A removal does nothing, where there is no file, or erases the entry.
remove_found :
    (name : Text) (d : Disk) (o : Option Entry)
    → entry_at name d ≡ o
    → ((remove name d ≡ d) × (content_of name d ≡ none))
      ⊎ (remove name d ≡ erase (path_tokens name) d)
unfolding remove
remove_found name d none e = inl (rw (e, remove) refl, content_of-lookup name d ∙ ap stored e)
remove_found name d (some (file v)) e = inr (rw (e, remove) refl)
remove_found name d (some dir) e = elim (Bool-cases (has_child (path_tokens name) d)) [
  | inl full ↦ inl (rw (e, remove, full) refl, content_of-lookup name d ∙ ap stored e)
  | inr empty ↦ inr (rw (e, remove, empty) refl)
]

-- A removed file is not there.
pub content_of-remove : (name : Text) (d : Disk) → content_of name (remove name d) ≡ none
content_of-remove name d =
    let p = path_tokens name in
    elim (remove_found name d (entry_at name d) refl) [
      | inl (same, e) ↦ ap (content_of name) same ∙ e
      | inr gone ↦
          ap (content_of name) gone
          ∙ content_of-absent name (erase p d) (lookup-erase p p d ∙ rw (path_eq_refl p) refl)
    ]

-- A removal makes no file.
pub content_of-remove_other :
    (name other : Text) (d : Disk)
    → content_of other d ≡ none
    → content_of other (remove name d) ≡ none
content_of-remove_other name other d e = elim (remove_found name d (entry_at name d) refl) [
  | inl (same, none_there) ↦ ap (content_of other) same ∙ e
  | inr gone ↦ ap (content_of other) gone ∙ content_of-erase (path_tokens name) other d e
]
