-- ===== src/FileLeader/Server/Reading.antt =====
-- A request that does not ask for a new arrangement changes nothing.
use velox_dfs.Base.{
  ◌≡◌, refl, sym, ◌∙◌, false, ◌&&◌, some, Option-cases, inl, inr, arith, Always, some-Always,
  if-Always, else-Always, bind-Always,
}
use velox_dfs.Messages.{FileDescription, FileRequest}
use velox_dfs.FileLeader.Server.{
  Site, Leader, file_request, request_table, finish_request, find_arrangement,
}

-- The state of an answer is the one given.
abbrev Keeps : Leader → FileDescription × Leader → Type 0
Keeps l a = a.1 ≡ l

finish_request-Keeps :
    (site : Site) (m : FileRequest) (fd : FileDescription) (l : Leader)
    → m.generate ≡ false
    → Always (Keeps l) (finish_request site m fd l)
unfolding finish_request
finish_request-Keeps site m fd l old =
    else-Always (Keeps l) (fd.is_input && m.generate) _ _ (ground (arith, old))
      (some-Always (Keeps l) (fd, l) refl)

request_table-Keeps :
    (site : Site) (m : FileRequest) (l : Leader)
    → m.generate ≡ false
    → Always (Keeps l) (request_table site m l)
unfolding request_table
request_table-Keeps site m l old =
    if-Always (Keeps l) _ _ _ (some-Always (Keeps l) _ refl)
      (bind-Always (Keeps l) _ _ (λ fd found. finish_request-Keeps site m fd l old))

pub file_request-Keeps :
    (site : Site) (m : FileRequest) (l : Leader) (a : FileDescription × Leader)
    → m.generate ≡ false
    → file_request site m l ≡ some a
    → a.1 ≡ l
unfolding file_request
file_request-Keeps site m l a old e = elim (Option-cases (find_arrangement m.name l.arrangements)) [
  | inl no_kept ↦ request_table-Keeps site m l old a (sym (rw (no_kept, file_request) refl) ∙ e)
  | inr (fd, kept) ↦
      some-Always (Keeps l) (fd, l) refl a (sym (rw (kept, file_request, old) refl) ∙ e)
]
