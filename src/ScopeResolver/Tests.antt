-- ===== src/ScopeResolver/Tests.antt =====
-- src/adr_kit/scope/resolver.py: runs on a small disk, and the theorem there.
use adr_architecture_kit.Base.{
  String, none, some, List, [], ◌∷◌, true, false, ◌==◌, ◌&&◌, ◌||◌, ◌≡◌, refl, ◌↔◌, ok,
  if◌then◌else◌,
}
use adr_architecture_kit.ScopeResolver.{
  Disk, same_path, first_marker, found_at, is_workspace_boundary, find_project_root, create_scope,
  rstrip_slash, find_parent_scope, resolve_scope, add_sub_module, add_sub_modules, add_marked,
  find_sub_modules, resolve_recursive,
}
use adr_architecture_kit.ScopeResolver.Nearest.{IsNearest, find_project_root-IsNearest}

-- /home/me/work is a repository, and there is a file of a package in /home/me/work/app.
abbrev work : List String
work = "work" ∷ "me" ∷ "home" ∷ []

abbrev app : List String
app = "app" ∷ work

abbrev disk : Disk
disk = record {
  has_entry = λ directory entry.
      (entry == ".git" && same_path directory work)
      || (entry == "package.json" && same_path directory app);
  project_yaml = λ directory. none;
  resolve_below = λ directory text. text ∷ directory;
  glob_parents =
      λ root pattern marker. if pattern == "*" && marker == "package.json" then app ∷ [] else [];
}

nearest :
    find_project_root disk ("src" ∷ app) ≡ some (record { root = app; marker = "package.json" })
unfolding find_project_root found_at first_marker is_workspace_boundary same_path
nearest = refl

-- Nothing is found above the home directories.
no_root : find_project_root disk ("tmp" ∷ "you" ∷ "home" ∷ "srv" ∷ []) ≡ none
unfolding find_project_root found_at first_marker is_workspace_boundary same_path
no_root = refl

scopes :
    resolve_recursive disk none work
    ≡ ok (
        record (create_scope disk work ".git") { is_sub_module = false; parent_root = none }
        ∷ record (create_scope disk app "package.json") { is_sub_module = true }
        ∷ [])
unfolding resolve_recursive resolve_scope find_sub_modules add_marked add_sub_modules add_sub_module
    create_scope rstrip_slash find_parent_scope find_project_root found_at first_marker
    is_workspace_boundary same_path
scopes = refl

find_project_root-IsNearest_example :
    (find_project_root disk ("src" ∷ app) ≡ some (record { root = app; marker = "package.json" }))
    ↔ IsNearest disk ("src" ∷ app) (record { root = app; marker = "package.json" })
find_project_root-IsNearest_example =
    find_project_root-IsNearest disk ("src" ∷ app) (record { root = app; marker = "package.json" })
