-- ===== src/ScopeResolver.antt =====
-- src/adr_kit/scope/resolver.py: the search for the root of a project. A resolved path is the list
-- of its names, the last one first; the anchor has none. What there is on the disk is an argument.
mod Tests
pub mod Nearest
use Prim.Native.String
use adr_architecture_kit.Base.{
  String, Option, none, some, List, [], ◌∷◌, ◌++◌, Bool, true, false, ◌==◌, if◌then◌else◌, contains,
  any, ◌&&◌, not, ok, raise, Result, ◌>>=◌,
}

abbrev pub markers : List String
markers =
    "ste.config.json" ∷ "PROJECT.yaml" ∷ "pyproject.toml" ∷ "package.json" ∷ "Cargo.toml" ∷ "go.mod"
    ∷ ".git" ∷ []

abbrev pub system_boundaries : List String
system_boundaries = "Users" ∷ "home" ∷ "Documents" ∷ []

-- The name of the path is a boundary, and thereby one of its parts.
unfoldable pub is_workspace_boundary : List String → Bool
is_workspace_boundary [] = false
is_workspace_boundary (name ∷ parents) =
    any (λ boundary. contains boundary (name ∷ parents) && name == boundary) system_boundaries

pub record Found : Type 0 where
  pub root : List String
  pub marker : String

-- What PROJECT.yaml gives: `has_architecture` says that `architecture_documentation` is not empty.
pub record ProjectYaml : Type 0 where
  pub has_architecture : Bool
  pub adr_directory : Option String
  pub manifest_path : Option String
  pub name : Option String

pub record ProjectScope : Type 0 where
  pub root : List String
  pub adr_dir : List String
  pub manifest_path : List String
  pub logical_dir : List String
  pub physical_dir : List String
  pub physical_system_dir : List String
  pub physical_component_dir : List String
  pub marker : String
  pub name : String
  pub is_sub_module : Bool
  pub parent_root : Option (List String)

pub data ScopeError : Type 0 where
  no_project_root : ScopeError

abbrev pub or_default : String → Option String → String
or_default default none = default
or_default default (some value) = value

-- value.rstrip("/")
unfoldable pub rstrip_slash : String → String
rstrip_slash String.[] = ""
rstrip_slash (String.◌∷◌ c s) =
    let rest = rstrip_slash s in
    if rest == "" && String.◌∷◌ c String.[] == "/" then "" else String.◌∷◌ c rest

abbrev pub last_name : List String → String
last_name [] = ""
last_name (name ∷ parents) = name

unfoldable pub same_path : List String → List String → Bool
same_path [] [] = true
same_path [] (name ∷ names) = false
same_path (name ∷ names) [] = false
same_path (a ∷ as') (b ∷ bs) = a == b && same_path as' bs

-- The disk: whether a directory has an entry, its PROJECT.yaml if that is read and not empty, the
-- path of a text below a directory, and the directories with an entry at a depth below a directory.
pub record Disk : Type 0 where
  pub has_entry : List String → String → Bool
  pub project_yaml : List String → Option ProjectYaml
  pub resolve_below : List String → String → List String
  pub glob_parents : List String → String → String → List (List String)

module _ (disk : Disk) where
  -- The loop over the markers.
  unfoldable pub first_marker : List String → List String → Option String
  first_marker [] current = none
  first_marker (marker ∷ rest) current =
      let later = first_marker rest current in
      if disk.has_entry current marker then some marker else later

  unfoldable pub found_at : List String → Option Found
  unfolding first_marker
  found_at current = elim (first_marker markers current) [
    | none ↦ none
    | some marker ↦ some (record { root = current; marker = marker })
  ]

  -- The anchor is the root, at which the loop ends.
  unfoldable pub find_project_root : List String → Option Found
  unfolding found_at is_workspace_boundary
  find_project_root [] = none
  find_project_root (name ∷ parents) =
      let above = find_project_root parents in
      if is_workspace_boundary (name ∷ parents)
      then found_at (name ∷ parents)
      else elim (found_at (name ∷ parents)) [ none ↦ above | some found ↦ some found ]

  -- The directories of a scope, and its name if there is one.
  abbrev pub settled :
      List String → Option ProjectYaml → (List String × List String) × Option String
  settled root none = (("adrs" ∷ root, "manifest.yaml" ∷ "adrs" ∷ root), none)
  settled root (some yaml) = (
    (if yaml.has_architecture
        then (
          disk.resolve_below root (rstrip_slash (or_default "adrs/" yaml.adr_directory)),
          disk.resolve_below root (or_default "adrs/manifest.yaml" yaml.manifest_path),
        )
        else ("adrs" ∷ root, "manifest.yaml" ∷ "adrs" ∷ root)),
    yaml.name,
  )

  unfoldable pub create_scope : List String → String → ProjectScope
  unfolding rstrip_slash
  create_scope root marker =
      let (directories, name) = settled root (disk.project_yaml root) in
      let adr_dir = directories.0 in
      record {
        root = root;
        adr_dir = adr_dir;
        manifest_path = directories.1;
        logical_dir = "logical" ∷ adr_dir;
        physical_dir = "physical" ∷ adr_dir;
        physical_system_dir = "physical-system" ∷ adr_dir;
        physical_component_dir = "physical-component" ∷ adr_dir;
        marker = marker;
        name = if or_default "" name == "" then last_name root else or_default "" name;
        is_sub_module = false;
        parent_root = none;
      }

  -- The root of the scope above; the code makes a scope of it.
  unfoldable pub find_parent_scope : List String → Option (List String)
  unfolding find_project_root
  find_parent_scope [] = none
  find_parent_scope (name ∷ parents) = elim (find_project_root parents) [
    | none ↦ none
    | some above ↦ some above.root
  ]

  unfoldable pub resolve_scope : Option (List String) → List String → Result ScopeError ProjectScope
  unfolding create_scope find_project_root find_parent_scope
  resolve_scope (some explicit_scope) start_dir = ok (create_scope explicit_scope "explicit")
  resolve_scope none start_dir = elim (find_project_root start_dir) [
    | none ↦ raise no_project_root
    | some found ↦ ok (record (create_scope found.root found.marker) {
      is_sub_module = elim (find_parent_scope found.root) [ none ↦ false | some _ ↦ true ];
      parent_root = find_parent_scope found.root;
    })
  ]

  -- The body of the loop over what the glob gives.
  unfoldable pub add_sub_module :
      List String → String → List String → List ProjectScope → List ProjectScope
  unfolding create_scope same_path
  add_sub_module root marker sub_root sub_scopes =
      if same_path sub_root root
      then sub_scopes
      else if any (λ scope. same_path scope.root sub_root) sub_scopes
      then sub_scopes
      else sub_scopes ++ (record (create_scope sub_root marker) { is_sub_module = true } ∷ [])

  unfoldable pub add_sub_modules :
      List String → String → List (List String) → List ProjectScope → List ProjectScope
  unfolding add_sub_module
  add_sub_modules root marker [] sub_scopes = sub_scopes
  add_sub_modules root marker (sub_root ∷ sub_roots) sub_scopes =
      add_sub_modules root marker sub_roots (add_sub_module root marker sub_root sub_scopes)

  unfoldable pub add_marked :
      List String → String → List String → List ProjectScope → List ProjectScope
  unfolding add_sub_modules
  add_marked root pattern [] sub_scopes = sub_scopes
  add_marked root pattern (marker ∷ rest) sub_scopes =
      add_marked root pattern rest
        (add_sub_modules root marker (disk.glob_parents root pattern marker) sub_scopes)

  -- One level deep, then two.
  unfoldable pub find_sub_modules : List String → List ProjectScope
  unfolding add_marked
  find_sub_modules root = add_marked root "*/*" markers (add_marked root "*" markers [])

  unfoldable pub resolve_recursive :
      Option (List String) → List String → Result ScopeError (List ProjectScope)
  unfolding resolve_scope find_sub_modules
  resolve_recursive explicit_scope start_dir =
      resolve_scope explicit_scope start_dir >>= λ scope. ok (scope ∷ find_sub_modules scope.root)
