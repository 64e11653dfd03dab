-- ===== src/Store/Links.antt =====
-- internal/store/fs.go: the name under which LinkRepo puts a worktree. `taken` is what the file system and
-- git say of a name: repos/<name> exists, or the repository has a worktree of that name.
pub mod Free
use ideate.Common.{
  ℕ, zero, suc, Bool, true, false, Option, none, some, List, [], ◌∷◌, ◌++◌, ◌==◌, if◌then◌else◌,
}
use ideate.Common.Errors.{Result, ok, err}
use ideate.Text.{Text, codes, is_empty, decimal}

pub data LinkError : Type 0 where
  no_name already_linked out_of_fuel : LinkError

-- The names that are tried: base-slug, then base-slug-2 and so on
unfoldable pub candidate : Text → Text → ℕ → Text
candidate base slug i =
    let first = base ++ codes "-" ++ slug in
    if i == 1 then first else first ++ codes "-" ++ decimal i

-- The loop, on fuel, from the candidate of a number
unfoldable pub free_name : (Text → Bool) → Text → Text → ℕ → ℕ → Option Text
free_name taken base slug zero i = none
free_name taken base slug (suc fuel) i =
    let rest = free_name taken base slug fuel (suc i) in
    if taken (candidate base slug i) then rest else some (candidate base slug i)

-- The name, from nameOverride and from what repo.DeriveName gives
unfoldable pub link_name : (Text → Bool) → ℕ → Text → Text → Text → Result LinkError Text
link_name taken fuel slug override derived =
    let name = if is_empty override then derived else override in
    if is_empty name
    then err no_name
    else if taken name
    then (if is_empty override
        then elim (free_name taken name slug fuel 1) [
          | none ↦ err out_of_fuel
          | some free ↦ ok free
        ]
        else err already_linked)
    else ok name
