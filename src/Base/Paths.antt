-- ===== src/Base/Paths.antt =====
-- What the code uses of `boost::filesystem::path`, a library outside the repository.
use Prim.Native.String.{String}
use mathlib.Core.Path.{◌≡◌}
use mathlib.Core.Bool.{Bool, true, false}
use mathlib.Core.List.{List, [], ◌∷◌, ◌++◌}

-- `P` is the type of the absolute paths that FUSE hands over: "/", "/a", "/a/b".
pub record Paths (P : Type 0) : Type 0 where
  -- `operator==`
  pub equal : Discrete P
  -- `path == "/"`
  pub is_root : P → Bool
  -- the names from `begin()` to `end()`, the root directory "/" first
  pub elements : P → List String
  pub parent_path : P → P
  pub filename : P → String
  -- two paths with the same elements are `==`
  pub elements_injective : (p q : P) → elements p ≡ elements q → p ≡ q
  pub elements_root : (p : P) → is_root p ≡ true → elements p ≡ "/" ∷ []
  pub elements_absolute : (p : P) → (names : List String) × (elements p ≡ "/" ∷ names)
  -- `parent_path() / filename()` is the path again
  pub elements_split :
      (p : P) → is_root p ≡ false → elements p ≡ elements (parent_path p) ++ filename p ∷ []
