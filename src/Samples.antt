-- ===== src/Samples.antt =====
-- Concrete data for the tests: absolute paths as the names below the root.
use mathlib.Core.Bool.{false≢true}
use rewofs.Base.{
  ◌≡◌, refl, ap, sym, ◌∙◌, str_eq, eq_iff, Bool, true, false, List, [], ◌∷◌, ◌++◌, String,
}
use rewofs.Base.Paths.{Paths}

unfoldable pub parent_path : List String → List String
parent_path [] = []
parent_path (x ∷ []) = []
parent_path (x ∷ y ∷ xs) = x ∷ parent_path (y ∷ xs)

unfoldable pub filename : List String → String
filename [] = "/"
filename (x ∷ []) = x
filename (x ∷ y ∷ xs) = filename (y ∷ xs)

unfoldable pub is_root : List String → Bool
is_root [] = true
is_root (x ∷ xs) = false

pub split :
    (p : List String)
    → is_root p ≡ false
    → ◌≡◌ {A = List String} p (parent_path p ++ filename p ∷ [])
unfolding is_root parent_path filename
split [] e = cc
split (x ∷ []) e = refl
split (x ∷ y ∷ xs) e = ap {B = List String} (λ (r : List String). x ∷ r) (split (y ∷ xs) refl)

pub root : (p : List String) → is_root p ≡ true → ◌≡◌ {A = List String} ("/" ∷ p) ("/" ∷ [])
unfolding is_root
root [] e = refl
root (x ∷ xs) e = cc

decided : (s t : String) (b : Bool) → str_eq s t ≡ b → Dec (s ≡ t)
decided s t true e = yes ((eq_iff s t).0 e)
decided s t false e = no (λ p. false≢true (sym e ∙ (eq_iff s t).1 p))

String-discrete : Discrete String
unfolding decided
String-discrete s t = decided s t (str_eq s t) refl

both_equal :
    {x y : String} {xs ys : List String}
    → Dec (x ≡ y)
    → Dec (xs ≡ ys)
    → Dec (◌≡◌ {A = List String} (x ∷ xs) (y ∷ ys))
both_equal (yes p) (yes q) = yes (cc)
both_equal (yes p) (no q) = no (λ e. q (cc))
both_equal (no p) (yes q) = no (λ e. p (cc))
both_equal (no p) (no q) = no (λ e. p (cc))

unfoldable pub names_equal : Discrete (List String)
unfolding both_equal String-discrete
names_equal [] [] = yes refl
names_equal [] (y ∷ ys) = no (λ e. cc)
names_equal (x ∷ xs) [] = no (λ e. cc)
names_equal (x ∷ xs) (y ∷ ys) = both_equal (String-discrete x y) (names_equal xs ys)

pub tail-injective : (p q : List String) → ◌≡◌ {A = List String} ("/" ∷ p) ("/" ∷ q) → p ≡ q
tail-injective p q e = cc

instance abbrev pub list_paths : Paths (List String)
list_paths = record {
  equal = names_equal;
  is_root = is_root;
  elements = λ p. "/" ∷ p;
  parent_path = parent_path;
  filename = filename;
  elements_injective = tail-injective;
  elements_root = root;
  elements_absolute = λ p. (p, refl);
  elements_split = λ p e. ap {B = List String} (λ (r : List String). "/" ∷ r) (split p e);
}
