-- ===== src/Worker/Sample.antt =====
-- A kernel for the tests, that opens descriptor 7 and knows no other, and a directory of two files.
use rewofs.BackgroundLoader.{TreeNode, tree_node, nil, cons}
use rewofs.Worker.ReadTree.{Holds}
use rewofs.Base.{
  inl, inr, refl, ℕ, ◌+◌, Bool, true, false, List, [], ◌∷◌, ◌++◌, Option, none, some, String,
  length,
}
use rewofs.Base.Result.{ok, raise, system_error, ebadf}
use rewofs.Messages.{no_stat}
use rewofs.Samples.{filename}
use rewofs.Worker.{Posix, done, failed}
use rewofs.Worker.Inspect.{Files}

abbrev on_descriptor : {A : Type 0} → A → A → Option ℕ → A
on_descriptor bad good none = bad
on_descriptor bad good (some fd) = good

-- The state of the kernel counts the calls that succeed.
abbrev pub kernel_of : {P : Type 0} → Posix P ℕ
kernel_of = record {
  map_path = λ p. p;
  mkdir = λ p m k. (done 0, k + 1);
  rmdir = λ p k. (done 0, k + 1);
  unlink = λ p k. (failed 2, k);
  symlink = λ t p k. (done 0, k + 1);
  renameat2 = λ p q f k. (done 0, k + 1);
  chmod = λ p m k. (done 0, k + 1);
  utimensat = λ p a m k. (done 0, k + 1);
  truncate = λ p n k. (done 0, k + 1);
  open_file = λ p f m k. (done 7, k + 1);
  close = λ d k. on_descriptor (failed ebadf, k) (done 0, k + 1) d;
  lseek = λ d n k. on_descriptor (failed ebadf, k) (done n, k + 1) d;
  read = λ d n k. on_descriptor ((failed ebadf, []), k) ((done 1, 5 ∷ []), k + 1) d;
  write = λ d b k. on_descriptor (failed ebadf, k) (done 1, k + 1) d;
}

-- A directory is a path of one name or none, with the entries "a" and "b"; what has more is a file.
abbrev entries : List String → List String
entries [] = "a" ∷ []
entries (x ∷ []) = "b" ∷ []
entries (x ∷ y ∷ p) = []

abbrev holds : List String → Bool
holds [] = true
holds (x ∷ []) = true
holds (x ∷ y ∷ p) = false

abbrev pub files_of : Files (List String) ℕ
files_of = record {
  lstat = λ p k. (ok (record no_stat { st_size = length p }), k);
  is_symlink = λ p k. (ok false, k);
  is_directory = λ p k. (ok (holds p), k);
  directory = λ p k. ((entries p, none), k);
  read_symlink = λ p k. (raise (system_error 22), k);
  filename = filename;
  name_path = λ x. x ∷ [];
  join = λ p x. p ++ x ∷ [];
  last_errno = λ k. 0;
}

abbrev leaf : String → ℕ → TreeNode
leaf name n = tree_node name (record no_stat { st_size = n }) nil

-- The directory of the sample: "/a/b".
abbrev pub exported : TreeNode
exported =
    tree_node "/" no_stat
      (cons (tree_node "a" (record no_stat { st_size = 1 }) (cons (leaf "b" 2) nil)) nil)

leaf_b : Holds files_of (leaf "b" 2) ("a" ∷ "b" ∷ [])
unfolding filename
leaf_b = (refl, λ s. refl, inl (λ k. refl, inr (λ k. refl, refl)), tt)

pub Holds-exported : Holds files_of exported []
unfolding filename
Holds-exported = (
  refl,
  λ s. refl,
  inl (λ k. refl, inl (λ k. (refl, refl))),
  ((refl, λ s. refl, inl (λ k. refl, inl (λ k. (refl, refl))), (leaf_b, tt)), tt),
)
