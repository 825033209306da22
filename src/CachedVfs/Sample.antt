-- ===== src/CachedVfs/Sample.antt =====
-- Concrete data for the tests of `CachedVfs`: a small file system behind it, and a state.
use rewofs.Base.{
  ℕ, ◌+◌, ◌≡◌, refl, sym, ap, ◌∙◌, List, [], ◌∷◌, String, some, length, take, ℕ_discrete, arith,
}
use rewofs.Base.Assoc.{find}
use rewofs.Base.Result.{ok-injective, ok, raise, system_error, eacces}
use rewofs.Messages.{no_stat}
use rewofs.Samples.{list_paths, is_root, parent_path, filename, names_equal}
use rewofs.Content.{copy_at, blocks_at}
use rewofs.Content.Contract.{block, single-IsValid, IsValid}
use rewofs.Tree.{Node, node, cons, nil, below_root}
use rewofs.Cache.{Cache}
use rewofs.Vfs.{Vfs, IdDispenser}
use rewofs.Vfs.Call.{Action}
use rewofs.CachedVfs
use rewofs.Tree
use rewofs.Cache
use rewofs.CachedVfs.{State, File, find_file}
use rewofs.Content.Blocks.{length-copy_at}
use rewofs.Content.Blocks.{length-copy_at}
use rewofs.Content

unfoldable pub program : Unit {0}
unfolding CachedVfs.read CachedVfs.write CachedVfs.mkdir CachedVfs.symlink CachedVfs.unlink
    CachedVfs.rmdir CachedVfs.rename CachedVfs.create CachedVfs.open_file CachedVfs.close
    CachedVfs.truncate is_root parent_path filename names_equal ℕ_discrete Content.read
    Content.write blocks_at find Tree.get_node Tree.make_node Tree.remove_single Tree.rename
    Cache.set_node_st
program = tt

-- The other file system: it holds one file, whose bytes are its state, and grants everything else.
abbrev pub Plain : Type 0
Plain = IdDispenser × List ℕ

abbrev granted : {A : Type 0} → A → Action Plain A
granted a s = (ok a, s)

abbrev pub plain : Vfs (List String) Plain
plain = record {
  getattr = λ p s. (ok (record no_stat { st_size = length s.1 }), s);
  readdir = λ p. granted [];
  readlink = λ p. granted "";
  mkdir = λ p m. granted tt;
  rmdir = λ p. granted tt;
  unlink = λ p. granted tt;
  symlink = λ t p. granted tt;
  rename = λ p q f. granted tt;
  chmod = λ p m. (λ s. (raise (system_error eacces), s));
  utimens = λ p a m. granted tt;
  truncate = λ p n s. (ok tt, (s.0, take n s.1));
  create = λ p f m s. (ok s.0, (s.0 + 1, s.1));
  open_file = λ p f s. (ok s.0, (s.0 + 1, s.1));
  close = λ h. granted tt;
  read = λ h output offset s. (ok (length s.1, copy_at s.1 0 output), s);
  write = λ h input offset s. (ok (length input), (s.0, input));
}

abbrev pub a : List String
a = "a" ∷ []

abbrev pub b : List String
b = "b" ∷ []

abbrev pub c : List String
c = "c" ∷ []

abbrev leaf_node : String → Node
leaf_node k = node k no_stat nil

-- Two files "/a" and "/b", "/a" open for reading and writing, and four of its bytes cached.
abbrev pub start : State (List String) (List ℕ)
start = record {
  cache = record {
    tree = node "." no_stat (cons "a" (leaf_node "a") (cons "b" (leaf_node "b") nil));
    content = (a, block 0 (1 ∷ 2 ∷ 3 ∷ 4 ∷ []) ∷ []) ∷ [];
  };
  opened_files = (7, record { open_flags = 2; subvfs_handle = some 3; path = a }) ∷ [];
  shared = (8, 1 ∷ 2 ∷ 3 ∷ 4 ∷ []);
}

abbrev pub file_a : File (List String)
file_a = record { open_flags = 2; subvfs_handle = some 3; path = a }

pub start-IsValid : IsValid start.cache.content
start-IsValid = single-IsValid a (block 0 (1 ∷ 2 ∷ 3 ∷ 4 ∷ []) ∷ []) (omega arith) (omega arith)

pub opened_file : find_file 7 start ≡ some file_a
unfolding program
opened_file = refl

pub keeps_length :
    (h m offset : ℕ) (output bytes : List ℕ) (s : Plain)
    → (plain.read h output offset s).0 ≡ ok (m, bytes)
    → length bytes ≡ length output
keeps_length h m offset output bytes s e =
    ap length (
      sym (
        ap (λ (p : ℕ × List ℕ). p.1)
          (ok-injective (length s.1, copy_at s.1 0 output) (m, bytes) e)))
    ∙ length-copy_at s.1 0 output

abbrev pub zeros : List ℕ
zeros = 0 ∷ 0 ∷ 0 ∷ 0 ∷ 0 ∷ 0 ∷ []

abbrev pub filled : List ℕ
filled = 1 ∷ 2 ∷ 3 ∷ 4 ∷ 0 ∷ 0 ∷ []
