-- ===== src/Worker/Table.antt =====
-- What the handlers of `Worker` keep: the table of opened files, and the paths that are ignored.
use rewofs.Base.{
  ℕ, ◌≡◌, refl, ap, ◌∙◌, List, [], ◌∷◌, Option, none, some, ite, if_pos, if_neg, sym, ℕ_discrete,
  ◌⊎◌, inl, inr, ◌≢◌, ◌==◌, true, false, Bool-cases, arith,
}
use rewofs.Base.Assoc.{find, find-put, find-erase}
use rewofs.Channel.{Command}
use rewofs.Worker.{
  Posix, Worker, OpenFile, Outcome, done, failed, file_descriptor, process_open, process_close,
  process_errno, process_read, process_write, minus_one32, minus_one64,
}

abbrev Among : {P : Type 0} → P → List P → Type 0
Among p [] = ⊥
Among p (q ∷ qs) = (p ≡ q) ⊎ Among p qs

-- The paths that a command names and may change.
abbrev paths_of : {P : Type 0} → Command P → List P
paths_of (Command.mkdir path mode) = path ∷ []
paths_of (Command.rmdir path) = path ∷ []
paths_of (Command.unlink path) = path ∷ []
paths_of (Command.symlink link_path target) = link_path ∷ []
paths_of (Command.rename old_path new_path flags) = new_path ∷ old_path ∷ []
paths_of (Command.chmod path mode) = path ∷ []
paths_of (Command.utime path mtime) = path ∷ []
paths_of (Command.truncate path len) = path ∷ []
paths_of (Command.open_file path fh flags mode) = path ∷ []
paths_of _ = []

Outcome-cases : (r : Outcome) → ((n : ℕ) × (r ≡ done n)) ⊎ ((e : ℕ) × (r ≡ failed e))
Outcome-cases (done n) = inl (n, refl)
Outcome-cases (failed e) = inr (e, refl)

abbrev descriptor : {P : Type 0} → Option (OpenFile P) → Option ℕ
descriptor none = none
descriptor (some f) = some f.fd

descriptor-ite :
    {P A : Type 0} (d : Dec A) (f : OpenFile P) (o : Option (OpenFile P))
    → descriptor (ite d (some f) o) ≡ ite d (some f.fd) (descriptor o)
descriptor-ite (yes k) f o = refl
descriptor-ite (no k) f o = refl

descriptor-erased :
    {P A : Type 0} (d : Dec A) (o : Option (OpenFile P))
    → descriptor (ite d none o) ≡ ite d none (descriptor o)
descriptor-erased (yes k) o = refl
descriptor-erased (no k) o = refl

ite-ite : {A B : Type 0} (d : Dec A) (x y z : B) → ite d x (ite d y z) ≡ ite d x z
ite-ite (yes k) x y z = refl
ite-ite (no k) x y z = refl

module _ {P K : Type 0} (posix : Posix P K) where
  descriptor-open :
      (path : P) (fh flags fd : ℕ) (mode : Option ℕ) (w : Worker P K) (q : ℕ)
      → (posix.open_file (posix.map_path path) flags mode w.kernel).0 ≡ done fd
      → file_descriptor posix q (process_open posix path fh flags mode w).1
        ≡ ite (ℕ_discrete fh q) (some fd) (file_descriptor posix q w)
  unfolding process_open
  descriptor-open path fh flags fd mode w q e =
      rw (e, process_open)
        (ap descriptor (find-put ℕ_discrete fh q (record { fd = fd; path = path }) w.opened_files)
          ∙ descriptor-ite (ℕ_discrete fh q) (record { fd = fd; path = path })
              (find ℕ_discrete q w.opened_files))

  descriptor-close :
      (fh fd n : ℕ) (w : Worker P K) (q : ℕ)
      → file_descriptor posix fh w ≡ some fd
      → (posix.close (file_descriptor posix fh w) w.kernel).0 ≡ done n
      → file_descriptor posix q (process_close posix fh w).1
        ≡ ite (ℕ_discrete fh q) none (file_descriptor posix q w)
  unfolding process_close
  descriptor-close fh fd n w q h e =
      rw (process_close, h, e)
        (ap descriptor (find-erase ℕ_discrete fh q w.opened_files)
          ∙ descriptor-erased (ℕ_discrete fh q) (find ℕ_discrete q w.opened_files))

  -- A handle that is opened stands for the descriptor that `open` gave, and after its `close` for none;
  -- every other handle keeps its own through both.
  descriptor-session :
      (path : P) (fh flags fd n : ℕ) (mode : Option ℕ) (w : Worker P K)
      → (posix.open_file (posix.map_path path) flags mode w.kernel).0 ≡ done fd
      → let w1 = (process_open posix path fh flags mode w).1 in
        (posix.close (some fd) w1.kernel).0 ≡ done n
        → (q : ℕ)
        → (file_descriptor posix q w1 ≡ ite (ℕ_discrete fh q) (some fd) (file_descriptor posix q w))
          × (file_descriptor posix q (process_close posix fh w1).1
              ≡ ite (ℕ_discrete fh q) none (file_descriptor posix q w))
  descriptor-session path fh flags fd n mode w e f q =
      let opened =
        descriptor-open path fh flags fd mode w fh e
        ∙ if_pos (ℕ_discrete fh fh) refl (some fd) (file_descriptor posix fh w) in
      (
        descriptor-open path fh flags fd mode w q e,
        descriptor-close fh fd n (process_open posix path fh flags mode w).1 q opened (
              ap (λ d. (posix.close d (process_open posix path fh flags mode w).1.kernel).0) opened
              ∙ f)
            ∙ ap (ite (ℕ_discrete fh q) none) (descriptor-open path fh flags fd mode w q e)
            ∙ ite-ite (ℕ_discrete fh q) none (some fd) (file_descriptor posix q w),
      )

  ignored-open :
      (path : P) (fh flags : ℕ) (mode : Option ℕ) (w : Worker P K) (p : P)
      → Among p (path ∷ [])
      → Among p (process_open posix path fh flags mode w).1.ignored
  unfolding process_open
  ignored-open path fh flags mode w p (inl k) =
      elim (Outcome-cases (posix.open_file (posix.map_path path) flags mode w.kernel).0) [
        | inl (fd, e) ↦ rw (e, process_open) (inl k)
        | inr (n, e) ↦ rw (e, process_open) (inl k)
      ]
  ignored-open path fh flags mode w p (inr x) = elim x [ ]

  -- The paths that a command names and may change are among those that the watcher ignores when the
  -- answer is ready, whatever the answer is.
  ignored-process_errno :
      (c : Command P) (w : Worker P K) (p : P)
      → Among p (paths_of c)
      → Among p (process_errno posix c w).1.ignored
  unfolding process_errno process_open
  ignored-process_errno (Command.stat path) w p h = elim h [ ]
  ignored-process_errno (Command.readdir path) w p h = elim h [ ]
  ignored-process_errno (Command.readlink path) w p h = elim h [ ]
  ignored-process_errno (Command.mkdir path mode) w p (inl e) = inl e
  ignored-process_errno (Command.mkdir path mode) w p (inr x) = elim x [ ]
  ignored-process_errno (Command.rmdir path) w p (inl e) = inl e
  ignored-process_errno (Command.rmdir path) w p (inr x) = elim x [ ]
  ignored-process_errno (Command.unlink path) w p (inl e) = inl e
  ignored-process_errno (Command.unlink path) w p (inr x) = elim x [ ]
  ignored-process_errno (Command.symlink link_path target) w p (inl e) = inl e
  ignored-process_errno (Command.symlink link_path target) w p (inr x) = elim x [ ]
  ignored-process_errno (Command.rename old_path new_path flags) w p (inl e) = inl e
  ignored-process_errno (Command.rename old_path new_path flags) w p (inr (inl e)) = inr (inl e)
  ignored-process_errno (Command.rename old_path new_path flags) w p (inr (inr x)) = elim x [ ]
  ignored-process_errno (Command.chmod path mode) w p (inl e) = inl e
  ignored-process_errno (Command.chmod path mode) w p (inr x) = elim x [ ]
  ignored-process_errno (Command.utime path mtime) w p (inl e) = inl e
  ignored-process_errno (Command.utime path mtime) w p (inr x) = elim x [ ]
  ignored-process_errno (Command.truncate path len) w p (inl e) = inl e
  ignored-process_errno (Command.truncate path len) w p (inr x) = elim x [ ]
  ignored-process_errno (Command.open_file path fh flags mode) w p h =
      ignored-open path fh flags mode w p h
  ignored-process_errno (Command.close fh) w p h = elim h [ ]
  ignored-process_errno (Command.read fh offset size) w p h = elim h [ ]
  ignored-process_errno (Command.write fh offset bytes) w p h = elim h [ ]

  -- Where a handle is not in the table and `lseek` fails on -1, with whatever errno, a read and a write
  -- are answered with -1 as the result and -1 as the errno at every offset but 2^64 - 1. That one is
  -- equal to the -1 of `lseek`, the handlers go on and throw, and nothing is answered. A close of such a
  -- handle is never answered, since it throws.
  pub unknown_handle :
      (fh offset size e : ℕ) (bytes : List ℕ) (w : Worker P K)
      → file_descriptor posix fh w ≡ none
      → (posix.lseek none offset w.kernel).0 ≡ failed e
      → ((process_read posix fh offset size w).0
          ≡ ite
              (ℕ_discrete offset minus_one64)
              none
              (some (record { res = minus_one64; res_errno = minus_one32; bytes = [] })))
        × ((process_write posix fh offset bytes w).0
            ≡ ite
                (ℕ_discrete offset minus_one64)
                none
                (some (record { res = minus_one64; res_errno = minus_one32 })))
        × ((process_close posix fh w).0 ≡ none)
  unfolding process_read process_write process_close
  unknown_handle fh offset size e bytes w n h = elim (ℕ_discrete offset minus_one64) [
    | yes k ↦
        let seek : (minus_one64 == offset) ≡ true = ap (λ x. minus_one64 == x) k in
        (
          rw (process_read, n, h, seek) (sym (if_pos (ℕ_discrete offset minus_one64) k _ _)),
          rw (process_write, n, h, seek) (sym (if_pos (ℕ_discrete offset minus_one64) k _ _)),
          rw (process_close, n) refl,
        )
    | no k ↦
        let seek : (minus_one64 == offset) ≡ false = other offset k in
        (
          rw (process_read, n, h, seek) (sym (if_neg (ℕ_discrete offset minus_one64) k _ _)),
          rw (process_write, n, h, seek) (sym (if_neg (ℕ_discrete offset minus_one64) k _ _)),
          rw (process_close, n) refl,
        )
  ]
    where
      other : (x : ℕ) → x ≢ minus_one64 → (minus_one64 == x) ≡ false
      other x k = elim (Bool-cases (minus_one64 == x)) [
        | inl t ↦ absurd (k (ground arith))
        | inr f ↦ f
      ]
