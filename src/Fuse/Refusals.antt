-- ===== src/Fuse/Refusals.antt =====
-- What FUSE answers where the file system under `CachedVfs` throws.
use rewofs.Base.{ℕ, ◌≡◌, refl, true, false, ◌==◌}
use rewofs.Base.Paths.{Paths}
use rewofs.Base.Result.{Result, ok, raise, Exception, system_error}
use rewofs.Vfs.{Vfs, IdDispenser}
use rewofs.Vfs.Call.{Action, return, then_call}
use rewofs.RemoteVfs.{is_negative}
use rewofs.CachedVfs.{State, cached_vfs, utime_omit, wants_write}
use rewofs.CachedVfs
use rewofs.CachedVfs.Operations.{Operation, run}
use rewofs.CachedVfs.Errors.{run-raise}
use rewofs.Fuse.{gen_return_error_code, answer, answer_with, negated, with_bit, s_ifdir_bit}
use rewofs.Fuse.Requests.{Request, serve}

-- The operation that a request on a path asks for, and the file system under the cache carries out: not
-- a `truncate` to a negative size, a `utimens` that leaves the time alone, or a lazy `open`. `readlink`
-- and the requests on an opened file are left aside.
abbrev pub Issues : {P : Type 0} → Request P → Operation P → Type 0
Issues (Request.mkdir path mode) op = op ≡ Operation.mkdir path (with_bit s_ifdir_bit mode)
Issues (Request.rmdir path) op = op ≡ Operation.rmdir path
Issues (Request.unlink path) op = op ≡ Operation.unlink path
Issues (Request.symlink target link_path) op = op ≡ Operation.symlink target link_path
Issues (Request.rename old_path new_path flags) op = op ≡ Operation.rename old_path new_path flags
Issues (Request.chmod path mode) op = op ≡ Operation.chmod path mode
Issues (Request.truncate path len) op =
    (op ≡ Operation.truncate path len) × (is_negative len ≡ false)
Issues (Request.create path mode fi) op = op ≡ Operation.create path fi.flags mode
Issues (Request.utimens path atime mtime) op =
    (op ≡ Operation.utimens path atime mtime) × ((mtime.tv_nsec == utime_omit) ≡ false)
Issues (Request.open_file path fi) op =
    (op ≡ Operation.open_file path fi.flags) × (wants_write fi.flags ≡ true)
Issues _ op = ⊥

discard_raise :
    {S A : Type 0} (r : Result A × S) (e : Exception) (s : S)
    → ◌≡◌ {A = Result (Unit {0}) × S} (then_call r (λ a. return tt)) (raise e, s)
    → r ≡ (raise e, s)
discard_raise (raise x, s') e s h = cc
discard_raise (ok a, s') e s h = cc

module _ {P S : Type 0} ⦃paths : Paths P⦄ (sub : Vfs P (IdDispenser × S)) where
  -- The answer is `-e`, and the cache and the table of opened files are as they were.
  abbrev pub Refused : ℕ → Result ℕ × State P S → State P S → Type 0
  Refused e r s =
      (r.0 ≡ ok (negated e)) × (r.1.cache ≡ s.cache) × (r.1.opened_files ≡ s.opened_files)

  abbrev thrown : ℕ → Operation P → State P S → Result (Unit {0}) × State P S
  thrown e op s = (raise (system_error e), record s { shared = (run sub op s.shared).1 })

  refused :
      (e : ℕ) (r : Result (Unit {0}) × State P S) (rest : Unit {0} → Action (State P S) ℕ)
      (op : Operation P) (s : State P S)
      → r ≡ thrown e op s
      → Refused e (answer (then_call r rest)) s
  unfolding gen_return_error_code
  refused e r rest op s h = rw h (refl, refl, refl)

  with_refusal :
      {A B : Type 0} (e : ℕ) (before : B) (r : Result A × State P S)
      (rest : A → Action (State P S) (ℕ × B)) (s : State P S) (z : IdDispenser × S)
      → r ≡ (raise (system_error e), record s { shared = z })
      → Refused e (then_call (answer_with before (then_call r rest)) (λ p. return p.0)) s
  unfolding gen_return_error_code
  with_refusal e before r rest s z h = rw h (refl, refl, refl)

  -- A request on a path whose operation the file system under the cache refuses with an errno `e` is
  -- answered with `-e`, and leaves the cache and the table of opened files as they were.
  pub serve_raise :
      (r : Request P) (op : Operation P) (s : State P S) (e : ℕ)
      → Issues r op
      → (run sub op s.shared).0 ≡ raise (system_error e)
      → Refused e (serve (cached_vfs sub) r s) s
  unfolding serve run
  serve_raise (Request.mkdir path mode) op s e i h =
      let o : Operation P = Operation.mkdir path (with_bit s_ifdir_bit mode) in
      refused e (run (cached_vfs sub) o s) (λ u. return 0) o s
        (run-raise sub o s (system_error e) tt (rw i at h))
  serve_raise (Request.rmdir path) op s e i h =
      let o : Operation P = Operation.rmdir path in
      refused e (run (cached_vfs sub) o s) (λ u. return 0) o s
        (run-raise sub o s (system_error e) tt (rw i at h))
  serve_raise (Request.unlink path) op s e i h =
      let o : Operation P = Operation.unlink path in
      refused e (run (cached_vfs sub) o s) (λ u. return 0) o s
        (run-raise sub o s (system_error e) tt (rw i at h))
  serve_raise (Request.symlink target link_path) op s e i h =
      let o : Operation P = Operation.symlink target link_path in
      refused e (run (cached_vfs sub) o s) (λ u. return 0) o s
        (run-raise sub o s (system_error e) tt (rw i at h))
  serve_raise (Request.rename old_path new_path flags) op s e i h =
      let o : Operation P = Operation.rename old_path new_path flags in
      refused e (run (cached_vfs sub) o s) (λ u. return 0) o s
        (run-raise sub o s (system_error e) tt (rw i at h))
  serve_raise (Request.chmod path mode) op s e i h =
      let o : Operation P = Operation.chmod path mode in
      refused e (run (cached_vfs sub) o s) (λ u. return 0) o s
        (run-raise sub o s (system_error e) tt (rw i at h))
  serve_raise (Request.truncate path len) op s e i h =
      let o : Operation P = Operation.truncate path len in
      rw i.1 (
        refused e (run (cached_vfs sub) o s) (λ u. return 0) o s
          (run-raise sub o s (system_error e) tt (rw i.0 at h)))
  serve_raise (Request.create path mode fi) op s e i h =
      let o : Operation P = Operation.create path fi.flags mode in
      with_refusal e fi (CachedVfs.create sub path fi.flags mode s)
        (λ fh. return (0, record fi { fh = fh })) s (run sub o s.shared).1
        (discard_raise (CachedVfs.create sub path fi.flags mode s) (system_error e)
          (record s { shared = (run sub o s.shared).1 })
          (run-raise sub o s (system_error e) tt (rw i at h)))
  serve_raise (Request.getattr path) op s e i h = absurd i
  serve_raise (Request.readdir path) op s e i h = absurd i
  serve_raise (Request.readlink path dst sz) op s e i h = absurd i
  serve_raise (Request.utimens path atime mtime) op s e i h =
      let o : Operation P = Operation.utimens path atime mtime in
      refused e (run (cached_vfs sub) o s) (λ u. return 0) o s
        (run-raise sub o s (system_error e) i.1 (rw i.0 at h))
  serve_raise (Request.open_file path fi) op s e i h =
      let o : Operation P = Operation.open_file path fi.flags in
      with_refusal e fi (CachedVfs.open_file sub path fi.flags s)
        (λ fh. return (0, record fi { fh = fh })) s (run sub o s.shared).1
        (discard_raise (CachedVfs.open_file sub path fi.flags s) (system_error e)
          (record s { shared = (run sub o s.shared).1 })
          (run-raise sub o s (system_error e) i.1 (rw i.0 at h)))
  serve_raise (Request.release fi) op s e i h = absurd i
  serve_raise (Request.read output offset fi) op s e i h = absurd i
  serve_raise (Request.write input offset fi) op s e i h = absurd i
