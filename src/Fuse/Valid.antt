-- ===== src/Fuse/Valid.antt =====
-- Requests keep the cached content valid, put together the way the callbacks are.
use rewofs.Base.{ℕ, ◌≡◌, refl, ◌∙◌, List, [], ◌∷◌, Bool-cases, inl, inr, length}
use rewofs.Base.Paths.{Paths}
use rewofs.Base.Result.{Result, ok, raise}
use rewofs.Messages.{no_stat}
use rewofs.Content.Contract.{IsValid}
use rewofs.Vfs.{Vfs, IdDispenser}
use rewofs.Vfs.Call.{Action, ◌>>=◌, return, then_call}
use rewofs.Channel.{Channel}
use rewofs.RemoteVfs.{remote_vfs, is_negative}
use rewofs.RemoteVfs.InPlace.{length-read}
use rewofs.Cache
use rewofs.Tree.{st, children}
use rewofs.CachedVfs.{State, cached_vfs, entries}
use rewofs.CachedVfs
use rewofs.CachedVfs.Keeps.{Keeps, Good, shared, bind, asks, gives}
use rewofs.CachedVfs.Operations.{Operation, run}
use rewofs.CachedVfs.Valid.{run-Keeps, create-Keeps, open_file-Keeps, read-Keeps, write-Keeps}
use rewofs.Fuse.{
  guarded, guarded_with, answer, answer_with, with_target, to_int, with_bit, s_ifdir_bit,
}
use rewofs.Fuse.Requests.{Request, code_only, serve, serve_all, InRange, AllInRange}

-- A call that ends by computing its result, and a `catch`, leave the state that their call left.
state_of_rest :
    {S A B : Type 0} (r : Result A × S) (f : A → Result B) → (then_call r (λ a s. (f a, s))).1 ≡ r.1
state_of_rest (ok a, s) f = refl
state_of_rest (raise e, s) f = refl

state_of_answer : {S : Type 0} (r : Result ℕ × S) → (answer r).1 ≡ r.1
state_of_answer (ok n, s) = refl
state_of_answer (raise e, s) = refl

state_of_answer_with :
    {S A : Type 0} (before : A) (r : Result (ℕ × A) × S) → (answer_with before r).1 ≡ r.1
state_of_answer_with before (ok n, s) = refl
state_of_answer_with before (raise e, s) = refl

state_of_guarded :
    {S A : Type 0} (call : Action S A) (f : A → Result ℕ) (s : S)
    → (guarded (call >>= λ a t. (f a, t)) s).1 ≡ (call s).1
state_of_guarded call f s =
    state_of_answer (then_call (call s) (λ a t. (f a, t))) ∙ state_of_rest (call s) f

state_of_guarded_with :
    {S A B : Type 0} (before : B) (call : Action S A) (f : A → Result (ℕ × B)) (s : S)
    → (code_only (guarded_with before (call >>= λ a t. (f a, t))) s).1 ≡ (call s).1
state_of_guarded_with before call f s =
    state_of_rest (guarded_with before (call >>= λ a t. (f a, t)) s) (λ r. ok r.0)
    ∙ state_of_answer_with before (then_call (call s) (λ a t. (f a, t)))
    ∙ state_of_rest (call s) f

module _ {P S : Type 0} ⦃paths : Paths P⦄ where
  guarded-Keeps :
      {A : Type 0} {call : Action (State P S) A} (f : A → Result ℕ)
      → Keeps call
      → Keeps (guarded (call >>= λ a t. (f a, t)))
  guarded-Keeps {call = call} f k = record {
    keeps = λ s v. rw (state_of_guarded call f s) (k.keeps s v);
  }

  guarded_with-Keeps :
      {A B : Type 0} {call : Action (State P S) A} (before : B) (f : A → Result (ℕ × B))
      → Keeps call
      → Keeps (code_only (guarded_with before (call >>= λ a t. (f a, t))))
  guarded_with-Keeps {call = call} before f k = record {
    keeps = λ s v. rw (state_of_guarded_with before call f s) (k.keeps s v);
  }

module _ {P S : Type 0} ⦃paths : Paths P⦄ (sub : Vfs P (IdDispenser × S)) where
  getattr-Keeps : (path : P) → Keeps (CachedVfs.getattr {S = S} sub path)
  unfolding CachedVfs.getattr
  getattr-Keeps path = bind (asks (λ s. Cache.get_node path s.cache)) (λ n s e. gives (st n))

  readdir-Keeps : (path : P) → Keeps (CachedVfs.readdir {S = S} sub path)
  unfolding CachedVfs.readdir
  readdir-Keeps path =
      bind (asks (λ s. Cache.get_node path s.cache)) (λ n s e. gives (entries (children n)))

  module _
      (in_place : (h m offset : ℕ) (output b : List ℕ) (s : IdDispenser × S)
        → (sub.read h output offset s).0 ≡ ok (m, b)
        → length b ≡ length output) where
    done :
        {call : Action (State P S) (Unit {0})}
        → Keeps call
        → Keeps (guarded (call >>= λ u. return 0))
    done k = guarded-Keeps (λ u. ok 0) k

    serve-Keeps : (r : Request P) → InRange r → Keeps (serve (cached_vfs sub) r)
    unfolding serve run CachedVfs.readlink
    serve-Keeps (Request.mkdir path mode) i =
        done (run-Keeps sub in_place (Operation.mkdir path (with_bit s_ifdir_bit mode)) tt)
    serve-Keeps (Request.rmdir path) i = done (run-Keeps sub in_place (Operation.rmdir path) tt)
    serve-Keeps (Request.unlink path) i = done (run-Keeps sub in_place (Operation.unlink path) tt)
    serve-Keeps (Request.symlink target link_path) i =
        done (run-Keeps sub in_place (Operation.symlink target link_path) tt)
    serve-Keeps (Request.rename old_path new_path flags) i =
        done (run-Keeps sub in_place (Operation.rename old_path new_path flags) tt)
    serve-Keeps (Request.chmod path mode) i =
        done (run-Keeps sub in_place (Operation.chmod path mode) tt)
    serve-Keeps (Request.utimens path atime mtime) i =
        done (run-Keeps sub in_place (Operation.utimens path atime mtime) tt)
    serve-Keeps (Request.release fi) i = done (run-Keeps sub in_place (Operation.close fi.fh) tt)
    serve-Keeps (Request.truncate path len) i = elim (Bool-cases (is_negative len)) [
      | inl h ↦ record { keeps = λ s v. rw h v }
      | inr h ↦ record {
        keeps = λ s v.
            rw h ((done (run-Keeps sub in_place (Operation.truncate path len) tt)).keeps s v);
      }
    ]
    serve-Keeps (Request.getattr path) i =
        guarded_with-Keeps no_stat (λ st. ok (0, st)) (getattr-Keeps path)
    serve-Keeps (Request.readdir path) i =
        guarded_with-Keeps [] (λ items. ok (0, items)) (readdir-Keeps path)
    serve-Keeps (Request.readlink path dst sz) i =
        guarded_with-Keeps dst (λ link_path. with_target link_path dst sz)
          (shared (sub.readlink path))
    serve-Keeps (Request.create path mode fi) i =
        guarded_with-Keeps fi (λ fh. ok (0, record fi { fh = fh }))
          (create-Keeps sub path fi.flags mode)
    serve-Keeps (Request.open_file path fi) i =
        guarded_with-Keeps fi (λ fh. ok (0, record fi { fh = fh }))
          (open_file-Keeps sub path fi.flags)
    serve-Keeps (Request.read output offset fi) i =
        guarded_with-Keeps output (λ r. ok (to_int r.0, r.1))
          (read-Keeps sub in_place fi.fh output offset i)
    serve-Keeps (Request.write input offset fi) i =
        guarded-Keeps (λ n. ok (to_int n)) (write-Keeps sub fi.fh input offset i)

    serve_all-Good :
        (rs : List (Request P)) (s : State P S)
        → AllInRange rs
        → Good s
        → Good (serve_all (cached_vfs sub) rs s)
    unfolding serve_all
    serve_all-Good [] s i v = v
    serve_all-Good (r ∷ rs) s i v =
        serve_all-Good rs (serve (cached_vfs sub) r s).1 i.1 ((serve-Keeps r i.0).keeps s v)

module _ {P T : Type 0} ⦃paths : Paths P⦄ (channel : Channel P T) where
  -- The client's whole stack, FUSE over `CachedVfs` over `RemoteVfs`: on a valid cache every sequence of
  -- requests whose ranges end below 2 ^ 64 leaves a valid one, whatever the server answers, or where it
  -- does not.
  serve_all-IsValid :
      (rs : List (Request P)) (s : State P T)
      → AllInRange rs
      → IsValid s.cache.content
      → IsValid (serve_all (cached_vfs (remote_vfs channel)) rs s).cache.content
  serve_all-IsValid = serve_all-Good (remote_vfs channel) (length-read channel)
