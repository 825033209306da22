-- ===== src/CachedVfs/Keeps.antt =====
-- Which calls keep the cached content valid, put together the way the calls are.
use rewofs.Base.{ℕ, ◌+◌, ◌<◌, ◌^◌, ◌≡◌, refl, List, length, arith, inl, inr}
use rewofs.Base.Paths.{Paths}
use rewofs.Base.Result.{Result, ok, raise, Result-cases}
use rewofs.Messages.{Stat}
use rewofs.Content.{delete_file}
use rewofs.Content.Contract.{IsValid, write-IsValid, delete_file-IsValid}
use rewofs.Cache.{Cache}
use rewofs.Cache
use rewofs.Vfs.{IdDispenser}
use rewofs.Vfs.Call.{Action, then_call, ◌>>=◌, ◌>>◌, return, ask}
use rewofs.Tree.{st}
use rewofs.CachedVfs.{State, on_sub, on_cache}

abbrev pub Good : {P S : Type 0} ⦃paths : Paths P⦄ → State P S → Type 0
Good s = IsValid s.cache.content

pub record Keeps {P S A : Type 0} ⦃paths : Paths P⦄ (call : Action (State P S) A) : Type 0 where
  pub keeps : (s : State P S) → Good s → Good (call s).1

module _ {P : Type 0} ⦃paths : Paths P⦄ where
  set_node_st-keeps :
      (path : P) (st : Stat) (c c' : Cache P)
      → Cache.set_node_st path st c ≡ ok c'
      → IsValid c.content
      → IsValid c'.content
  unfolding Cache.set_node_st Cache.assign_st
  set_node_st-keeps path st c c' e v = let k : c'.content ≡ c.content = ground arith in rw k v

  make_node-keeps :
      (path : P) (c c' : Cache P)
      → Cache.make_node path c ≡ ok c'
      → IsValid c.content
      → IsValid c'.content
  unfolding Cache.make_node
  make_node-keeps path c c' e v = let k : c'.content ≡ c.content = ground arith in rw k v

  pub remove_single-keeps :
      (path : P) (c c' : Cache P)
      → Cache.remove_single path c ≡ ok c'
      → IsValid c.content
      → IsValid c'.content
  unfolding Cache.remove_single
  remove_single-keeps path c c' e v =
      let k : c'.content ≡ delete_file path c.content = ground arith in
      rw k (delete_file-IsValid path c.content v)

  write-keeps :
      (path : P) (start : ℕ) (bytes : List ℕ) (c c' : Cache P)
      → start + length bytes < 2 ^ 64
      → Cache.write path start bytes c ≡ ok c'
      → IsValid c.content
      → IsValid c'.content
  unfolding Cache.write
  write-keeps path start bytes c c' small e v =
      let (m', done, w) = write-IsValid path start bytes c.content v small in
      let k : c'.content ≡ m' = ground arith in rw k w

module _ {P S : Type 0} ⦃paths : Paths P⦄ where
  then_call-Good :
      {A B : Type 0} (r : Result A × State P S) (rest : A → Action (State P S) B)
      → Good r.1
      → ((a : A) → r.0 ≡ ok a → Keeps (rest a))
      → Good (then_call r rest).1
  then_call-Good (raise e, s) rest g k = g
  then_call-Good (ok a, s) rest g k = (k a refl).keeps s g

  pub bind :
      {A B : Type 0} {call : Action (State P S) A} {rest : A → Action (State P S) B}
      → Keeps call
      → ((a : A) (s : State P S) → (call s).0 ≡ ok a → Keeps (rest a))
      → Keeps (call >>= rest)
  bind {call = call} {rest = rest} k r = record {
    keeps = λ s g. then_call-Good (call s) rest (k.keeps s g) (λ a e. r a s e);
  }

  pub next :
      {B : Type 0} {call : Action (State P S) (Unit {0})} {rest : Action (State P S) B}
      → Keeps call
      → Keeps rest
      → Keeps (call >> rest)
  next {call = call} {rest = rest} k r = record {
    keeps = λ s g. then_call-Good (call s) (λ z. rest) (k.keeps s g) (λ a e. r);
  }

  pub cache :
      (f : Cache P → Result (Cache P))
      → ((c c' : Cache P) → f c ≡ ok c' → IsValid c.content → IsValid c'.content)
      → Keeps (on_cache {P = P} {S = S} f)
  cache f k = record {
    keeps = λ s g. elim (Result-cases (f s.cache)) [
      | inl (c', h) ↦ rw (h, on_cache) (k s.cache c' h g)
      | inr (x, h) ↦ rw (h, on_cache) g
    ];
  }

  pub shared : {A : Type 0} (call : Action (IdDispenser × S) A) → Keeps (on_sub {P = P} call)
  shared call = record { keeps = λ s g. g }

  pub asks : {A : Type 0} (f : State P S → Result A) → Keeps (ask f)
  asks f = record { keeps = λ s g. g }

  pub gives : {A : Type 0} (a : A) → Keeps {P = P} {S = S} (return a)
  gives a = record { keeps = λ s g. g }

  pub assign :
      (path : P) (stat : Stat) → Keeps (on_cache {S = S} (λ c. ok (Cache.assign_st path stat c)))
  unfolding Cache.assign_st
  assign path stat =
      cache (λ c. ok (Cache.assign_st path stat c))
        λ c c' e v. let k : c'.content ≡ c.content = ground arith in rw k v

  pub set_st : (path : P) (stat : Stat) → Keeps (on_cache {S = S} (Cache.set_node_st path stat))
  set_st path stat = cache (Cache.set_node_st path stat) (set_node_st-keeps path stat)

  pub make : (path : P) → Keeps (on_cache {S = S} (Cache.make_node path))
  make path = cache (Cache.make_node path) (make_node-keeps path)

  pub store :
      (path : P) (start : ℕ) (bytes : List ℕ)
      → start + length bytes < 2 ^ 64
      → Keeps (on_cache {S = S} (Cache.write path start bytes))
  store path start bytes small =
      cache (Cache.write path start bytes) (λ c c'. write-keeps path start bytes c c' small)
