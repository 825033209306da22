-- ===== src/CachedVfs/ReadWrite.antt =====
-- Reading and writing through `CachedVfs`: what a read gives after a read and after a write, and
-- when the other file system is left alone.
use rewofs.Base.{
  ℕ, ◌+◌, ◌<◌, ◌^◌, ◌≡◌, refl, sym, ap, ◌∙◌, subst, List, [], ◌∷◌, length, none, some, arith,
  ℕ_discrete, if_pos, Option-cases, inl, inr,
}
use rewofs.Base.Assoc.{put, find-put}
use rewofs.Base.Paths.{Paths}
use rewofs.Base.Result.{Result, ok, raise, ok-injective, raise-ne-ok, system_error, ebadf}
use rewofs.Messages.{Stat}
use rewofs.Content.{Content, copy_at, blocks_at}
use rewofs.Content.Contract.{IsValid, block, write-IsValid}
use rewofs.Content.Write.{IsClear}
use rewofs.Content.Read.{read-cached, read-write}
use rewofs.Content
use rewofs.Cache.{Cache}
use rewofs.Cache
use rewofs.Vfs.{Vfs, IdDispenser}
use rewofs.Vfs.Call.{then_call_ok, ◌>>=◌}
use rewofs.CachedVfs.{
  remember, on_cache, on_sub, open_lazily, State, File, find_file, read, read_through, fetched,
  write, written, truncate,
}

copy_at_all : (src dst : List ℕ) → length src ≡ length dst → copy_at src 0 dst ≡ src
unfolding copy_at
copy_at_all [] [] e = refl
copy_at_all [] (d ∷ dst) e = absurd (omega (arith, e))
copy_at_all (s ∷ src) [] e = absurd (omega (arith, e))
copy_at_all (s ∷ src) (d ∷ dst) e = ground (arith, copy_at_all src dst)

module _ {P S : Type 0} ⦃paths : Paths P⦄ (sub : Vfs P (IdDispenser × S)) (fh : ℕ) (f : File P)
    (offset : ℕ) where
  -- On a valid cache, a read through an open handle of a range that ends below 2 ^ 64 and that the
  -- cache holds returns the length of the buffer and the cached bytes, and changes nothing: the
  -- other file system is not called.
  read_hit :
      (output bytes : List ℕ) (s : State P S)
      → IsValid s.cache.content
      → offset + length output < 2 ^ 64
      → find_file fh s ≡ some f
      → Content.read f.path offset (length output) s.cache.content ≡ some bytes
      → read sub fh output offset s ≡ (ok (length output, bytes), s)
  unfolding read Cache.read
  read_hit output bytes s valid small e h =
      let (size, held) =
        read-cached f.path offset (length output) s.cache.content valid small bytes h in
      rw (e, h) (ap (λ (b : List ℕ). (ok (length output, b), s)) (copy_at_all bytes output size))

  abbrev reopened : ℕ → File P
  reopened h = record f { subvfs_handle = some h }

  abbrev stored : ℕ → Content P → State P S → State P S
  stored h content s = record s {
    cache = record s.cache { content = content };
    opened_files = put ℕ_discrete fh (reopened h) s.opened_files;
  }

  fetched_lem :
      (h : ℕ) (ret : ℕ × List ℕ) (s : State P S) (m' : Content P)
      → find_file fh s ≡ some f
      → Content.write f.path offset ret.1 s.cache.content ≡ ok m'
      → fetched fh h offset ret s ≡ (ok ret, stored h m' s)
  unfolding fetched Cache.write
  fetched_lem h ret s m' e done = rw (e, fetched, remember, done, on_cache)

  open_lazily_keeps :
      (h : ℕ) (s s1 : State P S)
      → open_lazily sub f s ≡ (ok h, s1)
      → s1 ≡ record s { shared = s1.shared }
  open_lazily_keeps h s s1 e = ground arith

  fetched_returns :
      (h : ℕ) (ret r : ℕ × List ℕ) (s s' : State P S)
      → fetched fh h offset ret s ≡ (ok r, s')
      → ret ≡ r
  unfolding fetched
  fetched_returns h ret r s s' e = ground arith

  module _ (output buf : List ℕ) (n : ℕ) (s s' : State P S) (found : find_file fh s ≡ some f)
      (valid : IsValid s.cache.content)
      (small : (h : ℕ) (shared : IdDispenser × S)
        → (sub.read h output offset shared).0 ≡ ok (n, buf)
        → offset + length buf < 2 ^ 64) where
    read_through_ok :
        read_through sub fh f output offset s ≡ (ok (n, buf), s')
        → (h : ℕ) × (shared : IdDispenser × S) × (m' : Content P) × ((sub.read h output offset
              shared).0
            ≡ ok (n, buf))
          × (Content.write f.path offset buf s.cache.content ≡ ok m')
          × (s' ≡ stored h m' (record s { shared = (sub.read h output offset shared).1 }))
    unfolding read_through
    read_through_ok e =
        let (h, s1, e1, f1) =
          then_call_ok (open_lazily sub f s)
            (λ h. on_sub (sub.read h output offset) >>= λ ret. fetched fh h offset ret) (n, buf) s'
            e in
        let (ret, s2, e2, f2) =
          then_call_ok (on_sub (sub.read h output offset) s1) (λ ret. fetched fh h offset ret)
            (n, buf) s' f1 in
        let same : ret ≡ (n, buf) = fetched_returns h ret (n, buf) s2 s' f2 in
        let back : (sub.read h output offset s1.shared).0 ≡ ok (n, buf) =
          ap (λ (z : Result (ℕ × List ℕ) × State P S). z.0) e2 ∙ ap ok same in
        let (m', done, v) =
          write-IsValid f.path offset buf s.cache.content valid (small h s1.shared back) in
        let now : State P S = record s { shared = (sub.read h output offset s1.shared).1 } in
        let k : now ≡ s2 =
          ap (λ (z : State P S). record z { shared = (sub.read h output offset s1.shared).1 })
            (sym (open_lazily_keeps h s s1 e1))
          ∙ ap (λ (z : Result (ℕ × List ℕ) × State P S). z.1) e2 in
        let g : fetched fh h offset (n, buf) now ≡ (ok (n, buf), stored h m' now) =
          fetched_lem h (n, buf) now m' found done in
        let all : ◌≡◌ {A = Result (ℕ × List ℕ) × State P S} (ok (n, buf), s')
            (ok (n, buf), stored h m' now) =
          cc in
        (h, s1.shared, m', back, done, ap (λ (z : Result (ℕ × List ℕ) × State P S). z.1) all)

    read_miss :
        Content.read f.path offset (length output) s.cache.content ≡ none
        → read sub fh output offset s ≡ read_through sub fh f output offset s
    unfolding read Cache.read
    read_miss h = rw (found, h)

module _ {P S : Type 0} ⦃paths : Paths P⦄ (sub : Vfs P (IdDispenser × S)) (fh : ℕ) (f : File P)
    (offset : ℕ) (output : List ℕ)
    (in_place : (h m : ℕ) (b : List ℕ) (shared : IdDispenser × S)
      → (sub.read h output offset shared).0 ≡ ok (m, b)
      → length b ≡ length output) where
  -- Over a file system whose reads keep the length of the buffer, on a valid cache, and where no
  -- cached block starts strictly inside the range, which is not empty and ends below 2 ^ 64: a
  -- read through an open handle that returns is repeated by the next one into as long a buffer,
  -- with the same bytes, the full length as the count, whatever the count was at first, and no
  -- call of the other file system.
  pub read_again :
      (n : ℕ) (buf again : List ℕ) (s s' : State P S)
      → IsValid s.cache.content
      → offset + length output < 2 ^ 64
      → 0 < length output
      → find_file fh s ≡ some f
      → IsClear (block offset buf) (blocks_at f.path s.cache.content)
      → read sub fh output offset s ≡ (ok (n, buf), s')
      → length again ≡ length output
      → read sub fh again offset s' ≡ (ok (length again, buf), s')
  read_again n buf again s s' valid small z found clear e same =
      elim (Option-cases (Content.read f.path offset (length output) s.cache.content)) [
        | inr (bytes, h) ↦
            let k = read_hit sub fh f offset output bytes s valid small found h in
            let eb : bytes ≡ buf =
              ap (λ (p : ℕ × List ℕ). p.1)
                (ok-injective (length output, bytes) (n, buf)
                  (ap (λ (r : Result (ℕ × List ℕ) × State P S). r.0) (sym k ∙ e))) in
            let es : s ≡ s' = ap (λ (r : Result (ℕ × List ℕ) × State P S). r.1) (sym k ∙ e) in
            rw (← es, ← eb)
              (read_hit sub fh f offset again bytes s valid (rw same small) found (rw same h))
        | inl h ↦
            let fits : (k : ℕ) (shared : IdDispenser × S)
                → (sub.read k output offset shared).0 ≡ ok (n, buf)
                → offset + length buf < 2 ^ 64 =
              λ k shared r. rw (in_place k n buf shared r) small in
            let (k, shared, m', back, done, after) =
              read_through_ok sub fh f offset output buf n s s' found valid fits
                (sym (read_miss sub fh f offset output buf n s s' found valid fits h) ∙ e) in
            let size : length buf ≡ length output = in_place k n buf shared back in
            let fit : offset + length buf < 2 ^ 64 = fits k shared back in
            let (m'', done', v) = write-IsValid f.path offset buf s.cache.content valid fit in
            let v' : IsValid m' = subst IsValid (ok-injective m'' m' (sym done' ∙ done)) v in
            let now : State P S = record s { shared = (sub.read k output offset shared).1 } in
            rw after (
              read_hit sub fh (reopened sub fh f offset k) offset again buf
                (stored sub fh f offset k m' now) v' (rw same small)
                (find-put ℕ_discrete fh fh (reopened sub fh f offset k) s.opened_files
                  ∙ if_pos (ℕ_discrete fh fh) refl _ _)
                (rw same (
                  rw (← size) (
                    read-write f.path offset buf s.cache.content m' valid fit done clear
                      (rw size z)))))
      ]

module _ {P S : Type 0} ⦃paths : Paths P⦄ (sub : Vfs P (IdDispenser × S)) (fh : ℕ) (f : File P)
    (offset : ℕ) (input : List ℕ) where
  written_ok :
      (res n : ℕ) (stat : Stat) (s s' : State P S)
      → written f.path input offset n stat s ≡ (ok res, s')
      → (s'.opened_files ≡ s.opened_files)
        × (Content.write f.path offset input s.cache.content ≡ ok s'.cache.content)
  unfolding written Cache.write Cache.set_node_st
  written_ok res n stat s s' e = ground arith

  write_ok :
      (res : ℕ) (s s' : State P S)
      → find_file fh s ≡ some f
      → write sub fh input offset s ≡ (ok res, s')
      → (s'.opened_files ≡ s.opened_files)
        × (Content.write f.path offset input s.cache.content ≡ ok s'.cache.content)
  unfolding write
  write_ok res s s' found e = elim (Option-cases f.subvfs_handle) [
    | inl h ↦ absurd (
        raise-ne-ok (system_error ebadf) res
          (ap (λ (z : Result ℕ × State P S). z.0) (sym (closed h) ∙ e)))
    | inr (sh, h) ↦
        let after : ℕ → State P S → Result ℕ × State P S =
          λ r. on_sub (sub.getattr f.path) >>= λ stat. written f.path input offset r stat in
        let (n, s1, e1, f1) =
          then_call_ok (on_sub (sub.write sh input offset) s) after res s'
            (sym (rw (found, h)) ∙ e) in
        let (stat, s2, e2, f2) =
          then_call_ok (on_sub (sub.getattr f.path) s1) (λ stat. written f.path input offset n stat)
            res s' f1 in
        let (a, b) = written_ok res n stat s2 s' f2 in ground arith
  ]
    where
      closed :
          f.subvfs_handle ≡ none → write sub fh input offset s ≡ (raise (system_error ebadf), s)
      closed h = rw (found, h)

  -- On a valid cache, after a write that returns, to a range that is not empty, ends below 2 ^ 64
  -- and has no cached block that starts strictly inside it: a read of the range through any open
  -- handle on the same path returns the written bytes without calling the other file system,
  -- whatever count that has returned.
  pub read-write_file :
      (res reader : ℕ) (g : File P) (output : List ℕ) (s s' : State P S)
      → IsValid s.cache.content
      → offset + length input < 2 ^ 64
      → 0 < length input
      → IsClear (block offset input) (blocks_at f.path s.cache.content)
      → find_file fh s ≡ some f
      → find_file reader s ≡ some g
      → g.path ≡ f.path
      → write sub fh input offset s ≡ (ok res, s')
      → length output ≡ length input
      → read sub reader output offset s' ≡ (ok (length output, input), s')
  read-write_file res reader g output s s' valid small z clear found other same e size =
      let (files, done) = write_ok res s s' found e in
      let (m', done', v) = write-IsValid f.path offset input s.cache.content valid small in
      let v' : IsValid s'.cache.content =
        subst IsValid (ok-injective m' s'.cache.content (sym done' ∙ done)) v in
      read_hit sub reader g offset output input s' v' (rw size small) (rw files other) (
        rw (same, size)
          (read-write f.path offset input s.cache.content s'.cache.content valid small done clear
            z))

module _ {P S : Type 0} ⦃paths : Paths P⦄ (sub : Vfs P (IdDispenser × S)) (path : P) (len : ℕ)
    (s : State P S) where
  truncate_keeps :
      let after = (truncate sub path len s).1 in
      (after.opened_files ≡ s.opened_files) × (after.cache.content ≡ s.cache.content)
  unfolding truncate Cache.set_node_st
  truncate_keeps = ground arith

  -- A truncation, of whatever path, to whatever length, and whether it returns or throws, forgets
  -- no cached byte: on a valid cache, a range that ends below 2 ^ 64 and that the cache held
  -- before is read from the cache after it too.
  pub read-truncate :
      (fh offset : ℕ) (f : File P) (output bytes : List ℕ)
      → let after = (truncate sub path len s).1 in
        IsValid s.cache.content
        → offset + length output < 2 ^ 64
        → find_file fh s ≡ some f
        → Content.read f.path offset (length output) s.cache.content ≡ some bytes
        → read sub fh output offset after ≡ (ok (length output, bytes), after)
  read-truncate fh offset f output bytes valid small found h =
      let (files, content) = truncate_keeps in
      read_hit sub fh f offset output bytes (truncate sub path len s).1 (rw content valid) small
        (rw files found) (rw content h)
