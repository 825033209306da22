-- ===== src/Fuse/Tests.antt =====
-- Requests of FUSE at inputs: over the sample file system, and on a channel that never answers.
use rewofs.Base.{
  ℕ, ◌+◌, ◌<◌, ◌≤◌, ◌≡◌, refl, List, [], ◌∷◌, String, none, some, length, take, get_elem?,
}
use rewofs.Base.Result.{Result, ok, raise, undefined, enoent, ehostunreach}
use rewofs.Messages.{Stat, no_stat}
use rewofs.Samples.{list_paths}
use rewofs.Vfs.{Vfs}
use rewofs.Channel.{Channel}
use rewofs.RemoteVfs.{remote_vfs}
use rewofs.CachedVfs.{State, cached_vfs}
use rewofs.CachedVfs.Operations.{Operation}
use rewofs.CachedVfs.Sample.{program, Plain, plain, a, b, c, start}
use rewofs.Fuse.{FileInfo, negated, with_bit, s_ifdir_bit, gen_return_error_code}
use rewofs.Fuse
use rewofs.Fuse.Requests.{Request, serve}
use rewofs.Fuse.Stack.{serve_unreachable}
use rewofs.Fuse.Names.{getattr-mkdir, getattr-unlink}
use rewofs.Fuse.Readlink.{readlink_lem}

-- The state counts the commands.
abbrev silent : Channel (List String) ℕ
silent = record { add_command = λ c n. (n, n + 1); wait_for_result = λ t mid n. (none, n) }

abbrev remote_start : State (List String) ℕ
remote_start = record { cache = start.cache; opened_files = start.opened_files; shared = (8, 0) }

abbrev answered : Result ℕ × State (List String) ℕ
answered = serve (cached_vfs (remote_vfs silent)) (Request.mkdir c 7) remote_start

serve_unreachable_example :
    (answered.0 ≡ ok (negated ehostunreach))
    × (answered.1.cache ≡ remote_start.cache)
    × (answered.1.opened_files ≡ remote_start.opened_files)
serve_unreachable_example =
    serve_unreachable silent (Request.mkdir c 7) (Operation.mkdir c (with_bit s_ifdir_bit 7))
      remote_start (λ t mid n. refl) refl

abbrev handle : FileInfo
handle = record { flags = 2; fh = 7 }

abbrev requests : List (Request (List String))
requests =
    Request.mkdir c 7
    ∷ Request.getattr a
    ∷ Request.read (0 ∷ 0 ∷ []) 2 handle
    ∷ Request.write (9 ∷ []) 0 handle
    ∷ Request.release handle
    ∷ []

getattr-mkdir_example :
    (stat : Stat) × ((plain.getattr c (plain.mkdir c (with_bit s_ifdir_bit 5) start.shared).1).0
      ≡ ok stat)
    × (Fuse.getattr (cached_vfs plain) c no_stat (Fuse.mkdir (cached_vfs plain) c 5 start).1
        ≡ (ok (0, stat), (Fuse.mkdir (cached_vfs plain) c 5 start).1))
unfolding program Fuse.mkdir
getattr-mkdir_example =
    getattr-mkdir plain c 5 no_stat start (Fuse.mkdir (cached_vfs plain) c 5 start).1
      (λ e h. absurd (cc)) refl

getattr-unlink_example :
    Fuse.getattr (cached_vfs plain) b no_stat (Fuse.unlink (cached_vfs plain) b start).1
    ≡ (ok (negated enoent, no_stat), (Fuse.unlink (cached_vfs plain) b start).1)
unfolding program Fuse.unlink
getattr-unlink_example =
    getattr-unlink plain b no_stat start (Fuse.unlink (cached_vfs plain) b start).1 refl
      (λ e h. absurd (cc)) refl

-- The sample's links have an empty target.
abbrev to_b : Vfs (List String) Plain
to_b = record plain { readlink = λ p s. (ok "b", s) }

readlink_lem_example :
    (1 < 2
      → (d : List ℕ) × (Fuse.readlink to_b a (9 ∷ 9 ∷ []) 2 start.shared
          ≡ (ok (0, d), start.shared))
        × (length d ≡ 2)
        × (take 1 d ≡ 98 ∷ [])
        × (get_elem? d 1 ≡ some 0))
    × (2 ≤ 1 → Fuse.readlink to_b a (9 ∷ 9 ∷ []) 2 start.shared ≡ (raise undefined, start.shared))
readlink_lem_example = readlink_lem to_b a "b" (9 ∷ 9 ∷ []) start.shared start.shared refl
