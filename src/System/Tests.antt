-- ===== src/System/Tests.antt =====
-- The whole system at inputs: FUSE over the client's stack, the network and the worker.
use rewofs.Base.{ℕ, ◌≡◌, refl, List, [], ◌∷◌, String, true}
use rewofs.Base.Assoc.{find}
use rewofs.Base.Result.{Result, ok, enoent}
use rewofs.Samples.{list_paths}
use rewofs.RemoteVfs.{remote_vfs}
use rewofs.CachedVfs.{State, cached_vfs}
use rewofs.CachedVfs.Operations.{Operation}
use rewofs.CachedVfs.Sample.{start}
use rewofs.Worker.Sample.{kernel_of, files_of}
use rewofs.Fuse.{negated}
use rewofs.Fuse.Requests.{Request, serve}
use rewofs.System.{Network, network}
use rewofs.System.Errors.{serve-Refused}

abbrev up : Network (List String) ℕ
up = record {
  next_id = 1;
  alive = true;
  worker = record { opened_files = []; ignored = []; kernel = 0 };
  sent = [];
}

abbrev mounted : State (List String) (Network (List String) ℕ)
mounted = record { cache = start.cache; opened_files = start.opened_files; shared = (8, up) }

abbrev a : List String
a = "a" ∷ []

-- The kernel of the sample refuses every `unlink` with ENOENT.
abbrev answered : Result ℕ × State (List String) (Network (List String) ℕ)
answered = serve (cached_vfs (remote_vfs (network kernel_of files_of))) (Request.unlink a) mounted

serve-Refused_example :
    (answered.0 ≡ ok (negated enoent))
    × (answered.1.cache ≡ mounted.cache)
    × (answered.1.opened_files ≡ mounted.opened_files)
unfolding find
serve-Refused_example =
    serve-Refused kernel_of files_of (Request.unlink a) (Operation.unlink a) mounted enoent refl
      refl refl refl refl
