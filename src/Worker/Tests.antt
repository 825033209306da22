-- ===== src/Worker/Tests.antt =====
-- Runs of the handlers, on a kernel that opens descriptor 7 and knows no other.
use rewofs.Base.{ℕ, ◌++◌, false, length, ◌≡◌, refl, List, [], ◌∷◌, none, some, String, ℕ_discrete}
use rewofs.Base.Assoc.{find}
use rewofs.Worker.{
  Worker, process_open, process_close, process_read, process_write, minus_one32, minus_one64,
}
use rewofs.Base.Result.{ebadf}
use rewofs.Worker.Sample.{kernel_of, files_of}
use rewofs.Samples.{list_paths}
use rewofs.Messages.{Stat, no_stat}
use rewofs.Base.Result.{Result, ok}
use rewofs.Worker.Inspect.{process_readdir}
use rewofs.Worker.ReadTree.{process_readdir_same}
use rewofs.Worker.Queue.{BlockingQueue, Call, calls, waiting, calls-fifo}
use rewofs.Worker.Table.{unknown_handle}

abbrev idle : Worker String ℕ
idle = record { opened_files = (3, record { fd = 4; path = "b" }) ∷ []; ignored = []; kernel = 0 }

abbrev opened : Worker String ℕ
opened = (process_open kernel_of "a" 1 0 none idle).1

answered :
    (process_read kernel_of 3 2 1 idle).0 ≡ some (record { res = 1; res_errno = 0; bytes = 5 ∷ [] })
unfolding process_read ℕ_discrete
answered = refl

unknown_handle_example :
    ((process_read kernel_of 5 2 1 idle).0
      ≡ some (record { res = minus_one64; res_errno = minus_one32; bytes = [] }))
    × ((process_write kernel_of 5 2 [] idle).0
        ≡ some (record { res = minus_one64; res_errno = minus_one32 }))
    × ((process_close kernel_of 5 idle).0 ≡ none)
unfolding find ℕ_discrete
unknown_handle_example = unknown_handle kernel_of 5 2 1 ebadf [] idle refl refl

abbrev found : List String → Result Stat
found p = ok (record no_stat { st_size = length p })

-- Both entries get the attributes of "/b", whose path has one name; that of the first has two.
process_readdir_same_example :
    (process_readdir kernel_of files_of ("a" ∷ []) 0
      ≡ (record { res_errno = 0; items = ("b", some (record no_stat { st_size = 1 })) ∷ [] }, 0))
    × (process_readdir kernel_of files_of ("c" ∷ []) 0
        ≡ process_readdir kernel_of files_of ("a" ∷ []) 0)
process_readdir_same_example =
    process_readdir_same kernel_of files_of ("a" ∷ []) ("c" ∷ []) 0 ("b" ∷ []) found (λ p k. refl)
      refl refl

abbrev requests : List (Call ℕ)
requests = Call.pushes 1 ∷ Call.pushes 2 ∷ Call.pops ∷ Call.pushes 3 ∷ Call.stops ∷ Call.pops ∷ []

abbrev empty : BlockingQueue ℕ
empty = record { queue = []; stopped = false }

calls-fifo_example : (calls requests empty).0 ++ waiting (calls requests empty).1 ≡ 1 ∷ 2 ∷ 3 ∷ []
calls-fifo_example = calls-fifo requests empty
