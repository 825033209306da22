-- ===== src/RemoteVfs/Tests.antt =====
-- A server of one file, and the theorems on `RemoteVfs` at inputs.
use rewofs.Base.{
  ℕ, ◌+◌, ◌-◌, ◌^◌, ◌≡◌, refl, List, [], ◌∷◌, ◌++◌, String, length, take, drop, min, Option, none,
  some, arith, lt→leb, false,
}
use rewofs.Base.Result.{ok}
use rewofs.Messages.{no_stat}
use rewofs.Samples.{list_paths}
use rewofs.Content.{copy_at}
use rewofs.Content.Contract.{IsValid, block, single-IsValid}
use rewofs.Tree.{initial}
use rewofs.Vfs.{IdDispenser}
use rewofs.Channel.{Channel, Command, MessageType, Message}
use rewofs.RemoteVfs.{read, fragments, send_reads, receive_reads, remote_vfs, is_negative}
use rewofs.RemoteVfs.Read.{FileServer, read-file}
use rewofs.CachedVfs.{State}
use rewofs.CachedVfs.Operations.{Operation}

abbrev P : Type 0
P = List String

-- The next message's id, and the commands that wait.
abbrev Line : Type 0
Line = ℕ × List (ℕ × Command P)

abbrev file : List ℕ
file = 5 ∷ 6 ∷ 7 ∷ 8 ∷ []

abbrev bytes_of : Command P → List ℕ
bytes_of (Command.read fh offset size) = take size (drop offset file)
bytes_of _ = []

abbrev answer : (t : MessageType) → Command P → Message t
answer MessageType.result_errno c = record { res_errno = 0 }
answer MessageType.result_stat c = record { res_errno = 0; st = no_stat }
answer MessageType.result_readdir c = record { res_errno = 0; items = [] }
answer MessageType.result_readlink c = record { res_errno = 0; path = "" }
answer MessageType.result_read c = record {
  res = min (length (bytes_of c)) (2 ^ 63 - 1);
  res_errno = 0;
  bytes = bytes_of c;
}
answer MessageType.result_write c = record { res = 0; res_errno = 0 }

abbrev front : (t : MessageType) → List (ℕ × Command P) → Option (Message t) × List (ℕ × Command P)
front t [] = (none, [])
front t ((mid, c) ∷ rest) = (some (answer t c), rest)

abbrev server : Channel P Line
server = record {
  add_command = λ c s. (s.0, (s.0 + 1, s.1 ++ (s.0, c) ∷ []));
  wait_for_result = λ t mid s. ((front t s.1).0, (s.0, (front t s.1).1));
}

small : (bytes : List ℕ) → is_negative (min (length bytes) (2 ^ 63 - 1)) ≡ false
small bytes = lt→leb (2 ^ 63) (min (length bytes) (2 ^ 63 - 1)) (omega arith)

abbrev serves : FileServer server 3 file
serves = record {
  pending = λ s. s.1;
  sent = λ c s. refl;
  answered = λ mid offset size rest s e. (
    answer MessageType.result_read (Command.read 3 offset size),
    (s.0, rest),
    rw e refl,
    small (take size (drop offset file)),
    refl,
    refl,
  );
}

program : Unit {0}
unfolding fragments send_reads receive_reads read copy_at remote_vfs
program = tt

abbrev idle : IdDispenser × Line
idle = (9, (0, []))

abbrev buffer : List ℕ
buffer = 0 ∷ 0 ∷ 0 ∷ 0 ∷ []

three : (read server 3 buffer 1 idle).0 ≡ ok (3, 6 ∷ 7 ∷ 8 ∷ 0 ∷ [])
unfolding program
three = refl

two_fragments : fragments 3 32768 32770 ≡ (32768, 2) ∷ []
unfolding program
two_fragments = refl

-- The theorems at inputs.
read-file_example :
    (s' : Line) × (read server 3 buffer 1 idle
      ≡ (ok (3, copy_at (6 ∷ 7 ∷ 8 ∷ []) 0 buffer), (9, s')))
    × (s'.1 ≡ [])
read-file_example = read-file server 3 file serves 1 buffer 9 (0, []) refl (omega arith)

abbrev start : State P Line
start = record {
  cache = record { tree = initial; content = ("a" ∷ [], block 0 file ∷ []) ∷ [] };
  opened_files = [];
  shared = idle;
}

start-IsValid : IsValid start.cache.content
start-IsValid = single-IsValid ("a" ∷ []) (block 0 file ∷ []) (omega arith) (omega arith)

abbrev calls : List (Operation P)
calls =
    Operation.create ("b" ∷ []) 2 0 ∷ Operation.write 10 file 0 ∷ Operation.read 10 buffer 2 ∷ []
