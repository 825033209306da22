-- ===== src/RemoteVfs/WriteTests.antt =====
-- A server of one file that is written, and `RemoteVfs::write` at inputs.
use rewofs.Base.{ℕ, ◌+◌, ◌≡◌, refl, List, [], ◌∷◌, ◌++◌, String, Option, none, some, length, arith}
use rewofs.Base.Result.{ok}
use rewofs.Messages.{no_stat}
use rewofs.Channel.{Channel, Command, MessageType, Message}
use rewofs.RemoteVfs.{write, fragments, send_writes, receive_writes}
use rewofs.RemoteVfs.Pwrite.{put_at}
use rewofs.RemoteVfs.Write.{WriteServer, write-file}

-- The next message's id, the commands that wait, and the file.
pub record Line : Type 0 where
  pub next : ℕ
  pub waiting : List (ℕ × Command String)
  pub file : List ℕ

abbrev answer : (t : MessageType) → Command String → Message t
answer MessageType.result_errno c = record { res_errno = 0 }
answer MessageType.result_stat c = record { res_errno = 0; st = no_stat }
answer MessageType.result_readdir c = record { res_errno = 0; items = [] }
answer MessageType.result_readlink c = record { res_errno = 0; path = "" }
answer MessageType.result_read c = record { res = 0; res_errno = 0; bytes = [] }
answer MessageType.result_write (Command.write fh offset bytes) = record {
  res = length bytes;
  res_errno = 0;
}
answer MessageType.result_write c = record { res = 0; res_errno = 0 }

abbrev changed : Command String → List ℕ → List ℕ
changed (Command.write fh offset bytes) file = put_at bytes offset file
changed c file = file

abbrev front : (t : MessageType) → List (ℕ × Command String) → Line → Option (Message t) × Line
front t [] s = (none, s)
front t ((mid, c) ∷ rest) s =
    (some (answer t c), record s { waiting = rest; file = changed c s.file })

abbrev server : Channel String Line
server = record {
  add_command =
      λ c s. (s.next, record s { next = s.next + 1; waiting = s.waiting ++ (s.next, c) ∷ [] });
  wait_for_result = λ t mid s. front t s.waiting s;
}

abbrev serves : WriteServer server 3
serves = record {
  file = λ s. s.file;
  pending = λ s. s.waiting;
  sent = λ c s. (refl, refl);
  answered = λ mid offset bytes rest s e small. (
    record { res = length bytes; res_errno = 0 },
    record s { waiting = rest; file = put_at bytes offset s.file },
    rw e refl,
    refl,
    refl,
    refl,
  );
}

abbrev start : Line
start = record { next = 0; waiting = []; file = 1 ∷ 2 ∷ [] }

program : Unit {0}
unfolding write send_writes receive_writes fragments put_at
program = tt

-- Behind the end of the file, with a gap.
behind_end : (write server 3 (7 ∷ 8 ∷ []) 3 (9, start)).0 ≡ ok 2
unfolding program
behind_end = refl

gap : put_at (7 ∷ 8 ∷ []) 3 (1 ∷ 2 ∷ []) ≡ 1 ∷ 2 ∷ 0 ∷ 7 ∷ 8 ∷ []
unfolding program
gap = refl

write-file_example :
    (s' : Line) × (write server 3 (7 ∷ 8 ∷ []) 3 (9, start) ≡ (ok 2, (9, s')))
    × (s'.file ≡ put_at (7 ∷ 8 ∷ []) 3 (1 ∷ 2 ∷ []))
    × (s'.waiting ≡ [])
write-file_example = write-file server 3 serves 3 (7 ∷ 8 ∷ []) 9 start refl (omega arith)
