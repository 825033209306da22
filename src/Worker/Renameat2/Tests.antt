-- ===== src/Worker/Renameat2/Tests.antt =====
-- The replacement of `renameat2` at an input: names are numbers, and each of them exists.
use rewofs.Base.{ℕ, ◌+◌, true, []}
use rewofs.Worker.{done, Worker}
use rewofs.Worker.Renameat2.{Renames}

-- The theorem at an input.
abbrev numbered : Renames ℕ ℕ
numbered = record {
  renameat = λ p q k. (done 0, k + 1);
  exists = λ p k. (true, k);
  tmp_of = λ p. p + 100;
}

abbrev idle : Worker ℕ ℕ
idle = record { opened_files = []; ignored = []; kernel = 7 }
