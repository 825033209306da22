-- ===== src/RemoteVfs/Read.antt =====
-- `RemoteVfs::read` over a server that answers every read of a file with its bytes.
use rewofs.Base.{
  ℕ, zero, suc, ◌+◌, ◌-◌, ◌≤◌, ◌<◌, ◌^◌, ◌≡◌, refl, sym, ap, ◌∙◌, List, [], ◌∷◌, ◌++◌, length, take,
  drop, arith, false, append-nil, append_assoc, length-append, length-take, Option, some, le→leb,
}
use rewofs.Base.Result.{Result, ok}
use rewofs.Content.{copy_at, add64}
use rewofs.Content.Blocks.{length-copy_at}
use rewofs.Vfs.{IdDispenser}
use rewofs.Vfs.Call.{then_call}
use rewofs.Channel.{Channel, Command, MessageType, ResultRead, wait}
use rewofs.RemoteVfs.{fragments, is_negative, send_reads, receive_reads, read}
use rewofs.RemoteVfs.Fragments.{Tiles, fragments-Tiles, joined, joined_lem}

-- Two copies, the second behind the first, are one copy of both.
copy_at-append :
    (b c : List ℕ) (n : ℕ) (out : List ℕ)
    → copy_at c (n + length b) (copy_at b n out) ≡ copy_at (b ++ c) n out
unfolding copy_at
copy_at-append [] c zero [] = refl
copy_at-append [] c zero (d ∷ out) = refl
copy_at-append (x ∷ b) c zero [] =
    let e : 0 + suc (length b) ≡ suc (length b) = omega arith in rw e refl
copy_at-append (x ∷ b) c zero (d ∷ out) =
    let e : 0 + suc (length b) ≡ suc (length b) = omega arith in
    let f : 0 + length b ≡ length b = omega arith in
    rw e (ap (λ (r : List ℕ). x ∷ r) (rw f at (copy_at-append b c zero out)))
copy_at-append b c (suc n) [] =
    let e : suc n + length b ≡ suc (n + length b) = omega arith in rw e refl
copy_at-append b c (suc n) (d ∷ out) =
    let e : suc n + length b ≡ suc (n + length b) = omega arith in
    rw e (ap (λ (r : List ℕ). d ∷ r) (copy_at-append b c n out))

copy_at-nil : (n : ℕ) (out : List ℕ) → copy_at [] n out ≡ out
unfolding copy_at
copy_at-nil zero out = refl
copy_at-nil (suc n) [] = refl
copy_at-nil (suc n) (d ∷ out) = ap (λ (r : List ℕ). d ∷ r) (copy_at-nil n out)

-- A channel to a server that holds `file` under the handle `fh`, while no one changes it: a command
-- waits in line, and the wait for the oldest one, if it is a read, gives the bytes that it asks for, as
-- many as there are.
pub record FileServer {P T : Type 0} (channel : Channel P T) (fh : ℕ) (file : List ℕ) : Type 0 where
  pub pending : T → List (ℕ × Command P)
  pub sent :
      (command : Command P) (s : T)
      → pending (channel.add_command command s).1
        ≡ pending s ++ ((channel.add_command command s).0, command) ∷ []
  pub answered :
      (mid offset size : ℕ) (rest : List (ℕ × Command P)) (s : T)
      → pending s ≡ (mid, Command.read fh offset size) ∷ rest
      → (r : ResultRead) × (s1 : T) × (channel.wait_for_result MessageType.result_read mid s
          ≡ (some r, s1))
        × (is_negative r.res ≡ false)
        × (r.bytes ≡ take size (drop offset file))
        × (pending s1 ≡ rest)

module _ {P T : Type 0} (channel : Channel P T) (fh : ℕ) (file : List ℕ)
    (server : FileServer channel fh file) (offset : ℕ) where
  open server use {pending, sent, answered}

  -- What waits in line for the fragments.
  abbrev lined : List ℕ → List (ℕ × ℕ) → List (ℕ × Command P)
  lined (mid ∷ mids) ((ofs, size) ∷ rest) =
      (mid, Command.read fh (add64 offset ofs) size) ∷ lined mids rest
  lined _ _ = []

  send_reads_lem :
      (frags : List (ℕ × ℕ)) (s : T)
      → let r = send_reads channel fh offset frags s in
        (length r.0 ≡ length frags) × (pending r.1 ≡ pending s ++ lined r.0 frags)
  unfolding send_reads
  send_reads_lem [] s = (refl, sym (append-nil (pending s)))
  send_reads_lem ((ofs, size) ∷ rest) s =
      let c : Command P = Command.read fh (add64 offset ofs) size in
      let (k, l) = send_reads_lem rest (channel.add_command c s).1 in
      (ap suc k, l ∙ rw (sent c s) (append_assoc (pending s) _ _))

  wait_answer :
      (mid : ℕ) (s : T) (r : ResultRead) (s1 : T)
      → channel.wait_for_result MessageType.result_read mid s ≡ (some r, s1)
      → wait channel MessageType.result_read mid s ≡ (ok r, s1)
  unfolding wait
  wait_answer mid s r s1 e =
      let e0 : (channel.wait_for_result MessageType.result_read mid s).0 ≡ some r =
        ap (λ (z : Option ResultRead × T). z.0) e in
      let e1 : (channel.wait_for_result MessageType.result_read mid s).1 ≡ s1 =
        ap (λ (z : Option ResultRead × T). z.1) e in
      rw (e0, wait, e1) refl

  receive_next :
      (mid : ℕ) (mids : List ℕ) (n : ℕ) (output : List ℕ) (s : T) (r : ResultRead) (s1 : T)
      → channel.wait_for_result MessageType.result_read mid s ≡ (some r, s1)
      → is_negative r.res ≡ false
      → n + length r.bytes ≤ length output
      → length output < 2 ^ 64
      → receive_reads channel (mid ∷ mids) n output s
        ≡ receive_reads channel mids (n + length r.bytes) (copy_at r.bytes n output) s1
  unfolding receive_reads
  receive_next mid mids n output s r s1 e good room small =
      let count : add64 n (length r.bytes) ≡ n + length r.bytes = omega arith in
      rw
        (
          wait_answer mid s r s1 e,
          then_call,
          good,
          le→leb (n + length r.bytes) (length output) room,
          count,
        )
        refl

  receive_reads_lem :
      (mids : List ℕ) (frags : List (ℕ × ℕ)) (n : ℕ) (output : List ℕ) (s : T)
      → length mids ≡ length frags
      → pending s ≡ lined mids frags
      → n + length (joined file offset frags) ≤ length output
      → length output < 2 ^ 64
      → (s' : T) × (receive_reads channel mids n output s ≡ (
        ok (n + length (joined file offset frags), copy_at (joined file offset frags) n output),
        s',
      ))
        × (pending s' ≡ [])
  unfolding receive_reads wait
  receive_reads_lem [] [] n output s k l fits small =
      let e : n + 0 ≡ n = omega arith in (s, rw (e, copy_at-nil n output) refl, l)
  receive_reads_lem [] (f ∷ frags) n output s k l fits small = absurd (omega (arith, k))
  receive_reads_lem (mid ∷ mids) [] n output s k l fits small = absurd (omega (arith, k))
  receive_reads_lem (mid ∷ mids) ((ofs, size) ∷ rest) n output s k l fits small =
      let (r, s1, e, good, same, left) =
        answered mid (add64 offset ofs) size (lined mids rest) s l in
      let b : List ℕ = take size (drop (add64 offset ofs) file) in
      let later : List ℕ = joined file offset rest in
      let room : n + length b + length later ≤ length output =
        omega (arith, fits, length-append b later) in
      let total : n + length (b ++ later) ≡ n + length b + length later =
        omega (arith, length-append b later) in
      let kept : length (copy_at b n output) ≡ length output = length-copy_at b n output in
      let (s', done, p) =
        receive_reads_lem mids rest (n + length b) (copy_at b n output) s1 (omega (arith, k)) left
          (rw kept room) (rw kept small) in
      (
        s',
        receive_next mid mids n output s r s1 e good (rw same (omega (arith, room))) small
            ∙ rw (same, total, ← copy_at-append b later n output) done,
        p,
      )

  -- Over a server that holds the file, with nothing in line before, a read that ends below 2 ^ 64 copies
  -- to the front of the buffer the bytes of the file in the range, as many as there are, and returns
  -- their number: cutting it into fragments does not show.
  pub read-file :
      (output : List ℕ) (dispenser : IdDispenser) (s : T)
      → pending s ≡ []
      → offset + length output < 2 ^ 64
      → (s' : T) × (read channel fh output offset (dispenser, s) ≡ (
        ok (
          length (take (length output) (drop offset file)),
          copy_at (take (length output) (drop offset file)) 0 output,
        ),
        (dispenser, s'),
      ))
        × (pending s' ≡ [])
  unfolding read
  read-file output dispenser s none_yet small =
      let size : ℕ = length output in
      let frags : List (ℕ × ℕ) = fragments size 0 size in
      let tiles : Tiles 0 frags size = fragments-Tiles size 0 size (omega arith) (omega arith) in
      let z : offset + 0 ≡ offset = omega arith in
      let x : size - 0 ≡ size = omega arith in
      let same : joined file offset frags ≡ take size (drop offset file) =
        joined_lem file offset 0 size frags tiles small ∙ rw (z, x) refl in
      let (k, l) = send_reads_lem frags s in
      let mids : List ℕ = (send_reads channel fh offset frags s).0 in
      let fits : 0 + length (joined file offset frags) ≤ length output =
        rw same (omega (arith, length-take size (drop offset file))) in
      let (s', done, p) =
        receive_reads_lem mids frags 0 output (send_reads channel fh offset frags s).1 k
          (l ∙ rw none_yet refl) fits (omega (arith, small)) in
      let y : 0 + length (take size (drop offset file)) ≡ length (take size (drop offset file)) =
        omega arith in
      let kept : List ℕ = take size (drop offset file) in
      (
        s',
        ap (λ (z : Result (ℕ × List ℕ) × T). (z.0, (dispenser, z.1)))
            (done
              ∙ ap (λ (b : List ℕ). returned (0 + length b) b s') same
              ∙ ap (λ (m : ℕ). returned m kept s') y),
        p,
      )
    where
      returned : ℕ → List ℕ → T → Result (ℕ × List ℕ) × T
      returned m b z = (ok (m, copy_at b 0 output), z)
