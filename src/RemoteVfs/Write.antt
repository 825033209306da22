-- ===== src/RemoteVfs/Write.antt =====
-- `RemoteVfs::write` over a server that carries out every write of a file as a whole.
use rewofs.Base.{
  ℕ, suc, ◌+◌, ◌-◌, ◌≤◌, ◌<◌, ◌^◌, ◌≡◌, refl, sym, ap, ◌∙◌, List, [], ◌∷◌, ◌++◌, length, take, drop,
  arith, false, append-nil, append_assoc, length-take, length-drop, Option, some, lt→leb,
}
use rewofs.Base.Result.{Result, ok}
use rewofs.Content.{add64}
use rewofs.Vfs.{IdDispenser}
use rewofs.Vfs.Call.{then_call}
use rewofs.Channel.{Channel, Command, MessageType, ResultWrite, wait}
use rewofs.RemoteVfs.{fragments, is_negative, send_writes, receive_writes, write}
use rewofs.RemoteVfs.Fragments.{Tiles, Tiles-order, fragments-Tiles}
use rewofs.RemoteVfs.Pwrite.{put_at, joined_writes, take_all}

-- A channel to a server that has a file open under the handle `fh`, which no one else changes: a command
-- waits in line, and the wait for the oldest one, if it is a write, finds it carried out with all its bytes.
pub record WriteServer {P T : Type 0} (channel : Channel P T) (fh : ℕ) : Type 0 where
  pub file : T → List ℕ
  pub pending : T → List (ℕ × Command P)
  pub sent :
      (command : Command P) (s : T)
      → (pending (channel.add_command command s).1
          ≡ pending s ++ ((channel.add_command command s).0, command) ∷ [])
        × (file (channel.add_command command s).1 ≡ file s)
  pub answered :
      (mid offset : ℕ) (bytes : List ℕ) (rest : List (ℕ × Command P)) (s : T)
      → pending s ≡ (mid, Command.write fh offset bytes) ∷ rest
      → length bytes < 2 ^ 63
      → (r : ResultWrite) × (s1 : T) × (channel.wait_for_result MessageType.result_write mid s
          ≡ (some r, s1))
        × (r.res ≡ length bytes)
        × (file s1 ≡ put_at bytes offset (file s))
        × (pending s1 ≡ rest)

module _ {P T : Type 0} (channel : Channel P T) (fh : ℕ) (server : WriteServer channel fh)
    (offset : ℕ) (input : List ℕ) where
  open server use {file, pending, sent, answered}

  abbrev lined : List ℕ → List (ℕ × ℕ) → List (ℕ × Command P)
  lined (mid ∷ mids) ((ofs, size) ∷ rest) =
      (mid, Command.write fh (add64 offset ofs) (take size (drop ofs input))) ∷ lined mids rest
  lined _ _ = []

  send_writes_lem :
      (frags : List (ℕ × ℕ)) (s : T)
      → let r = send_writes channel fh offset input frags s in
        (length r.0 ≡ length frags)
        × (pending r.1 ≡ pending s ++ lined r.0 frags)
        × (file r.1 ≡ file s)
  unfolding send_writes
  send_writes_lem [] s = (refl, sym (append-nil (pending s)), refl)
  send_writes_lem ((ofs, size) ∷ rest) s =
      let c : Command P = Command.write fh (add64 offset ofs) (take size (drop ofs input)) in
      let (k, l, f) = send_writes_lem rest (channel.add_command c s).1 in
      (ap suc k, l ∙ rw (sent c s).0 (append_assoc (pending s) _ _), f ∙ (sent c s).1)

  wait_answer :
      (mid : ℕ) (s : T) (r : ResultWrite) (s1 : T)
      → channel.wait_for_result MessageType.result_write mid s ≡ (some r, s1)
      → wait channel MessageType.result_write mid s ≡ (ok r, s1)
  unfolding wait
  wait_answer mid s r s1 e =
      let e0 : (channel.wait_for_result MessageType.result_write mid s).0 ≡ some r =
        ap (λ (z : Option ResultWrite × T). z.0) e in
      let e1 : (channel.wait_for_result MessageType.result_write mid s).1 ≡ s1 =
        ap (λ (z : Option ResultWrite × T). z.1) e in
      rw (e0, wait, e1) refl

  receive_next :
      (mid : ℕ) (mids : List ℕ) (n size : ℕ) (s : T) (r : ResultWrite) (s1 : T)
      → channel.wait_for_result MessageType.result_write mid s ≡ (some r, s1)
      → r.res ≡ size
      → n + size < 2 ^ 63
      → receive_writes channel (mid ∷ mids) n s ≡ receive_writes channel mids (n + size) s1
  unfolding receive_writes
  receive_next mid mids n size s r s1 e res small =
      let good : is_negative r.res ≡ false = lt→leb (2 ^ 63) r.res (omega (arith, res)) in
      let count : add64 n r.res ≡ n + size = omega (arith, res) in
      rw (wait_answer mid s r s1 e, then_call, good, count) refl

  receive_writes_lem :
      (mids : List ℕ) (frags : List (ℕ × ℕ)) (n hi : ℕ) (s : T)
      → length mids ≡ length frags
      → pending s ≡ lined mids frags
      → Tiles n frags hi
      → hi ≤ length input
      → offset + hi < 2 ^ 63
      → (s' : T) × (receive_writes channel mids n s ≡ (ok hi, s'))
        × (file s' ≡ put_at (take (hi - n) (drop n input)) (offset + n) (file s))
        × (pending s' ≡ [])
  unfolding receive_writes put_at
  receive_writes_lem [] [] n hi s k l t fits small =
      let none : hi - n ≡ 0 = omega (arith, t) in (s, ap (λ (m : ℕ). (ok m, s)) t, rw none refl, l)
  receive_writes_lem [] (f ∷ frags) n hi s k l t fits small = absurd (omega (arith, k))
  receive_writes_lem (mid ∷ mids) [] n hi s k l t fits small = absurd (omega (arith, k))
  receive_writes_lem (mid ∷ mids) ((ofs, size) ∷ rest) n hi s k l t fits small =
      let (same, more, small_fragment, later) = t in
      let last : n + size ≤ hi = Tiles-order (n + size) hi rest later in
      let bytes : List ℕ = take size (drop ofs input) in
      let whole : add64 offset ofs ≡ offset + n = omega (arith, same) in
      let len : length bytes ≡ size =
        omega (arith, length-take size (drop ofs input), length-drop ofs input) in
      let (r, s1, e, res, changed, left) =
        answered mid (add64 offset ofs) bytes (lined mids rest) s l (omega (arith, len)) in
      let (s', done, f, p) =
        receive_writes_lem mids rest (n + size) hi s1 (omega (arith, k)) left later fits small in
      (
        s',
        receive_next mid mids n size s r s1 e (res ∙ len) (omega arith) ∙ done,
        f
            ∙ ap (put_at (take (hi - (n + size)) (drop (n + size) input)) (offset + (n + size))) (
                changed
                ∙ ap (λ (o : ℕ). put_at bytes o (file s)) whole
                ∙ ap (λ (o : ℕ). put_at (take size (drop o input)) (offset + n) (file s)) same)
            ∙ joined_writes n size hi offset input (file s) last fits,
        p,
      )

  -- Over a server that carries out each write as a whole, with nothing in line before, a write that ends
  -- below 2 ^ 63 returns the number of bytes of the input, and the server's file has the input at the offset,
  -- and is otherwise as it was: cutting it into fragments does not show.
  pub write-file :
      (dispenser : IdDispenser) (s : T)
      → pending s ≡ []
      → offset + length input < 2 ^ 63
      → (s' : T) × (write channel fh input offset (dispenser, s)
          ≡ (ok (length input), (dispenser, s')))
        × (file s' ≡ put_at input offset (file s))
        × (pending s' ≡ [])
  unfolding write
  write-file dispenser s none_yet small =
      let size : ℕ = length input in
      let frags : List (ℕ × ℕ) = fragments size 0 size in
      let tiles : Tiles 0 frags size = fragments-Tiles size 0 size (omega arith) (omega arith) in
      let (k, l, same) = send_writes_lem frags s in
      let (s', done, f, p) =
        receive_writes_lem (send_writes channel fh offset input frags s).0 frags 0 size
          (send_writes channel fh offset input frags s).1 k (l ∙ rw none_yet refl) tiles
          (omega arith) small in
      let z : offset + 0 ≡ offset = omega arith in
      let x : size - 0 ≡ size = omega arith in
      (
        s',
        ap (λ (r : Result ℕ × T). (r.0, (dispenser, r.1))) done,
        f
            ∙ ap (put_at (take (size - 0) input) (offset + 0)) same
            ∙ ap (λ (o : ℕ). put_at (take (size - 0) input) o (file s)) z
            ∙ ap (λ (b : List ℕ). put_at b offset (file s))
                (ap (λ (m : ℕ). take m input) x ∙ take_all input),
        p,
      )
