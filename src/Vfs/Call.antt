-- ===== src/Vfs/Call.antt =====
-- A call that works on a state and may throw. What it has written before it throws stays written.
use rewofs.Base.{◌≡◌, refl, ap}
use rewofs.Base.Result.{Result, ok, raise, Exception, raise-ne-ok}

abbrev pub Action : Type 0 → Type 0 → Type 0
Action S A = S → Result A × S

abbrev pub then_call : {S A B : Type 0} → Result A × S → (A → Action S B) → Result B × S
then_call (raise e, s) rest = (raise e, s)
then_call (ok a, s) rest = rest a s

infixl 5 ◌>>=◌ ◌>>◌
abbrev pub ◌>>=◌ : {S B A : Type 0} → Action S A → (A → Action S B) → Action S B
◌>>=◌ call rest s = then_call (call s) rest

abbrev pub ◌>>◌ : {S B : Type 0} → Action S (Unit {0}) → Action S B → Action S B
◌>>◌ call rest s = then_call (call s) (λ _. rest)

abbrev pub return : {S A : Type 0} → A → Action S A
return a s = (ok a, s)

abbrev pub throw : {S A : Type 0} → Exception → Action S A
throw e s = (raise e, s)

-- A call that only reads the state.
abbrev pub ask : {S A : Type 0} → (S → Result A) → Action S A
ask f s = (f s, s)

-- A call that returns has returned from its first part.
pub then_call_ok :
    {S A B : Type 0} (r : Result A × S) (rest : A → Action S B) (b : B) (s' : S)
    → then_call r rest ≡ (ok b, s')
    → (a : A) × (s1 : S) × (r ≡ (ok a, s1)) × (rest a s1 ≡ (ok b, s'))
then_call_ok {S = S} {B = B} (raise e, s) rest b s' h =
    absurd (raise-ne-ok e b (ap (λ (p : Result B × S). p.0) h))
then_call_ok (ok a, s) rest b s' h = (a, s, refl, h)

-- A call that throws in its first part throws.
pub then_call_raise :
    {S A B : Type 0} (r : Result A × S) (rest : A → Action S B) (e : Exception)
    → r.0 ≡ raise e
    → then_call r rest ≡ (raise e, r.1)
then_call_raise (raise x, s) rest e h = cc
then_call_raise (ok a, s) rest e h = cc
