-- ===== src/Calls/Logic.antt =====
-- What a program of calls keeps true of the history, whichever way it ends.
use secure_litellm_on_azure.Base.{◌≡◌, refl, ◌⊎◌, List, [], ◌∷◌, Bool, true, false, if◌then◌else◌}
use secure_litellm_on_azure.Fault.{Result, ok, err}
use secure_litellm_on_azure.Calls.{Program, ◌>>=◌, lift, call, continue}

-- The history at the end, with the result if there is one.
abbrev pub Ends :
    {Call A : Type 0}
    → (A → List Call → Type 0)
    → (List Call → Type 0)
    → Result A × List Call
    → Type 0
Ends Q E (ok a, h) = Q a h
Ends Q E (err fault, h) = E h

-- Started where `P` holds, the program ends in `Q`, or in `E` if it raises.
pub record From {Call A : Type 0} (P : List Call → Type 0) (program : Program Call A)
    (Q : A → List Call → Type 0) (E : List Call → Type 0) : Type 0 where
  pub runs : (h : List Call) → P h → Ends Q E (program h)

module _ {Call A B : Type 0} {P : List Call → Type 0} {E : List Call → Type 0} where
  pub bind_From :
      {R : A → List Call → Type 0} {Q : B → List Call → Type 0} (program : Program Call A)
      (next : A → Program Call B)
      → From P program R E
      → ((a : A) → From (R a) (next a) Q E)
      → From P (program >>= next) Q E
  bind_From {R} {Q} program next first second = record {
    runs = λ h p. go (program h) (first.runs h p);
  }
    where
      go : (out : Result A × List Call) → Ends R E out → Ends Q E (continue next out)
      go (ok a, h') r = (second a).runs h' r
      go (err fault, h') e = e

module _ {Call A : Type 0} {P : List Call → Type 0} {E : List Call → Type 0} where
  -- Code that makes no call leaves the history as it is.
  pub lift_From :
      {Q : A → List Call → Type 0} (result : Result A)
      → ((h : List Call) → P h → E h)
      → ((a : A) → result ≡ ok a → (h : List Call) → P h → Q a h)
      → From P (lift result) Q E
  lift_From (ok a) raised done = record { runs = λ h p. done a refl h p }
  lift_From (err fault) raised done = record { runs = λ h p. raised h p }

pub branch_From :
    {Call A : Type 0} {P E : List Call → Type 0} {Q : A → List Call → Type 0} (b : Bool)
    (m n : Program Call A)
    → From P m Q E
    → From P n Q E
    → From P (if b then m else n) Q E
branch_From true m n f g = f
branch_From false m n f g = g

-- The earlier history is reached by taking away the latest calls.
abbrev pub Earlier : {Call : Type 0} → List Call → List Call → Type 0
Earlier past [] = past ≡ []
Earlier past (c ∷ h) = (past ≡ c ∷ h) ⊎ Earlier past h

-- What follows code that makes no call may use the value that the code has computed.
pub lift_then :
    {Call A B : Type 0} {P E : List Call → Type 0} {Q : B → List Call → Type 0} (result : Result A)
    (next : A → Program Call B)
    → ((h : List Call) → P h → E h)
    → ((a : A) → result ≡ ok a → From P (next a) Q E)
    → From P (lift result >>= next) Q E
lift_then (ok a) next raised then_From = record { runs = (then_From a refl).runs }
lift_then (err fault) next raised then_From = record { runs = raised }

-- One call, from what its answer tells.
pub call_From :
    {Call A : Type 0} {P E : List Call → Type 0} {Q : A → List Call → Type 0} (c : Call)
    (answer : List Call → Result A)
    → ((h : List Call) → P h → E (c ∷ h))
    → ((h : List Call) → P h → (a : A) → answer h ≡ ok a → Q a (c ∷ h))
    → From P (call c answer) Q E
call_From {Call} {A} {P} {E} {Q} c answer raised done = record {
  runs = λ h p. go h p (answer h) refl;
}
  where
    go : (h : List Call) → P h → (r : Result A) → answer h ≡ r → Ends Q E (r, c ∷ h)
    go h p (ok a) e = done h p a e
    go h p (err fault) e = raised h p

-- A program may be started where more is known, and what it ends in may say less.
pub weaken_From :
    {Call A : Type 0} {P P' E : List Call → Type 0} {Q : A → List Call → Type 0}
    {program : Program Call A}
    → ((h : List Call) → P' h → P h)
    → From P program Q E
    → From P' program Q E
weaken_From stronger f = record { runs = λ h p. f.runs h (stronger h p) }
