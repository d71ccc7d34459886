-- ===== src/Calls.antt =====
-- Programs that call a client outside the repository. What the client answers is an arbitrary function
-- of the calls so far, the latest first, so that a change from outside between two calls is included.
pub mod Logic
use secure_litellm_on_azure.Base.{List, ◌∷◌}
use secure_litellm_on_azure.Fault.{Result, ok, err}

-- A program ends with its result and with the calls that it made.
abbrev pub Program : Type 0 → Type 0 → Type 0
Program Call A = List Call → Result A × List Call

module _ {Call : Type 0} where
  abbrev pub continue :
      {A B : Type 0} → (A → Program Call B) → Result A × List Call → Result B × List Call
  continue next (ok a, h) = next a h
  continue next (err fault, h) = (err fault, h)

  infixl 10 ◌>>=◌ ◌>>◌
  abbrev pub ◌>>=◌ : {A B : Type 0} → Program Call A → (A → Program Call B) → Program Call B
  (program >>= next) h = continue next (program h)

  abbrev pub ◌>>◌ : {B : Type 0} → Program Call (Unit {0}) → Program Call B → Program Call B
  first >> second = first >>= λ _. second

  -- Code that makes no call.
  abbrev pub lift : {A : Type 0} → Result A → Program Call A
  lift result h = (result, h)

  -- One call: its answer, and the call added to the history.
  abbrev pub call : {A : Type 0} → Call → (List Call → Result A) → Program Call A
  call c answer h = (answer h, c ∷ h)
