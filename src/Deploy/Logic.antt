-- ===== src/Deploy/Logic.antt =====
-- What a program of the deployment script keeps true of its calls, with its exceptions handled.
use secure_litellm_on_azure.Base.{
  ℕ, String, Bool, true, false, List, ◌∷◌, ◌≡◌, refl, if◌then◌else◌, ◌==◌,
}
use secure_litellm_on_azure.Json.{Json}
use secure_litellm_on_azure.Fault.{Fault, Result, ok, err, api_exception}
use secure_litellm_on_azure.Calls.Logic.{From, Ends, branch_From, call_From, lift_then}
use secure_litellm_on_azure.Deploy.Script.{
  asked, History, World, Program, ◌>>=◌, lift, ask, attempt, rescue, on_api, if_missing,
}

module _ {A : Type 0} {P R E : History → Type 0} {Q : A → History → Type 0} where
  -- A handler starts where its body has raised.
  pub attempt_From :
      (program : Program A) (handler : Fault → Program A)
      → From P program Q R
      → ((fault : Fault) → From R (handler fault) Q E)
      → From P (attempt program handler) Q E
  attempt_From program handler body handled = record {
    runs = λ h p. go (program h) (body.runs h p);
  }
    where
      go : (out : Result A × History) → Ends Q R out → Ends Q E (rescue handler out)
      go (ok a, h) q = q
      go (err fault, h) r = (handled fault).runs h r

module _ {A : Type 0} {R E : History → Type 0} {Q : A → History → Type 0}
    (raised : (h : History) → R h → E h) where
  pub raise_From : (fault : Fault) → From R (lift (err fault)) Q E
  raise_From fault = record { runs = λ h r. raised h r }

  pub on_api_From :
      (handler : ℕ → Program A)
      → ((status : ℕ) → From R (handler status) Q E)
      → (fault : Fault) → From R (on_api handler fault) Q E
  on_api_From handler handled (api_exception status) = handled status
  on_api_From handler handled fault = raise_From fault

  pub if_missing_From :
      (create : Program A)
      → From R create Q E
      → (fault : Fault) → From R (if_missing create fault) Q E
  if_missing_From create created = on_api_From _ λ status.
      branch_From (status == 404) create (lift (err (api_exception status))) created
        (raise_From (api_exception status))

-- One call, which may follow where `P` holds.
pub ask_From :
    {P : History → Type 0} (world : World) (name : String) (arguments : List Json)
    → ((h : History) → P h → P (asked name arguments ∷ h))
    → From P (ask world name arguments) (λ _. P) P
ask_From {P} world name arguments kept = call_From _ _ (λ h p. kept h p) λ h p a _. kept h p

-- What holds whichever way a program ends.
pub kept_at_end :
    (K : History → Type 0) {A : Type 0} (out : Result A × History) → Ends (λ _. K) K out → K (out.1)
kept_at_end K (ok a, h) p = p
kept_at_end K (err fault, h) p = p

-- Each branch may use the value of the test.
pub split_From :
    {A : Type 0} {P E : History → Type 0} {Q : A → History → Type 0} (b : Bool) (m n : Program A)
    → (b ≡ true → From P m Q E)
    → (b ≡ false → From P n Q E)
    → From P (if b then m else n) Q E
split_From true m n f g = f refl
split_From false m n f g = g refl

module _ {P : History → Type 0} {B : Type 0} {Q : B → History → Type 0} where
  -- Code that makes no call, and what follows it.
  pub then_From :
      {A : Type 0} (result : Result A) (next : A → Program B)
      → ((a : A) → From P (next a) Q P)
      → From P (lift result >>= next) Q P
  then_From result next k = lift_then result next (λ h p. p) λ a e. k a
