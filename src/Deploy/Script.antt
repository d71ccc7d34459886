-- ===== src/Deploy/Script.antt =====
-- What the deployment script LiteLLM/deploy_mi_aks_litellm.py calls: the clients of Azure and of
-- Kubernetes, the command line tools, the clock. Each answer is an arbitrary function of the calls
-- so far. A method has the name that the script writes, less its client's where that is clear.
-- Objects of the clients are documents of their attributes, where an unset one may be left out.
use secure_litellm_on_azure.Base.{
  ℕ, ◌*◌, ◌+◌, ◌≤◌, ◌≢◌, String, none, some, List, ◌∷◌, [], ◌==◌, if◌then◌else◌,
}
use Prim.Native.Nat.{Ordering}
use secure_litellm_on_azure.Json.{
  Json, null, str, int, obj, Fields, end, field, get, Items, from_list, arr,
}
use secure_litellm_on_azure.Base.Int.{pos}
use secure_litellm_on_azure.Fault.{
  Fault, Result, ok, err, attribute_error, api_exception, out_of_fuel,
}
use secure_litellm_on_azure.Calls.{call}
use secure_litellm_on_azure.Calls
pub use secure_litellm_on_azure.Calls.{◌>>=◌, ◌>>◌, lift}

-- A document in the notation of the source: `{k: v, …}`, or `Class(k=v, …)`.
infix 68 ◌⦂◌
abbrev pub ◌⦂◌ : String → Json → String × Json
k ⦂ v = (k, v)

abbrev pub entries : List (String × Json) → Fields
entries [] = end
entries (entry ∷ rest) = field (entry.0) (entry.1) (entries rest)

abbrev pub dict : List (String × Json) → Json
dict kvs = obj (entries kvs)

abbrev pub list : List Json → Json
list xs = arr (from_list xs)

abbrev pub text_items : List String → Items
text_items [] = Items.nil
text_items (s ∷ rest) = Items.cons (str s) (text_items rest)

abbrev pub number : ℕ → Json
number n = int (pos n)

-- An attribute of an object.
unfoldable pub attribute : Json → String → Result Json
unfolding get
attribute (obj d) k = elim (get k d) [ none ↦ ok null | some v ↦ ok v ]
attribute _ k = err attribute_error

pub data Call : Type 0 where
  asked : String → List Json → Call
  -- `time.time()` and `time.sleep(seconds)`
  timed : Call
  slept : ℕ → Call

abbrev pub History : Type 0
History = List Call

abbrev pub Program : Type 0 → Type 0
Program A = Calls.Program Call A

pub record World : Type 0 where
  pub answer : History → String → List Json → Result Json
  -- The time, in microseconds.
  pub clock : History → ℕ
  -- `parse_quantity` of two storage sizes, compared.
  pub compare_quantities : Json → Json → Result Ordering
  -- `yaml.dump`
  pub yaml_dump : Json → String
  -- The SHA-256 digests of a text, and of a document dumped with sorted keys.
  pub text_digest : String → String
  pub json_digest : Json → String

-- The clock does not go back, a sleep lasts, and the fuel is the model's own.
pub record Ticks (world : World) : Type 0 where
  pub forward : (c : Call) (h : History) → world.clock h ≤ world.clock (c ∷ h)
  pub lasts : (s : ℕ) (h : History) → world.clock h + s * 1000000 ≤ world.clock (slept s ∷ h)
  pub fuelled :
      (h : History) (name : String) (arguments : List Json)
      → world.answer h name arguments ≢ err out_of_fuel

module _ (world : World) where
  abbrev pub ask : String → List Json → Program Json
  ask name arguments = call (asked name arguments) λ h. world.answer h name arguments

  abbrev pub time : Program ℕ
  time = call timed λ h. ok (world.clock h)

abbrev pub sleep : ℕ → Program (Unit {0})
sleep s = call (slept s) λ h. ok tt

-- `try: … except …`
abbrev pub rescue : {A : Type 0} → (Fault → Program A) → Result A × History → Result A × History
rescue handler (ok a, h) = (ok a, h)
rescue handler (err fault, h) = handler fault h

abbrev pub attempt : {A : Type 0} → Program A → (Fault → Program A) → Program A
attempt program handler h = rescue handler (program h)

-- `except ApiException`
abbrev pub on_api : {A : Type 0} → (ℕ → Program A) → Fault → Program A
on_api handler (api_exception status) = handler status
on_api handler fault = lift (err fault)

-- `if e.status == 404: … else: raise`
abbrev pub if_missing : {A : Type 0} → Program A → Fault → Program A
if_missing create =
    on_api λ status. if status == 404 then create else lift (err (api_exception status))

-- `except Exception`, which does not catch an exit
abbrev pub on_exception : {A : Type 0} → Program A → Fault → Program A
on_exception handler (Fault.system_exit status) = lift (err (Fault.system_exit status))
on_exception handler Fault.out_of_fuel = lift (err Fault.out_of_fuel)
on_exception handler fault = handler
