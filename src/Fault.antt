-- ===== src/Fault.antt =====
-- Failing Python code: `MigrationError`, raised by `require` (scripts/customer_migration.py), and
-- the exceptions of the language that the modelled code can raise on documents of another shape.
use secure_litellm_on_azure.Base.{
  ◌≡◌, refl, ap, ℕ, String, Bool, true, false, Option, none, some, if◌then◌else◌,
}
use secure_litellm_on_azure.Json.{Json, Fields, obj, get, put}

pub data Fault : Type 0 where
  migration_error : String → Fault
  -- LiteLLM/runtime/azure_postgresql.py
  database_auth_error : String → Fault
  value_error : String → Fault
  key_error : String → Fault
  type_error attribute_error : Fault
  runtime_error : String → Fault
  -- `sys.exit(status)`
  system_exit : ℕ → Fault
  -- ApiException of the Kubernetes client, with its status
  api_exception : ℕ → Fault
  -- OSError, or CalledProcessError of the module subprocess
  command_error : Fault
  -- No exception of the program: a loop of the model has used up its fuel.
  out_of_fuel : Fault

pub data Result {ℓ} (Value : Type ℓ) : Type ℓ where
  err : Fault → Result Value
  ok : Value → Result Value

infixl 10 ◌>>=◌ ◌>>◌
-- An exception ends the chain of statements.
abbrev pub ◌>>=◌ {ℓ ρ} : {V : Type ℓ} {W : Type ρ} → Result V → (V → Result W) → Result W
err fault >>= next = err fault
ok v >>= next = next v

-- One statement after another that gives no value.
abbrev pub ◌>>◌ {ρ} : {W : Type ρ} → Result (Unit {0}) → Result W → Result W
statement >> next = statement >>= λ _. next

-- `require(condition, message)`
abbrev pub require : Bool → String → Result (Unit {0})
require true message = ok tt
require false message = err (migration_error message)

-- `d.get(k, default)`, where `d` need not be a dict
abbrev pub get_or : Json → String → Json → Result Json
get_or (obj d) k default = elim (get k d) [ none ↦ ok default | some v ↦ ok v ]
get_or _ k default = err attribute_error

-- `d[k]`, where `d` need not be a dict
abbrev pub index : Json → String → Result Json
index (obj d) k = elim (get k d) [ none ↦ err (key_error k) | some v ↦ ok v ]
index _ k = err type_error

-- `d[k] = v`, where `d` need not be a dict
unfoldable pub put_item : String → Json → Json → Result Json
unfolding put
put_item k v (obj d) = ok (obj (put k v d))
put_item k v _ = err type_error

-- Inversion of a chain whose result is known to be a success.
module _ {ℓ κ ρ} {A : Type ℓ} {B : Type κ} {P : Type ρ} where
  pub bind_ok :
      (m : Result A) (f : A → Result B) {b : B}
      → (m >>= f) ≡ ok b
      → ((a : A) → m ≡ ok a → f a ≡ ok b → P)
      → P
  bind_ok (ok a) f h k = k a refl h
  bind_ok (err e) f h k = absurd (cc h)

module _ {κ ρ} {B : Type κ} {P : Type ρ} where
  pub require_ok :
      (c : Bool) (message : String) (m : Result B) {b : B}
      → (require c message >> m) ≡ ok b
      → (c ≡ true → m ≡ ok b → P)
      → P
  require_ok true message m h k = k refl h
  require_ok false message m h k = absurd (cc h)

  pub branch_ok :
      (c : Bool) (m n : Result B) {b : B}
      → (if c then m else n) ≡ ok b
      → (c ≡ true → m ≡ ok b → P)
      → (c ≡ false → n ≡ ok b → P)
      → P
  branch_ok true m n h k l = k refl h
  branch_ok false m n h k l = l refl h

pub last_require : (c : Bool) (message : String) → require c message ≡ ok tt → c ≡ true
last_require true message h = refl
last_require false message h = absurd (cc h)

-- Reading a key depends on the entry alone.
pub index-get : (k : String) (d e : Fields) → get k d ≡ get k e → index (obj d) k ≡ index (obj e) k
index-get k d e h =
    ap
      (λ (o : Option Json). elim o as (λ _. Result Json) [
        | none ↦ err (key_error k)
        | some v ↦ ok v
      ])
      h

pub get_or-get :
    (k : String) (d e : Fields) (v : Json)
    → get k d ≡ get k e
    → get_or (obj d) k v ≡ get_or (obj e) k v
get_or-get k d e v h =
    ap (λ (o : Option Json). elim o as (λ _. Result Json) [ none ↦ ok v | some w ↦ ok w ]) h

abbrev value_or {ℓ} : {A : Type ℓ} → A → Result A → A
value_or a (ok b) = b
value_or a (err e) = a

pub ok_injective {ℓ} : {A : Type ℓ} {a b : A} → ok a ≡ ok b → a ≡ b
ok_injective {a = a} h = ap (value_or a) h
