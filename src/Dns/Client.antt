-- ===== src/Dns/Client.antt =====
-- The client that `change_dns` of scripts/dns_runtime.py calls, and programs that call it. What the
-- DNS zone and the deployments answer is outside the repository, and others may change the zone
-- between two calls: each answer is an arbitrary function of the calls so far, the latest first.
use secure_litellm_on_azure.Base.{String, List}
use secure_litellm_on_azure.Json.{Json}
use secure_litellm_on_azure.Fault.{Result}
use secure_litellm_on_azure.Calls
use secure_litellm_on_azure.Calls.{call}
pub use secure_litellm_on_azure.Calls.{◌>>=◌, ◌>>◌, lift, continue}

pub data Call : Type 0 where
  read_records : Call
  read_checkpoint : Call
  saved : Json → Call
  written : String → Json → Json → Call

abbrev pub History : Type 0
History = List Call

pub record Client : Type 0 where
  -- The records of both planes.
  pub read : History → Result Json
  -- The stored checkpoint, or null.
  pub checkpoint : History → Result Json
  pub save : History → Json → Result (Unit {0})
  -- The plane, the wanted properties and the record that the caller has seen.
  pub write : History → String → Json → Json → Result (Unit {0})

-- A program of these calls.
abbrev pub Program : Type 0 → Type 0
Program A = Calls.Program Call A

module _ (client : Client) where
  abbrev pub read : Program Json
  read = call read_records client.read

  abbrev pub checkpoint : Program Json
  checkpoint = call read_checkpoint client.checkpoint

  abbrev pub save : Json → Program (Unit {0})
  save value = call (saved value) (λ h. client.save h value)

  abbrev pub write : String → Json → Json → Program (Unit {0})
  write plane desired previous =
      call (written plane desired previous) (λ h. client.write h plane desired previous)
