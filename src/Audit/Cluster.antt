-- ===== src/Audit/Cluster.antt =====
-- The client that scripts/audit_window.py is given (AuditCluster of scripts/audit_runtime.py in
-- production). What the cluster answers is outside the repository: each answer is an arbitrary
-- function of the calls so far. A resource that is not there is null.
use secure_litellm_on_azure.Base.{String, Bool, List}
use secure_litellm_on_azure.Json.{Json}
use secure_litellm_on_azure.Fault.{Result}
use secure_litellm_on_azure.Calls
use secure_litellm_on_azure.Calls.{call}
pub use secure_litellm_on_azure.Calls.{◌>>=◌, ◌>>◌, lift, continue}

-- One operation of a JSON patch: the path and its value.
pub data Operation : Type 0 where
  test replace : String → Json → Operation

pub data Call : Type 0 where
  -- The kind and the name; the flag is `optional`.
  got : String → String → Bool → Call
  created : Json → Call
  patched : String → String → List Operation → Call
  deleted : String → String → Json → Call
  asserted_no_recovery asserted_quiet waited_quiet waited_ready : Call

abbrev pub History : Type 0
History = List Call

abbrev pub Program : Type 0 → Type 0
Program A = Calls.Program Call A

pub record Cluster : Type 0 where
  pub get : History → String → String → Bool → Result Json
  pub create : History → Json → Result (Unit {0})
  pub patch : History → String → String → List Operation → Result (Unit {0})
  pub delete : History → String → String → Json → Result (Unit {0})
  pub assert_no_recovery_jobs : History → Result (Unit {0})
  pub assert_quiet : History → Result (Unit {0})
  pub wait_quiet : History → Result (Unit {0})
  pub wait_ready : History → Result (Unit {0})

module _ (cluster : Cluster) where
  abbrev pub get_resource : String → String → Bool → Program Json
  get_resource kind name optional =
      call (got kind name optional) (λ h. cluster.get h kind name optional)

  abbrev pub create : Json → Program (Unit {0})
  create resource = call (created resource) (λ h. cluster.create h resource)

  abbrev pub patch : String → String → List Operation → Program (Unit {0})
  patch kind name operations =
      call (patched kind name operations) (λ h. cluster.patch h kind name operations)

  abbrev pub delete : String → String → Json → Program (Unit {0})
  delete kind name uid = call (deleted kind name uid) (λ h. cluster.delete h kind name uid)

  abbrev pub assert_no_recovery_jobs : Program (Unit {0})
  assert_no_recovery_jobs = call asserted_no_recovery cluster.assert_no_recovery_jobs

  abbrev pub assert_quiet : Program (Unit {0})
  assert_quiet = call asserted_quiet cluster.assert_quiet

  abbrev pub wait_quiet : Program (Unit {0})
  wait_quiet = call waited_quiet cluster.wait_quiet

  abbrev pub wait_ready : Program (Unit {0})
  wait_ready = call waited_ready cluster.wait_ready
