-- ===== src/Webhooks/Default.antt =====
-- internal/webhook/networking/v1alpha1/externalproxy_webhook.go, `Default`, with
-- internal/webhook/utils/utils.go: after an update by `kubectl apply`, the specification is the one that was applied.
use kertical.Prelude.{String, string_Eq, Bool, Option, none, some, ◌==◌, if◌then◌else◌}
use kertical.Controllers.Proxy.{StringMap, ExternalProxy, value_of}
use kertical.Webhooks.Kubernetes.{is_empty}
use kertical.Webhooks.Defaults.{apply_defaults}

-- The request of the admission: whether it is an update, and the field manager, if its options are readable.
pub record Admission : Type 0 where
  pub is_update : Bool
  pub field_manager : Option String

pub data Defaulted : Type 0 where
  filled : ExternalProxy → Defaulted
  failed panicked : Defaulted

-- GetLastAppliedConfiguration
unfoldable pub last_applied_configuration : (annotations : StringMap) → Option String
unfolding value_of
last_applied_configuration annotations =
    let text = value_of "kubectl.kubernetes.io/last-applied-configuration" annotations in
    if is_empty text then none else some text

-- Spec.DeepCopyInto
abbrev pub with_spec : ExternalProxy → ExternalProxy → ExternalProxy
with_spec p last = record p {
  backends = last.backends;
  service = last.service;
  ingress = last.ingress;
}

unfoldable pub outcome : Option ExternalProxy → Defaulted
outcome none = panicked
outcome (some p) = filled p

-- `decode` reads an object, or fails.
module _ (decode : String → Option ExternalProxy) where
  unfoldable pub decoded : ExternalProxy → Option ExternalProxy → Defaulted
  unfolding outcome
  decoded p none = failed
  decoded p (some last) = outcome (apply_defaults (with_spec p last))

  unfoldable pub applied : ExternalProxy → Option String → Defaulted
  unfolding decoded outcome
  applied p none = outcome (apply_defaults p)
  applied p (some text) = decoded p (decode text)

  unfoldable pub managed : (annotations : StringMap) → ExternalProxy → Option String → Defaulted
  unfolding applied outcome
  managed annotations p none = failed
  managed annotations p (some manager) =
      if manager == "kubectl-client-side-apply"
      then applied p (last_applied_configuration annotations)
      else outcome (apply_defaults p)

  unfoldable pub default : Option Admission → (annotations : StringMap) → ExternalProxy → Defaulted
  unfolding managed outcome
  default none annotations p = failed
  default (some request) annotations p =
      if request.is_update
      then managed annotations p request.field_manager
      else outcome (apply_defaults p)
