-- ===== src/Webhooks/Applied.antt =====
-- What `kubectl apply` leaves of the object that the webhook is given.
use kertical.Prelude.{String, string_Eq, true, ◌≡◌, ◌∙◌, refl, sym, Option, some}
use kertical.Controllers.Proxy.{StringMap, ExternalProxy}
use kertical.Webhooks.Defaults.{apply_defaults}
use kertical.Webhooks.Default.{
  Admission, last_applied_configuration, with_spec, outcome, decoded, applied, managed, default,
}

module _ (decode : String → Option ExternalProxy) where
  default-last :
      (request : Admission) (annotations : StringMap) (p last : ExternalProxy) (text : String)
      → request.is_update ≡ true
      → request.field_manager ≡ some "kubectl-client-side-apply"
      → last_applied_configuration annotations ≡ some text
      → decode text ≡ some last
      → default decode (some request) annotations p ≡ outcome (apply_defaults (with_spec p last))
  unfolding default managed applied decoded
  default-last request annotations p last text update manager stored read =
      rw (update, manager, stored, read) refl

  -- On an update by kubectl apply of an object whose last applied configuration can be read, the result of the
  -- webhook does not depend on the specification that the object came with: a default that was filled in
  -- before, or a field that another client has set, is not kept.
  pub default-applied :
      (request : Admission) (annotations : StringMap) (p last merged : ExternalProxy)
      (text : String)
      → request.is_update ≡ true
      → request.field_manager ≡ some "kubectl-client-side-apply"
      → last_applied_configuration annotations ≡ some text
      → decode text ≡ some last
      → default decode (some request) annotations p
        ≡ default decode (some request) annotations (with_spec p merged)
  default-applied request annotations p last merged text update manager stored read =
      default-last request annotations p last text update manager stored read
      ∙ sym (
          default-last request annotations (with_spec p merged) last text update manager stored
            read)
