-- ===== src/Stop/Prepare.antt =====
-- `stopAction.Prepare` of extcontainer/action_stop.go.
use extension_container.Common.{String, Result, ok, context, attempt}
use extension_container.Common.Dicts.{lookup}
use extension_container.ActionKit.{Request, Values}
use extension_container.Config.{Specification}
use extension_container.Targets.{Container, get_container_target}
use extension_container.Stop.{StopActionState}

module _ (cfg : Specification) (values : Values) (info : String → Result Container) where
  unfoldable pub prepare :
      StopActionState → Request values.Value → StopActionState × Result (Unit {0})
  unfolding get_container_target lookup
  prepare state request =
      attempt
        (context "Failed to get target container"
          (get_container_target cfg info request.target_attributes))
        state
        (λ target. (
          record state {
            container_id = target.0.id;
            target_label = target.1;
            graceful = values.to_bool (lookup "graceful" request.config);
            execution_id = request.execution_id;
          },
          ok tt,
        ))
