-- ===== src/Discovery/Described.antt =====
-- The descriptions of the discovery and of its targets, in extcontainer/discovery.go. Icons and the
-- version are left out.
use extension_container.Common.{String, Option, some, List, [], ◌∷◌}
use extension_container.Config.{Specification}
use extension_container.Discovery.{target_id}

pub record PluralLabel : Type 0 where
  pub one : String
  pub other : String

pub record Column : Type 0 where
  pub attribute : String
  pub fallback_attributes : List String

pub data Direction : Type 0 where
  ascending descending : Direction

pub record OrderBy : Type 0 where
  pub attribute : String
  pub direction : Direction

pub record TargetDescription : Type 0 where
  pub id : String
  pub label : PluralLabel
  pub category : Option String
  pub columns : List Column
  pub order_by : List OrderBy

pub record AttributeDescription : Type 0 where
  pub attribute : String
  pub label : PluralLabel

pub record DiscoveryDescription : Type 0 where
  pub id : String
  pub call_interval : Option String

unfoldable pub describe : Specification → DiscoveryDescription
describe cfg = record { id = target_id; call_interval = some cfg.discovery_call_interval }

unfoldable pub describe_target : TargetDescription
describe_target = record {
  id = target_id;
  label = record { one = "Container"; other = "Containers" };
  category = some "basic";
  columns =
      record { attribute = "k8s.container.name"; fallback_attributes = "container.name" ∷ [] }
      ∷ record { attribute = "k8s.pod.name"; fallback_attributes = [] }
      ∷ record { attribute = "k8s.namespace"; fallback_attributes = [] }
      ∷ record { attribute = "host.hostname"; fallback_attributes = [] }
      ∷ record { attribute = "aws.zone"; fallback_attributes = "gcp.zone" ∷ "azure.zone" ∷ [] }
      ∷ [];
  order_by =
      record { attribute = "k8s.container.name"; direction = ascending }
      ∷ record { attribute = "k8s.container.name"; direction = ascending }
      ∷ [];
}

unfoldable pub describe_attributes : List AttributeDescription
describe_attributes =
    record {
      attribute = "container.name";
      label = record { one = "Container Name"; other = "Container Names" };
    }
    ∷ record {
      attribute = "container.host";
      label = record { one = "Container Host"; other = "Container Hosts" };
    }
    ∷ record {
      attribute = "container.image";
      label = record { one = "Container Image"; other = "Container Images" };
    }
    ∷ record {
      attribute = "container.image.registry";
      label = record { one = "Container Image Registry"; other = "Container Image Registries" };
    }
    ∷ record {
      attribute = "container.image.repository";
      label = record { one = "Container Image Repository"; other = "Container Image Repositories" };
    }
    ∷ record {
      attribute = "container.image.tag";
      label = record { one = "Container Image Tag"; other = "Container Image Tags" };
    }
    ∷ record {
      attribute = "container.id";
      label = record { one = "Container ID"; other = "Container IDs" };
    }
    ∷ record {
      attribute = "container.id.stripped";
      label = record { one = "Container ID (stripped)"; other = "Container IDs (stripped)" };
    }
    ∷ record {
      attribute = "container.engine";
      label = record { one = "Container Engine"; other = "Container Engines" };
    }
    ∷ record {
      attribute = "container.engine.version";
      label = record { one = "Container Engine Version"; other = "Container Engine Versions" };
    }
    ∷ []
