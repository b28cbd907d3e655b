-- ===== src/Describe.antt =====
-- The descriptions of the actions, by which the platform asks for their parameters: the `Describe`
-- functions of extcontainer/action_*.go, with the target selection of extcontainer/common.go. Icons,
-- which are pictures, and the version, which is the build's, are left out.
pub mod Shared
pub mod Quality
pub mod Reach
pub mod State
pub mod Stress
pub mod Fill
pub mod Declared
pub mod Fitting
pub mod Prepared
pub mod Surroundings
pub mod Reads
use extension_container.Common.{ℕ, String, Bool, true, false, Option, none, some, List, [], ◌∷◌}
use extension_container.Discovery.{target_id}

pub data ParameterKind : Type 0 where
  duration boolean string string_array integer percentage stressng_workers bitrate : ParameterKind

pub record ParameterOption : Type 0 where
  pub label : String
  pub value : String

-- A pointer to a value that is not given is nil.
pub record ActionParameter : Type 0 where
  pub name : String
  pub label : String
  pub description : Option String
  pub kind : ParameterKind
  pub default_value : Option String
  pub required : Option Bool
  pub advanced : Option Bool
  pub order : Option ℕ
  pub min_value : Option ℕ
  pub max_value : Option ℕ
  pub options : List ParameterOption

pub record SelectionTemplate : Type 0 where
  pub label : String
  pub description : Option String
  pub query : String

pub data TimeControl : Type 0 where
  external internal : TimeControl

pub record Widget : Type 0 where
  pub title : String
  pub message_type : String
  pub append : Bool

-- Of a status, the interval of its calls; of a stop, whether it is declared.
pub record ActionDescription : Type 0 where
  pub id : String
  pub label : String
  pub description : String
  pub target_type : String
  pub selection_templates : List SelectionTemplate
  pub technology : Option String
  pub category : Option String
  pub is_attack : Bool
  pub time_control : TimeControl
  pub parameters : List ActionParameter
  pub status_interval : Option String
  pub has_stop : Bool
  pub widgets : List Widget

-- The fields that a literal of the source leaves out.
abbrev pub blank_parameter : ActionParameter
blank_parameter = record {
  name = "";
  label = "";
  description = none;
  kind = string;
  default_value = none;
  required = none;
  advanced = none;
  order = none;
  min_value = none;
  max_value = none;
  options = [];
}

abbrev pub base_action_id : String
base_action_id = "com.steadybit.extension_container"

template : String → String → String → SelectionTemplate
template label description query = record {
  label = label;
  description = some description;
  query = query;
}

unfoldable pub target_selection_templates : List SelectionTemplate
unfolding template
target_selection_templates =
    template "host and name" "Find container by the host and the container name."
      "container.host=\"\" and container.name=\"\""
    ∷ template "kubernetes deployment" "Find container by kubernetes deployment."
        "k8s.cluster-name=\"\" and k8s.namespace=\"\" and k8s.deployment=\"\""
    ∷ template "kubernetes statefulset" "Find container by kubernetes statefulset."
        "k8s.cluster-name=\"\" and k8s.namespace=\"\" and k8s.statefulset=\"\""
    ∷ template "kubernetes daemonset" "Find container by kubernetes daemonset."
        "k8s.cluster-name=\"\" and k8s.namespace=\"\" and k8s.daemonset=\"\""
    ∷ []

-- What the descriptions of all actions share.
abbrev pub attack : ActionDescription
unfolding target_selection_templates
attack = record {
  id = "";
  label = "";
  description = "";
  target_type = target_id;
  selection_templates = target_selection_templates;
  technology = none;
  category = none;
  is_attack = true;
  time_control = external;
  parameters = [];
  status_interval = none;
  has_stop = false;
  widgets = [];
}
