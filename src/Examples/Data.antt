-- ===== src/Examples/Data.antt =====
-- Data for the runs: libraries that answer, a container with its process, and requests.
use extension_container.Common.{
  ℕ, String, Bool, true, false, Option, none, some, List, [], ◌∷◌, ◌==◌, if◌then◌else◌, Result, ok,
  err, failure, network, LinuxProcessInfo,
}
use extension_container.Common.Int.{ℤ, pos}
use extension_container.Common.Dicts.{Dict}
use extension_container.ActionKit.{Values, Request, ExecutionContext}
use extension_container.Config.{Specification}
use extension_container.Targets.{Container, OciRuntime}
use extension_container.Network.{SidecarOpts, Netfault, Answers, NetworkActionState}

pub data Given : Type 0 where
  flag : Bool → Given
  number : ℤ → Given
  text : String → Given
  texts : List String → Given

abbrev bool_of : Option Given → Bool
bool_of (some (flag b)) = b
bool_of _ = false

abbrev int_of : Option Given → ℤ
int_of (some (number n)) = n
int_of _ = pos 0

abbrev uint_of : Option Given → ℕ
uint_of (some (number (pos n))) = n
uint_of _ = 0

abbrev string_of : Option Given → String
string_of (some (text s)) = s
string_of _ = ""

abbrev strings_of : Option Given → List String
strings_of (some (texts ss)) = ss
strings_of _ = []

abbrev asserted_string : Option Given → Option String
asserted_string (some (text s)) = some s
asserted_string _ = none

abbrev asserted_int : Option Given → Option ℤ
asserted_int (some (number n)) = some n
asserted_int _ = none

abbrev pub values : Values
values = record {
  Value = Given;
  to_bool = bool_of;
  to_int = int_of;
  to_int64 = int_of;
  to_uint = uint_of;
  to_string = string_of;
  to_string_array = strings_of;
  assert_string = asserted_string;
  assert_float_as_int = asserted_int;
  format_s = string_of;
}

abbrev pub cfg : Specification
cfg = record {
  container_socket = "";
  container_runtime = "";
  containerd_namespace = "k8s.io";
  disable_discovery_excludes = false;
  discovery_call_interval = "15s";
  discovery_attributes_excludes = [];
  port = 8086;
  health_port = 8082;
  liveness_check_interval = "";
  hostname = "node";
  disallow_host_network = true;
  disallow_k8s_namespaces = record { p = "kube-*"; g = λ (s : String). s == "kube-system" } ∷ [];
  network_strict_root_qdisc = true;
}

abbrev pub container : Container
container = record {
  id = "containerd://0123456789";
  name = "app";
  image_name = "app:1";
  labels = ("io.kubernetes.pod.namespace", "shop") ∷ [];
}

abbrev pub info : String → Result Container
info id = if id == "0123456789" then ok container else err (failure "not found")

abbrev pub process : LinuxProcessInfo
process = record {
  process_id = 12;
  namespaces = record { kind = network; path = "/proc/12/ns/net"; inode = 4026 } ∷ [];
  cgroup_path = "/app";
}

abbrev pub runtime : OciRuntime
runtime = record {
  state = λ id. ok (record { id = id; process_id = 12; annotations = [] });
  read_linux_process_info = λ _ _ _. ok process;
}

abbrev pub context_of_run : ExecutionContext
context_of_run = record {
  experiment_key = some "ADM-1";
  execution_id = some 4;
  restricted_endpoints = some (
      record { name = "agent"; url = ""; cidr = "10.0.0.1/32"; port_min = 80; port_max = 8080 }
      ∷ []);
}

abbrev pub request_of : Dict Given → Request Given
request_of config = record {
  target_attributes = ("container.id", "containerd://0123456789" ∷ []) ∷ [];
  execution_id = "00000000-0000-0000-0000-000000000001";
  config = config;
  execution_context = some context_of_run;
}

abbrev pub sidecar : SidecarOpts
sidecar = record { target_process = process; id = "000000000001-01234567" }

-- A netfault whose options are texts and whose snapshots are numbers.
abbrev pub nf : Netfault
nf = record {
  Opts = String;
  Snapshot = ℕ;
  describe = λ o. o;
  encode = λ o. ok o;
  decode = λ s. ok s;
}

abbrev pub answers : Answers nf
answers = record {
  preflight_check = λ _ _. ok tt;
  apply = λ _ _. (7, none);
  namespace_gone = λ _. none;
  revert = λ _ _ _. ok tt;
}

-- An action's state with the options `opts` on the process above.
abbrev pub state_with : String → NetworkActionState nf
state_with opts = record {
  execution_id = "";
  network_opts = opts;
  sidecar = sidecar;
  container_id = "containerd://0123456789";
  target_label = "app";
  qdisc_snapshot = 0;
  is_shadow = false;
  netns_claimed = false;
}
