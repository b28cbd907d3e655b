-- ===== src/Describe/State.antt =====
-- The descriptions of the stop and the pause of a container, in extcontainer/action_stop.go and
-- extcontainer/action_pause.go, and of the DNS error injection, in
-- extcontainer/action_network_dns_error_injection.go.
use extension_container.Common.{◌<>◌, true, false, some, List, [], ◌∷◌}
use extension_container.Describe.{
  ActionParameter, ActionDescription, duration, boolean, string, string_array, external, internal,
  blank_parameter, attack, base_action_id,
}

unfoldable pub stop_parameters : List ActionParameter
stop_parameters =
    record blank_parameter {
      name = "graceful";
      label = "Graceful";
      description =
          some
            "Stopped the container gracefully using SIGTERM or immediately killed using the SIGKILL signal?";
      kind = boolean;
      default_value = some "true";
      required = some true;
      order = some 0;
    }
    ∷ []

unfoldable pub stop_description : ActionDescription
unfolding stop_parameters
stop_description = record attack {
  id = base_action_id <> ".stop";
  label = "Stop Container";
  description = "Stops or kills the Container";
  technology = some "Container";
  category = some "State";
  time_control = internal;
  parameters = stop_parameters;
  status_interval = some "1s";
  has_stop = true;
}

unfoldable pub pause_parameters : List ActionParameter
pause_parameters =
    record blank_parameter {
      name = "duration";
      label = "Duration";
      description = some "How long should the container be paused?";
      kind = duration;
      default_value = some "30s";
      required = some true;
      order = some 0;
    }
    ∷ []

unfoldable pub pause_description : ActionDescription
unfolding pause_parameters
pause_description = record attack {
  id = base_action_id <> ".pause";
  label = "Pause Container";
  description = "Pauses the container for the given duration.";
  technology = some "Container";
  category = some "State";
  time_control = external;
  parameters = pause_parameters;
  status_interval = some "5s";
  has_stop = true;
}

unfoldable pub dns_error_injection_parameters : List ActionParameter
dns_error_injection_parameters =
    record blank_parameter {
      name = "duration";
      label = "Duration";
      description = some "How long should the DNS errors be injected?";
      kind = duration;
      default_value = some "30s";
      required = some true;
      order = some 0;
    }
    ∷ record blank_parameter {
      name = "dnsErrorType";
      label = "DNS Error Type";
      description =
          some "Which DNS errors to inject? Multiple types can be selected for random injection.";
      kind = string_array;
      default_value = some "[\"NXDOMAIN\"]";
      required = some true;
      options =
          record { label = "NXDOMAIN"; value = "NXDOMAIN" }
          ∷ record { label = "SERVFAIL"; value = "SERVFAIL" }
          ∷ record { label = "TIMEOUT"; value = "TIMEOUT" }
          ∷ [];
      order = some 1;
    }
    ∷ record blank_parameter {
      name = "hostname";
      label = "DNS Hostnames";
      description =
          some
            "Restrict injection to DNS queries whose name matches one of these hostnames exactly (case-insensitive; IDN and underscores allowed, e.g. _dmarc.example.com). If empty, all queries on the matching DNS server ports/CIDRs are affected.";
      kind = string_array;
      required = some false;
      order = some 2;
    }
    ∷ record blank_parameter {
      name = "port";
      label = "DNS Server Port";
      description =
          some
            "Port (or range) the DNS server listens on (typically 53). Only DNS traffic to/from this port is intercepted.";
      kind = string;
      default_value = some "53";
      required = some false;
      order = some 3;
    }
    ∷ record blank_parameter {
      name = "cidr";
      label = "DNS Server CIDRs";
      description =
          some
            "IP CIDRs of the DNS server(s). Only queries destined for these IPs are affected. If empty, all DNS traffic on the matching port is affected.";
      kind = string_array;
      required = some false;
      order = some 4;
    }
    ∷ record blank_parameter {
      name = "failOnHostNetwork";
      label = "Fail on Host Network";
      description = some "Should the action fail if the container is using host network?";
      kind = boolean;
      default_value = some "true";
      required = some true;
      order = some 100;
    }
    ∷ []

unfoldable pub dns_error_injection_description : ActionDescription
unfolding dns_error_injection_parameters
dns_error_injection_description = record attack {
  id = base_action_id <> ".network_dns_error_injection";
  label = "DNS Error Injection";
  description = "Inject DNS errors (NXDOMAIN/SERVFAIL/TIMEOUT) into DNS queries using eBPF.";
  technology = some "Container";
  category = some "Network";
  time_control = external;
  status_interval = some "2s";
  widgets =
      record {
        title = "DNS Error Injection Statistics";
        message_type = "dns_stats_markdown";
        append = false;
      }
      ∷ [];
  parameters = dns_error_injection_parameters;
}
