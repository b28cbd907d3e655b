-- ===== src/Describe/Shared.antt =====
-- The parameters that network attacks share, in extcontainer/action_network.go.
use extension_container.Common.{true, false, some, List, [], ◌∷◌}
use extension_container.Describe.{ActionParameter, duration, boolean, string_array, blank_parameter}

unfoldable pub common_network_parameters : List ActionParameter
common_network_parameters =
    record blank_parameter {
      name = "duration";
      label = "Duration";
      description = some "How long should the network be affected?";
      kind = duration;
      default_value = some "30s";
      required = some true;
      order = some 0;
    }
    ∷ record blank_parameter {
      name = "failOnHostNetwork";
      label = "Fail on Host Network";
      description = some "Should the action fail if the container is using host network?";
      kind = boolean;
      default_value = some "true";
      required = some true;
      order = some 100;
    }
    ∷ record blank_parameter {
      name = "hostname";
      label = "Include Hostnames";
      description = some "Restrict to/from which hosts the traffic is affected.";
      kind = string_array;
      default_value = some "";
      advanced = some true;
      order = some 101;
    }
    ∷ record blank_parameter {
      name = "ip";
      label = "Include IPs/CIDRs";
      description = some "Restrict to/from which IP addresses or blocks the traffic is affected.";
      kind = string_array;
      default_value = some "";
      advanced = some true;
      order = some 102;
    }
    ∷ record blank_parameter {
      name = "port";
      label = "Include Ports";
      description = some "Restrict to/from which ports the traffic is affected.";
      kind = string_array;
      default_value = some "";
      advanced = some true;
      order = some 103;
    }
    ∷ record blank_parameter {
      name = "excludeHostname";
      label = "Exclude Hostnames";
      description =
          some
            "Exclude traffic to/from these hosts from being affected. Excludes always take precedence over the include restrictions above (hostnames, IPs/CIDRs, ports).";
      kind = string_array;
      required = some false;
      advanced = some true;
      order = some 104;
    }
    ∷ record blank_parameter {
      name = "excludeIp";
      label = "Exclude IPs/CIDRs";
      description =
          some
            "Exclude traffic to/from these IP addresses or CIDR blocks from being affected. Excludes always take precedence over the include restrictions above (hostnames, IPs/CIDRs, ports), e.g. affect all traffic except 10.0.0.0/8.";
      kind = string_array;
      required = some false;
      advanced = some true;
      order = some 105;
    }
    ∷ []
