-- ===== src/Describe/Reach.antt =====
-- The descriptions of the network attacks that stop traffic: extcontainer/action_network_tcp_reset.go,
-- action_network_blackhole.go and action_network_dns.go.
use extension_container.Common.{◌<>◌, true, false, some, List, [], ◌∷◌, ◌++◌}
use extension_container.Describe.{
  ActionParameter, ActionDescription, duration, string_array, integer, external, blank_parameter,
  attack, base_action_id,
}
use extension_container.Describe.Shared.{common_network_parameters}

unfoldable pub tcp_reset_parameters : List ActionParameter
unfolding common_network_parameters
tcp_reset_parameters =
    common_network_parameters
    ++ (record blank_parameter {
      name = "networkInterface";
      label = "Network Interface";
      description =
          some "Target Network Interface which should be affected. All if none specified.";
      kind = string_array;
      required = some false;
      advanced = some true;
      order = some 106;
    }
        ∷ [])

unfoldable pub tcp_reset_description : ActionDescription
unfolding tcp_reset_parameters
tcp_reset_description = record attack {
  id = base_action_id <> ".network_tcp_reset";
  label = "Reset TCP Connection";
  description = "Injects TCP resets for matching connections (incoming and outgoing).";
  technology = some "Container";
  category = some "Network";
  time_control = external;
  parameters = tcp_reset_parameters;
}

unfoldable pub blackhole_parameters : List ActionParameter
unfolding common_network_parameters
blackhole_parameters = common_network_parameters

unfoldable pub blackhole_description : ActionDescription
unfolding blackhole_parameters
blackhole_description = record attack {
  id = base_action_id <> ".network_blackhole";
  label = "Block Traffic";
  description = "Blocks network traffic (incoming and outgoing).";
  technology = some "Container";
  category = some "Network";
  time_control = external;
  parameters = blackhole_parameters;
}

unfoldable pub block_dns_parameters : List ActionParameter
unfolding common_network_parameters
block_dns_parameters =
    record blank_parameter {
      name = "duration";
      label = "Duration";
      description = some "How long should the network be affected?";
      kind = duration;
      default_value = some "30s";
      required = some true;
      order = some 0;
    }
    ∷ record blank_parameter {
      name = "dnsPort";
      label = "DNS Port";
      description = some "Port number used for DNS queries (typically 53)";
      kind = integer;
      default_value = some "53";
      required = some true;
      order = some 1;
      min_value = some 1;
      max_value = some 65534;
    }
    ∷ []

unfoldable pub block_dns_description : ActionDescription
unfolding block_dns_parameters
block_dns_description = record attack {
  id = base_action_id <> ".network_block_dns";
  label = "Block DNS";
  description = "Blocks access to DNS servers";
  technology = some "Container";
  category = some "Network";
  time_control = external;
  parameters = block_dns_parameters;
}
