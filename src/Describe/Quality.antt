-- ===== src/Describe/Quality.antt =====
-- The descriptions of the network attacks that impair traffic: extcontainer/action_network_delay.go,
-- action_network_loss.go, action_network_corrupt.go and action_network_bandwidth.go.
use extension_container.Common.{◌<>◌, true, false, some, List, [], ◌∷◌, ◌++◌}
use extension_container.Describe.{
  ActionParameter, ActionDescription, duration, boolean, string_array, percentage, bitrate,
  external, blank_parameter, attack, base_action_id,
}
use extension_container.Describe.Shared.{common_network_parameters}

unfoldable pub delay_parameters : List ActionParameter
unfolding common_network_parameters
delay_parameters =
    common_network_parameters
    ++ (record blank_parameter {
      name = "networkDelay";
      label = "Network Delay";
      description = some "How much should the traffic be delayed?";
      kind = duration;
      default_value = some "500ms";
      required = some true;
      min_value = some 0;
      max_value = some 4294967;
      order = some 1;
    }
        ∷ record blank_parameter {
          name = "networkDelayJitter";
          label = "Jitter";
          description = some "Add random +/-30% jitter to network delay?";
          kind = boolean;
          default_value = some "false";
          required = some true;
          order = some 2;
        }
        ∷ record blank_parameter {
          name = "networkInterface";
          label = "Network Interface";
          description =
              some "Target Network Interface which should be affected. All if none specified.";
          kind = string_array;
          required = some false;
          advanced = some true;
          order = some 106;
        }
        ∷ record blank_parameter {
          name = "tcpDataPacketsOnly";
          label = "TCP Data Packets Only [beta]";
          description =
              some
                "Delay only TCP data packets (PSH flag heuristic). UDP is not delayed. When you observe the actual delay being a multiple of the configured delay, you might choose this option to avoid delaying the TCP handshake.";
          kind = boolean;
          default_value = some "false";
          required = some true;
          advanced = some true;
          order = some 107;
        }
        ∷ [])

unfoldable pub delay_description : ActionDescription
unfolding delay_parameters
delay_description = record attack {
  id = base_action_id <> ".network_delay";
  label = "Delay Outgoing Traffic";
  description = "Inject latency into egress network traffic.";
  technology = some "Container";
  category = some "Network";
  time_control = external;
  parameters = delay_parameters;
}

unfoldable pub package_loss_parameters : List ActionParameter
unfolding common_network_parameters
package_loss_parameters =
    common_network_parameters
    ++ (record blank_parameter {
      name = "networkLoss";
      label = "Network Loss";
      description = some "How much of the traffic should be lost?";
      kind = percentage;
      default_value = some "70";
      required = some true;
      order = some 1;
    }
        ∷ record blank_parameter {
          name = "networkInterface";
          label = "Network Interface";
          description =
              some "Target Network Interface which should be affected. All if none specified.";
          kind = string_array;
          required = some false;
          advanced = some true;
          order = some 106;
        }
        ∷ [])

unfoldable pub package_loss_description : ActionDescription
unfolding package_loss_parameters
package_loss_description = record attack {
  id = base_action_id <> ".network_package_loss";
  label = "Drop Outgoing Traffic";
  description = "Cause packet loss for outgoing network traffic (egress).";
  technology = some "Container";
  category = some "Network";
  time_control = external;
  parameters = package_loss_parameters;
}

unfoldable pub corrupt_packages_parameters : List ActionParameter
unfolding common_network_parameters
corrupt_packages_parameters =
    common_network_parameters
    ++ (record blank_parameter {
      name = "networkCorruption";
      label = "Package Corruption";
      description = some "How much of the traffic should be corrupted?";
      kind = percentage;
      default_value = some "15";
      required = some true;
      min_value = some 0;
      max_value = some 100;
      order = some 1;
    }
        ∷ record blank_parameter {
          name = "networkInterface";
          label = "Network Interface";
          description =
              some "Target Network Interface which should be affected. All if none specified.";
          kind = string_array;
          required = some false;
          advanced = some true;
          order = some 106;
        }
        ∷ [])

unfoldable pub corrupt_packages_description : ActionDescription
unfolding corrupt_packages_parameters
corrupt_packages_description = record attack {
  id = base_action_id <> ".network_package_corruption";
  label = "Corrupt Outgoing Packages";
  description =
      "Inject corrupt packets by introducing single bit error at a random offset into egress network traffic.";
  technology = some "Container";
  category = some "Network";
  time_control = external;
  parameters = corrupt_packages_parameters;
}

unfoldable pub limit_bandwidth_parameters : List ActionParameter
unfolding common_network_parameters
limit_bandwidth_parameters =
    common_network_parameters
    ++ (record blank_parameter {
      name = "bandwidth";
      label = "Network Bandwidth";
      description = some "How much traffic should be allowed per second?";
      kind = bitrate;
      default_value = some "1024kbit";
      required = some true;
      order = some 1;
    }
        ∷ record blank_parameter {
          name = "networkInterface";
          label = "Network Interface";
          description =
              some "Target Network Interface which should be attacked. All if not specified.";
          kind = string_array;
          required = some false;
          advanced = some true;
          order = some 106;
        }
        ∷ [])

unfoldable pub limit_bandwidth_description : ActionDescription
unfolding limit_bandwidth_parameters
limit_bandwidth_description = record attack {
  id = base_action_id <> ".network_bandwidth";
  label = "Limit Outgoing Bandwidth";
  description = "Limit available egress network bandwidth.";
  technology = some "Container";
  category = some "Network";
  time_control = external;
  parameters = limit_bandwidth_parameters;
}
