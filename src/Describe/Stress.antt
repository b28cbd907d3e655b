-- ===== src/Describe/Stress.antt =====
-- The descriptions of the stress attacks, in extcontainer/action_stress_cpu.go, action_stress_memory.go
-- and action_stress_io.go.
use extension_container.Common.{◌<>◌, true, some, List, [], ◌∷◌}
use extension_container.Describe.{
  ActionParameter, ActionDescription, duration, boolean, string, integer, percentage,
  stressng_workers, external, blank_parameter, attack, base_action_id,
}

unfoldable pub stress_cpu_parameters : List ActionParameter
stress_cpu_parameters =
    record blank_parameter {
      name = "cpuLoad";
      label = "Load on Container CPU";
      description = some "How much CPU load should be inflicted?";
      kind = percentage;
      default_value = some "80";
      required = some true;
      order = some 0;
      min_value = some 1;
      max_value = some 100;
    }
    ∷ record blank_parameter {
      name = "workers";
      label = "Container CPUs";
      description = some "How many workers should be used to stress the CPU?";
      kind = stressng_workers;
      default_value = some "0";
      required = some true;
      order = some 1;
    }
    ∷ record blank_parameter {
      name = "duration";
      label = "Duration";
      description = some "How long should the CPU be stressed?";
      kind = duration;
      default_value = some "30s";
      required = some true;
      order = some 2;
    }
    ∷ []

unfoldable pub stress_cpu_description : ActionDescription
unfolding stress_cpu_parameters
stress_cpu_description = record attack {
  id = base_action_id <> ".stress_cpu";
  label = "Stress CPU";
  description = "Stresses CPU in the container cgroup for the given duration.";
  technology = some "Container";
  category = some "Resource";
  time_control = external;
  parameters = stress_cpu_parameters;
}

unfoldable pub stress_memory_parameters : List ActionParameter
stress_memory_parameters =
    record blank_parameter {
      name = "percentage";
      label = "Load on Container Memory";
      description = some "How much of the total container memory should be allocated?";
      kind = percentage;
      default_value = some "80";
      required = some true;
      order = some 0;
      min_value = some 1;
    }
    ∷ record blank_parameter {
      name = "duration";
      label = "Duration";
      description = some "How long should container memory be wasted?";
      kind = duration;
      default_value = some "30s";
      required = some true;
      order = some 2;
    }
    ∷ record blank_parameter {
      name = "failOnOomKill";
      label = "Fail on OOM Kill";
      description = some "Should an OOM kill be considered a failure?";
      kind = boolean;
      default_value = some "false";
      required = some true;
      order = some 3;
    }
    ∷ []

unfoldable pub stress_memory_description : ActionDescription
unfolding stress_memory_parameters
stress_memory_description = record attack {
  id = base_action_id <> ".stress_mem";
  label = "Stress Memory";
  description = "Stresses memory in the container cgroup for the given duration.";
  technology = some "Container";
  category = some "Resource";
  time_control = external;
  parameters = stress_memory_parameters;
}

unfoldable pub stress_io_parameters : List ActionParameter
stress_io_parameters =
    record blank_parameter {
      name = "mode";
      label = "Mode";
      description = some "How should the IO be stressed?";
      kind = string;
      default_value = some "read_write_and_flush";
      required = some true;
      order = some 0;
      min_value = some 1;
      max_value = some 100;
      options =
          record { label = "read/write and flush"; value = "read_write_and_flush" }
          ∷ record { label = "read/write only"; value = "read_write" }
          ∷ record { label = "flush only"; value = "flush" }
          ∷ [];
    }
    ∷ record blank_parameter {
      name = "workers";
      label = "Workers";
      description =
          some "How many workers should continually write, read and remove temporary files?";
      kind = stressng_workers;
      default_value = some "0";
      required = some true;
      order = some 1;
    }
    ∷ record blank_parameter {
      name = "duration";
      label = "Duration";
      description = some "How long should IO be stressed?";
      kind = duration;
      default_value = some "30s";
      required = some true;
      order = some 2;
    }
    ∷ record blank_parameter {
      name = "path";
      label = "Path";
      description = some "Path where the IO should be inflicted";
      kind = string;
      default_value = some "/";
      required = some true;
      order = some 3;
    }
    ∷ record blank_parameter {
      name = "mbytes_per_worker";
      label = "MBytes to write";
      description = some "How many megabytes should be written per stress operation?";
      kind = integer;
      default_value = some "1024";
      required = some true;
      order = some 3;
      min_value = some 1;
    }
    ∷ []

unfoldable pub stress_io_description : ActionDescription
unfolding stress_io_parameters
stress_io_description = record attack {
  id = base_action_id <> ".stress_io";
  label = "Stress IO";
  description =
      "Stresses IO in the container using read/write/flush operations for the given duration.";
  technology = some "Container";
  category = some "Resource";
  time_control = external;
  parameters = stress_io_parameters;
}
