-- ===== src/Describe/Fill.antt =====
-- The descriptions of the fill attacks, in extcontainer/action_fill_mem.go and
-- extcontainer/action_fill_disk.go.
use extension_container.Common.{String, ◌<>◌, true, false, some, List, [], ◌∷◌}
use extension_container.Describe.{
  ActionParameter, ActionDescription, duration, boolean, string, integer, external, blank_parameter,
  attack, base_action_id,
}
use extension_container.FillDisk.{mb_to_fill, mb_left, over_time, at_once}
use extension_container.FillDisk as FillDisk
use extension_container.FillDisk.Options.{Names}

-- The texts that the library memfill gives its modes and units.
pub record MemfillNames : Type 0 where
  pub mode_usage : String
  pub mode_absolute : String
  pub unit_megabyte : String
  pub unit_percent : String

unfoldable pub fill_memory_parameters : MemfillNames → List ActionParameter
fill_memory_parameters names =
    record blank_parameter {
      name = "duration";
      label = "Duration";
      description = some "How long should the memory be filled?";
      kind = duration;
      default_value = some "30s";
      required = some true;
      order = some 1;
    }
    ∷ record blank_parameter {
      name = "mode";
      label = "Mode";
      description = some (
          ("*Fill and meet specified usage:* Fill up the memory until the desired usage is met. Memory allocation will be adjusted constantly to meet the target."
            <> "\n\n")
          <> "*Fill the specified amount:* Allocate and hold the specified amount of Memory.");
      kind = string;
      default_value = some (names.mode_usage);
      required = some true;
      order = some 2;
      options =
          record { label = "Fill and meet specified usage"; value = names.mode_usage }
          ∷ record { label = "Fill the specified amount"; value = names.mode_absolute }
          ∷ [];
    }
    ∷ record blank_parameter {
      name = "size";
      label = "Size";
      description =
          some
            "How much of the *total container memory* should be used to stress the memory?\n\nThe used memory percentage is calculated based on the memory limit of the container (or the host memory if no limit is set).";
      kind = integer;
      default_value = some "80";
      required = some true;
      order = some 3;
    }
    ∷ record blank_parameter {
      name = "unit";
      label = "Unit";
      description = some "Unit for the size parameter.";
      kind = string;
      default_value = some (names.unit_percent);
      required = some true;
      order = some 4;
      options =
          record { label = "Megabytes"; value = names.unit_megabyte }
          ∷ record { label = "% of total memory"; value = names.unit_percent }
          ∷ [];
    }
    ∷ record blank_parameter {
      name = "failOnOomKill";
      label = "Fail on OOM Kill";
      description = some "Should an OOM kill be considered a failure?";
      kind = boolean;
      default_value = some "false";
      required = some true;
      order = some 5;
    }
    ∷ []

unfoldable pub fill_memory_description : MemfillNames → ActionDescription
unfolding fill_memory_parameters
fill_memory_description names = record attack {
  id = base_action_id <> ".fill_mem";
  label = "Fill Memory";
  description = "Fills the memory of the container for the given duration.";
  technology = some "Container";
  category = some "Resource";
  time_control = external;
  parameters = fill_memory_parameters names;
}

unfoldable pub fill_disk_parameters : Names → List ActionParameter
fill_disk_parameters names =
    record blank_parameter {
      name = "duration";
      label = "Duration";
      description = some "How long should the disk be filled?";
      kind = duration;
      default_value = some "30s";
      required = some true;
      order = some 1;
    }
    ∷ record blank_parameter {
      name = "mode";
      label = "Mode";
      description = some "Specify how to calculate the amount of disk space to fill.";
      required = some true;
      order = some 2;
      default_value = some (names.of_mode mb_to_fill);
      kind = string;
      options =
          record {
            label = "Fill up to specified usage (in %)";
            value = names.of_mode FillDisk.percentage;
          }
          ∷ record { label = "Megabytes to write"; value = names.of_mode mb_to_fill }
          ∷ record { label = "Megabytes to leave free on disk"; value = names.of_mode mb_left }
          ∷ [];
    }
    ∷ record blank_parameter {
      name = "size";
      label = "Fill Value (depending on Mode)";
      description = some "Depending on the mode, specify the percentage or megabytes to use.";
      kind = integer;
      default_value = some "500";
      required = some true;
      order = some 3;
    }
    ∷ record blank_parameter {
      name = "path";
      label = "File Destination";
      description =
          some
            "Where to temporarily write the file for filling the disk. It will be cleaned up afterwards.";
      kind = string;
      default_value = some "/tmp";
      required = some true;
      order = some 4;
    }
    ∷ record blank_parameter {
      name = "method";
      label = "Method used to fill disk";
      description = some "Should the disk filled at once or over time?";
      required = some true;
      order = some 5;
      default_value = some "AT_ONCE";
      kind = string;
      advanced = some true;
      options =
          record { label = "At once (fallocate)"; value = names.of_method at_once }
          ∷ record { label = "Over time (dd)"; value = names.of_method over_time }
          ∷ [];
    }
    ∷ record blank_parameter {
      name = "blocksize";
      label = "Block Size (in MBytes) of the File to Write for method `Over Time`";
      description =
          some
            "Define the block size for writing the file with the dd command. If the block size is larger than the fill value, the fill value will be used as block size.";
      kind = integer;
      default_value = some "5";
      required = some true;
      order = some 6;
      min_value = some 1;
      max_value = some 1024;
      advanced = some true;
    }
    ∷ record blank_parameter {
      name = "failOnOomKill";
      label = "Fail on OOM Kill";
      description = some "Should an OOM kill be considered a failure?";
      kind = boolean;
      default_value = some "true";
      required = some false;
      advanced = some true;
    }
    ∷ []

unfoldable pub fill_disk_description : Names → ActionDescription
unfolding fill_disk_parameters
fill_disk_description names = record attack {
  id = base_action_id <> ".fill_disk";
  label = "Fill Disk";
  description = "Fills the disk of the container for the given duration.";
  technology = some "Container";
  category = some "Resource";
  time_control = external;
  parameters = fill_disk_parameters names;
}
