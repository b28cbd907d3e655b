-- ===== src/Describe/Surroundings.antt =====
-- What the handlers of the actions are given: what extcontainer/*.go calls outside of an action.
use extension_container.Common.{String, Result, LinuxProcessInfo}
use extension_container.ActionKit.{Values}
use extension_container.Config.{Specification}
use extension_container.Targets.{Container, OciRuntime}
use extension_container.Filters.{Networks}
use extension_container.Faults.{Runner}
use extension_container.Faults.Kinds.{AttackOpts}
use extension_container.Network.{Netfault, Answers, SidecarOpts}
use extension_container.Limits.{FileSystem}
use extension_container.Limits.Adapt.{Machine}
use extension_container.FillDisk.Options.{Names}
use extension_container.FillDisk.Prepare as FillDiskPrepare
use extension_container.DnsInjection.Options.{InjectOpts}
use extension_container.Describe.Fill.{MemfillNames}

-- What the actions work with: the settings, the client's `Info`, the OCI runtime, and the libraries.
pub record Surroundings (values : Values) : Type 1 where
  pub cfg : Specification
  pub info : String → Result Container
  pub runtime : OciRuntime
  pub lib : Networks
  pub runner : SidecarOpts → Runner
  pub nf : Netfault
  pub answers : Answers nf
  pub opts : AttackOpts lib.Net → nf.Opts
  pub machine : Machine
  pub fs : FileSystem
  pub mem : MemfillNames
  pub disk : Names
  pub check_path_writable : FillDiskPrepare.WritableCheck
  pub Handle : Type 0
  pub new_process : LinuxProcessInfo → String → InjectOpts lib.Net → Result Handle
