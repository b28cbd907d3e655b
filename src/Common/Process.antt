-- ===== src/Common/Process.antt =====
-- What the Linux process of a container is known by: `ociruntime.LinuxProcessInfo` and
-- `ociruntime.LinuxNamespace` of the action kit, with the namespace types that the program names.
use Prim.Native.Nat.{ℕ}
use Prim.Native.String.{String}
use mathlib.Core.Bool.{Bool, true, false}
use mathlib.Core.List.{List}

pub data NamespaceType : Type 0 where
  network pid cgroup other : NamespaceType

pub record LinuxNamespace : Type 0 where
  pub kind : NamespaceType
  pub path : String
  pub inode : ℕ  -- uint64

pub record LinuxProcessInfo : Type 0 where
  pub process_id : ℕ
  pub namespaces : List LinuxNamespace
  pub cgroup_path : String

abbrev pub is_network : NamespaceType → Bool
is_network network = true
is_network _ = false
