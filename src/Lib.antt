-- ===== src/Lib.antt =====
-- A verification library for the container extension: the attacks on containers (their network, their
-- CPU, memory and disk, stopping and pausing them), which a platform drives through the handlers
-- Prepare, Start, Status and Stop of each action.
--
-- How the parts interact. An action's Prepare selects the target (Targets.antt), reads its process and
-- makes options from the request; Start and Stop call a library that changes the target. The network
-- actions share one map over all their instances, by which containers in one network namespace agree
-- on the one that applies the attack (Netns.antt). The actions on processes, the stop and the DNS error
-- injection keep maps from executions to what runs for them.
--
-- Which file models which part (functions have the source's names, in lower case with underscores):
--   Common.antt and Common/*: the parts of Go's library that the code uses: ints of 64 bits that wrap
--     around, strings, maps as association lists, results that return a value, an error or panic.
--   ActionKit.antt: the types of the action kit's interface.
--   Config.antt: config/config.go.
--   Targets.antt: extcontainer/common.go, with hasDisallowedK8sNamespaceLabel and isUsingHostNetwork of
--     extcontainer/action_network.go.
--   Netns.antt: extcontainer/netns_dedup.go. Its state is the map under the mutex, each call one step.
--   Network.antt: networkAction of extcontainer/action_network.go. Start and Stop map the action's
--     state and the tracker to the next ones, with the calls of netfault and the result;
--     Network/Prepare.antt has Prepare.
--   Filters.antt, Faults.antt: mapToNetworkFilter, and the option providers in
--     extcontainer/action_network_*.go.
--   Limits.antt, Limits/Adapt.antt: extcontainer/action_stress_limit_helpers.go; Limits/Written.antt
--     has the files of the kernel that it reads.
--   Processes.antt: what the next three share. Stress.antt, FillMemory.antt, FillDisk.antt:
--     extcontainer/action_stress*.go, action_fill_mem.go and action_fill_disk.go; the state is the map of
--     processes, and each step lists its calls on processes.
--   Stop.antt: extcontainer/action_stop.go, the goroutine as a channel in four phases;
--     Stop/Ending.antt puts it over the client of containerd.
--   Pause.antt: extcontainer/action_pause.go, over the clients' interface of Engines.antt.
--   DnsInjection.antt: extcontainer/action_network_dns_error_injection.go.
--   Discovery.antt: extcontainer/discovery.go; Discovery/Hosts.antt has the names of the host,
--     Discovery/Described.antt the descriptions, Discovery/Schedule.antt discovery_utils.go.
--   Engines.antt: extcontainer/container/types; Engines/Docker.antt, Engines/Containerd.antt and
--     Engines/Crio.antt: the clients in extcontainer/container/docker, containerd and crio;
--     Engines/Choice.antt, Engines/Liveness.antt: extcontainer/container/container.go.
--   Describe.antt and Describe/*: the Describe functions of the actions, as data. Describe/Fitting.antt
--     says when a request fits them; Faults/Kinds.antt ties them to the options of network attacks.
--   Start.antt: main.go; Start/Ended.antt is about its end.
--   Examples.antt: runs at concrete inputs.
--
-- Bounds. Ints are integers that wrap around at 64 bits, written out where the code multiplies; a
-- 16-bit port is a number modulo 2 ^ 16. Floats are quotients of two ints, exact up to 52 bits. Most
-- loops are structural recursions over a list or a text. Two recur on fuel: the writing of a number in
-- decimal is given more fuel than the number, and it has a digit at each step; the loop over
-- containerd's stream of containers takes a round for each container and one for the end.
--
-- Calls that leave the program (netfault, stress-ng, memfill, diskfill, dnsinject, the OCI runtime, the
-- interfaces of the container engines, encoding/json, envconfig, the files of the kernel) are arguments
-- of the definitions, with what they answer; what a theorem relies on of them is one of its conditions.
--
-- Not modelled: logging, the HTTP server, probes and signal handlers of main.go, the icons and versions
-- of the descriptions, the caching of the discovery kit, the settings' variables in the environment,
-- which a library reads. The network actions' requests are steps without interleaving inside of them,
-- except that claims and applications of different actions may alternate.
pub mod Common
pub mod ActionKit
pub mod Config
pub mod Targets
pub mod Netns
pub mod Network
pub mod Filters
pub mod Faults
pub mod Limits
pub mod Processes
pub mod Stress
pub mod FillMemory
pub mod FillDisk
pub mod Stop
pub mod Pause
pub mod DnsInjection
pub mod Discovery
pub mod Engines
pub mod Describe
pub mod Start
pub mod Examples
