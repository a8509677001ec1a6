-- ===== src/Lib.antt =====
-- The Exoscale cloud controller manager: the part of a Kubernetes control plane that makes Exoscale
-- load balancers (NLBs) for Services, tells Kubernetes about the instances behind its nodes, and
-- approves the certificate requests of new nodes. The program is the Go package exoscale/.
--
-- The program's parts, and the modules that model them:
--
-- Base is what Go and its library give: errors as values and calls as state passing (Base/Errors),
-- numbers with their wrap-around (Base/Int), maps (Base/Dict), and the text functions that the program
-- calls, with strconv.Atoi (Base/Decimal) and time.ParseDuration (Base/Duration).
--
-- Cloud is the interface to the outside. Cloud/Exoscale has the records of the Exoscale API and the
-- interface exoscaleClient of exoscale/client.go as a record of operations on a world W, which stands
-- for all that the API knows; Cloud/Kubernetes has the same for Kubernetes; Cloud/Refreshable has the
-- wrappers that wait for an operation to end (exoscale/loadbalancer.go, exoscale/instances.go,
-- exoscale/sks.go).
--
-- LoadBalancer is exoscale/loadbalancer.go and exoscale/patcher.go. A call works on a session: the
-- Service object, which patchAnnotation changes in place, the world, and the list of the requests
-- sent so far. Annotations has getAnnotation, isExternal and patchAnnotation; Build has
-- buildLoadBalancerFromAnnotations; Fetch, Ensure, Update and Delete have fetchLoadBalancer,
-- EnsureLoadBalancer, updateLoadBalancer and EnsureLoadBalancerDeleted. EnsureLoadBalancer calls
-- updateLoadBalancer at its end. Sends and Emits are the two ways to say what a call sends, and
-- Keeps says what it leaves of the world; Acts says what it has done to a view of the world, by
-- Done, and Runs is Sends and Acts together, by which each loop of the program is gone through
-- once. Lawful is what the provider relies on of the API, as a record of laws over a view of an
-- NLB's services as a set: the answers tell the services as they are, and a call that succeeds has
-- had the effect of its request, where an update leaves alone what it gives as empty, as egoscale's
-- encoding does. Converge is about updateLoadBalancer over such an API: Rounds, Settled and Loops
-- have the effect of the requests for one wanted service and for all, Kept and Planned that of a
-- plan, and Reached, Stable and Returns the results; Eventual is about an API that answers before
-- it has acted. Ensure/Ensured carries this to EnsureLoadBalancer, by Ensure/Quiet, which says what
-- the calls before updateLoadBalancer keep, and Ensure/Adopted, which follows the ID; Ensure/Status
-- puts GetLoadBalancer after it, and Ensure/Answers says when it returns an address; Ensure/Hosts
-- puts UpdateLoadBalancer after it. Ensure/Resolving says what the calls before
-- buildLoadBalancerFromAnnotations send, for Ensure/External and Ensure/Unsupported. Delete/Cleared and Delete/Deleted do the same for the plan and
-- the run of EnsureLoadBalancerDeleted, Delete/Removed says when that returns no error,
-- Delete/Undone is about a run of it after one of updateLoadBalancer, and Delete/Shared about two
-- Services on one NLB.
--
-- Instances is the controllers for nodes: the overrides of the cloud-config file (Config, for
-- exoscale/instances_config.go), the look-up of an instance (Provider, for exoscale/common.go), the
-- older interface (Legacy, Labels, Addresses, for exoscale/instances.go), the newer one (V2, for
-- exoscale/instances_v2.go) and the zones (Zones, for exoscale/zones.go). Reported has the addresses
-- kind by kind; Agreement and Metadata compare the two interfaces.
--
-- Agent is the SKS agent (exoscale/sks_agent.go, exoscale/sks_agent_runner_node_csr_validation.go).
-- Validation is what it does with one request; Runner is its loop, as a machine that is driven by the
-- answers of the watch.
--
-- Client is how the API client is made and refreshed (exoscale/client.go) and the configuration
-- (exoscale/exoscale_config.go). Locking is its lock, as a step relation over any number of callers
-- and one refreshing goroutine, of which a step is an access to a shared field. Setup is the zone and
-- Initialize (exoscale/exoscale.go); Entry is the registration, the constructor and the getters of the
-- provider. Command is main and cloudInitializer (cmd/exoscale-cloud-controller-manager/main.go), over
-- a record of what the Kubernetes libraries do with the command's flags.
--
-- Tests is an account and a cluster in memory, and runs of the program on them; Tests/LawfulCloud is an
-- API that obeys the laws, and Tests/DelayedCloud one that answers before it has acted.
--
-- Loops are recursion on the list that they range over. Printing a number takes as much fuel as the
-- number is large, which is enough since each step divides it by ten; reading a duration takes as much
-- fuel as the text is long, since each round reads at least one character.
--
-- Not modelled: logging (exoscale/log.go), which is output only, the client's mock and the end-to-end
-- suite, which are tests, the vendored libraries, and the time stamps. The Exoscale and Kubernetes APIs,
-- the Kubernetes libraries' command line, YAML, JSON, PEM, X.509, regular expressions and SHA-256 are
-- parameters.
pub mod Base
pub mod Cloud
pub mod LoadBalancer
pub mod Instances
pub mod Agent
pub mod Client
pub mod Tests
