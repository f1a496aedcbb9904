-- ===== src/Lib.antt =====
-- Verification of image-updater-operator, a Kubernetes operator that selects image tags by policy
-- and applies them to workloads, live or through Git.
--
-- The program and this library:
-- - api/v1alpha1/imagepolicy_types.go (Api): the ImagePolicy resource, as records. A pointer that may
--   be nil is an Option, a string type keeps its strings, a duration is in nanoseconds.
-- - internal/policy/policy.go (Policy): `Select` filters the tags of a registry and applies the first
--   rule that is set. Policy/Natural holds `naturalCompare` and `numericLess`, Policy/Select the
--   selectors (`selectSemver`, `selectRegex`, `selectOrdered`); Policy/Stable is a stable sort, which
--   `sort.SliceStable` documents. Package regexp and the semver library are records of the calls
--   that the code makes, as parameters.
-- - internal/workload/workload.go (Workload): the annotations of a workload (`ContainerPolicies`,
--   `ApprovedTag`, `WriteBack`, `GitSettings`, `HelmKeys`), the supported kinds, and the containers.
-- - internal/gitwriteback/edit.go (GitWriteback): edits of YAML files. Yaml has the helpers on nodes,
--   Path `setByPath`, Helm, Kustomize and Manifest the three edits, Image `repoOf` with `JoinImage` of
--   internal/registry/scanner.go, Document the reading and writing of documents. The YAML library
--   is a parameter. The code mutates nodes in place within one tree; here an edit returns the
--   changed tree.
--   The modules Laws, Entry, Tagged and Stale of an edit say what it writes, Helm/Twice that it
--   settles. Yaml/Alike is the agreement of a document with one that is read back: what the YAML
--   library does to tags, styles, comments and places is left open.
-- - internal/gitwriteback/apply.go and git.go: Target holds `ParseTarget`, Apply `targetFile` and
--   `Apply` on the state of a file system, whose operations are parameters, and Auth the choice of
--   Git credentials (`AuthFromSecret`).
-- - internal/gitwriteback/git.go (GitWriteback/Repo): `Clone` and `CommitAndPush`, with go-git as a
--   parameter over one state, which holds the files of the machine and what the remotes received.
-- - internal/controller/workload_controller.go: Controller/Gate has the mode gate (`gate`,
--   `effectiveMode`), Pending the loop of `Reconcile` that collects the updates, Live `patchLive`,
--   WriteBack `writeBackGit` and `gitAuth`, Event the events, and Reconcile the whole of `Reconcile`.
--   A run is a value: its result, the object that it sends to the API server, the state that it
--   leaves and its events. Watch has what starts a run: the index and the predicate of
--   `SetupWithManager`, and `workloadsForPolicy`. Pending/Selected describes the updates without the loop, and
--   Reconcile/Settled and Settles are about a second run.
-- - internal/controller/imagepolicy_controller.go and helpers.go (Controller/Scan): the scan of a
--   registry (`Reconcile`, `fail`, `loadDockerConfig`, `setReady`, `effectiveInterval`). A run is a
--   value: its result, the status that it writes and its events.
-- - internal/registry (Registry): scanner.go, with go-containerregistry as a parameter, and
--   keychain.go, the credentials of a docker config (Keychain).
-- - internal/webhook (Webhook): providers.go (Providers), and receiver.go, whose `trigger` is in
--   Trigger and whose `handle` is in Receiver. An event ends in patches of policies, by which the
--   scan of internal/controller runs again; the objects that are sent are a list, the last one first.
-- - internal/dashboard/dashboard.go (Dashboard): the overview, from the policies and workloads that
--   the API server lists. Dashboard/Shown relates it to the updates of the reconciler.
-- - Server: `Start` of internal/webhook/receiver.go and internal/dashboard/dashboard.go, which have the
--   same body but for their routes, as the steps of the two goroutines of a server.
-- - cmd/main.go (Startup): Options holds the flags with their defaults and the options of the servers,
--   Startup `main` and the `SetupWithManager` methods, whose calls to the manager of
--   controller-runtime may fail, and Startup/Calls the calls that a configuration asks for.
-- - Operator composes the parts: a cluster of policies and workloads, on which runs of the two
--   reconcilers, push events and edits of users follow each other in any order. Operator/Provenance
--   says where the images of the containers come from, Operator/Quiesce that updates come to
--   an end, and Operator/Delivery (with Run) how a tag reaches a container.
-- - Prelude: lists, byte strings, maps, results, integers, decimal numbers and orders. A Go string is
--   the list of its bytes. A Go map is an association list in the order in which a range meets it.
-- - Tests: the theorems at concrete inputs, and runs.
--
-- Loops are structural recursions. The only fuel is that of `strconv.Itoa`, which is one more than
-- the number, so that there is enough for its digits. `strconv.Atoi` has the bounds of 64 bits.
--
-- Not modelled: the parsing of the command line by package flag, the scheme that package
-- initialization fills, and what controller-runtime does with the calls to its manager; generated
-- code; and the drivers of external tools under test/. Logging has no effect on the state and is left
-- out.
pub mod Api
pub mod Dashboard
pub mod GitWriteback
pub mod Server
pub mod Startup
pub mod Operator
pub mod Policy
pub mod Prelude
pub mod Registry
pub mod Workload
pub mod Controller
pub mod Tests
pub mod Webhook
