-- ===== src/Lib.antt =====
-- KuboCD, the core of its controller: how a Release of a package gets its values.
--
-- A Release names a package, an archive of an OCI image, and gives parameters. The controller reads
-- the archive within limits, merges defaults, contexts and parameters, resolves the connections
-- that the package asks for, and renders the charts of the modules. Configs set what holds for
-- all Releases. The files and the code, by paths from the repository's root:
--
--   Common            Boolean tests, equality, results, lists, and 64-bit integers that wrap around
--   Value             interface{} as decoded from YAML: Value/Maps the operations on maps and slices,
--                     Value/Merge internal/misc/merge.go (MergeMaps), Value/Prune
--                     internal/misc/prune.go (Prune, pruneSlice), Value/Sized the length of slices
--   Archive           internal/archiveio: Archive/Limits and Archive/Budget limits.go (Validate,
--                     resolve, reserve), Archive/Reader reader.go (Next, account, CopyMetadata,
--                     ReserveListing) with its laws in the files below it
--   Config            internal/configstore/configstore.go: Config/Spec the types, with those of
--                     api/v1alpha1/config_types.go, Config/Store newConfiguration and AddConfigs,
--                     Config/Redirect GetPackageRedirect
--   Roles             internal/rolestore/rolestore.go (RegisterRelease, UnRegisterRelease,
--                     MissingDependency), which reads the configuration of Config
--   Cache             internal/cache/cache.go (Get, Set), what they remove in Cache/Evict, the caps in
--                     Cache/Laws, and any sequence of calls in Cache/History
--   Package           internal/kubopackage/package.go: Package/Inputs RenderInputs, after the
--                     template; Package/Kinds the kinds, and CountNonZero of internal/misc/misc.go
--   Refs              internal/controller/release_paramrefs.go: Refs/Path setAtPath, Refs/Decl the
--                     types, Refs/Generate GenerateRefInputs and formatAlias, Refs/Apply
--                     ApplyRefBindings, Refs/Resolve both steps in a row, as the reconciler of a
--                     Release takes them, Refs/Defaults isSetAt against MergeMaps
--   Inputs            internal/controller/release_buildinputmodel.go: Inputs/Connection what the
--                     cluster answers, Inputs/Build BuildInputModel, Inputs/Elect and Inputs/Lookup
--                     one round of its loop, Inputs/Gate all rounds, Inputs/Substitution from the
--                     declared references of Refs to the values in their place
--   Schema            internal/kuboschema: Schema/OpenApi and Schema/Nodes kuboschema.go (Kubo2openAPI,
--                     handleNode) with desugarConnectionRef, Schema/Decls CollectConnectionDecls
--                     of connectionref.go, their fuel in Schema/Parts, Schema/Total and
--                     Schema/Fuel, their results in Schema/Related (how a node follows from
--                     another), Schema/Flags (required), Schema/Keys, Schema/Desugared,
--                     Schema/Converted and Schema/Collected
--   Reconcile         one pass of internal/controller/release_controller.go: Reconcile/Status what it
--                     sets, Reconcile/Report reportError and updateStatus, Reconcile/Helm and
--                     Reconcile/Outputs the HelmReleases and the output connections
--                     (release_helmrelease.go, release_outputconnection.go and
--                     release_outputclusterconnection.go), Reconcile/Resolution and Reconcile/Pass
--                     reconcile2 from the rendered inputs and from the rendered values on,
--                     Reconcile/Deletion its deletion, Reconcile/Context ComputeContext of
--                     release_helpers.go, and the laws in the other files
--   Tests             concrete inputs
--
-- State that the code changes in place is taken and returned. A Go map is the list of its entries
-- in one order of iteration, with distinct keys; where the order could show, the theorem says that
-- it does not, or the order is a parameter. An error is a value, and the text of its message is
-- left out, but where the reconciler puts it into the status. What a call returns beside an error is
-- not kept where the code does not read it.
--
-- Parameters: strconv's Atoi and Itoa and the package path, as records with the laws that the code
-- relies on; the YAML decoder and sort.Slice, as functions; what tar.Reader.Next gives, step by
-- step; the result of the template of the inputs; the text of a namespaced name; the readings of
-- the clock; what the Kubernetes API answers to each call of a pass, and, so far, to the steps of
-- the pass that are not modelled: the rendered values, and the checks of the conditions.
--
-- Four recursions run on fuel. The eviction of the cache has the number of its entries, each turn
-- removes one, and an empty cache is within its caps: see evict-IsWithin. The loop of account goes
-- over the directories above an entry. Its fuel is the length of the entry's name and one more,
-- and each round has a shorter directory, or the top, where it stops: see the lemmas of
-- Archive/Reader/Account. Kubo2openAPI and CollectConnectionDecls have the depth of the schema, and
-- each call is on a map inside the node: see Schema/Total and Schema/Fuel. All other loops go over a
-- list or the entries of a map.
--
-- Not modelled: the byte streams of the archive reader, the defaults of schemas, the modules, the
-- templates, the file system helpers, the first part of a pass (its finalizer, repositories and
-- package cache, and the parameters), what a pass writes to the cluster besides the status and the
-- deletions, and its events. The command line only reads flags and prints.
pub mod Common
pub mod Value
pub mod Archive
pub mod Config
pub mod Roles
pub mod Cache
pub mod Package
pub mod Refs
pub mod Inputs
pub mod Reconcile
pub mod Schema
pub mod Tests
