-- ===== src/Lib.antt =====
-- ray-mcp, verified: the core of an MCP server that manages Ray on Kubernetes (RayCluster, RayJob and
-- RayService objects of KubeRay).
--
-- The program. An MCP tool call is decoded in internal/mcp and handed to a service of internal/domain,
-- which owns the policy: default namespaces, validation, guards against destructive acts, the merge of
-- a caller's rawSpec, and the audit log. The services reach the cluster, the Ray dashboard and the clock
-- through ports (internal/domain/ports.go), which internal/adapters implements. internal/config resolves
-- the configuration at boot, and internal/transport decides who may reach the tools over HTTP.
--
-- The files, and the code they model, in internal/domain where no folder is named:
--   Prelude       Shared names: Boolean tests, integers, rendered texts, and UTF-8 with its lengths.
--   Json          The values of a MergedSpec (types.go) as Go's type switches see them; deep equality.
--   Errors        errors.go, and the errors of merge.go and guards.go, with their texts.
--   Merge         merge.go: mergePatch, cloneMap, nestedString, and Merge with the identity guard.
--   Guards        guards.go: Fingerprint, RequireConfirm, IsProtected, GuardProtectedChange.
--   Diff          diff.go: the field-level summary of two objects.
--   Types, Ports  types.go and ports.go. A World answers each call, and each answer may depend on
--                 every call before; a Trace lists the calls. A theorem about every World holds for
--                 every interleaving with other writers, and for every failure.
--   Apply         apply.go: Apply (dry run, commit, audit) and RecordDestructive.
--   Object        The edits of a live object that cluster_update.go and service_write.go share.
--   Cluster       cluster_write.go: Create and Delete; in Cluster/Update, Cluster/Scale and
--                 Cluster/Retry, Update, Scale and applyWithConflictRetry of cluster_update.go.
--   Service       service_write.go: Deploy, Update and Delete; in Service/Serving and Service/Classify,
--                 serviceServingReason and classifyServiceUpdate.
--   Job           job.go: Get and Logs; in Job/Wait, pollOnce and Wait; in Job/Submit, Submit and
--                 Delete of job_submit.go.
--   Reads         cluster.go, service.go and distill.go: the reads of one call, and the health line.
--   Reach         internal/adapters/reachability: in Reach/Pool, the pool of tunnels of pool.go with its
--                 reaper; in Reach/Resolver, strategy.go, headPodName and unavailable.go.
--   Dash          internal/adapters/rayapi/client.go: JobStatus, JobLogs and get; in Dash/Logs,
--                 boundLogs. Dash/Wired puts it and Reach under the job's read.
--   Config        internal/config/config.go: Load and validate.
--   Transport     internal/transport: staticBearerAuth and buildHTTPHandler.
--   Kube          internal/adapters/kuberay: the lists and reads of cluster.go, job.go and service.go with
--                 their distilled status, mapK8sError, and Events of events.go; in Kube/Create,
--                 create.go, apply.go and delete.go; in Kube/Bases, job_submit.go and
--                 service_write.go; in Kube/Connect, client.go.
--   Tools         internal/mcp: NewServer and the tiers; in Tools/Deletes and Tools/Writes, the handlers
--                 of the writes; in Tools/Jobs and Tools/Rows, the outputs and summaries of the reads.
--   Tests         A small World, and an example of each result at concrete objects.
-- A definition has the name of the Go function in lower case with underscores, and its file's comment
-- says which one. Code that edits a map in place returns the new map here; that is the same because it
-- works on a clone that nobody else holds.
--
-- Numbers. An int64 or int32 is an integer; no arithmetic of the code can overflow it. A float64 is a
-- dyadic fraction, kept apart from an integer as reflect.DeepEqual does. A time is in nanoseconds, 0 the
-- zero time. Where a text may be cut inside a character (Dash/Logs, Kube/Events) it is its bytes.
--
-- Bounds and fuel. The wait loop of Job/Wait runs on 16 polls: one at the start and one after each of
-- the 15 pauses of 2 s that fit into its limit of 30 s. The walk of Diff counts down the levels left to
-- the collapse depth, so it needs no fuel. All other loops are structural. A history of the pool is a
-- list of its calls, each under the pool's mutex; no bound is put on it.
--
-- Parameters: SHA-256 (`digest`), the clock and the pauses, the caller of a request, and every answer of
-- a port. Of the adapters: the answers of the Kubernetes API with the tests of k8s.io/apimachinery on
-- its errors, the names of KubeRay's conditions and states, ParseQuantity and the unstructured
-- converter, client-go where a connection is made, the tunnel's dialer and its Lost channel, net/http,
-- net/url, encoding/json, package flag, the environment, and the address functions of package net. The
-- domain's services take the base builders of Kube/Create and Kube/Bases as functions, as in the
-- source. A map with each key once is `IsWf`, which every Go map is.
--
-- Not modelled: the SPDY dialer (I/O), the handlers of the read tools and the JSON schemas of
-- internal/mcp, the listener of internal/transport, internal/observability, internal/version, cmd and
-- deploy.
pub mod Prelude
pub mod Json
pub mod Errors
pub mod Merge
pub mod Guards
pub mod Diff
pub mod Types
pub mod Ports
pub mod Reach
pub mod Dash
pub mod Config
pub mod Transport
pub mod Kube
pub mod Tools
pub mod Apply
pub mod Object
pub mod Cluster
pub mod Service
pub mod Job
pub mod Reads
mod Tests
