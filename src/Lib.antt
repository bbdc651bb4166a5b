-- ===== src/Lib.antt =====
-- The Keycloak operator: two reconcilers that keep a Red Hat build of Keycloak and its realms running
-- on a Kubernetes cluster.
--
-- The parts and how they interact. A `Keycloak` resource describes one instance. Its reconciler
-- (internal/controller/keycloak_controller.go) applies five objects in turn, a service, a route, a
-- stateful set, a discovery service and a service monitor, and writes whether the instance is ready
-- into the conditions of the resource. A `KeycloakImport` describes a realm. Its reconciler
-- (internal/controller/keycloakimport_controller.go) waits for the instance, writes the realm into a
-- secret, runs a job that imports it, and then marks the pod template of the stateful set with the
-- version of the secret, so that the pods restart. The two share the stateful set: the first
-- reconciler builds it anew on each run and keeps the marks. Jobs are traced back to their import by
-- labels, from which the event handlers find the imports to reconcile.
--
-- The files.
--   Prelude      lists, Boolean tests, association lists for Go's maps, and Outcome: what a Go call
--                ends in, a value, an error, or a panic.
--   Kube         the objects of Kubernetes as far as the operator sets them (Meta, Pod, Objects);
--                Exec, code that talks to the server, from one state of the world to the next; Client,
--                the server's operations, as a parameter over any world; Libs, what is called of
--                client libraries, as a parameter; Recording, a client that notes each request, with
--                the object, the list or the way of deletion that it names, and how it ended.
--   Api          api/v1alpha1: Types (keycloak_types.go, keycloakimport_types.go), Conditions
--                (condition.go), VersionedStatus (versioned_status.go), Sizing (sizing.go) on Float, an
--                exact model of float64, with the order that its rounding keeps.
--   Resources    internal/resources/utils.go (Labels, Status, Env, Escape, Hash), internal/constants.
--   Rhbk         internal/resources/rhbk (Service, DiscoveryService, Route, Env and StatefulSet for
--                statefulset.go) and internal/resources/monitoring (ServiceMonitor).
--   Realm        internal/resources/realm: EnvName and InitContainer for
--                providers_import_init_container.go, ImportJob, ImportSecret.
--   Controller   Reply (results, HandleError and HandleSuccess), Keycloak and Import (the two
--                reconcilers), Watch (predicates and map functions), Setup (SetupWithManager), Rollout
--                (the shared stateful set), Protocol (the import reconciler as a state machine over
--                its requests, what a run must have seen before each of them, and how many there
--                are), Drift (objects changed by somebody else), Progress (runs against a server that
--                answers every request).
--   DeepCopy     api/v1alpha1/zz_generated.deepcopy.go: Memory (cells at addresses), Structs, Cells,
--                Storages and Structures (the types as they lie in memory), Into and Methods (the
--                code), Shape and Shapes (what a value reaches and stands for), and the rules by which
--                a copy of a struct, a slice or a pointer is deep.
--   Entry        cmd/main.go: the flags, the options of the manager and its cache, the start-up.
--   Tests        a small cluster, the libraries with proofs of their laws, and runs of the model.
-- A function keeps its name in snake case, and a struct its own, with Struct behind it where it lies in
-- memory. A method `CreateOrUpdate` is `start`,
-- the object it begins with, and `build` or `mutate_fn`, the function that fills it in. `Reconcile` is
-- cut where the code returns early: `from_route` is the rest of it from the route on, and so on.
--
-- Bounds and fuel. An int32 is its bit pattern below 2 ^ 32, and its additions wrap. A float64 is its
-- multiple of 2 ^ -1074, without a largest one, since no int32 rate leads near it; the search for its
-- leading digit has the number itself as fuel, and a number has no more digits than that. All loops of
-- the code run over lists, and are recursions on these lists.
--
-- Assumptions are parameters. The server may answer each request in any way, an error or a panic
-- included. Where a theorem needs more of a library, it says so: IsConditionLib (a condition that was
-- added is the one of its type), SelectsExactly (a selector made from a set matches the labels that
-- hold each pair), TracksFinalizers (a finalizer that was added is there, one that was removed is
-- not), KeepsMeta and IsStable (an owner reference changes neither labels nor annotations nor the
-- name, and leaves an object that has it as it is). The parser of text/template is a parameter too, as
-- are JSON, formatting, MD5 and base64 in the hashes, and controller-runtime in the start-up
-- and the registrations.
--
-- AreDeep says of the deep copies of Kubernetes' own types, parameters of DeepCopy, what is shown there
-- of those of the operator. A memory gives out addresses one after the other, and holds any type's zero
-- value in a cell that was stored as another type. A slice is the address of its elements; slices that
-- share a part of an array are left out.
--
-- Answers is the one assumption on the server, made in Progress alone: each request that the import
-- reconciler makes for an import without old jobs succeeds and does to the objects what its name says,
-- and CreateOrUpdate leaves a secret that would not change. CompletesJobs says there that jobs are
-- completed between two runs. Nothing is assumed of deletions: a job is deleted in the foreground, and
-- may still be there, under the name of the new one, when that is created.
--
-- Not modelled: the parsing of the command line and the scheme; log lines; outside of DeepCopy, type
-- metadata; the fields of Kubernetes objects that the operator does not set, also where building a
-- whole Spec sets such a field back to empty (a service's type, for one); in a record, the function
-- that CreateOrUpdate is given.
pub mod Prelude
pub mod Kube
pub mod Api
pub mod Resources
pub mod Realm
pub mod Rhbk
pub mod DeepCopy
pub mod Controller
pub mod Entry
mod Tests
