-- ===== src/Lib.antt =====
-- The tenant operator of the Inari platform: eight controllers of a Kubernetes operator that turn
-- the Catalog Items of the group `platform.inari.io` into objects of the cluster and of Keycloak.
--
-- The program's parts, and the modules that model them:
--
--   api/v1alpha1                     Api, Api/Items: specs and statuses, one record each; a pointer is
--                                    an Option, an omitted string the empty text
--   api/v1alpha1/shared_types.go     Api/Conditions: SetReady, SetReconciling, SetFailed
--   internal/controller/common.go    Common (ensureFinalizer, finalize, impersonatingClient), Names
--                                    (tenantChildName), Cluster/Calls (event)
--   internal/keycloak/client.go      Keycloak: Token (NewClient, getToken, invalidateToken), Transport
--                                    (doOnce, do), Admin (EnsureRealm, DeleteRealm, EnsureClient,
--                                    DeleteClient and what they call)
--   internal/controller/*_controller.go
--                                    Reconcile: one module for each kind. Realm, OidcClient, Zone,
--                                    Record, Issuer, Project, TenantSpace and Baseline stand for
--                                    KeycloakRealm, KeycloakClient, DNSZone, DNSRecord, CertIssuer,
--                                    ArgoProject, TenantNamespace and ClusterDex
--   internal/controller/dns_controller.go
--                                    also Dns (dnsNamesInZone)
--   internal/controller/clusterdex_application.go
--                                    Dex: Settings, Image (splitImageRef), HelmValues
--                                    (dexHelmValues), Render (renderDexApplication,
--                                    renderArgoCDConfigMaps)
--
--   cmd/main.go                      Startup (envOr, main), in the terms of Process (logs, calls of
--                                    controller-runtime, os.Exit), and System: the reconcilers that
--                                    main sets up, run on any sequence of keys
--   api/v1alpha1/groupversion_info.go
--                                    Scheme: addKnownTypes, and init of cmd/main.go
--
-- Base has the shared library names and lists, Text the functions of strings, strconv, hex and net/url
-- that the code calls, Tests the examples, in a small environment.
--
-- Every Reconcile method has the same frame: Get, the deletion branch with finalize, then
-- ensureFinalizer, then the work. Reconcile/Lifecycle has it once, over a `Handler` that holds what a
-- kind adds; `reconcile` of each kind instantiates it, and `provision` is the work after the frame.
-- Reconcile/Status has the status writes that the kinds share.
--
-- State. A function that makes calls is an action of Cluster/Exec: it takes a `World`, which is the
-- trace of the calls so far and the token that the Keycloak client has cached, and gives a result or an
-- error together with the new world, since what was done before an error stays done. The API server,
-- CreateOrUpdate, the HTTP transport, the clock, JSON, YAML, SHA-256, resource quantities and the other
-- libraries are the fields of `Env` (Cluster/Env), a parameter of every definition: each answers from
-- the whole trace, so it may answer differently every time. What a theorem needs of them is a named
-- hypothesis: `IsDigest` (a SHA-256 digest has 32 bytes), `IsLawful` (the list functions of conditions),
-- `AppliesMutate` (CreateOrUpdate leaves what its mutate function made), `ReturnsForeign` (a library does
-- not return `errNotFound`). Four describe another process, for the theorems on what comes of a
-- reconcile: `IsServer` and `IsClientServer` (Keycloak/Server: Keycloak keeps a realm, or a client of
-- one, and takes or refuses tokens), `IsStore` (Reconcile/Zone/Converges: an API server keeps a zone)
-- and `Answers` (Startup/Liveness: controller-runtime does not fail). `IsRegistry` (Scheme/Registered)
-- says that a scheme registers what it is given. Tests has an environment for which each of them holds.
--
-- What a reconciler writes is stated with predicates on the trace (Cluster/Exec/Emits, Keeps and Sends
-- have one rule for each way to build an action), so that a proof follows the text of its definition.
--
-- Texts are lists of bytes, and a literal is `bytes "..."`. Numbers are native natural numbers; a
-- TTL and a number of pods, which may be negative, are integers. The
-- time of expiry of a token wraps around like an int64 of nanoseconds. A `map` is an association list.
-- No function needs fuel: the loops run over lists, and the loop of `do` has two rounds, written out.
--
-- Not modelled: the generated deep copies, the log lines of the reconcilers, the parsing of the
-- command line by the flag package, and the mutex of the Keycloak client, which makes `getToken` and
-- `invalidateToken` one step each. Reconciles follow one another in any order; two at once are not
-- interleaved.
pub mod Base
pub mod Text
pub mod Names
pub mod Dns
pub mod Api
pub mod Cluster
pub mod Dex
pub mod Common
pub mod Keycloak
pub mod Process
pub mod Reconcile
pub mod System
pub mod Scheme
pub mod Startup
pub mod Tests
