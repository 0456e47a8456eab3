-- ===== src/Lib.antt =====
-- Verification library of the Emissary-ingress configuration compiler, the Python package under
-- python/ambassador/src/ambassador/, which turns Kubernetes resources into Envoy configuration.
--
-- The fetcher hands the objects of a snapshot to processors (fetch/k8sprocessor.py), kind by kind in an
-- order in which what a processor wants comes after what provides it (fetch/dependency.py). The
-- processors emit resources, numbered by their place in the input (fetch/location.py,
-- fetch/resource.py), which the configuration store (config/config.py) keeps by kind and name. The
-- intermediate representation is built from the store: Hosts and Listeners choose the mapping groups
-- that belong to them (ir/irhost.py, ir/irlistener.py, with the tests of ir/irutils.py). A group takes
-- mappings that agree with it (ir/irhttpmappinggroup.py, ir/irtcpmappinggroup.py) and shares the traffic
-- between them (ir/irbasemapping.py, ir/irbasemappinggroup.py); when all mappings are placed it is
-- finalized, with fields of its mappings, labels and clusters. A resolver (ir/irserviceresolver.py) finds
-- the endpoints of a service among those that the fetcher kept (fetch/service.py). A cache
-- (cache.py) keeps what was built, with links from each object to those that were built from it, so
-- that an incremental reconfiguration only drops what depends on a change. The statistics
-- (reconfig_stats.py) decide when an incremental result is checked against a complete one, and when
-- timers are logged. From the intermediate representation, each listener is written out for Envoy
-- (envoy/v3/v3listener.py): its chains collect the Hosts and TCP groups that share a port and a server
-- name, every chain gets the variants of the routes (envoy/v3/v3route.py) that its Hosts ask for, and it
-- becomes a filter chain.
--
-- Files, and the code of each (paths below python/ambassador/src/ambassador/):
--   Cache            cache.py, `Cache` and `NullCache`
--   Chains           envoy/v3/v3listener.py, `V3Chain`, and the chains, routes and filter chains of
--                    `V3Listener`
--   Config           config/config.py, `safe_store`, `save_object`, `get_config`, `get_module`,
--                    `module_lookup`, `handle_secret`, `handle_ingress`, `handle_service`, `get_count`,
--                    `incr_count`, `good_ambassador_id`
--   Dependency       fetch/dependency.py, `DependencyGraph` and `sorted_watt_keys`
--   Fetch            fetch/location.py; fetch/resource.py
--   HostGlob         ir/irutils.py, `hostglob_matches` and its two helpers
--   Incremental      ir/ir.py, `check_deltas`, `add_mapping`, `add_cluster`; ir/irhttpmappinggroup.py,
--                    `add_cluster_for_mapping` and its loop in `finalize`
--   Listener         ir/irlistener.py, `setup`
--   Matching         ir/irutils.py, `selector_matches`; ir/irhost.py, `matches_httpgroup`;
--                    ir/irlistener.py, `matches_host`
--   Mapping          ir/irbasemapping.py, `make_cache_key`, `get_label`; ir/irretrypolicy.py
--   MappingGroup     ir/irbasemappinggroup.py, `normalize_weights_in_mappings`
--   MappingSetup     ir/irhttpmapping.py, the exclusion of redirects and `validate_load_balancer`;
--                    ir/irbasemapping.py, `validate_circuit_breakers`
--   Processor        fetch/k8sprocessor.py, the processors; fetch/k8sobject.py, what they read of an
--                    object
--   ReconfigStats    reconfig_stats.py, `ReconfigStats`
--   Resolver         ir/irserviceresolver.py, the resolvers and what they answer; ir/ir.py,
--                    `resolve_resolver` and `resolve_targets`
--   Results          exceptions as values: a `raise` or a failing subscript is `raised`
--   Prelude          numbers, tests, lists and dictionaries, shared by the others
--   RouteGroup       ir/irhttpmappinggroup.py and ir/irtcpmappinggroup.py, the construction and
--                    `add_mapping`; `finalize` of an HTTP group, with the default labels of
--                    ir/irambassador.py
--   RouteVariants    envoy/v3/v3route.py, `V3RouteVariants`
--   Services         fetch/service.py, the processors of Services and Endpoints
--   Timer            utils.py, `Timer`
-- A file named Laws, or for what it proves, has the theorems of its folder, and Tests the runs on
-- concrete input.
--
-- An operation of a Python object is a function from the object's state and the arguments to the new
-- state, with the answer where there is one and a `Result` where the code can raise. A dictionary is an
-- association list in insertion order. Weights are natural numbers, as are the times of
-- `ReconfigStats`; those of a `Timer` are integers. Host names are lists of code points.
--
-- Two loops run on fuel. The work list of `Cache.invalidate` gets one more step than the cache has
-- links, because a key comes onto it once for the call or by a link. Kahn's loop in
-- `DependencyGraph.traverse` gets a step for each vertex, because a vertex comes onto the queue as a root
-- or when its count falls to 0.
--
-- Not modelled: logging, input and output, the text of error messages, the schema validation of
-- resources, the set-up of Hosts, most of that of Mappings, the construction of clusters, of TLS
-- contexts and of routes, the options of the HTTP connection manager and the other parts of the Envoy
-- configuration, diagnostics, and the control plane, which is written in Go.
pub mod Prelude
pub mod Results
pub mod Cache
pub mod Chains
pub mod Mapping
pub mod MappingGroup
pub mod Dependency
pub mod Fetch
pub mod HostGlob
pub mod Processor
pub mod RouteVariants
pub mod ReconfigStats
pub mod Config
pub mod Matching
pub mod MappingSetup
pub mod Incremental
pub mod Listener
pub mod Resolver
pub mod RouteGroup
pub mod Services
pub mod Timer
