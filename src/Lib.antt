-- ===== src/Lib.antt =====
-- ipmaze, a Kubernetes controller: a CIDRPolicy names an HTTP source of CIDR blocks, and the
-- controller keeps a NetworkPolicy that allows them.
--
-- The controller is one crate, crates/ipmaze-controller/src. A reconciliation validates the
-- CIDRPolicy, resolves the address of its source, perhaps through a pointer page, fetches the JSON
-- list, queries it for CIDRs, renders a NetworkPolicy from them, compares it with the one in the
-- cluster, applies it if it differs, writes the status, publishes an event, and asks to be run
-- again at the next time of the schedule. An error is given to a handler, which writes it into the
-- status. A CIDRPolicy that is being deleted has its NetworkPolicy deleted.
--
-- Which file models what:
--
--   Api: api.rs, the CIDRPolicy. Networking: the NetworkPolicy of k8s_openapi, with the fields that
--     the controller fills in. A BTreeMap or BTreeSet is the ascending list of what it holds.
--   Source, Source/Hostname, Source/Resolve: source.rs. `normalize_source_address` is cut at its
--     early returns into `of_trimmed`, `of_url`, `of_bare` and `with_url`.
--   Extract: extract.rs. The loop of `extract_cidrs` is `collect_cidrs`. Extract/Abstract has the set
--     that a list of CIDRs stands for, as a quotient.
--   Validation: validation.rs, one function for each of its own, and one for each loop.
--   NetPol, NetPol/Selector, NetPol/Rules: netpol.rs.
--   Status: status.rs.
--   Controller, Controller/Errors, Controller/Managed, Controller/Requeue: controller.rs.
--     `reconcile` is `prepare`, up to the rendered policy, and then `settle`.
--     Controller/Cleanup is about the branch for a CIDRPolicy that is being deleted.
--   Controller/Calls: the same functions over a `World` that also keeps a log of the calls made, with
--     what each returned. Calls/Protocol says in which order calls may be made; the files beside it
--     are about `reconcile` and that order.
--   Controller/Steady: rules for statements about the outside that each call of a reconciliation keeps.
--   Controller/Interleaved: runs of the controller over a `World` in which others act after each call.
--     Interleaved/Enforced, Interleaved/Recorded and Interleaved/Cleaned have what one step leaves.
--   Controller/Recorded: when a success is recorded, over any view of the stored status.
--   Controller/Raced: `reconcile` over a `World` in which others act after each read of a NetworkPolicy.
--   Controller/Overtaken: the failure handler, when others act between its read and its patch.
--   Controller/Rewrites: repeated runs, when the API server leaves empty lists of rules out.
--   Controller/Succeeds, Controller/Removes: the circumstances in which `reconcile` is sure to succeed.
--   Program: main.rs, `generate_crd_yaml` of lib.rs, `run_controller` and `reporter_from_env` of
--     controller.rs, `build_http_client` of source.rs. The stream of kube's runtime is a parameter.
--   Tests/Unit: the repository's unit tests, as functions into Bool. Tests/Runtime: those of
--     crates/ipmaze-controller/tests/controller_runtime.rs, and their fake API server.
--   Base, Text: what the code uses of Rust's language and standard library. `Result` and `?` are a
--     do block. An async function is an `Action`, which takes the state of the outside and gives
--     it back with a result, after an error too.
--
-- Code of other crates is not modelled. It enters as three records of functions over opaque types,
-- which the definitions that need them take as parameters. `Libs` has the pure ones: url, regex,
-- cron, chrono, jmespath, serde_json, ipnet and std's IP parser. `World` has those that reach the
-- outside: reqwest, the API server and the clock. `Host`, in Program, has those that the program
-- is started with: the two clients, the environment, the derived CRD and the stream of kube's
-- runtime. What is assumed of them is a record of named laws: `KeepsScheme` in Source/Normalize
-- for url; `Cluster` in Controller/Cluster for the API server's NetworkPolicies, which says that
-- only apply and delete change one, each only at the place that it is given, that a read returns
-- what is there, and that a forced apply leaves the spec that was applied, empty lists of rules
-- included, which say the same as absent ones; `Statuses` in
-- Controller/Statuses for the stored status of a CIDRPolicy; `Erases` in Controller/Cleanup for
-- what a deletion leaves; `OmitsEmpty` in Controller/Rewrites for an API server that leaves empty
-- lists of rules out of what it returns; `Grants` in Controller/Succeeds and `GrantsDeletion` in
-- Controller/Removes for an API server that grants each request, in states that the calls, by
-- `Tolerates` in Controller/Steady, do not leave; and `IsConfined` in Program/Start, which says that kube's runtime calls nothing but
-- the two functions that it is given. Tests/Crates, Tests/Outside and Tests/Starting instantiate
-- the three records with small functions, for which the files of Tests prove the laws.
--
-- A run of the controller is a sequence of steps, in Controller/Runs: a step is one reconciliation
-- or one failure report, and others may act between two steps. In Controller/Interleaved they act
-- after each single call, in Controller/Raced and Controller/Overtaken between a read and the write
-- that goes by it. Where something is said of the cluster's objects elsewhere, nobody else acts
-- within one reconciliation. What is said of the calls is said of every `World`, so also of one whose
-- answers come from what others write.
--
-- Times are opaque, and a delay is its number of nanoseconds. Loops are structural recursion; only
-- `decimal` has fuel, the number itself and one more, and Text/Decimal is about its being enough.
--
-- Not modelled: the parsing of the arguments, the set-up of tracing, log lines, the schema derived
-- for the CRD, the tests that need other crates' own behaviour, and the files for deployment.
pub mod Base
pub mod Text
pub mod Libs
pub mod Api
pub mod Networking
pub mod World
pub mod Source
pub mod Extract
pub mod Validation
pub mod NetPol
pub mod Status
pub mod Controller
pub mod Program
pub mod Tests
