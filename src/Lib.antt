-- ===== src/Lib.antt =====
-- A verification library for the Crusoe solutions library.
--
-- crusoe-splunk-hec forwards the audit logs of Crusoe Cloud to a Splunk HTTP event collector:
-- - Splunk/Dedup.antt: `EventDeduplicator` of crusoe-splunk-hec/deduplicator.py, a record with one
--   function per method. Its children state the tracking window, the marks, the state after
--   filtering, the state file, and what the hash tells apart.
-- - Splunk/Hec.antt: `SplunkHECClient` of splunk_hec.py; Splunk/Client.antt: `CrusoeClient` of
--   crusoe_client.py; the settings of config.py stand with the class that they configure.
-- - Splunk/Forward.antt: `LogForwarder` of main.py, which fetches by the client, filters by the
--   deduplicator, sends by the collector's client and marks what was sent; Splunk/Daemon.antt: the
--   command `daemon`, as a function over the list of its cycles; Splunk/Settings.antt: the settings
--   from the environment, by config.py; Splunk/Commands.antt: the other commands of main.py, with
--   what they print as data and their exit codes.
--
-- cmk-data-transfer copies objects between stores by a set of workers:
-- - Transfer/Shard.antt: the program shard/shard_manifest.py, from the lines of a listing to the
--   shard files of the workers. Its children state how the heap and the bins agree, that the bins
--   partition the objects and are balanced, and that the files can be read back.
-- - Transfer/Config.antt: the settings of orchestrator/config.py, what is derived from them and their
--   check; Transfer/Config/Sources.antt and Transfer/Config/Load.antt: where they come from;
--   Transfer/Sizing.antt: orchestrator/sizing.py, over floats that are a parameter;
--   Transfer/RcloneConf.antt: rclone_conf.py; Transfer/Manifests.antt and Transfer/Manifests/Pods.antt:
--   manifests.py, as JSON values.
-- - Transfer/Kubectl.antt: k8s.py, where a program adds its calls to the calls so far and a cluster
--   answers them by their number (Prelude/Calls.antt); Transfer/Run.antt and Transfer/Run/Main.antt:
--   run.py. Transfer/Run/Stages.antt is an abstract pipeline that run.py has to follow, as a function
--   from a stage and a call to the next stage; Run/Rules.antt, Run/Followed.antt and Run/Consent.antt
--   show it function by function, and Run/Promises.antt for the program. Run/Ready.antt says what
--   it is for everything to go well on a cluster; Run/Ends.antt, Run/Launched.antt, Run/Watched.antt
--   and Run/Completes.antt follow a run on such a cluster to its end.
-- - Transfer/Collect.antt, Transfer/Grid.antt and Transfer/Sweep.antt: bench/collect.py and
--   bench/sweep.py, which measure the throughput of the workers of Transfer/Run.antt over a grid of
--   settings. Sweep/Fleet.antt has the workers as an automaton on the calls; Sweep/Collected.antt and
--   Sweep/Removed.antt show the program to keep to it, Sweep/Shards.antt is about its shards, and
--   Collect/Ended.antt about the end of the collector.
--
-- cross-region-shared-disk-data-transfer/aria2c-download.py downloads a list of files by a set of
-- pods:
-- - Aria.antt: the parser of the list and its split into shards; Aria/Manifests.antt: the manifests
--   of the pods; Aria/Pods.antt: the calls of `kubectl` and the program, as functions from the calls
--   so far to the calls after it. Its other children state what a shard holds, that the parser reads
--   a shard back, how long the wait lasts and how the program ends.
--
-- crusoe-managed-finetuning-example runs a fine-tuning job:
-- - Tuning/Cache.antt: src/path_cache.py, a file with an age; Tuning/Swagger.antt,
--   Tuning/Schema.antt and Tuning/Catalog.antt: src/schema.py, which reads the settings of a job from
--   the description of the service by way of that cache.
-- - Tuning/State.antt: src/config.py, the settings of a run as the dict of its attributes, and its
--   resuming; Tuning/Polls.antt: the loops of src/helper.py that wait for the service.
-- - Tuning/Runtime.antt: src/runtime.py, the prompts, as functions of the lines that are typed;
--   Tuning/Service.antt: what a run exchanges with the service, the user and the disk, as calls that
--   are recorded one by one. Tuning/Prompts.antt, Tuning/Overrides.antt and Tuning/Selection.antt:
--   the questions of src/helper.py for values, hyperparameters, the model and the files, with the
--   upload of run.py; their children say which values they give.
-- - Tuning/Adapter.antt, Tuning/Run.antt and Tuning/Run/Main.antt: the steps of run.py and its start.
--   Tuning/Run/Stages.antt has the stages of a run as an automaton on calls, Tuning/Run/Rules.antt and
--   Tuning/Run/Saving.antt the rules for programs, and the other children show that each step keeps
--   to the stages and what a run leaves behind.
--
-- Bounds: the loop over pages has fuel, for which the number of logs held by the API, and one
-- more, is enough; the loop over polls has fuel, for which any number above the number of the call
-- from which all pods have ended is enough; the wait for a value of the fine-tuning client has its
-- timeout for fuel; the starts of batches have the length of the list for fuel. The rounds of the
-- monitor of run.py have fuel: the order of its calls is stated for any, and for its end any number
-- above the number of the call from which all pods have ended is enough; those of the collector are
-- enough when they are more than the ticks of its limit. At a prompt the user types
-- finitely many lines and then ends the input; the rounds of the wait for a job are a list.
-- Times are whole numbers of ticks, sizes of objects are integers without a bound, as in Python.
-- The state file of the fine-tuning client can fail to be written at each call, by an exception that
-- ends the run; its removal does not fail, and a call to cancel a job has no outcome, since the code
-- goes on in the same way. An exception of the service while a value is waited for is an answer that
-- is missing from the start.
-- Not modelled: logging and printing, pauses, sessions and their retries, and the measuring of
-- time; the parsers of the command lines of cmk-data-transfer, its other benchmarks and its
-- preflight checks; the notebook converter of crusoe-managed-finetuning-example;
-- langchain-crusoe, registry-cache-gar and the example scripts, which mostly drive other programs
-- and services; and what is written in other languages or is configuration.
mod Prelude
pub mod Splunk
pub mod Transfer
pub mod Tuning
pub mod Aria
mod Tests
