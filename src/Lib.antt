-- ===== src/Lib.antt =====
-- Cloud Compute: a library that submits the jobs of an event, a graph of manifests, to a compute
-- provider. An event generator (eventgenerator.go) yields events; CloudCompute.RunParallel
-- (cloudcompute.go) draws them, orders their manifests (sort.go), and hands their jobs to a
-- provider: Docker on the host (providers/docker), which has a job queue and a runner loop of its
-- own, AWS Batch (providers/awsbatch), Argo workflows (providers/k8sargo) or a plain Kubernetes
-- cluster (providers/k8ssimple).
--
--  * Base: lists and tests over the native numbers, Go maps as association lists, Go's int, texts,
--    and Outcome for a call that may panic.
--  * Toposort (sort.go): depsToGraph and TopologicalSort over any comparable type. A map is an
--    association list with distinct keys, and its order is the order in which range visits it, so
--    a theorem on all lists holds for every such order. The main loop runs on fuel: the number of
--    keys and edges, which is proved to be enough.
--  * Manifest (sort.go, cloudcompute.go, eventgenerator.go): Event and ComputeManifest, TopoSort,
--    SortManifests, AddManifest, AddManifestAt, GetManifest. A uuid is a number, uuid.Nil is 0.
--  * KeyValues (compute-provider.go): KeyValuePairs, the environments of jobs.
--  * Events (eventgenerator.go, cloudcompute.go): the loop of RunParallel, and the generators
--    Arrays, Lists, Streams and Batches, each in a module with the runs of the loop over it. The
--    loop runs on fuel, and the theorems say how much a run takes. Positions do not reach the
--    bounds of int64. The scanner of a stream is the list of its tokens; Streams/Scanner makes
--    them with splitAt of the chunks of a reader, on fuel of one more than its bytes.
--    Streams/Payloads is the generator that writes the payloads of its event. mergo.Merge is a
--    parameter.
--  * Jobs (compute-provider.go, cloudcompute.go): jobs, plugins, queries and MapDependencies;
--    Names is JobNameParts.Parse.
--  * Compute (cloudcompute.go): the body of RunParallel. The names of environment variables, the
--    payload store, the event processor, the provider, the job store and the uuids that are drawn
--    are parameters. Submission is the part behind SubmitJobs, with Run and Cancel; Concurrency is
--    the ConcurrentRunner, whose goroutines and semaphore are steps of a relation on its state.
--  * Docker (providers/docker): Queue is job-queue.go; Manager is the runner loop of
--    docker-compute-manager.go, whose goroutines and channels are steps of a relation on the
--    state: submissions, events that the loop receives, starts, reports of a runner, and ends of
--    jobs. Writes of a status by runners, monitors and Terminate may come when a job has ended,
--    and the order in which the queue's map is visited may change at every step. Provider is
--    docker-compute-provider.go with the registry. Secrets are the two managers of secrets behind
--    one interface, Runner the container and host configuration, the pull of an image and the
--    outcomes of a run of docker-runner.go, over a Docker client that is a parameter; Monitor is
--    docker-monitor.go, with the two goroutines of a monitor, its Wait and the runner's Terminate
--    as steps. Provider hands the jobs to the manager without the steps of the loop between them,
--    of which SubmitJobs reads nothing.
--  * Argo (providers/k8sargo): slugs and tasks; Workflows is SubmitJobs of k8sargo.go, Summaries
--    are Status, TerminateJobs and JobLog, Plugins is the workflow template of a plugin and its
--    registry, and Patches is spec-overrides.go, the text that patches a pod. The services of Argo
--    and the JSON encoding of arguments and environments are parameters.
--  * Aws (providers/awsbatch/aws-batch.go): submission, queries and termination of jobs; Plugins
--    are the job definitions and the logs; Processed follows an event from RunParallel to its
--    rows. The Batch client is a parameter, and the loop over pages runs on fuel, of which the
--    number of pages is enough.
--  * Kubernetes (providers/k8ssimple/k8s-simple.go): jobs on a cluster, whose client is a
--    parameter.
--  * Samples: runs on small inputs.
--
-- The stores and data sources of the SDK are a type parameter. Not modelled: the constructors of
-- the providers, which configure clients, the limit of the scanner on the size of a token, and the
-- reflection of utils/deepcopy.go, a copy of another library, whose effect on a manifest is
-- described where it is called.
pub mod Base
pub mod Toposort
pub mod Manifest
pub mod KeyValues
pub mod Events
pub mod Jobs
pub mod Compute
pub mod Docker
pub mod Argo
pub mod Aws
pub mod Kubernetes
pub mod Samples
