-- ===== src/Lib.antt =====
-- The inferno autoscaler: the decisions of the workload-variant autoscaler for inference servers.
--
-- Two engines decide how many replicas each variant of a model gets. The capacity analyzer
-- (internal/capacity/analyzer.go) reads the metrics of the running replicas, says whether a model
-- needs a scale-up or bears a scale-down, computes a target for each variant, and arbitrates between
-- these targets and those of the model-based optimizer. The optimizer (pkg/core, pkg/solver,
-- pkg/manager) holds a system of accelerators, models, service classes and servers; each server has
-- candidate allocations, and the solver gives every server one of them, either the one of least
-- value, or greedily by priority within the capacity of each accelerator type, with what is left
-- given out by a best-effort policy. A candidate comes from an analyzer of a queue with batching
-- (pkg/analyzer), which finds the highest request rate that meets the targets of a service class.
-- The controller (internal/controller/variantautoscaling_controller.go) runs the engine that its mode
-- enables for each model, writes the decisions to the resources, and has the actuator
-- (internal/actuator, internal/metrics) set the gauges that an external autoscaler follows.
--
-- Files:
--   Base: shared names; Boolean tests, lists, integers, strings, maps (association lists), floats.
--   Config: pkg/config (types.go, config.go, defaults.go); Config.Policies: the policies' names.
--   Capacity.Types: the records of internal/interfaces/capacity_analyzer.go and capacity_scaling.go.
--   Capacity.ScalingConfig: DefaultCapacityScalingConfig, Merge, Validate.
--   Capacity.Analysis: AnalyzeModelCapacity, analyzeVariant, shouldScaleUp, isScaleDownSafe; its
--     children prove what holds of the counts, the grouping by variant, the averages, the maxima and
--     the recommendations.
--   Capacity.Targets: CalculateCapacityTargets; its children prove which target each variant gets.
--   Capacity.Arbitration: ArbitrateWithModelBased and arbitrateVariant, with the decision matrix.
--   Core.Types, Core.Allocation, Core.Server, Core.System: the types and operations of pkg/core
--     (allocation.go, server.go, serviceclass.go, model.go, accelerator.go, system.go);
--     Core.WellFormed is the invariant of systems, Core.Transitions and Core.Targets are round trips.
--   Core.Creation: CreateAllocation and zeroLoadAllocation; Core.Candidates: Scale, ReAllocate and the
--     Calculate of servers and systems. Core.Feasible, Core.Least and Core.Calculated are about what
--     these give.
--   Solver.Entries, Solver.Allocate, Solver.BestEffort, Solver.RoundRobin: pkg/solver/greedy.go, its
--     entries and groups, allocate, allocateMaximally and allocateEqually; Solver.Solve: SolveGreedy,
--     bestEffort, solver.go, and Manager.Optimize of pkg/manager/manager.go.
--   Solver.Usage: the units in use and the capacity. Its children follow a pool of available units
--     through each routine. Solver.Unlimited, Solver.Priorities and Solver.Differences are
--     about SolveUnlimited, the groups of one priority, and the differences that Solve reports;
--     Solver.Reinsertion is about the binary search by which allocate puts an entry back.
--   Queue.Search: BinarySearch and WithinTolerance of pkg/analyzer/utils.go, with the function that is
--     searched, and its state, as arguments. Queue.Sides names the sides
--     of a value; Queue.Bounds, Queue.Answers and Queue.Indicators are about the answers, Queue.States
--     about the state.
--   Queue.Weights, Queue.Model: the state-dependent queue model (pkg/analyzer/queuemodel.go, mm1kmodel.go,
--     mm1modelstatedependent.go). Queue.Exact is an arithmetic without rounding, in which
--     Queue.Rescaling and Queue.Balance are about the probabilities; Queue.Shape is about the sizes of the
--     lists.
--   Queue.Parameters, Queue.Analyzer, Queue.Sizing: queueanalyzer.go, its parameters with their checks,
--     NewQueueAnalyzer, Analyze, and Size. Queue.WellFormed is the invariant of analyzers;
--     Queue.Results and Queue.Sizes are about every result of Analyze and Size.
--   Controller.Types: the resource (api/v1alpha1) and what is read of a deployment; Controller.Client and
--     Controller.Engines: the interfaces to the Kubernetes API, with its retries, and to the collector,
--     the model-based optimization and the environment, each over a state that any call may change.
--   Controller.Modes, Controller.Groups, Controller.Configs, Controller.Collecting,
--     Controller.Decisions, Controller.Reconcile: the steps of Reconcile, in its order, and the cache of
--     configurations. Controller.Emission: EmitMetrics, EmitReplicaMetrics and emitSafetyNetMetrics;
--     Controller.Applying: applyCapacityDecisions.
--   Controller.Partition, Controller.Cache, Controller.Converted, Controller.SafetyNet,
--     Controller.Applied, Controller.OneEngine and Controller.Requeues are about the groups, the
--     reachable caches, the decisions of the analyzer, the gauges of the safety net, the statuses
--     written, the engine of a pass, and the result of Reconcile.
--   Controller.Optimizing: AnalyzeModel (internal/modelanalyzer), the engine's Optimize
--     (internal/optimizer/optimizer.go), CreateOptimizedAlloc and FullName (internal/utils/utils.go);
--     Controller.Optimal is about what the engine gives.
--   Collector.Queries: the escaping, time limits and values of queries (internal/collector);
--     Collector.Merging: mergeMetrics with findDeploymentForPod, Collector.Replicas: CollectReplicaMetrics
--     and its queries (capacity_metrics.go); Collector.Prometheus: ValidateMetricsAvailability and
--     queryAndExtractMetric, Collector.Status: AddMetricsToOptStatus (collector.go).
--     Collector.Escaping, Collector.Matching, Collector.Attribution and Collector.Available are
--     about label values, names of pods, the replicas that are reported, and the validation.
--   Config.Tests, Capacity.Tests, Capacity.TargetTests, Core.Tests, Core.CreationTests, Solver.Tests,
--     Queue.Tests, Queue.AnalyzerTests, Controller.Tests, Controller.OptimizerTests, Collector.Tests:
--     instances of the theorems at concrete inputs;
--     Core.Samples: the system of the solver's tests.
--
-- How the code is rendered:
--   * Counts (int) are natural numbers: every one that the code makes or reads counts replicas, units,
--     tokens or priorities, and stays far below 2^63. Differences that can be negative are integers.
--     The code's tests against negative numbers are kept where they say something of naturals.
--   * float32 and float64 are an arbitrary type with the operations that the code uses, which include
--     a Boolean order and equality, so NaN is not excluded. Where a theorem is about the order it
--     takes the laws of IEEE 754 comparison as a hypothesis (IsOrdered), and costs that are numbers.
--     Thousandths of an integer are the instance of the tests. Where the code uses both widths, float32
--     is F and float64 is D, with the conversions between them as operations.
--   * The virtual calls of the queue models are resolved, and the base classes are one record.
--   * A Go map is an association list in which a key is looked up, written and deleted as in Go. The
--     order of the list is the order of a `range` loop over the map, so a theorem about every system
--     is about every order of iteration; the order of the local map of AnalyzeModelCapacity is an
--     argument that permutes the map.
--   * A nil pointer is `none`. Messages and errors are data with the values that their texts print.
--     The clock is an argument, and so is the singleton TheSystem.
--   * SetAllocation on a candidate that best effort has changed in place writes both the server's
--     allocation and its entry of AllAllocations, since they are one object in the code.
--   * slices.SortFunc is insertion sort, which is what it does on short slices; slices.BinarySearchFunc is
--     its loop over an interval. cmp.Compare puts NaN first.
--   * `none` as the result of a solver routine is a panic, or fuel that ran out; the theorems show
--     that neither happens. The fuel of allocate is one more than the number of candidates and entries,
--     since every round drops an entry or moves it to its next candidate; that of the round-robin loop
--     is one more than the available units and open tickets, since every round gives out a unit or
--     drops a ticket; that of the search in a sorted list and of the grouping is the length of the list.
--     A rescaling loop of computeProbabilities, which the code does not bound, has fuel for four rounds, and
--     the model's field `settled` is false once that was not enough; nothing is proved of when it is.
--   * A read of the queue model's lists out of range gives 0, where the code panics; Queue.WellFormed is
--     about the sizes of these lists.
--   * The state of the cluster is an argument of every operation of the controller and one of its results,
--     so calls happen in the order of the code; the collector's two parallel queries have an order as
--     argument. What code outside this repository decides there is a
--     field of an interface. An int that the code converts to int32 is taken modulo 2^32.
--
-- Not modelled: prepareVariantAutoscalings, which builds the system for the engine from the configuration
-- maps (with the engine, one operation of Controller.Engines, through which the controller also calls the
-- collector), the Prometheus configuration, the set-up of the manager and its event filters; the functions of
-- mm1kmodel.go that the state-dependent model overrides; String methods and log lines.
pub mod Base
pub mod Config
pub mod Capacity
pub mod Core
pub mod Solver
pub mod Queue
pub mod Controller
pub mod Collector
