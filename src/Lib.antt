-- ===== src/Lib.antt =====
-- DELMOS: the core of the project server, a Go program over PostgreSQL.
--
-- A project has work products, and one of them is its plan. A work product gets immutable revisions,
-- is submitted to review, and is approved or sent back; the plan's revision carries a manifest that
-- is validated before it is stored. Each operation is one transaction: it reads rows, lets the rules
-- of a trigger veto it, writes rows and an audit row, and puts an event into the outbox. The engine
-- then routes the events to deliveries, workers lease and process these, and schedules put further
-- events into the outbox.
--
-- Which file models which part:
--   Base        tests, lists, maps, results and tables that all parts share
--   Plan        internal/project/plan.go: Plan/Manifest has the manifest (GenericPlanManifest and its
--               parts), Plan/Dates the dates (time.DateOnly), Plan/Graph the search of hasPhaseCycle,
--               Plan/Validation the checks of ValidateGenericPlanManifest in their order,
--               Plan/Projection the projection of phases and milestones, Plan/Apply has ApplyPlan,
--               with planRevisionApproved (internal/project/decision.go), and Plan/Revise RevisePlan
--   Automation  internal/automation: Value and Condition have Evaluate and its predicates (condition.go,
--               economics_predicates.go, metrics_predicates.go), Rational the numbers of math/big that
--               they read, in every notation of Rat.SetString, Rules has EnforceRules
--               (rules.go), Workflow has ApplyTransition (workflow.go), Outbox has EmitEvent and
--               DispatchPending (envelope.go, dispatcher.go), Delivery has ClaimAndProcess, processOne
--               and markFailed (dispatcher.go), Clock and Cron have nextCronMatch (cron.go), Scheduler
--               has TickScheduler, fireSchedule and CreateSchedule (scheduler.go)
--   Review      internal/project: Tables has the rows (store.go, review.go, decision.go), Works has
--               CreateWorkProduct, ReviseWorkProduct and RetireWorkProduct (workproduct.go), Submit has
--               SubmitWorkProduct (review.go), Decide has RecordDecision (decision.go), Sound has what
--               holds between the rows
--   Metrics     internal/metrics/registry.go: Latest and GateBlockers
--   Economics   internal/economics: Money has exact decimals (NUMERIC), Costs the actual costs and the
--               checks of their inputs, Facts has PhaseGateFacts (gate.go), Earned has
--               ComputeEarnedValue (evm.go), Spending the operations of store.go; Approval, Books
--               and Closed have what these keep
--   Trace       internal/project/trace.go: CreateTraceLink, propagateSuspect and AcknowledgeTraceLink
--   Gate        internal/project: Milestones has AcceptMilestone (milestone.go), Phases has
--               TransitionPhase (phase.go); they join Plan, Review, Metrics, Economics and the rules
--
-- How state and operations correspond. A table is a list of rows in the order of its queries, and an
-- UPDATE or an INSERT is a function on the list, with the unique indexes and foreign keys that the
-- code relies on. An operation takes the tables and returns new ones or an error; an error stands for
-- the rollback, so it carries no tables. Identifiers are numbers; those the database or uuid.New
-- gives are arguments, or come from the counter of the queue. Times are nanoseconds since 1970 in UTC,
-- and the time of a call is an argument. A failure of the database itself is not an outcome. Amounts of
-- money are whole hundredths, a calendar date is the number of its day, and a milestone is known by
-- its project and key. Rules/Decoding has the rules as rows with JSON and the errors of their decoding;
-- the operations that enforce rules take the table with its conditions decoded. The trigger of
-- 0020_metric_input_versions.sql is in TransitionPhase, which has the tables of the metrics; the other
-- operations with an event that it counts do not carry those tables, and read none of them.
--
-- Parameters, for code that is not the program's own: SHA-256, JSON and the text of an identifier
-- (the record Codec), uuid.Parse, time.Parse for RFC 3339, the order in which Go ranges over a map,
-- the handlers that are registered with the engine, the number of digits that PostgreSQL gives a
-- quotient (Scale), and the order in which it sorts texts.
--
-- Fuel and bounds. The search for a cycle runs on as much fuel as the graph has keys and one more: each
-- call below another marks a further key. The recursive query on trace links has a hundred rounds, since
-- it extends no path of a hundred. The loop over calendar minutes has the code's own bound of 527040
-- turns. The loop over the values of a step has four turns more than the field's maximum, with the
-- wrap-around of int64 written out. Numbers of rows and row versions are not bounded, nor are amounts by
-- the fourteen digits of their columns.
--
-- Not modelled: the rest of internal/project (reads of trace links and of the plan, compositions,
-- embeddings and registers) and of internal/metrics, internal/auth, internal/repository,
-- internal/ratelimit, the HTTP handlers of internal/server, the web interface, and configuration,
-- logging and migrations, which are input and output.
pub mod Base
pub mod Automation
pub mod Plan
pub mod Economics
pub mod Gate
pub mod Review
pub mod Metrics
pub mod Trace
