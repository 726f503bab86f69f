-- ===== src/Lib.antt =====
-- temporal-agents runs coding agents as durable workflows. A fleet is a plan, a graph of prompts with
-- dependencies, whose nodes are each developed on a branch of their own by a child workflow; a review
-- loop improves one branch until it converges, and may pause for an operator; a hub shows the work.
-- This library models the parts of the Go code that decide what runs, in which order, what is recorded
-- of it, and what an operator is asked and shown.
--
-- The fleet: internal/fleet/domain.go and internal/fleet/workflow.go.
--   Fleet/Search.antt     `findCycle`: `find_cycle` is the text, `search_plan` the search behind it,
--                         `visit` and `visit_deps` the closure and its loop, `Search` the colours and
--                         the stack that the closure shares. Below it: Walks (paths of a graph),
--                         Colors (what an assignment of a colour changes), Correct (the invariant of
--                         the search), Table (the map of dependencies), Verdict (the theorems).
--   Fleet/Plan.antt       `ValidatePlan`: `validate_plan`, with `check_node` for the body of its first
--                         loop and `check_edges` for that of its second, and one constructor of
--                         `PlanError` for each error. Below it: WellFormed (the description of a
--                         plan that may run), NodeChecks, Accepts.
--   Fleet/Layers.antt     `TopoLayers`: `topo_layers`, with `compute` for the memoised closure, and
--                         `fill` for the loop that appends and sorts. Below it: Ranks (the longest
--                         chain of prerequisites), Depths, Filling, Order.
--   Fleet/Tokens.antt     `ParseTokenTotal`.
--   Fleet/Run.antt        the loops of `FleetWorkflow` over layers and nodes: `start_layer`,
--                         `await_layer`, `run_layers`, with `blocking_dependency` and the inputs of
--                         the children. Below it: Layer, Gating, Blockers, Ordering, Reports.
--   Fleet/Workflow.antt   `FleetWorkflow` from its first check to its result. Below it: Outcome
--                         and Refusals.
--   Fleet/Examples.antt   plans and runs at which the theorems are applied.
-- A plan is validated, then layered, and the layers are run in turn: Fleet/Workflow composes them in
-- this order, as `FleetWorkflow` does.
--
-- The hub: internal/agenthub/domain.go.
--   Hub/Status.antt       the vocabularies, `AggregateStatus`, `NodeProgress`, `UpNext` and
--                         `ScheduleStatus`. Below it: Aggregate.
--   Hub/Derive.antt       `DeriveNodeStatuses`, with `statusFromDependencies` and `dependencyOrder`.
--                         Below it: Known (the map of dependencies), Placing (the order), Stuck
--                         (what the order leaves out), Reasons (what one node is explained by),
--                         Explained, Loops and Outcomes.
--   Hub/Examples.antt     plans at which the theorems are applied.
--
-- Runs of a workflow. A workflow of Temporal is Go code that schedules activities and children and
-- reads their answers. Runs.antt renders it as a monad: `Run` passes on the commands that have been
-- given and the variables, and ends with a value or with a `Stop`, an error or continue-as-new. `ask`
-- returns the error of a command, `attempt` looks at it, `tell` ignores it. What a deferred function
-- reads stands in the variables, which outlive an error. Runs/Laws.antt has the rules that the proofs
-- go by: `Triple P m Q E` says what holds after `m`, of its value or of its error. `Stored` is what the
-- store holds of a run that has ended: a terminal write that fails leaves a row that says running.
--
-- The review: internal/codereview/workflow.go, with the rows of recording.go, `steered` and `pause` of
-- steering.go and the texts of domain.go.
--   CodeReview/Inputs.antt       the inputs, the outcomes and the texts of token totals.
--   CodeReview/Commands.antt     the activities and children as `Command`, the rows of the record, and
--                                the steps that the workflows share: `summarizeForWebhook`,
--                                `notifyComplete`, `notifyFailure`, `Ensure`, `steering.Ask`,
--                                `TerminalWriteFailed`.
--   CodeReview/Local.antt        `ReviewWorkflow` up to the implement pass; CodeReview/Budget.antt the
--                                review, the pass limit and the next pass; CodeReview/Loop.antt the
--                                record, the deferred functions, the workflow, and `review_loop`, the
--                                passes over continue-as-new. Local/Endings and Budget/Endings keep
--                                the invariant, Loop/Records, Loop/Passes and
--                                Loop/Untouched state the results.
--   CodeReview/Comments.antt     `formatComments`; CodeReview/Pilot.antt `runPilotOnce` and the body of
--                                `PilotWorkflow`; CodeReview/Chain.antt that workflow from its record
--                                to its result. Pilot/Endings and Chain/Records are about them.
--   CodeReview/Develop.antt      `OpenPRWorkflow` and `seedBranches`; CodeReview/Development.antt the
--                                stages of `DevelopWorkflow` with `developAndAwaitReview` and
--                                `developWithRemote`; CodeReview/Branch.antt that workflow from its
--                                record to its result. Develop/Seeding, Development/Remote and
--                                Branch/Reviewed are about them.
--   CodeReview/Branches.antt     `ValidateBranchName` and `planWorktree`. Below it: Inside.
--   CodeReview/Examples.antt     loops, chains and develop runs at which the theorems are applied.
-- A develop run starts or awaits a review and a pilot as children, which are commands of its model
-- with an answer. A review or a pilot that pauses runs a session of Steering as a child in the same
-- way: `ask_operator` is the call.
--
-- Steering: internal/steering.
--   Steering/Decision.antt       `Decision.Validate`, with `utf8.ValidString`, `Block` and
--                                `WithGuidance`. Below it: Accepts.
--   Steering/Conversation.antt   `Conversation.Tokens` and `Contributors`. Below it: Contributors, and
--                                Messages for `Message.Validate`.
--   Steering/Rounds.antt         `Round`, `SessionIDFor` and `ValidateDecision`.
--   Steering/Session.antt        the wait of `SessionWorkflow` over the signals and timers that it
--                                receives. Below it: Answers, what answers a round; Contract, the
--                                steps of a round as a data type; Ending, the workflow from its record
--                                to its result; and Settled, about that workflow.
--   Steering/Store.antt          `State`, and `CloseSession` of steeringpg.go on the stored session.
--   Steering/Service.antt        `Service.Decide`, `Question` and `Conversation`, with their calls of
--                                the store and of the workflow. Below it: Delivery.
--   Steering/Examples.antt       decisions and sessions at which the theorems are applied.
--
-- Settings: internal/scoped and internal/setting.
--   Settings/Scoped.antt         the scopes, `Chain` and `Winner`.
--   Settings/Catalogue.antt      the settings, `Format`, `Parse`, `Resolution` and `resolve`.
--   Settings/Resolver.antt       `Resolver.Resolve`. Settings/Winning.antt states which value wins.
--   Settings/Examples.antt       stored settings at which the theorems are applied.
-- The store of the settings and SHA-256 are parameters.
--
-- Prelude.antt passes on the names that all modules share: Tests, Lists, Texts, Maps, Results, Spaces
-- (`strings.TrimSpace`), Sorting (`sort.Strings`) and Decimals (`strconv.Itoa`) below Prelude/.
--
-- How the code is rendered. A Go string is the list of its bytes, `Text`. A map is an association list
-- whose newest entry counts, and a `map[string]bool` a list of keys. An error is a constructor, with
-- the values that its message holds. Numbers of Go that count things are natural numbers; a depth or a
-- token total never goes below zero in the code. Only `ParseTokenTotal` reads a number from a text,
-- where the bound of an int64 is written out.
--
-- Loops. A `range` is structural recursion. The search of Fleet/Search and the recursion of
-- Fleet/Layers run on fuel, the number of identities that a plan names: a call of `visit` colours a
-- white identity gray, so no path of calls is longer, and neither is a chain of dependencies in an
-- acyclic plan. The loop of `dependencyOrder` runs on the number of nodes that are to be placed and
-- one, since each of its rounds places a node or leaves the loop. That the fuel is enough is proved.
-- `review_loop` runs on fuel, one unit for a pass: a budget is five passes, and a new one takes a
-- decision of the operator, so the fuel is enough where the operator grants finitely many. The wait of
-- the pilot for an ongoing review is recursion on what it meets, `Polling`, which is a finite sequence
-- of answers: a review that never ends has none.
--
-- What is not modelled. The child workflows of a fleet, its activities and its notifications are not
-- run: how each child ends, the base commit, what the record answers and whether the run was cancelled
-- are arguments of `fleet_workflow`. The children of a layer run at once, and none of them reads
-- what another leaves behind. The text of a fleet's summary is not rendered: the result of a run is the
-- list of results that the summary is made of. Of the workflows of internal/codereview the retries,
-- timeouts and handles of Temporal are left out, and so are the times in a row; each version gate is
-- taken as a new execution takes it, with durable records on. An error is the failure that it renders,
-- not the capped and cleaned text of it. A cancellation reaches a workflow as the error of the command
-- that it interrupts; for a session it is left out. What the activities do in git, GitHub and the
-- agent is their answer. The stores on PostgreSQL but for the settlement of a session, the adapters
-- to Temporal, git, GitHub and the agent, the HTTP interface, identity, instructions, the command
-- line and the web client are not modelled. Token counts are summed without the bound of a machine
-- word.
pub mod Prelude
pub mod Runs
pub mod Settings
pub mod CodeReview
pub mod Fleet
pub mod Hub
pub mod Steering
