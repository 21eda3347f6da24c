-- ===== src/Lib.antt =====
-- samara: the controlled and the live runtime of the application framework, and what they are
-- made of.
--
-- A Program is a closed set of Components. A Component owns a Model, and answers a Message with a
-- new Model and a Command, a description of work; after each transition the Subscriptions that it
-- desires are compared with the active ones. The controlled runtime interprets the Commands
-- against tables that a test inspects: work ordered by logical deadline, pending effects,
-- outstanding requests, active Sources and a causal trace. The live runtime interprets the same
-- Programs on tokio: one owner task keeps the tables, Drivers and timers run as tasks of their own,
-- and handles, Drivers and the owner task meet in one channel behind a lock, the scope.
--
-- Which file models which part:
--   Ids, Values, Errors     identities, erased payloads, outcomes and errors (src/lib.rs)
--   Command                 Command and Command::into_declarations (src/lib.rs)
--   Source, Source/Framed   SourcePlan with its Layers, Framed and FramedLayer (src/lib.rs)
--   Subscription            Subscription and its descriptor snapshot (src/lib.rs)
--   Reconciler              SubscriptionReconciler (src/declarative_work.rs)
--   Kernel                  ComponentKernel (src/component_kernel.rs)
--   Program                 Program, ProgramBuilder and the initial validation (src/lib.rs)
--   Controlled              ControlledCore (src/controlled_runtime.rs): State has the tables, Trace
--                           push_trace and set_fault, Queue the scheduler, Sources activation and
--                           reconciliation changes, Commands interpret_command, Deliver
--                           process_message and process_source_event, Harness and Drive the
--                           operations of a test, Bindings the validation, Init the construction
--   Controlled/Invariant    what each operation keeps; Controlled/Reach puts the operations together
--   Live                    LiveCore (src/live_runtime.rs): State has what the owner task keeps and
--                           what it shares, Scope the admission by LiveScope and SourceGate, Tasks
--                           the JoinSet and the other threads, Bindings LiveBindings, Sources and
--                           Changes the bookkeeping of Sources, Commands interpret_command, Deliver
--                           process_message and process_source_event, Ingress process_effect,
--                           process_port_ingress and initialize, Cancel finish_cancel and task_fault,
--                           Run the select loop; Stdin the line decoder and the loop of the reader
--                           thread of standard input, Handles the build, the handles and RuntimeTask
--                           of src/lib.rs
--   Live/Steps              the atomic actions of the owner task, and every method as a sequence of
--                           them; Live/Phase, Cutoff, Tables, Ends and Typing are inductions on
--                           these; Live/Lifecycle adds the fault, the close and the clean-up
--   Tests                   a counter Program, and the theorems at its cores
--
-- How the code is modelled. An operation takes the core and returns a result with the new core. A
-- Rust Result is `Result`, whose third constructor stands for `unreachable!`, `expect` and an
-- index out of range; the downcasts of Source events to the type of a Layer or of a subscription's
-- mapper are total in the model. All the payloads of an application are of one type `V`, and a
-- TypeId, a number, tells the Rust types apart; a downcast compares it. An `Arc<()>` is its
-- address. A Component, a Decoder and a mapper are functions, parameters of the model. A HashSet
-- is a list, `position` with `remove` or a write at the index is `remove_first` or `update_first`,
-- and the texts of errors are constructors. A Duration is a number of nanoseconds, and
-- `checked_add` has Rust's limit; the counters, of 64 bits in the source, have none here.
--
-- Interleaving. What the owner task of the live runtime alone touches (LiveCore) is kept apart
-- from what stands behind a lock or in a channel (LiveScope). Before each operation of the owner
-- task that takes a lock or reads the channel, `interfere` runs the next batch of a schedule of
-- the other threads' atomic actions: a handle's send, a Port call, a begun shutdown, a Driver's
-- call of its sink, the event of an effect or a timer, and the exit of a task. The theorems hold
-- for every schedule. A stop hook is its outcome, and the part of a Driver that runs before its
-- future is a function of the binding. `cleanup_abort` waits for every task that it has not
-- aborted; the future of an aborted one ends when tokio next polls it, so a Driver that never
-- yields is not in the model. That the channel closes under a running owner task is not either,
-- since the scope keeps a sender. The parameter `unwinds` marks the payloads that stand for a
-- panic of user code that the source catches; user code that it does not guard is taken not to
-- panic.
--
-- Fuel. A drive may go on for ever, since a Component may keep sending to itself, so the loops of
-- `run_until_idle`, `advance` and `advance_to_next` take fuel, and `none` says that it ran out.
-- The select loop of the live runtime takes fuel too, one unit for each round, and tells a wait
-- that no other thread ends from fuel that ran out. The loops of a cancellation get as much as
-- there is to take.
--
-- Not modelled: the Drivers of the crate for TCP, HTTP and standard output, and the waits and the
-- control of the stdin reader thread, which are tokio and operating system calls; the bind calls
-- of the live builder; the Protocol macros; the HTTP, TCP and stdio descriptors; the lock of
-- SerializedComponent; and the helpers that only inspect Commands.
pub mod Prelude
pub mod Ids
pub mod Values
pub mod Command
pub mod Source
pub mod Subscription
pub mod Reconciler
pub mod Errors
pub mod Kernel
pub mod Program
pub mod Controlled
pub mod Live
pub mod Tests
