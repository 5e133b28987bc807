-- ===== src/Lib.antt =====
-- The core of the 42U plugin rack in its TypeScript edition, `ts/src/core`.
--
-- The program. A host loads plugins and carries each through init, start, stop and unload. Its
-- parts share tables and not threads: everything runs on one event loop, and what interleaves is
-- what happens while an `await` waits. The capability registry (caps.ts) publishes the methods of
-- a started plugin under its id and a generation number. The lease manager (lease.ts) lends such
-- an entry to a consumer against an opaque credential, counts the calls in flight on it and, when
-- the provider is to stop, tells the consumers to return what they hold. The invoke gateway
-- (calls.ts) takes a credential, a method and arguments through both: it checks the arguments
-- (json.ts), opens a guard on the lease, looks the method up in the entry of the same generation,
-- refuses an instance that already serves a call, awaits the plugin, checks what comes back and
-- closes the guard on every exit. The planner (order.ts) orders the pending plugins by their
-- before and after constraints, then by priority and id. Versions (version.ts) decide which
-- provider a range accepts. The event bus (events.ts) queues what is published and delivers it to
-- subscribers one at a time. A plugin reaches all of them through services that are bound to its
-- id (services.ts).
--
-- Where each part is modelled.
-- Base. Equality of keys, lists over native numbers, JavaScript's Map and Set as lists in the
--   order of insertion (Base/Map, Base/Sets), and the statuses of ts/src/core/status.ts with the
--   result type that stands for a throw (Base/Status). Messages and details of errors are dropped,
--   but for the ids that the planner puts into them.
-- Json. ts/src/core/json.ts. A document is a heap of arrays and objects with an entry into it, so
--   that sharing and cycles exist. Arrays have no holes, which `every` would skip. `check_json`
--   follows checkJson on fuel, which is the size of the heap and one more: each level marks one
--   node that was not marked. `measure` follows the source to its own bound of depth. Json/Check
--   has the theorems on isJsonValue, Json/Size those on the estimate. A number is an integer, a
--   fraction, or not finite.
-- Version. ts/src/core/version.ts; Version/Order has its theorems.
-- Capability. assertValidCapEntry and the frozen copy of ts/src/core/caps.ts and the range check of
--   acquire, over values of unknown shape; Capability/Valid has the theorem. frozenJsonCopy is
--   taken for a copy with the same content, so schemas have no own member `__proto__`.
-- Lease. ts/src/core/lease.ts. `Leases` is the state that the closures of createLeaseManager share:
--   the records, the guards that have not ended, and the counters that make handles and guards
--   fresh. A credential is the handle in it, or `forged` where credentialHandle refuses it. A
--   closure such as endCall is the operation on the guard's id. The registry's lookup is a
--   parameter of the operations that call it, and may answer differently each time. A revoker is a
--   parameter that may make any calls of the manager before it returns or throws. Lease/Steps says
--   what each operation does to the table, Lease/Invariant what all histories keep, Lease/Only
--   which records an operation touches, Lease/Lifetime what becomes of one credential, and
--   Lease/Revoke what the revocation of a provider ends in.
-- Calls. ts/src/core/calls.ts. The async call is two steps, `enter` up to the await of the
--   plugin and `leave` from its outcome on; other calls come between. Calls/Serial has the histories
--   of such steps, Calls/Balance and Calls/Admission what enter does, Calls/Select the selectors and
--   Calls/Results the caller's result. What a plugin answers is a parameter of `leave`.
-- Order. ts/src/core/order.ts. Order/Bytes is the order of ids by UTF-8 bytes, Order itself the
--   validation and the graph, Order/Schedule Kahn's loop and the cycle that is reported. The loop
--   has the number of nodes as fuel, one for each node that it plans; the walk to a cycle has one
--   more. A priority is a multiple of 2^-1074, as every finite double is. Order/Index, Order/Edges,
--   Order/Constraints, Order/Nodes and Order/Collected are about the graph, Order/Relax, Order/Kahn,
--   Order/Loop and Order/Start about the loop, Order/Choice and Order/Least about the next node, and
--   Order/Sound about plans.
-- Events. ts/src/core/events.ts. The operations of the bus are in Events, and Events/Drain has
--   `drain` and `deliver` cut into slices: `advance` runs to the next event or the next sink that
--   is awaited, `settle` is what an awaited sink comes to, and any call of the bus may come between
--   two slices, as it may while the source awaits. What a step shows of itself are its outputs.
--   Events/Queue has the order of events, Events/Delivery and Events/Live the invariant of a bus,
--   Events/Owed, Events/Gone, Events/Taken and Events/Once the delivery of one event, and
--   Events/Silence the revocation of an owner. There is no fuel: a history is a list of inputs.
-- Services. ts/src/core/services.ts: the operations that change a port, with the id of their owner;
--   what the ports and the two gates answer at the time of a call is a parameter. Services/Owner
--   has the theorem that joins the services, the gateway and the leases.
-- Registry. ts/src/core/caps.ts: the table and the watchers. A sink is called from within an
--   operation and may call the registry itself, so what is still to be delivered stands on a stack of
--   frames, and `advance` makes the next delivery. Registry/Sync has the histories and the
--   invariant, Registry/View what a watcher puts together, Registry/Change, Registry/Arrive and
--   Registry/Deliver the steps, Registry/Known the refinement, and Registry/Reentry the order that
--   a change from within a delivery leads to. There is no fuel.
-- Host. ts/src/core/host.ts: `Rack` is the state of RackHost with the parts it owns, the leases,
--   the bus and the table of the registry. An instance is known by its id, as the table holds each
--   id once; one that was destroyed is out of the table. Code of plugins that the host awaits is a
--   parameter, which is asked what it does for the rack and the entry point that it is given: a
--   list of actions (calls of the leases and the bus, requests to unload, capabilities that are
--   announced, invokes that begin and come to their end) and whether it throws. An invoke that has
--   not ended holds the depth of callbacks, also between two requests to the host, where such
--   actions are a request of their own. While code runs the depth is positive, where the source
--   refuses every other structural operation, so there is no action for those. The sinks of
--   watchers and the revokers that revokeProvider awaits are such code too, one callback for all of
--   them. Host/Batch has `start` and the steps of one instance, Host/Unload the protocol of an
--   unload, `poll` and `shutdown`, and Host/Entry the entry points; what the loader finds and
--   returns is an argument of those. The callbacks so far are kept in `entered`, which the source
--   does not have. Loops are over lists that are fixed when they begin. Host/Rule says what a
--   predicate on the instances has to withstand, Host/Steps and Host/Served that it then holds
--   throughout, and Host/Quarantine and Host/Generations have two of them; Host/Quiet, Host/Taken,
--   Host/Outcome and Host/Answer are about unloads and failing loads, Host/Unwind and Host/Undone
--   about batches that fail.
-- Logging. ts/src/plugins/logging/index.ts: Logging has the ring, Logging/Device the device around
--   it with its methods and the appends to the file, of which each is awaited before the next. A
--   line is the entry that it prints. `stop` is two steps, up to its await of the appends and from
--   there on; the publication of `start` is left to the services. Logging/Places, Logging/Loop and
--   Logging/Newest are about places of a ring, its loop, and ends of lists; Logging/Ring,
--   Logging/Query and Logging/File have the theorems. Loops are structural.
-- Rpc. ts/src/plugins/rpc/index.ts: checkRpcRequest and what executes a request, or a batch, on the
--   lease table; what the call of the target comes to is a parameter. Strings are cut by structural
--   recursion. Rpc/Target has the theorem on the name of a target.
--
-- What is not modelled. Numbers that the source takes for safe integers are natural numbers without
-- the bound of 2^53. The diagnostics of the host are left out, and so are histories in which a second
-- structural operation of it begins between two awaits of the first. Not modelled are the
-- loader of modules, the SDK, of the plugins all but the logging device and the check and execution
-- of remote calls, the command line and the C++ edition of the rack.
pub mod Base
pub mod Json
pub mod Version
pub mod Capability
pub mod Lease
pub mod Calls
pub mod Order
pub mod Events
pub mod Services
pub mod Registry
pub mod Host
pub mod Logging
pub mod Rpc
