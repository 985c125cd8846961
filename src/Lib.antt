-- ===== src/Lib.antt =====
-- Kombiner serialises the pod placement proposals of several schedulers. A scheduler plugin creates
-- a PlacementRequest; the controller puts it into the queue of its scheduler, a reader picks the
-- next request from the queues in a fair order, and ScheduleOne binds its pods and reports a result.
--
-- Parts, and the files that model them:
-- - Api: the types of pkg/apis (kombiner/v1alpha1, config/v1alpha1), a record for each struct, texts
--   for the string types; Api/DeepCopy is the generated deep copies of a request, of a
--   list of requests, of a configuration and of the plugin's arguments, whose slices and
--   pointers are indices into a memory.
-- - Placement: pkg/placementrequests/v1alpha1, the helpers that validate a request, record the
--   result of a pod and assess the whole.
-- - Queue: pkg/queue. Prioritized is the slice behind the priority queue; Heap is Go's
--   container/heap over it; PlacementRequest is the queue of one scheduler; Store holds the queues
--   that the controller and the reader share through pointers; Config is the queues'
--   configuration; RoundRobin is the round-robin reader, Float its float64 arithmetic; Uniform is
--   the uniform reader, whose random numbers are a parameter; Iterator is the construction of the
--   iterator and its signal to resume. Access is a call of Read as a tree of its accesses to the
--   queues, for use beside other goroutines; RoundRobin/Rounds and
--   Uniform/Rounds are the trees of the two readers, and the two modules Agrees compare them with
--   the calls.
-- - Configuration: pkg/config, Load and its validation, with fromFile and Encode in Codec; the field
--   errors of the apimachinery library and the decoding of the file are parameters.
-- - Cluster: the Kubernetes API as answers that may depend on all calls made before.
-- - Controller: pkg/controller, ScheduleOne and enqueue; Controller/New is its construction.
-- - Scheduler: pkg/scheduler, the plugin's Bind and the arguments it keeps (pkg/apis/scheduler is
--   Api/Scheduler). Requests is about the request it creates, Waits about what it reports, Verdict
--   and Placed about the plugin and the controller together.
-- - System: the goroutines together, as steps in any order: QueueIterator.Run
--   (pkg/queue/iterator.go) with a reader that is a parameter, PlacementRequestController.Run
--   (pkg/controller/controller.go) and the pushes of the informer. Invariant is what holds in every
--   reachable state; Wiring is the queues that New leaves, RoundRobin and Uniform are about the two
--   readers, Delivery and Serving about the steps to the next delivery, and Program puts these
--   together. Samples is the data of its tests.
-- - Informers: pkg/generated/informers/externalversions, the factory of shared informers with the
--   goroutines that it starts; Histories is its calls in any order. Requests is the way from the
--   factory to the informer of requests, its lister and the generic informer.
-- - Clientset: pkg/generated/clientset/versioned, the construction of a client set; Packages is what
--   it takes of the client library, V1alpha1 the client of the group.
-- - Main: cmd/kombiner-controller/main.go, the start of the controller's program up to Run, which puts
--   Configuration, Clientset, Informers, Controller/New and System together.
--
-- State is passed explicitly: what Go writes through a pointer is returned. A call ends in a value,
-- in a panic, or with the model's fuel used up (Prelude/Calls). The loops of the heap take as much
-- fuel as the index or the length they start from, since each round moves to a parent or a child.
-- The reader's recursion takes two rounds over its queues and one call: a call either serves a queue
-- or uses up the share of an empty one, and after one reset some queue with requests has room.
-- An int64 is given by its 64 bits, a uint by its value; lengths and sums of bindings are taken to
-- stay within int. The float64 values of the reader are at least 1 and stand for their units of
-- 2 ^ -52.
--
-- The plugin's poll is a parameter; what the theorems use of it is a hypothesis by name.
--
-- A step of the goroutines is one access to what they share: a method of a queue, which holds the
-- queue's mutex, an operation on a channel, or a look at the context; where the method or the
-- reader panics the iterator fails. The handlers of a Push are a step of their own, since they run
-- after the insertion and under the mutex. Any request may be pushed onto any queue, of which
-- enqueue is a part; a ScheduleOne is one step, since it touches neither queues nor channels. The
-- end of the context is a step that is possible at any time.
--
-- A method of the informer factory holds the factory's lock and is one call; a map is a list of its
-- entries, newest first, and a walk over it is any order of them. Two informers that are made alike
-- are equal in the model; that a call returns the one that was there shows in that it changes nothing.
--
-- Not modelled: logging, timeouts, the flags, the registration of types and conversions with a scheme,
-- which are calls of Kubernetes' libraries, the program of the scheduler, which calls that of
-- Kubernetes, the client's calls of the API, the listers and the fake client, which hand on to the
-- client library, and what the informers' caches hold.
pub mod Prelude
pub mod Api
pub mod Placement
pub mod Queue
pub mod Cluster
pub mod Controller
pub mod Scheduler
pub mod Configuration
pub mod System
pub mod Clientset
pub mod Informers
pub mod Main
