-- ===== src/Lib.antt =====
-- The ROS1 adapters of an XGC2 Run: a robot type server (common, px4_multirotor_ros1_adapter,
-- ugv_ros1_adapter), the ROS1 Tools service (ros1_tools_adapter) and the scene adapter
-- (scene_ros1_adapter). This library models the logic that decides who may move a robot, what is
-- kept between calls and what is refused. Each definition is translated from the source that its
-- file names; a function keeps the source's name in snake_case.
--
-- RobotServer (src/common/src/robot_server.cpp): admission of control. State.antt is the state of
-- `RobotServer::Impl` that these handlers touch, with the objects behind a `shared_ptr` in a store
-- by address; Control.antt is `acquireControl`, Renewal.antt `renewControl` and `memberSilence`,
-- Release.antt `releaseControl`, Controller.antt `installController`, Retirement.antt
-- `retireController`, Dispatch.antt `enqueue`, `dispatch`, its completion and the dead-man section
-- of `commandLoop`, Status.antt the admission, the receipt, the end and the retirement of an owned
-- status stream, Drain.antt `stopMember`. A handler gives its lock up between sections and while
-- it waits; what other threads do meanwhile is a function on the state that the handler takes, and
-- a wait ends with the test of its predicate on the state in which it returns, as `wait_until`
-- does. Interleaving.antt puts the sections in any order; Ownership.antt and Rate.antt are about
-- every state that is reached. Times are nanoseconds on the clocks of the source, and deadlines
-- enter as the answers of the waits. What a `NativeRobot` says of an operation, whether its
-- `RetireControl` and `CoreSilent` succeed, protobuf's message equality and the caller's
-- cancellation are arguments. Identifiers.antt is `ValidReferenceId`
-- (src/common/src/robot_server_options.cpp) and `ValidRobotIdentity`
-- (src/common/src/robot_domain.cpp).
--
-- ServerOptions (src/common/src/robot_server_options.cpp): the command line of a robot type
-- server. Names.antt is `RosNameCharacters` and `RosNodeName`, Parse.antt `ParseServerOptions`
-- with its checks, Reading.antt is about what a command line means. A text is its bytes, an
-- argument has no NUL, and the size of the system's `sun_path` is an argument.
--
-- SceneStore (src/scene_ros1_adapter/src/core/store.cpp, include/xgc_scene/store.hpp): the edited
-- scene. State.antt is the state of `SceneStore` with a monad for its exceptions, by which what a
-- step did before it threw stays; Save.antt is `checkSource`, `prepareEdit`, `autosave` and
-- `save`, Execute.antt `apply` and `execute` with every operation, Command.antt `command` and
-- `requestResult`, Open.antt the constructor. The answers of the file system, of the validators
-- and of the hooks are arguments; a failure of a hook is of the kinds that `command` catches.
-- History.antt is the abstract specification, a present document with a past and a future;
-- Refinement.antt relates the code to it. Invariant.antt and Preservation.antt are the
-- well-formedness of the store, Receipts.antt and Replay.antt its request receipts, Roundtrip.antt
-- undo, redo and the frozen scene. Revisions are natural numbers: the source's 64-bit counter is
-- not exhausted. JSON values that are only compared are byte strings, times are natural numbers,
-- and the text caches and error texts are left out. A loop that drops receipts is structural in
-- their list, so nothing here needs fuel.
--
-- PublisherRegistry (src/ros1_tools_adapter/src/publisher_registry.cpp): the cached publishers of
-- ROS1 Tools. State.antt is the cache with the sections under its lock, Publish.antt `publish` with
-- its loop and `declare`, Boundary.antt how a publish may end, Capacity.antt the cache under any
-- order of the sections. The loop of messages is structural in the number that is left, and the
-- waits are lists of the answers that they read. roscpp's handles and the wake-ups are left out.
--
-- ServiceCall (src/ros1_tools_adapter/src/service_invoker.cpp, service_helper_main.cpp,
-- include/xgc_ros1_tools_adapter/service_helper_protocol.hpp): a ROS service call that a helper
-- process makes. Protocol.antt is the frames between the two, Sockets.antt the deadlines and the
-- loops over the socket, Invoker.antt `ServiceInvoker`, Helper.antt `runHelper`. What the clocks,
-- the caller, the socket and the other process answer are lists of rounds, on which the loops are
-- structural; a loop that has used up its list is unfinished, and Termination.antt shows which
-- lists are enough. Boundary.antt is about what an error tells of the call, Frames.antt about the
-- frames, Permits.antt about the limit of concurrent calls. The process is started and reaped by
-- the system.
--
-- LidarControl (src/scene_ros1_adapter/src/lidar/control.cpp): the switch of the simulated lidar.
-- State.antt is the state of `Control::Impl` with its replies, receipts and descriptions,
-- Request.antt what `Handle` reads of a request, Handle.antt `Handle` with every route, Apply.antt
-- the failed post, `ApplyPending`, `ExpireReady`, `SetReady` and `Stop`, as the sections under the
-- lock that the HTTP thread, the control thread and the owner run in any order; a callback that
-- was posted is there until it returns. Posting.antt is about that callback, Invariant.antt,
-- Preservation.antt and Sections.antt are the well-formedness of the switch, Guarantee.antt what
-- becomes of an accepted operation, Replay.antt repeated configurations. JSON arrives parsed. Left
-- out are the facts of a description, the wait of `Stop` for the operation that is being applied,
-- and the start of the host.
--
-- LidarScene (src/scene_ros1_adapter/src/lidar/scene.cpp, lidar/engine.cpp,
-- lidar_ros/scene_tap.cpp): the scene that the simulated lidars see. Cache.antt is `SceneCache`
-- and what `Engine` does to it, Messages.antt the scene messages and the reading of a snapshot,
-- Tap.antt `SceneTap`, which pairs a snapshot with its application and with the states of its
-- obstacles. Poses, geometries and shapes are of any types, and the floating-point geometry on
-- them is an argument. Current.antt and Recovery.antt are about which scene the lidars have. The
-- scan of a scene and the tick of the engine are left out; the counter of installations is not
-- exhausted.
--
-- MotionCommand (src/ugv_ros1_adapter/src/motion_command.cpp): the operator's motion intent.
-- Publisher.antt is `MotionCommandPublisher` with the log of what its publish function took, over
-- any type of commands, since the scaling of an intent is floating-point arithmetic; LastSent.antt
-- is about the command that was published last.
--
-- RemoteControl (src/px4_multirotor_ros1_adapter/src/remote_control.cpp): the same for a
-- multirotor, whose SetIntent starts its stream before it knows that the setpoint was published.
-- Publisher.antt is `RemoteControlPublisher`, LastSent.antt about the velocity that was published
-- last.
--
-- Px4Operations (src/px4_multirotor_ros1_adapter/src/px4_operations.cpp): the requests to a PX4
-- autopilot (Requests.antt), what its answers mean (Results.antt) and when it may be rebooted
-- (Reboot.antt), without the texts. Comparisons of floating-point seconds are arguments.
--
-- Not modelled: the table of members, the selections, writers and deliveries of the status
-- streams, the phases and the loops of the drain of the robot server; the contract tables, the
-- retry and silence timers of the headers and the sample windows of ground_health.cpp and
-- localization_projection.cpp; the JSON values of ROS1 Tools; the validation, generation and
-- compilation of scenes, which are JSON documents and floating-point geometry; the scan of the
-- lidars; the ROS callbacks, messages and geometry of the robot runtimes; gRPC and process
-- plumbing, and the parsers of JSON and YAML.
mod Common
pub mod Identifiers
pub mod RobotServer
pub mod SceneStore
pub mod PublisherRegistry
pub mod Px4Operations
pub mod MotionCommand
pub mod RemoteControl
pub mod ServerOptions
pub mod ServiceCall
pub mod LidarControl
pub mod LidarScene
