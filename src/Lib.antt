-- ===== src/Lib.antt =====
-- Hibiki DSP: the control plane.
--
-- The hub (src/hub) routes the audio of Windows sessions through lanes to output groups. A control
-- worker receives framed messages on a pipe, validates every text and number in them, and hands
-- commands over lock-free queues to the worker that talks to Windows. Both keep small stores: the audio
-- sessions, the rules that route them, the physical devices, and the transaction that changes the
-- output device, together with the fade between the two outputs. The plugin host (vst-host) decides
-- which plugin runs, exchanges audio blocks with its worker process, aligns the lanes of the graph to the
-- slowest plugin, and keeps the captured states that the scenes refer to. Browser tabs send their audio to
-- the bridge (extensions/native_bridge) in WebSocket frames.
--
-- Files and sources:
--   Base            shared helpers: tests, lists, keyed stores, little-endian bytes
--   Ipc             src/hub/src/ipc.cpp: `encode_ipc_frame`, `decode_ipc_frame`
--   CommandQueue    src/hub/src/session_command_queue.cpp, src/hub/src/control_queue.cpp: the two
--                   queues are one algorithm; CommandQueue/Threads interleaves the atomic accesses
--   Utf8            src/hub/src/control_payloads.cpp: `is_printable_utf8_v1`
--   Sessions        src/hub/src/audio_session_registry.cpp (Registry), session_route_rules.cpp
--                   (RouteRules) and process_loopback_plan.cpp (LoopbackPlan)
--   Devices         src/hub/src/device_catalog.cpp (Catalog), device_switch.cpp (Switch),
--                   device_recovery.cpp (Recovery), output_crossfade.cpp (Crossfade) and
--                   output_handoff.cpp (Handoff, over Switch and Crossfade)
--   Vst             vst-host/src: vst3_plugin_state.cpp, which has the plugin states (PluginState) and
--                   their migration rules (Migration), vst3_scene_state.cpp with
--                   vst3_scene_state_preflight.cpp (SceneState, over both), vst3_bus_layout.cpp
--                   (BusLayout), latency_compensation.cpp (Latency/Plan and Latency/Delay),
--                   latency_graph_commit.cpp (Latency/Commit), vst3_worker_lane.cpp (WorkerLane) and
--                   plugin_host.cpp (PluginHost, over BusLayout, WorkerLane and the states)
--   Bridge          extensions/native_bridge/src/ws_transport.cpp: `read_ws_client_frame` (Frame)
--   Tests           runs at concrete inputs, and each theorem applied at one
--
-- State: a C++ object is a record of its members, or the list of its entries where that is all it
-- has, and a method is a function from the state and the arguments to the new state and the
-- answer. A `std::array` of slots with a flag is a list of options; an array with a size is the list of
-- its first entries; a string is its list of bytes. Unsigned integers are natural numbers, with the
-- wrap-around written out where the code computes with them.
--
-- Bounds: the only fuel is that of the text check, the length of the text, of which a round consumes one
-- byte at least; its theorem shows that it is enough.
--
-- Parameters: floating-point numbers are an interface (Base/Double) of the tests that the code makes on
-- them; the code modelled here only compares them with constants and copies them. How the crossfade mixes
-- two samples at a position, with its cosine and sine, is a function argument, and so are a migration
-- handler of a plugin and what the worker process answers to an exchange. Nothing is assumed of them.
--
-- Not modelled: the paths on which an allocation throws, the weaker memory orders (the interleavings are
-- those of sequential consistency, with the copy of a queue slot as one step with the access beside it),
-- values of an enumeration that none of its names has, buffers that overlap, adding or removing sessions
-- through `mutable_sessions` and writing devices through the mutable `find` of the catalog, which no source
-- does, `safe_restart_state` of the recovery, the HTTP handshake and the replies of the WebSocket transport,
-- the signal processing, the Windows adapters (but the loop of the route refresh that writes through
-- `mutable_sessions`, in Sessions/Registry/Access), and the parts of the hub and the plugin host that no
-- file above names.
pub mod Base
pub mod Ipc
pub mod CommandQueue
pub mod Utf8
pub mod Sessions
pub mod Devices
pub mod Vst
pub mod Bridge
pub mod Tests
