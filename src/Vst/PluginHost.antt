-- ===== src/Vst/PluginHost.antt =====
-- vst-host/include/hibiki/plugin_host.hpp and vst-host/src/plugin_host.cpp: the host of one plugin.
pub mod Quarantine
pub mod Valid
pub mod Invariant
use hibiki_dsp.Base.{
  ℕ, ◌-◌, Bool, true, false, ◌&&◌, ◌||◌, not, List, [], ◌∷◌, ◌++◌, Option, none, some, ltb, leb,
  ◌==◌, if◌then◌else◌, length, take, drop, replicate, Text,
}
use hibiki_dsp.Base.Double.{Double}
use hibiki_dsp.Devices.Catalog.{is_empty}
use hibiki_dsp.Vst.BusLayout.{BusLayout, blank_bus, max_buses, matches_main}
use hibiki_dsp.Vst.Latency.Commit.{GraphLaneInput}
use hibiki_dsp.Vst.WorkerLane.{
  WorkerLane, LaneConfig, ExchangeResult, is_ok, not_running, new_lane, detach_lane, prepare_lane,
  handshake_lane, process_block,
}
use hibiki_dsp.Vst.PluginState.{
  StateIdentity, StateResult, invalid_argument, StateStore, Restored, Handler, empty_states,
  capture, restore, restore_with_migration,
}
use hibiki_dsp.Vst.Migration.{Migrations, no_migrations, register_rule, restore_migrated}

pub data HostState : Type 0 where
  disabled starting running quarantined : HostState

abbrev pub is_running : HostState → Bool
is_running running = true
is_running _ = false

pub record PluginDescriptor : Type 0 where
  pub plugin_id : Text
  pub input_channels : ℕ
  pub output_channels : ℕ
  pub reported_latency_samples : ℕ
  pub trusted : Bool
  pub watchdog_timeout_ms : ℕ
  pub certified : Bool
  pub lane_token : ℕ
  pub bus_layout : BusLayout

abbrev pub default_layout : BusLayout
default_layout = record {
  schema_version = 1;
  input_bus_count = 0;
  output_bus_count = 0;
  inputs = replicate max_buses blank_bus;
  outputs = replicate max_buses blank_bus;
}

-- `PluginDescriptorV1{}`.
abbrev pub default_descriptor : PluginDescriptor
default_descriptor = record {
  plugin_id = [];
  input_channels = 2;
  output_channels = 2;
  reported_latency_samples = 0;
  trusted = false;
  watchdog_timeout_ms = 250;
  certified = true;
  lane_token = 0;
  bus_layout = default_layout;
}

-- The first check of `start`.
abbrev pub unacceptable : PluginDescriptor → Bool
unacceptable descriptor =
    is_empty descriptor.plugin_id
    || (descriptor.input_channels == 0)
    || ltb 8 descriptor.input_channels
    || (descriptor.output_channels == 0)
    || ltb 8 descriptor.output_channels
    || not descriptor.trusted
    || not descriptor.certified
    || (descriptor.watchdog_timeout_ms == 0)
    || ltb 5000 descriptor.watchdog_timeout_ms
    || not (descriptor.input_channels == descriptor.output_channels)
    || (descriptor.lane_token == 0)

abbrev pub has_explicit_bus_layout : PluginDescriptor → Bool
has_explicit_bus_layout descriptor =
    not (descriptor.bus_layout.input_bus_count == 0)
    || not (descriptor.bus_layout.output_bus_count == 0)

module _ (d : Double) where
  pub record PluginHost : Type 0 where
    pub descriptor : PluginDescriptor
    pub state : HostState
    pub last_heartbeat_ms : ℕ
    pub worker_lane : WorkerLane d
    pub plugin_state : StateStore
    pub migrations : Migrations

  abbrev pub new_host : PluginHost
  new_host = record {
    descriptor = default_descriptor;
    state = disabled;
    last_heartbeat_ms = 0;
    worker_lane = new_lane d;
    plugin_state = empty_states;
    migrations = no_migrations;
  }

  abbrev pub can_process : PluginHost → Bool
  can_process host = is_running host.state

  -- `worker_lane_.detach()`, then the state.
  abbrev pub dropped : PluginHost → HostState → PluginHost
  dropped host state = record host { worker_lane = detach_lane d host.worker_lane; state = state }

  unfoldable pub start : PluginHost → PluginDescriptor → PluginHost × Bool
  start host descriptor =
      if unacceptable descriptor
      then (dropped host quarantined, false)
      else if has_explicit_bus_layout descriptor
          && not (
              matches_main descriptor.bus_layout descriptor.input_channels
                descriptor.output_channels)
      then (dropped host quarantined, false)
      else (record (dropped host running) { descriptor = descriptor; last_heartbeat_ms = 0 }, true)

  unfoldable pub stop : PluginHost → PluginHost
  stop host = dropped host disabled

  unfoldable pub report_crash : PluginHost → PluginHost
  report_crash host = dropped host quarantined

  unfoldable pub heartbeat : PluginHost → ℕ → PluginHost × Bool
  heartbeat host now_ms =
      if not (can_process host)
        || not (host.last_heartbeat_ms == 0) && ltb now_ms host.last_heartbeat_ms
      then (host, false)
      else (record host { last_heartbeat_ms = now_ms }, true)

  unfoldable pub poll_watchdog : PluginHost → ℕ → PluginHost × Bool
  poll_watchdog host now_ms =
      if not (can_process host)
        || (host.last_heartbeat_ms == 0)
        || ltb now_ms host.last_heartbeat_ms
        || leb (now_ms - host.last_heartbeat_ms) host.descriptor.watchdog_timeout_ms
      then (host, false)
      else (record host { state = quarantined }, true)

  -- The output buffer, and the answer; `none` is a null pointer.
  unfoldable pub process_passthrough :
      PluginHost → Option (List d.Value) → Option (List d.Value) → ℕ → Option (List d.Value) × Bool
  process_passthrough host (some input) (some output) samples =
      if not (can_process host)
      then (some output, false)
      else (some (take samples input ++ drop samples output), true)
  process_passthrough host none output samples = (output, false)
  process_passthrough host (some input) none samples = (none, false)

  unfoldable pub prepare_worker_session : PluginHost → d.Value → ℕ → PluginHost × Bool
  prepare_worker_session host sample_rate max_block_frames =
      let config : LaneConfig d = record {
        lane_token = host.descriptor.lane_token;
        channels = host.descriptor.output_channels;
        sample_rate = sample_rate;
        reported_latency_samples = host.descriptor.reported_latency_samples;
        max_block_frames = max_block_frames;
      } in
      let lane = prepare_lane d host.worker_lane config in
      if not (is_running host.state)
      then (host, false)
      else (record host { worker_lane = lane.0 }, lane.1)

  -- What an exchange leaves: a failed one is a crash.
  abbrev pub exchanged : PluginHost → WorkerLane d × ExchangeResult → PluginHost × ExchangeResult
  exchanged host lane =
      let after : PluginHost = record host { worker_lane = lane.0 } in
      (if is_ok lane.1 then after else report_crash after, lane.1)

  unfoldable pub handshake_worker : PluginHost → ExchangeResult → PluginHost × ExchangeResult
  unfolding report_crash
  handshake_worker host answer =
      if not (is_running host.state)
      then (host, not_running)
      else exchanged host (handshake_lane d host.worker_lane answer)

  unfoldable pub process_worker_block :
      PluginHost → ℕ → ℕ → ExchangeResult → PluginHost × ExchangeResult
  unfolding report_crash
  process_worker_block host block_start frames answer =
      if not (is_running host.state)
      then (host, not_running)
      else exchanged host (process_block d host.worker_lane block_start frames answer)

  unfoldable pub capture_plugin_state :
      PluginHost → Text → StateIdentity → ℕ → List ℕ → PluginHost × StateResult
  capture_plugin_state host state_id identity state_version bytes =
      let captured = capture host.plugin_state state_id identity state_version bytes in
      if not (is_running host.state)
      then (host, invalid_argument)
      else (record host { plugin_state = captured.0 }, captured.1)

  unfoldable pub restore_plugin_state : PluginHost → Text → StateIdentity → ℕ → List ℕ → Restored
  restore_plugin_state host state_id expected version destination =
      restore host.plugin_state state_id expected version destination

  unfoldable pub restore_plugin_state_with_migration :
      PluginHost → Text → StateIdentity → ℕ → List ℕ → Option Handler → Restored
  restore_plugin_state_with_migration host state_id expected version destination migration =
      restore_with_migration host.plugin_state state_id expected version destination migration

  unfoldable pub register_plugin_state_migration :
      PluginHost → StateIdentity → ℕ → ℕ → Option Handler → PluginHost × StateResult
  register_plugin_state_migration host identity source_version target_version migration =
      let registered =
        register_rule host.migrations identity source_version target_version migration in
      (record host { migrations = registered.0 }, registered.1)

  unfoldable pub restore_plugin_state_via_registry :
      PluginHost → Text → StateIdentity → ℕ → List ℕ → Restored
  restore_plugin_state_via_registry host state_id expected version destination =
      restore_migrated host.migrations host.plugin_state state_id expected version destination

  unfoldable pub latency_lane_input : PluginHost → GraphLaneInput
  latency_lane_input host = record {
    lane_token = host.descriptor.lane_token;
    active = can_process host;
    channel_count = host.descriptor.output_channels;
    reported_latency_samples = host.descriptor.reported_latency_samples;
  }
