-- ===== src/Vst/PluginHost/Invariant.antt =====
-- Every operation of the host keeps it well formed.
use mathlib.Core.Path.{subst}
use hibiki_dsp.Base.{ℕ, ◌≡◌, ◌∙◌, refl, sym, ap, true, Bool-cases, inl, inr, arith}
use hibiki_dsp.Base.Double.{Double}
use hibiki_dsp.Vst.WorkerLane.{
  ExchangeResult, LaneConfig, WorkerLane, detach_lane, process_block, handshake_lane, prepare_lane,
  valid_config,
}
use hibiki_dsp.Vst.PluginHost.{
  HostState, quarantined, PluginHost, can_process, stop, report_crash, heartbeat, poll_watchdog,
  prepare_worker_session, handshake_worker, process_worker_block, capture_plugin_state,
  register_plugin_state_migration,
}
use hibiki_dsp.Vst.PluginHost.Quarantine.{
  HostCall, host_after, starts, stops, crashes, beats, polls, prepares, shakes, processes, captures,
  registers,
}
use hibiki_dsp.Vst.PluginHost.Valid.{
  IsAcceptable, IsHost, is_open, closed-IsHost, dropped-IsHost, start-IsHost, exchanged-IsHost,
}

module _ (d : Double) where
  handshake-kept :
      (lane : WorkerLane d) (answer : ExchangeResult)
      → ((handshake_lane d lane answer).0.config ≡ lane.config)
        × (is_open d (handshake_lane d lane answer).0 ≡ true → is_open d lane ≡ true)
  unfolding handshake_lane
  handshake-kept lane answer = ground arith

  process-kept :
      (lane : WorkerLane d) (block_start frames : ℕ) (answer : ExchangeResult)
      → ((process_block d lane block_start frames answer).0.config ≡ lane.config)
        × (is_open d (process_block d lane block_start frames answer).0 ≡ true
            → is_open d lane ≡ true)
  unfolding process_block
  process-kept lane block_start frames answer = ground arith

  prepare-IsHost :
      (host : PluginHost d) (sample_rate : d.Value) (max_block_frames : ℕ)
      → IsHost d host
      → IsHost d (prepare_worker_session d host sample_rate max_block_frames).0
  unfolding prepare_worker_session prepare_lane detach_lane
  prepare-IsHost host sample_rate max_block_frames v = elim (Bool-cases (can_process d host)) [
    | inr off ↦ rw (prepare_worker_session, off) v
    | inl on ↦ elim (Bool-cases (valid_config d config)) [
      | inl good ↦
          rw (prepare_worker_session, prepare_lane, on, good)
            (record {
              acceptable = v.acceptable;
              own_token = λ e. refl;
              own_channels = λ e. refl;
              configured = λ e. good;
            })
      | inr bad ↦
          rw (prepare_worker_session, prepare_lane, on, bad) (closed-IsHost d _ v.acceptable refl)
    ]
  ]
    where
      config : LaneConfig d
      config = record {
        lane_token = host.descriptor.lane_token;
        channels = host.descriptor.output_channels;
        sample_rate = sample_rate;
        reported_latency_samples = host.descriptor.reported_latency_samples;
        max_block_frames = max_block_frames;
      }

  watched-IsHost :
      (host after : PluginHost d)
      → IsHost d host
      → after.descriptor ≡ host.descriptor
      → after.worker_lane ≡ host.worker_lane
      → (can_process d after ≡ true → can_process d host ≡ true)
      → IsHost d after
  watched-IsHost host after v plugin lane on = record {
    acceptable = λ e. subst IsAcceptable (sym plugin) (v.acceptable (on e));
    own_token = λ e.
        ap (λ l. l.config.lane_token) lane
        ∙ v.own_token (ap (is_open d) (sym lane) ∙ e)
        ∙ ap (λ p. p.lane_token) (sym plugin);
    own_channels = λ e.
        ap (λ l. l.config.channels) lane
        ∙ v.own_channels (ap (is_open d) (sym lane) ∙ e)
        ∙ ap (λ p. p.output_channels) (sym plugin);
    configured =
        λ e. ap (λ l. valid_config d l.config) lane ∙ v.configured (ap (is_open d) (sym lane) ∙ e);
  }

  -- Every operation of the host keeps this: a running host has a plugin that is named, trusted, certified, has a
  -- token, as many inputs as outputs, one to eight, a timeout of 1 to 5000 ms and a bus layout, if any, that
  -- agrees with them; and a worker lane that is open for exchanges has a valid configuration with the token and
  -- the channels of that plugin.
  pub host_after-IsHost :
      (host : PluginHost d) (call : HostCall d) → IsHost d host → IsHost d (host_after d host call)
  unfolding host_after stop report_crash heartbeat poll_watchdog handshake_worker
      process_worker_block capture_plugin_state register_plugin_state_migration
  host_after-IsHost host (starts descriptor) v = start-IsHost d host descriptor
  host_after-IsHost host stops v = dropped-IsHost d host HostState.disabled refl
  host_after-IsHost host crashes v = dropped-IsHost d host quarantined refl
  host_after-IsHost host (beats now_ms) v =
      watched-IsHost host (heartbeat d host now_ms).0 v (ground arith) (ground arith) (ground arith)
  host_after-IsHost host (polls now_ms) v =
      watched-IsHost host (poll_watchdog d host now_ms).0 v (ground arith) (ground arith)
        (ground arith)
  host_after-IsHost host (prepares sample_rate max_block_frames) v =
      prepare-IsHost host sample_rate max_block_frames v
  host_after-IsHost host (shakes answer) v = elim (Bool-cases (can_process d host)) [
    | inr off ↦ rw (host_after, handshake_worker, off) v
    | inl on ↦
        rw (host_after, handshake_worker, on)
          (exchanged-IsHost d host (handshake_lane d host.worker_lane answer) v
            (handshake-kept host.worker_lane answer).0 (handshake-kept host.worker_lane answer).1)
  ]
  host_after-IsHost host (processes block_start frames answer) v =
      elim (Bool-cases (can_process d host)) [
        | inr off ↦ rw (host_after, process_worker_block, off) v
        | inl on ↦
            rw (host_after, process_worker_block, on)
              (exchanged-IsHost d host (process_block d host.worker_lane block_start frames answer)
                v (process-kept host.worker_lane block_start frames answer).0
                (process-kept host.worker_lane block_start frames answer).1)
      ]
  host_after-IsHost host (captures state_id identity state_version bytes) v =
      elim (Bool-cases (can_process d host)) [
        | inr off ↦ rw (host_after, capture_plugin_state, off) v
        | inl on ↦
            rw (host_after, capture_plugin_state, on)
              (record {
                acceptable = v.acceptable;
                own_token = v.own_token;
                own_channels = v.own_channels;
                configured = v.configured;
              })
      ]
  host_after-IsHost host (registers identity source_version target_version migration) v = record {
    acceptable = v.acceptable;
    own_token = v.own_token;
    own_channels = v.own_channels;
    configured = v.configured;
  }
