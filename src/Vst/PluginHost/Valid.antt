-- ===== src/Vst/PluginHost/Valid.antt =====
-- A host that runs, runs an acceptable plugin, and its worker lane is that plugin's.
use hibiki_dsp.Base.{
  ◌≤◌, ◌≡◌, ◌≢◌, ◌∙◌, refl, ap, Bool, true, false, ◌||◌, Bool-cases, inl, inr, arith,
}
use hibiki_dsp.Base.Double.{Double}
use hibiki_dsp.Devices.Catalog.{is_empty}
use hibiki_dsp.Vst.BusLayout.{matches_main}
use hibiki_dsp.Vst.WorkerLane.{
  ExchangeResult, is_ok, WorkerLane, is_ready, is_prepared, detach_lane, valid_config,
}
use hibiki_dsp.Vst.PluginHost.{
  HostState, running, quarantined, is_running, PluginDescriptor, PluginHost, can_process, start,
  report_crash, exchanged, dropped, has_explicit_bus_layout,
}

-- What a plugin must be to run.
pub record IsAcceptable (descriptor : PluginDescriptor) : Type 0 where
  pub named : is_empty descriptor.plugin_id ≡ false
  pub some_channels : 1 ≤ descriptor.input_channels
  pub few_channels : descriptor.input_channels ≤ 8
  pub same_channels : descriptor.output_channels ≡ descriptor.input_channels
  pub trusted : descriptor.trusted ≡ true
  pub certified : descriptor.certified ≡ true
  pub some_timeout : 1 ≤ descriptor.watchdog_timeout_ms
  pub short_timeout : descriptor.watchdog_timeout_ms ≤ 5000
  pub tokened : descriptor.lane_token ≢ 0
  pub laid_out :
      has_explicit_bus_layout descriptor ≡ true
      → matches_main descriptor.bus_layout descriptor.input_channels descriptor.output_channels
        ≡ true

module _ (d : Double) where
  -- A lane that is open for exchanges.
  abbrev pub is_open : WorkerLane d → Bool
  is_open lane = is_prepared lane.state || is_ready lane.state

  pub record IsHost (host : PluginHost d) : Type 0 where
    pub acceptable : can_process d host ≡ true → IsAcceptable host.descriptor
    pub own_token :
        is_open host.worker_lane ≡ true
        → host.worker_lane.config.lane_token ≡ host.descriptor.lane_token
    pub own_channels :
        is_open host.worker_lane ≡ true
        → host.worker_lane.config.channels ≡ host.descriptor.output_channels
    pub configured : is_open host.worker_lane ≡ true → valid_config d host.worker_lane.config ≡ true

  start-IsAcceptable :
      (host : PluginHost d) (descriptor : PluginDescriptor)
      → (start d host descriptor).1 ≡ true
      → IsAcceptable descriptor
  unfolding start
  start-IsAcceptable host descriptor h = record {
    named = ground arith;
    some_channels = ground arith;
    few_channels = ground arith;
    same_channels = ground arith;
    trusted = ground arith;
    certified = ground arith;
    some_timeout = ground arith;
    short_timeout = ground arith;
    tokened = λ e. ground arith;
    laid_out = λ e. ground arith;
  }

  started :
      (host : PluginHost d) (descriptor : PluginDescriptor)
      → (start d host descriptor).1 ≡ true
      → (start d host descriptor).0
        ≡ record (dropped d host running) { descriptor = descriptor; last_heartbeat_ms = 0 }
  unfolding start
  started host descriptor h = ground arith

  not_started :
      (host : PluginHost d) (descriptor : PluginDescriptor)
      → (start d host descriptor).1 ≡ false
      → (start d host descriptor).0 ≡ dropped d host quarantined
  unfolding start
  not_started host descriptor h = ground arith

  -- A lane that is not open asks for nothing.
  pub closed-IsHost :
      (host : PluginHost d)
      → (can_process d host ≡ true → IsAcceptable host.descriptor)
      → is_open host.worker_lane ≡ false
      → IsHost host
  closed-IsHost host acceptable closed = record {
    acceptable = acceptable;
    own_token = λ e. absurd cc;
    own_channels = λ e. absurd cc;
    configured = λ e. absurd cc;
  }

  pub dropped-IsHost :
      (host : PluginHost d) (state : HostState)
      → is_running state ≡ false
      → IsHost (dropped d host state)
  unfolding detach_lane
  dropped-IsHost host state off = closed-IsHost (dropped d host state) (λ e. absurd cc) refl

  pub start-IsHost :
      (host : PluginHost d) (descriptor : PluginDescriptor) → IsHost (start d host descriptor).0
  unfolding detach_lane
  start-IsHost host descriptor = elim (Bool-cases (start d host descriptor).1) [
    | inl h ↦
        rw (started host descriptor h)
          (closed-IsHost _ (λ e. start-IsAcceptable host descriptor h) refl)
    | inr h ↦ rw (not_started host descriptor h) (dropped-IsHost host quarantined refl)
  ]

  -- An exchange that keeps the configuration of the lane, and only a lane that was open is open after it.
  pub exchanged-IsHost :
      (host : PluginHost d) (after : WorkerLane d × ExchangeResult)
      → IsHost host
      → after.0.config ≡ host.worker_lane.config
      → (is_open after.0 ≡ true → is_open host.worker_lane ≡ true)
      → IsHost (exchanged d host after).0
  unfolding report_crash
  exchanged-IsHost host after v same kept = elim (Bool-cases (is_ok after.1)) [
    | inr failed ↦
        rw failed (dropped-IsHost (record host { worker_lane = after.0 }) quarantined refl)
    | inl fine ↦ rw fine (record {
      acceptable = v.acceptable;
      own_token = λ e. ap (λ c. c.lane_token) same ∙ v.own_token (kept e);
      own_channels = λ e. ap (λ c. c.channels) same ∙ v.own_channels (kept e);
      configured = λ e. ap (valid_config d) same ∙ v.configured (kept e);
    })
  ]
