-- ===== src/Vst/PluginHost/Quarantine.antt =====
-- When a host stops processing, and that it then stays so.
use hibiki_dsp.Base.{
  ℕ, ◌+◌, ◌≤◌, ◌<◌, ◌≡◌, ◌↔◌, ◌∙◌, refl, ap, true, false, List, [], ◌∷◌, Option, Text,
  if◌then◌else◌, Bool-cases, arith,
}
use hibiki_dsp.Base.Double.{Double}
use hibiki_dsp.Vst.WorkerLane.{
  ExchangeResult, is_ok, not_running, detached, detach_lane, process_block,
}
use hibiki_dsp.Vst.PluginState.{StateIdentity, Handler}
use hibiki_dsp.Vst.PluginHost.{
  quarantined, PluginDescriptor, PluginHost, can_process, start, stop, report_crash, heartbeat,
  poll_watchdog, prepare_worker_session, handshake_worker, process_worker_block,
  capture_plugin_state, register_plugin_state_migration,
}

module _ (d : Double) where
  pub data HostCall : Type 0 where
    starts : PluginDescriptor → HostCall
    stops crashes : HostCall
    beats polls : ℕ → HostCall
    prepares : d.Value → ℕ → HostCall
    shakes : ExchangeResult → HostCall
    processes : ℕ → ℕ → ExchangeResult → HostCall
    captures : Text → StateIdentity → ℕ → List ℕ → HostCall
    registers : StateIdentity → ℕ → ℕ → Option Handler → HostCall

  unfoldable pub host_after : PluginHost d → HostCall → PluginHost d
  host_after host (starts descriptor) = (start d host descriptor).0
  host_after host stops = stop d host
  host_after host crashes = report_crash d host
  host_after host (beats now_ms) = (heartbeat d host now_ms).0
  host_after host (polls now_ms) = (poll_watchdog d host now_ms).0
  host_after host (prepares sample_rate max_block_frames) =
      (prepare_worker_session d host sample_rate max_block_frames).0
  host_after host (shakes answer) = (handshake_worker d host answer).0
  host_after host (processes block_start frames answer) =
      (process_worker_block d host block_start frames answer).0
  host_after host (captures state_id identity state_version bytes) =
      (capture_plugin_state d host state_id identity state_version bytes).0
  host_after host (registers identity source_version target_version migration) =
      (register_plugin_state_migration d host identity source_version target_version migration).0

  abbrev pub NotStart : HostCall → Type 0
  NotStart (starts descriptor) = ⊥
  NotStart _ = Unit

  abbrev pub NoStart : List HostCall → Type 0
  NoStart [] = Unit
  NoStart (call ∷ calls) = NotStart call × NoStart calls

  unfoldable pub host_run : PluginHost d → List HostCall → PluginHost d
  host_run host [] = host
  host_run host (call ∷ calls) = host_run (host_after host call) calls

  stays :
      (host : PluginHost d) (call : HostCall)
      → NotStart call
      → can_process d host ≡ false
      → can_process d (host_after host call) ≡ false
  unfolding host_after stop report_crash heartbeat poll_watchdog prepare_worker_session
      handshake_worker process_worker_block capture_plugin_state register_plugin_state_migration
  stays host (starts descriptor) h off = absurd h
  stays host stops h off = refl
  stays host crashes h off = refl
  stays host (beats now_ms) h off = ground (arith, off)
  stays host (polls now_ms) h off = ground (arith, off)
  stays host (prepares sample_rate max_block_frames) h off =
      rw (host_after, prepare_worker_session, off) off
  stays host (shakes answer) h off = rw (host_after, handshake_worker, off) off
  stays host (processes block_start frames answer) h off =
      rw (host_after, process_worker_block, off) off
  stays host (captures state_id identity state_version bytes) h off =
      rw (host_after, capture_plugin_state, off) off
  stays host (registers identity source_version target_version migration) h off = off

  stays_down :
      (host : PluginHost d) (calls : List HostCall)
      → NoStart calls
      → can_process d host ≡ false
      → can_process d (host_run host calls) ≡ false
  unfolding host_run
  stays_down host [] h off = off
  stays_down host (call ∷ calls) h off =
      stays_down (host_after host call) calls h.1 (stays host call h.0 off)

  -- From a host that does not run, an exchange and a capture are refused without any effect.
  refused :
      (host : PluginHost d) (block_start frames : ℕ) (answer : ExchangeResult)
      → can_process d host ≡ false
      → process_worker_block d host block_start frames answer ≡ (host, not_running)
  unfolding process_worker_block
  refused host block_start frames answer off = rw off

  crash_of :
      (host : PluginHost d) (block_start frames : ℕ) (answer : ExchangeResult)
      → can_process d host ≡ true
      → is_ok (process_worker_block d host block_start frames answer).1 ≡ false
      → (process_worker_block d host block_start frames answer).0
        ≡ report_crash d (record host {
          worker_lane = (process_block d host.worker_lane block_start frames answer).0;
        })
  unfolding process_worker_block
  crash_of host block_start frames answer on h = ground (arith, on)

  crash-quarantined :
      (host : PluginHost d)
      → ((report_crash d host).state ≡ quarantined)
        × ((report_crash d host).worker_lane.state ≡ detached)
        × (can_process d (report_crash d host) ≡ false)
  unfolding report_crash detach_lane
  crash-quarantined host = (refl, refl, refl)

  -- A block that fails in a running host, for whatever reason, quarantines the host and detaches its worker;
  -- whatever is called then, short of a new start, the host does not process, and a further block is answered
  -- `not_running` and changes nothing.
  pub failed_block-quarantined :
      (host : PluginHost d) (block_start frames later_start later_frames : ℕ)
      (answer later_answer : ExchangeResult) (calls : List HostCall)
      → can_process d host ≡ true
      → is_ok (process_worker_block d host block_start frames answer).1 ≡ false
      → NoStart calls
      → let after = (process_worker_block d host block_start frames answer).0 in
        (after.state ≡ quarantined)
        × (after.worker_lane.state ≡ detached)
        × (can_process d (host_run after calls) ≡ false)
        × (process_worker_block d (host_run after calls) later_start later_frames later_answer
            ≡ (host_run after calls, not_running))
  failed_block-quarantined host block_start frames later_start later_frames answer later_answer
        calls on h none_starts =
      let (state, lane, off) = crash-quarantined (record host {
        worker_lane = (process_block d host.worker_lane block_start frames answer).0;
      }) in
      let same = crash_of host block_start frames answer on h in
      let after : PluginHost d = (process_worker_block d host block_start frames answer).0 in
      let down : can_process d (host_run after calls) ≡ false =
        stays_down after calls none_starts (ap (can_process d) same ∙ off) in
      (
        ap (λ x. x.state) same ∙ state,
        ap (λ x. x.worker_lane.state) same ∙ lane,
        down,
        refused (host_run after calls) later_start later_frames later_answer down,
      )

  beaten :
      (host : PluginHost d) (beat : ℕ)
      → (heartbeat d host beat).1 ≡ true
      → ((heartbeat d host beat).0 ≡ record host { last_heartbeat_ms = beat })
        × (can_process d host ≡ true)
  unfolding heartbeat
  beaten host beat h = ground (arith, Bool-cases (can_process d host))

  -- What a poll of a running host decides.
  abbrev pub Polled : PluginHost d → ℕ → ℕ → Type 0
  Polled alive beat now =
      (((poll_watchdog d alive now).1 ≡ true) ↔ (beat + alive.descriptor.watchdog_timeout_ms < now))
      × ((poll_watchdog d alive now).0
          ≡ (if (poll_watchdog d alive now).1 then record alive { state = quarantined } else alive))

  polled :
      (alive : PluginHost d) (now : ℕ)
      → can_process d alive ≡ true
      → 1 ≤ alive.last_heartbeat_ms
      → alive.last_heartbeat_ms ≤ now
      → Polled alive alive.last_heartbeat_ms now
  unfolding poll_watchdog
  polled alive now on some later =
      ((λ h. ground (arith, on), λ h. ground (arith, on)), ground (arith, on))

  -- A heartbeat that a host accepts at a time that is not zero is what the next poll measures from: at a later
  -- time, the poll answers true exactly when more than the timeout has passed, and then quarantines the host;
  -- otherwise it changes nothing.
  pub poll_watchdog-heartbeat :
      (host : PluginHost d) (beat now : ℕ)
      → (heartbeat d host beat).1 ≡ true
      → 1 ≤ beat
      → beat ≤ now
      → Polled (heartbeat d host beat).0 beat now
  poll_watchdog-heartbeat host beat now h some later =
      let (same, on) = beaten host beat h in
      rw same (polled (record host { last_heartbeat_ms = beat }) now on some later)
