-- ===== src/Tests/Hosting.antt =====
-- The bus layout, the worker lane, the plugin host and the scene states.
use hibiki_dsp.Base.{◌+◌, ◌≡◌, ◌↔◌, refl, true, false, List, [], ◌∷◌, arith, replicate}
use hibiki_dsp.Base.Int.{pos}
use hibiki_dsp.Base.Double.{integers}
use hibiki_dsp.Vst.BusLayout.{
  AudioBus, BusLayout, main, sidechain, blank_bus, valid, validate_layout, validate_buses,
  tally_bus, LayoutResult,
}
use hibiki_dsp.Vst.BusLayout.Correct.{IsLayout, validate_layout_iff}
use hibiki_dsp.Vst.WorkerLane.{
  WorkerLane, ok, worker_error, is_ok, ready, detached, not_running, process_block,
  block_range_fits,
}
use hibiki_dsp.Vst.WorkerLane.Timeline.{Block, run_blocks, run_blocks_iff, Tiles, total_frames}
use hibiki_dsp.Vst.PluginHost.{
  PluginHost, PluginDescriptor, running, quarantined, new_host, default_layout, can_process, start,
  heartbeat, process_worker_block,
}
use hibiki_dsp.Vst.PluginHost.Quarantine.{
  beats, stops, starts, host_run, host_after, Polled, failed_block-quarantined,
  poll_watchdog-heartbeat,
}
use hibiki_dsp.Vst.PluginHost.Valid.{IsHost}
use hibiki_dsp.Vst.PluginHost.Invariant.{host_after-IsHost}

abbrev bus : AudioBus
bus = record { role = main; active = 1; reserved = 0; channels = 2 }

-- A stereo effect with a side chain.
abbrev ducker : BusLayout
ducker = record {
  schema_version = 1;
  input_bus_count = 2;
  output_bus_count = 1;
  inputs = bus ∷ record bus { role = sidechain } ∷ replicate 6 blank_bus;
  outputs = bus ∷ replicate 7 blank_bus;
}

ducker-valid : validate_layout ducker ≡ valid
unfolding validate_layout validate_buses tally_bus
ducker-valid = refl

-- A second main bus is refused for its place.
two_mains :
    validate_layout (record ducker { inputs = bus ∷ bus ∷ replicate 6 blank_bus })
    ≡ LayoutResult.main_not_first
unfolding validate_layout validate_buses tally_bus
two_mains = refl

validate_layout_iff_example : (validate_layout ducker ≡ valid) ↔ IsLayout ducker
validate_layout_iff_example = validate_layout_iff ducker refl refl

-- A lane that has shaken hands.
abbrev lane : WorkerLane integers
lane = record {
  has_sandbox = true;
  config = record {
    lane_token = 5;
    channels = 2;
    sample_rate = pos 48000;
    reported_latency_samples = 0;
    max_block_frames = 512;
  };
  state = ready;
  next_block_start = 0;
  has_processed_block = false;
}

abbrev blocks : List Block
blocks = record { block_start = 1256; frames = 128; answer = ok } ∷ []

run_blocks_iff_example :
    let first : Block = record { block_start = 1000; frames = 256; answer = ok } in
    ((run_blocks integers lane (first ∷ blocks)).1 ≡ true) ↔ (
      Tiles integers 512 1000 (first ∷ blocks)
      × ((run_blocks integers lane (first ∷ blocks)).0.next_block_start
          ≡ 1000 + total_frames integers (first ∷ blocks)))
run_blocks_iff_example =
    run_blocks_iff integers lane (record { block_start = 1000; frames = 256; answer = ok }) blocks
      refl refl refl (omega arith)

abbrev descriptor : PluginDescriptor
descriptor = record {
  plugin_id = 112 ∷ [];
  input_channels = 2;
  output_channels = 2;
  reported_latency_samples = 0;
  trusted = true;
  watchdog_timeout_ms = 250;
  certified = true;
  lane_token = 5;
  bus_layout = default_layout;
}

new-IsHost : IsHost integers (new_host integers)
new-IsHost = record {
  acceptable = λ e. absurd cc;
  own_token = λ e. absurd cc;
  own_channels = λ e. absurd cc;
  configured = λ e. absurd cc;
}

host_after-IsHost_example :
    IsHost integers (host_after integers (new_host integers) (starts descriptor))
host_after-IsHost_example =
    host_after-IsHost integers (new_host integers) (starts descriptor) new-IsHost

-- A running host.
abbrev host : PluginHost integers
host = record (new_host integers) { descriptor = descriptor; state = running; worker_lane = lane }

start-descriptor : (start integers (new_host integers) descriptor).1 ≡ true
unfolding start
start-descriptor = refl

beaten : (heartbeat integers host 1000).1 ≡ true
unfolding heartbeat
beaten = refl

poll_watchdog-heartbeat_example : Polled integers (heartbeat integers host 1000).0 1000 1300
poll_watchdog-heartbeat_example =
    poll_watchdog-heartbeat integers host 1000 1300 beaten (omega arith) (omega arith)

block_fails : is_ok (process_worker_block integers host 0 128 worker_error).1 ≡ false
unfolding process_worker_block process_block block_range_fits
block_fails = refl

failed_block-quarantined_example :
    let after = (process_worker_block integers host 0 128 worker_error).0 in
    (after.state ≡ quarantined)
    × (after.worker_lane.state ≡ detached)
    × (can_process integers (host_run integers after (beats 2000 ∷ stops ∷ [])) ≡ false)
    × (process_worker_block integers (host_run integers after (beats 2000 ∷ stops ∷ [])) 128 64 ok
        ≡ (host_run integers after (beats 2000 ∷ stops ∷ []), not_running))
failed_block-quarantined_example =
    failed_block-quarantined integers host 0 128 128 64 worker_error ok (beats 2000 ∷ stops ∷ [])
      refl block_fails (tt, (tt, tt))
