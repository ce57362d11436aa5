-- ===== src/Tests/Devices.antt =====
-- The device catalog, the switch and the recovery.
use hibiki_dsp.Base.{
  ℕ, ◌≡◌, ◌≤◌, refl, Bool, true, false, List, [], ◌∷◌, Option, none, some, arith, Text, inl, inr,
  if◌then◌else◌,
}
use hibiki_dsp.Base.Entries.{find_entry}
use hibiki_dsp.Utf8.{is_printable_utf8, printable_from, decode_step}
use hibiki_dsp.Utf8.Nul.{contains_nul}
use hibiki_dsp.Devices.Catalog.{
  Device, render, capture, active, unplugged, Catalog, find, selectable, valid_device, upsert,
  mark_default, set_availability,
}
use hibiki_dsp.Devices.Catalog.Defaults.{default_count}
use hibiki_dsp.Devices.Catalog.Writes.{IsCatalog}
use hibiki_dsp.Devices.Catalog.Valid.{
  catalog_after, catalog_after-IsCatalog, upserts, marks_default,
}
use hibiki_dsp.Devices.Switch.{
  Target, new_switch, valid_target, begin, prepare_complete, commit, rollback, synced,
  default_target,
}
use hibiki_dsp.Devices.Switch.Transaction.{
  IsSwitch, switch_after, switch_after-IsSwitch, begins, begin-transaction,
}
use hibiki_dsp.Devices.Recovery.{
  Recovery, RecoveryEvent, new_recovery, audio_service_restarted, endpoint_removed, degraded,
  stable, observe, begin_rebind_from, prepare, commit_rebind, target_of,
}
use hibiki_dsp.Devices.Recovery.Invariant.{
  IsRecovery, recovery_after, recovery_after-IsRecovery, observes,
}
use hibiki_dsp.Devices.Recovery.Rebind.{observe-stale, rebind-commits}

abbrev speakers : Device
speakers = record {
  schema_version = 1;
  endpoint_id = 115 ∷ [];
  display_name = 83 ∷ [];
  flow = render;
  availability = active;
  channels = 2;
  sample_rate = 48000;
  buffer_frames = 128;
  is_default = true;
  last_sequence = 3;
}

empty-IsCatalog : IsCatalog []
unfolding default_count
empty-IsCatalog = record {
  devices = record { bounded = omega arith; entries = tt; distinct = tt };
  one_default = λ flow. omega arith;
}

abbrev catalog : Catalog
catalog = catalog_after [] (upserts speakers)

catalog-IsCatalog : IsCatalog catalog
catalog-IsCatalog = catalog_after-IsCatalog [] (upserts speakers) empty-IsCatalog

catalog_after-IsCatalog_example :
    IsCatalog (catalog_after catalog (marks_default (115 ∷ []) render 5))
catalog_after-IsCatalog_example =
    catalog_after-IsCatalog catalog (marks_default (115 ∷ []) render 5) catalog-IsCatalog

new_switch-IsSwitch : IsSwitch new_switch
new_switch-IsSwitch = record { state_holds = (refl, refl); active_valid = inl refl }

abbrev target : Target
target = target_of speakers

switch_after-IsSwitch_example : IsSwitch (switch_after new_switch (begins target))
switch_after-IsSwitch_example = switch_after-IsSwitch new_switch (begins target) new_switch-IsSwitch

target-accepted : (begin new_switch target).1 ≡ true
unfolding begin valid_target contains_nul is_printable_utf8 printable_from decode_step
target-accepted = refl

begin-transaction_example :
    let begun = (begin new_switch target).0 in
    (commit (prepare_complete begun).0
      ≡ (record { state = synced; active = target; pending = default_target }, true))
    × (rollback begun ≡ new_switch)
    × (rollback (prepare_complete begun).0 ≡ new_switch)
begin-transaction_example =
    begin-transaction new_switch target new_switch-IsSwitch refl target-accepted

abbrev restart : RecoveryEvent
restart = record { sequence = 4; kind = audio_service_restarted; affects_active_endpoint = false }

abbrev late : RecoveryEvent
late = record { sequence = 4; kind = endpoint_removed; affects_active_endpoint = true }

new_recovery-IsRecovery : IsRecovery new_recovery
new_recovery-IsRecovery = record { switch_valid = new_switch-IsSwitch; rebind_open = λ h. cc }

recovery_after-IsRecovery_example : IsRecovery (recovery_after new_recovery (observes restart))
recovery_after-IsRecovery_example =
    recovery_after-IsRecovery new_recovery (observes restart) new_recovery-IsRecovery

observe-stale_example :
    observe (observe new_recovery restart).0 late ≡ ((observe new_recovery restart).0, false)
observe-stale_example = observe-stale new_recovery restart late (omega arith)

abbrev one_device : Catalog
one_device = speakers ∷ []

one_device-IsCatalog : IsCatalog one_device
unfolding default_count valid_device is_printable_utf8 printable_from decode_step
one_device-IsCatalog = record {
  devices = record { bounded = omega arith; entries = (refl, tt); distinct = (tt, tt) };
  one_default = λ flow. ground arith;
}

find-speakers : find one_device (115 ∷ []) ≡ some speakers
unfolding find find_entry hibiki_dsp.Base.Tests.text_eq
find-speakers = refl

speakers-selectable : selectable one_device (115 ∷ []) render ≡ true
unfolding selectable find_entry hibiki_dsp.Base.Tests.text_eq
speakers-selectable = refl

rebind-commits_example :
    let begun = begin_rebind_from (observe new_recovery restart).0 one_device (115 ∷ []) in
    let prepared = prepare begun.0 in
    let committed = commit_rebind prepared.0 in
    (begun.1 ≡ true)
    × (prepared.1 ≡ true)
    × (committed.1 ≡ true)
    × (committed.0.transaction.active ≡ target_of speakers)
    × (committed.0.state ≡ stable)
unfolding observe hibiki_dsp.Devices.Recovery.asks_rebind
rebind-commits_example =
    rebind-commits (observe new_recovery restart).0 one_device (115 ∷ []) speakers
      one_device-IsCatalog refl refl find-speakers speakers-selectable refl

-- A valid capture device.
abbrev moved : Device
moved = record speakers { endpoint_id = 109 ∷ []; flow = capture; is_default = false }

abbrev two_devices : Catalog
two_devices = speakers ∷ record moved { flow = render } ∷ []

-- Moving a device that is no default to the other flow takes the default of the flow that it leaves.
default_lost : default_count render (upsert two_devices moved).0 ≡ 0
unfolding default_count upsert valid_device is_printable_utf8 printable_from decode_step find_entry
    hibiki_dsp.Base.Entries.update_entry hibiki_dsp.Devices.Catalog.replace
    hibiki_dsp.Devices.Catalog.clear_defaults hibiki_dsp.Base.Tests.text_eq
default_lost = refl
