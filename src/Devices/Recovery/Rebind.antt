-- ===== src/Devices/Recovery/Rebind.antt =====
-- Recovery brings a usable device of the catalog into service, and ignores stale events.
use hibiki_dsp.Base.{◌≡◌, ◌≤◌, refl, true, false, some, ◌==◌, Text, arith}
use hibiki_dsp.Base.Entries.{All-find_entry}
use hibiki_dsp.Utf8.Nul.{printable-contains_nul}
use hibiki_dsp.Devices.Catalog.{
  Device, Catalog, render, is_empty, find, selectable, has_endpoint, valid_device,
}
use hibiki_dsp.Devices.Catalog.Writes.{IsCatalog}
use hibiki_dsp.Devices.Switch.{valid_target, begin, prepare_complete, commit}
use hibiki_dsp.Devices.Recovery.{
  RecoveryEvent, Recovery, stable, observe, may_rebind, begin_rebind, begin_rebind_from, target_of,
  prepare, commit_rebind,
}
use hibiki_dsp.Devices.Recovery.Invariant.{opening-is_preparing}

-- After an event is observed, no event of that or an earlier sequence number is accepted, or changes
-- anything.
pub observe-stale :
    (recovery : Recovery) (event late : RecoveryEvent)
    → late.sequence ≤ event.sequence
    → observe (observe recovery event).0 late ≡ ((observe recovery event).0, false)
unfolding observe
observe-stale recovery event late h = ground arith

catalog-target :
    (catalog : Catalog) (endpoint_id : Text) (device : Device)
    → IsCatalog catalog
    → find catalog endpoint_id ≡ some device
    → (device.channels == 1) ≡ false
    → valid_target (target_of device) ≡ true
unfolding find valid_target valid_device
catalog-target catalog endpoint_id device v known wide =
    let ok = (All-find_entry _ (has_endpoint endpoint_id) catalog v.devices.entries known).0 in
    ground (arith, ok, printable-contains_nul device.endpoint_id)

-- A selectable render device of a well-formed catalog that has more than one channel is brought into
-- service: when a rebind is pending or the recovery degraded, the rebind begins, prepares and commits, the
-- device is the active target, and the recovery is stable.
pub rebind-commits :
    (recovery : Recovery) (catalog : Catalog) (endpoint_id : Text) (device : Device)
    → IsCatalog catalog
    → may_rebind recovery.state ≡ true
    → is_empty endpoint_id ≡ false
    → find catalog endpoint_id ≡ some device
    → selectable catalog endpoint_id render ≡ true
    → (device.channels == 1) ≡ false
    → let begun = begin_rebind_from recovery catalog endpoint_id in
      let prepared = prepare begun.0 in
      let committed = commit_rebind prepared.0 in
      (begun.1 ≡ true)
      × (prepared.1 ≡ true)
      × (committed.1 ≡ true)
      × (committed.0.transaction.active ≡ target_of device)
      × (committed.0.state ≡ stable)
unfolding begin_rebind_from begin_rebind prepare commit_rebind begin prepare_complete commit
rebind-commits recovery catalog endpoint_id device v ready named known usable wide =
    let accepted = catalog-target catalog endpoint_id device v known wide in
    let opened = opening-is_preparing recovery.transaction.state in
    rw (begin_rebind_from, named, usable, known, begin_rebind, ready, begin, accepted)
      (rw (prepare, prepare_complete, opened, commit_rebind, commit) (refl, refl, refl, refl, refl))
