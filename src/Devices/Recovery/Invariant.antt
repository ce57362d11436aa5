-- ===== src/Devices/Recovery/Invariant.antt =====
-- Recovery keeps the switch transaction well formed, and open while it rebinds.
use mathlib.Core.Path.{subst}
use hibiki_dsp.Base.{
  ◌≡◌, refl, Bool, true, false, ◌||◌, Text, Bool-cases, Option-cases, inl, inr, arith,
}
use hibiki_dsp.Devices.Catalog.{Catalog, render, is_empty, find, selectable}
use hibiki_dsp.Devices.Switch
use hibiki_dsp.Devices.Switch.{
  SwitchState, Target, Switch, default_target, valid_target, begin, opening, is_preparing,
  is_write_pending, prepare_complete, commit, rollback,
}
use hibiki_dsp.Devices.Switch.Transaction.{
  IsSwitch, switch_after, switch_after-IsSwitch, begins, prepares, commits, rolls_back,
}
use hibiki_dsp.Devices.Recovery.{
  RecoveryEvent, Recovery, observe, may_rebind, begin_rebind, begin_rebind_from, target_of,
  is_rebinding, prepare, commit_rebind, rollback_rebind, degrade,
}

-- While rebinding, the switch has a pending target.
abbrev pub is_open : SwitchState → Bool
is_open state = is_preparing state || is_write_pending state

pub record IsRecovery (recovery : Recovery) : Type 0 where
  pub switch_valid : IsSwitch recovery.transaction
  pub rebind_open : is_rebinding recovery.state ≡ true → is_open recovery.transaction.state ≡ true

pub data RecoveryCall : Type 0 where
  observes : RecoveryEvent → RecoveryCall
  begins_rebind : Target → RecoveryCall
  begins_rebind_from : Catalog → Text → RecoveryCall
  prepares_rebind commits_rebind rolls_back_rebind degrades : RecoveryCall

unfoldable pub recovery_after : Recovery → RecoveryCall → Recovery
recovery_after recovery (observes event) = (observe recovery event).0
recovery_after recovery (begins_rebind target) = (begin_rebind recovery target).0
recovery_after recovery (begins_rebind_from catalog endpoint_id) =
    (begin_rebind_from recovery catalog endpoint_id).0
recovery_after recovery prepares_rebind = (prepare recovery).0
recovery_after recovery commits_rebind = (commit_rebind recovery).0
recovery_after recovery rolls_back_rebind = rollback_rebind recovery
recovery_after recovery degrades = degrade recovery

begin-IsSwitch :
    (switch : Switch) (target : Target) → IsSwitch switch → IsSwitch (begin switch target).0
unfolding switch_after
begin-IsSwitch switch target v = switch_after-IsSwitch switch (begins target) v

pub opening-is_preparing : (state : SwitchState) → is_preparing (opening state) ≡ true
opening-is_preparing Switch.unbound = refl
opening-is_preparing Switch.binding = refl
opening-is_preparing Switch.synced = refl
opening-is_preparing Switch.write_pending = refl
opening-is_preparing Switch.rebinding = refl
opening-is_preparing Switch.degraded = refl

begin-opens :
    (switch : Switch) (target : Target)
    → (begin switch target).1 ≡ true
    → is_preparing (begin switch target).0.state ≡ true
unfolding begin
begin-opens switch target h = ground (arith, opening-is_preparing switch.state)

observe-IsRecovery :
    (recovery : Recovery) (event : RecoveryEvent)
    → IsRecovery recovery
    → IsRecovery (observe recovery event).0
unfolding observe
observe-IsRecovery recovery event v = record {
  switch_valid = subst IsSwitch same v.switch_valid;
  rebind_open = ground (arith, v.rebind_open);
}
  where
    same : recovery.transaction ≡ (observe recovery event).0.transaction
    same = ground arith

begin_rebind-IsRecovery :
    (recovery : Recovery) (target : Target)
    → IsRecovery recovery
    → IsRecovery (begin_rebind recovery target).0
unfolding begin_rebind
begin_rebind-IsRecovery recovery target v = elim (Bool-cases (may_rebind recovery.state)) [
  | inr e ↦ rw (begin_rebind, e) v
  | inl e ↦ elim (Bool-cases (begin recovery.transaction target).1) [
    | inr refused ↦
        rw (begin_rebind, e, refused)
          (record {
            switch_valid = begin-IsSwitch recovery.transaction target v.switch_valid;
            rebind_open = λ h. cc;
          })
    | inl taken ↦
        rw (begin_rebind, e, taken)
          (record {
            switch_valid = begin-IsSwitch recovery.transaction target v.switch_valid;
            rebind_open = λ h. rw (begin-opens recovery.transaction target taken) refl;
          })
  ]
]

begin_rebind_from-IsRecovery :
    (recovery : Recovery) (catalog : Catalog) (endpoint_id : Text)
    → IsRecovery recovery
    → IsRecovery (begin_rebind_from recovery catalog endpoint_id).0
unfolding begin_rebind_from
begin_rebind_from-IsRecovery recovery catalog endpoint_id v =
    elim (Bool-cases (is_empty endpoint_id)) [
      | inl e ↦ rw (begin_rebind_from, e) v
      | inr e ↦ elim (Bool-cases (selectable catalog endpoint_id render)) [
        | inr refused ↦ rw (begin_rebind_from, e, refused) v
        | inl usable ↦ elim (Option-cases (find catalog endpoint_id)) [
          | inl missing ↦ rw (begin_rebind_from, e, usable, missing) v
          | inr (device, known) ↦
              rw (begin_rebind_from, e, usable, known)
                (begin_rebind-IsRecovery recovery (target_of device) v)
        ]
      ]
    ]

prepare-is_open :
    (switch : Switch)
    → is_open switch.state ≡ true
    → is_open (prepare_complete switch).0.state ≡ true
unfolding prepare_complete
prepare-is_open switch h = ground arith

commit-refused :
    (switch : Switch)
    → (commit switch).1 ≡ false
    → is_open switch.state ≡ true
    → is_open (commit switch).0.state ≡ true
unfolding commit
commit-refused switch refused h = ground arith

prepare-IsRecovery : (recovery : Recovery) → IsRecovery recovery → IsRecovery (prepare recovery).0
unfolding prepare switch_after
prepare-IsRecovery recovery v = elim (Bool-cases (is_rebinding recovery.state)) [
  | inr e ↦ rw (prepare, e) v
  | inl e ↦
      rw (prepare, e)
        (record {
          switch_valid = switch_after-IsSwitch recovery.transaction prepares v.switch_valid;
          rebind_open = λ h. prepare-is_open recovery.transaction (v.rebind_open e);
        })
]

commit-IsRecovery :
    (recovery : Recovery) → IsRecovery recovery → IsRecovery (commit_rebind recovery).0
unfolding commit_rebind switch_after
commit-IsRecovery recovery v = elim (Bool-cases (is_rebinding recovery.state)) [
  | inr e ↦ rw (commit_rebind, e) v
  | inl e ↦ elim (Bool-cases (commit recovery.transaction).1) [
    | inl done ↦
        rw (commit_rebind, e, done)
          (record {
            switch_valid = switch_after-IsSwitch recovery.transaction commits v.switch_valid;
            rebind_open = λ h. cc;
          })
    | inr refused ↦
        rw (commit_rebind, e, refused)
          (record {
            switch_valid = switch_after-IsSwitch recovery.transaction commits v.switch_valid;
            rebind_open = λ h. commit-refused recovery.transaction refused (v.rebind_open e);
          })
  ]
]

rollback-IsRecovery :
    (recovery : Recovery) → IsRecovery recovery → IsRecovery (rollback_rebind recovery)
unfolding rollback_rebind switch_after
rollback-IsRecovery recovery v = record {
  switch_valid = switch_after-IsSwitch recovery.transaction rolls_back v.switch_valid;
  rebind_open = λ h. ground arith;
}

-- Every operation keeps the recovery well formed: the switch transaction it drives is well formed, and while
-- it is rebinding that transaction is open.
pub recovery_after-IsRecovery :
    (recovery : Recovery) (call : RecoveryCall)
    → IsRecovery recovery
    → IsRecovery (recovery_after recovery call)
unfolding recovery_after degrade
recovery_after-IsRecovery recovery (observes event) v = observe-IsRecovery recovery event v
recovery_after-IsRecovery recovery (begins_rebind target) v =
    begin_rebind-IsRecovery recovery target v
recovery_after-IsRecovery recovery (begins_rebind_from catalog endpoint_id) v =
    begin_rebind_from-IsRecovery recovery catalog endpoint_id v
recovery_after-IsRecovery recovery prepares_rebind v = prepare-IsRecovery recovery v
recovery_after-IsRecovery recovery commits_rebind v = commit-IsRecovery recovery v
recovery_after-IsRecovery recovery rolls_back_rebind v = rollback-IsRecovery recovery v
recovery_after-IsRecovery recovery degrades v = record {
  switch_valid = v.switch_valid;
  rebind_open = λ h. cc;
}
