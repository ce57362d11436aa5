-- ===== src/Vst/Migration/Registered.antt =====
-- A registered migration is the one that a restore runs.
use hibiki_dsp.Base.{
  ℕ, ◌≡◌, ◌∙◌, ◌<◌, refl, ap, Bool, true, false, List, ◌++◌, some, ◌==◌, leb, length, set, take,
  drop, min, text_eq_refl, Option-cases, inl, inr, arith,
}
use hibiki_dsp.Base.Key.{text_key}
use hibiki_dsp.Base.Slots.{lookup, target_slot, find_slot-le, free_slot-le}
use hibiki_dsp.Base.Slots.Keyed.{lookup-store}
use hibiki_dsp.Vst.PluginState.{
  StateIdentity, StateResult, ok, migration_failed, migration_output_too_large, SavedState,
  StateStore, Restored, Handler, version_mismatch, refused, has_state_id, migrated, valid_state_id,
  valid_state_identity, capture, restore, restore_with_migration,
}
use hibiki_dsp.Vst.PluginState.Valid.{state_id_of, capture-stored}
use hibiki_dsp.Vst.Migration.{
  Migrations, with_rules, reaches, rivals, register_rule, restore_migrated,
}
use hibiki_dsp.Vst.Migration.Valid.{
  IsMigrations, goal_of, goal_key, registers, migrations_after, migrations_after-IsMigrations,
  rule_of, find_slot-goal,
}
use hibiki_dsp.Vst.Migration.Search.{restore_migrated-lookup}

-- What a migration reports: it is kept only where it succeeds and wrote no more than it was given room for.
abbrev pub reported : StateResult → Bool → StateResult
reported ok true = ok
reported ok false = migration_output_too_large
reported migration_output_too_large fits = migration_output_too_large
reported _ fits = migration_failed

abbrev pub written : StateResult → Bool → ℕ → ℕ
written ok true count = count
written _ fits count = 0

-- What a restore leaves once a migration has answered on the first `room` bytes of the buffer.
abbrev pub answered : List ℕ → ℕ → Restored → Restored
answered destination room answer = record {
  result = reported answer.result (leb answer.bytes_written room);
  destination = answer.destination ++ drop room destination;
  bytes_written = written answer.result (leb answer.bytes_written room) answer.bytes_written;
}

-- The room is no more than 1 MiB, so the second limit of the code excludes nothing more.
migrated-answered :
    (destination : List ℕ) (answer : Restored)
    → migrated destination (min (length destination) 1048576) answer
      ≡ answered destination (min (length destination) 1048576) answer
unfolding migrated
migrated-answered destination answer =
    by_result answer.result answer.destination answer.bytes_written
  where
    by_result :
        (result : StateResult) (bytes : List ℕ) (count : ℕ)
        → let answer : Restored = record {
          result = result;
          destination = bytes;
          bytes_written = count;
        } in
          migrated destination (min (length destination) 1048576) answer
          ≡ answered destination (min (length destination) 1048576) answer
    by_result ok bytes count = ground arith
    by_result StateResult.invalid_argument bytes count = refl
    by_result StateResult.capacity_exhausted bytes count = refl
    by_result StateResult.missing bytes count = refl
    by_result StateResult.identity_mismatch bytes count = refl
    by_result StateResult.version_mismatch bytes count = refl
    by_result StateResult.output_too_small bytes count = refl
    by_result StateResult.migration_unavailable bytes count = refl
    by_result StateResult.migration_failed bytes count = refl
    by_result StateResult.migration_output_too_large bytes count = refl

-- A registration that answers `ok` has checked its arguments and writes the rule where the search says.
register_rule-accepted :
    (migrations : Migrations) (identity : StateIdentity) (source target : ℕ) (handler : Handler)
    → (register_rule migrations identity source target (some handler)).1 ≡ ok
    → (valid_state_identity identity ≡ true)
      × ((target == 0) ≡ false)
      × ((source == target) ≡ false)
      × (target_slot (reaches identity target) migrations.rules < length migrations.rules)
      × ((register_rule migrations identity source target (some handler)).0
          ≡ with_rules (
              set migrations.rules
                (target_slot (reaches identity target) migrations.rules)
                (some (rule_of identity source target handler))))
unfolding register_rule target_slot
register_rule-accepted migrations identity source target handler e =
    elim (Option-cases (lookup (rivals identity source target) migrations.rules)) [
      | inr (rival, r) ↦ ground arith
      | inl free_goal ↦
          let same = find_slot-goal identity source target migrations.rules free_goal in
          let low = find_slot-le (reaches identity target) migrations.rules in
          let free = free_slot-le migrations.rules in ground (arith, same, low, free)
    ]

register_rule-IsMigrations :
    (migrations : Migrations) (identity : StateIdentity) (source target : ℕ) (handler : Handler)
    → IsMigrations migrations
    → IsMigrations (register_rule migrations identity source target (some handler)).0
unfolding migrations_after
register_rule-IsMigrations migrations identity source target handler v =
    migrations_after-IsMigrations migrations (registers identity source target (some handler)) v

register_rule-lookup :
    (migrations : Migrations) (identity : StateIdentity) (source target : ℕ) (handler : Handler)
    → (register_rule migrations identity source target (some handler)).1 ≡ ok
    → lookup
        (reaches identity target)
        (register_rule migrations identity source target (some handler)).0.rules
      ≡ some (rule_of identity source target handler)
register_rule-lookup migrations identity source target handler e =
    let (named, later, other, room, same) =
      register_rule-accepted migrations identity source target handler e in
    let rule = rule_of identity source target handler in
    ap (λ m. lookup (reaches identity target) m.rules) same
    ∙ lookup-store goal_key goal_of migrations.rules rule (goal_of rule) room
    ∙ rw (goal_key.beq_refl (goal_of rule)) refl

capture-lookup :
    (store : StateStore) (saved : SavedState)
    → (capture store saved.state_id saved.identity saved.state_version saved.bytes).1 ≡ ok
    → lookup
        (has_state_id saved.state_id)
        (capture store saved.state_id saved.identity saved.state_version saved.bytes).0.slots
      ≡ some saved
capture-lookup store saved c =
    let (same, free, named, identified, versioned, bounded) = capture-stored store saved c in
    ap (λ s. lookup (has_state_id saved.state_id) s.slots) same
    ∙ lookup-store text_key state_id_of store.slots saved saved.state_id free
    ∙ rw (text_eq_refl saved.state_id) refl

-- A state of another version is not restored without a migration, and with one it runs.
module _ (store : StateStore) (saved : SavedState) (target : ℕ) (destination : List ℕ)
    (named : valid_state_id saved.state_id ≡ true)
    (identified : valid_state_identity saved.identity ≡ true) (later : (target == 0) ≡ false)
    (known : lookup (has_state_id saved.state_id) store.slots ≡ some saved)
    (other : (saved.state_version == target) ≡ false) where
  restore-mismatch :
      restore store saved.state_id saved.identity target destination
      ≡ refused destination version_mismatch
  unfolding restore
  restore-mismatch = rw (
    restore,
    named,
    identified,
    later,
    known,
    text_eq_refl saved.identity.plugin_id,
    text_eq_refl saved.identity.class_id,
    text_eq_refl saved.identity.module_sha256,
    other,
  )

  restore_with_migration-answered :
      (handler : Handler)
      → let room = min (length destination) 1048576 in
        restore_with_migration store saved.state_id saved.identity target destination (some handler)
        ≡ answered destination room
            (handler saved.state_version saved.bytes target (take room destination))
  unfolding restore_with_migration
  restore_with_migration-answered handler =
      rw
        (
          restore_with_migration,
          named,
          identified,
          later,
          known,
          text_eq_refl saved.identity.plugin_id,
          text_eq_refl saved.identity.class_id,
          text_eq_refl saved.identity.module_sha256,
          other,
        )
        (migrated-answered destination _)

-- A state is captured, then a migration is registered from its version to another one: whatever rules stood
-- before, a restore of the state at that version runs the migration on the captured version and bytes and on the
-- first bytes of the buffer, 1 MiB at most. It answers ok and the count of the migration where that succeeds and
-- the count is within this room; that it left too much where the count is not, or where it says so itself; and
-- that the migration failed for any other error. With every error no byte is reported.
pub restore_migrated-register_rule :
    (migrations : Migrations) (store : StateStore) (saved : SavedState) (target : ℕ)
    (handler : Handler) (destination : List ℕ)
    → IsMigrations migrations
    → (capture store saved.state_id saved.identity saved.state_version saved.bytes).1 ≡ ok
    → (register_rule migrations saved.identity saved.state_version target (some handler)).1 ≡ ok
    → let known = (capture store saved.state_id saved.identity saved.state_version saved.bytes).0 in
      let rules =
        (register_rule migrations saved.identity saved.state_version target (some handler)).0 in
      let room = min (length destination) 1048576 in
      restore_migrated rules known saved.state_id saved.identity target destination
      ≡ answered destination room
          (handler saved.state_version saved.bytes target (take room destination))
restore_migrated-register_rule migrations store saved target handler destination v c e =
    let known = (capture store saved.state_id saved.identity saved.state_version saved.bytes).0 in
    let source = saved.state_version in
    let (identified, later, other, room, same) =
      register_rule-accepted migrations saved.identity source target handler e in
    let stored_at = capture-stored store saved c in
    let held = capture-lookup store saved c in
    let exact =
      restore-mismatch known saved target destination stored_at.2 identified later held other in
    restore_migrated-lookup (register_rule migrations saved.identity source target (some handler)).0
      known saved.state_id saved.identity target destination
      (register_rule-IsMigrations migrations saved.identity source target handler v)
      (ap (λ r. r.result) exact)
    ∙ rw (register_rule-lookup migrations saved.identity source target handler e, exact)
        (restore_with_migration-answered known saved target destination stored_at.2 identified later
          held other handler)
