-- ===== src/Vst/SceneState/Restorable.antt =====
-- A scene that passed its validation can be restored.
use mathlib.Core.Path.{subst}
use hibiki_dsp.Base.{
  ℕ, ◌≡◌, ◌∙◌, sym, ap, Bool, true, false, List, [], ◌∷◌, Option, none, some, ◌==◌, if◌then◌else◌,
  not, Text, Bool-cases, Option-cases, inl, inr, arith,
}
use hibiki_dsp.Base.Slots.{lookup}
use hibiki_dsp.Base.Slots.Lookup.{Every}
use hibiki_dsp.Vst.PluginState.{
  Restored, restore, restore_with_migration, version_mismatch, refused, copied,
}
use hibiki_dsp.Vst.Migration.{reaches, restore_migrated, is_version_mismatch}
use hibiki_dsp.Vst.Migration.Valid.{IsMigrations}
use hibiki_dsp.Vst.Migration.Search.{restore_migrated-lookup}
use hibiki_dsp.Vst.SceneState.{
  SceneBinding, Sources, Coordinator, is_binding, is_ok, map_store_result, validate_scene,
  restore_scene,
}
use hibiki_dsp.Vst.SceneState.Valid.{IsCoordinator, IsBound}
use hibiki_dsp.Vst.SceneState.Checked.{Found, check-Found, check_scene-binding, scene_checked}
use hibiki_dsp.Vst.SceneState.Outcome.{
  is_outcome, restore-found, migrate-found, copied_outcome, migrated_outcome, has_rule-missing,
  copied_kept,
}

-- A binding that the check found restorable is restored, but for the buffer and the migration.
module _ (sources : Sources) (binding : SceneBinding) (destination : List ℕ) (v : IsBound binding)
    (w : IsMigrations sources.migrations) (f : Found sources binding) where
  abbrev exact : Restored
  exact =
      restore sources.store binding.state_id binding.identity binding.target_state_version
        destination

  abbrev whole : Restored
  whole =
      restore_migrated sources.migrations sources.store binding.state_id binding.identity
        binding.target_state_version destination

  found_exact : exact ≡ (
      if not (f.saved.state_version == binding.target_state_version)
      then refused destination version_mismatch
      else copied f.saved destination)
  found_exact =
      restore-found sources.store binding.state_id binding.identity binding.target_state_version
        destination f.saved f.named v.identified v.versioned f.stored f.same

  exact_kept : is_version_mismatch exact.result ≡ false → whole ≡ exact
  unfolding restore_migrated
  exact_kept e = rw (restore_migrated, e)

  abbrev Outcome : Restored → Type 0
  Outcome restored = is_outcome (map_store_result restored.result) ≡ true

  same_version : (f.saved.state_version == binding.target_state_version) ≡ true → Outcome whole
  same_version e =
      let same : exact ≡ copied f.saved destination = found_exact ∙ rw e in
      let whole_same : whole ≡ exact =
        exact_kept
          (ap (λ r. is_version_mismatch r.result) same ∙ copied_kept f.saved destination) in
      subst Outcome (sym (whole_same ∙ same)) (copied_outcome f.saved destination)

  other_version : (f.saved.state_version == binding.target_state_version) ≡ false → Outcome whole
  other_version e =
      let mismatch : exact.result ≡ version_mismatch = ap (λ r. r.result) found_exact ∙ rw e in
      let searched =
        restore_migrated-lookup sources.migrations sources.store binding.state_id binding.identity
          binding.target_state_version destination w mismatch in
      elim (Option-cases
        (lookup (reaches binding.identity binding.target_state_version) sources.migrations.rules)) [
          | inl missing ↦ absurd (
              cc (
                f.reachable e,
                has_rule-missing sources.migrations binding.identity f.saved.state_version
                    binding.target_state_version missing,
              ))
          | inr (rule, known) ↦
              let taken : whole
                  ≡ restore_with_migration sources.store binding.state_id binding.identity
                      binding.target_state_version exact.destination (some rule.migration) =
                searched ∙ rw known in
              let (bounded, answer, done) =
                migrate-found sources.store binding.state_id binding.identity
                  binding.target_state_version exact.destination f.saved rule.migration f.named
                  v.identified v.versioned f.stored f.same e in
              subst Outcome (sym (taken ∙ done)) (migrated_outcome exact.destination bounded answer)
        ]

  bound-Outcome : Outcome whole
  bound-Outcome = elim (Bool-cases (f.saved.state_version == binding.target_state_version)) [
    | inl e ↦ same_version e
    | inr e ↦ other_version e
  ]

lookup-Every :
    (P : SceneBinding → Type 0) (test : SceneBinding → Bool) (slots : List (Option SceneBinding))
    (binding : SceneBinding)
    → Every P slots
    → lookup test slots ≡ some binding
    → P binding
unfolding lookup
lookup-Every P test [] binding v h = absurd cc
lookup-Every P test (none ∷ slots) binding v h = lookup-Every P test slots binding v h
lookup-Every P test (some first ∷ slots) binding v h = elim (Bool-cases (test first)) [
  | inl hit ↦ subst P (ground (arith, hit)) v.0
  | inr miss ↦ lookup-Every P test slots binding v.1 (ground (arith, miss))
]

-- A scene whose validation answers ok, in a well-formed coordinator with well-formed sources, can be restored:
-- for each state bound in it, the restore answers ok, or that the buffer is too small, or that the plugin's
-- migration failed or left too much; it never lacks the state, the identity, the rule or the preparation.
pub restore_scene-validated :
    (coordinator : Coordinator) (sources : Sources) (binding : SceneBinding)
    (scene_id state_id : Text) (destination : List ℕ)
    → IsCoordinator coordinator
    → coordinator.sources ≡ some sources
    → IsMigrations sources.migrations
    → is_ok (validate_scene coordinator scene_id) ≡ true
    → lookup (is_binding scene_id state_id) coordinator.slots ≡ some binding
    → is_outcome (restore_scene coordinator scene_id state_id destination).0 ≡ true
unfolding restore_scene
restore_scene-validated coordinator sources binding scene_id state_id destination v prepared w h
      found =
    let f : Found sources binding = check-Found sources binding (
      check_scene-binding sources scene_id state_id coordinator.slots 0 binding
        (scene_checked coordinator sources scene_id prepared h) found) in
    rw (restore_scene, prepared, found)
      (bound-Outcome sources binding destination
        (lookup-Every IsBound (is_binding scene_id state_id) coordinator.slots binding v.entries
          found)
        w f)
