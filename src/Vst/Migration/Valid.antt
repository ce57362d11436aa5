-- ===== src/Vst/Migration/Valid.antt =====
-- No two rules of the registry lead one plugin to one version.
use mathlib.Core.Path.{subst}
use hibiki_dsp.Base.{
  ℕ, ◌<◌, ◌≡◌, ◌⊎◌, ◌∙◌, refl, sym, ap, suc, List, [], ◌∷◌, Option, none, some, ◌==◌, length,
  length-set, set, Text, Bool-cases, Option-cases, inl, inr, arith,
}
use hibiki_dsp.Base.Key.{Key, text_key, nat_key, pair_key}
use hibiki_dsp.Base.Slots.{find_slot, target_slot, occupied, lookup, find_slot-le, free_slot-le}
use hibiki_dsp.Base.Slots.Keyed.{UniqueKeys, UniqueKeys-remove, UniqueKeys-store}
use hibiki_dsp.Vst.PluginState.{StateIdentity, Handler}
use hibiki_dsp.Vst.Migration.{
  MigrationRule, Migrations, max_migration_rules, reaches, is_rule, rivals, with_rules,
  register_rule, remove_rule, clear_rules,
}

-- The plugin and the version that a rule leads to.
abbrev pub goal_of : MigrationRule → ((Text × Text) × List ℕ) × ℕ
goal_of rule = (
  ((rule.identity.plugin_id, rule.identity.class_id), rule.identity.module_sha256),
  rule.target_version,
)

abbrev pub goal_key : Key (((Text × Text) × List ℕ) × ℕ)
goal_key = pair_key (pair_key (pair_key text_key text_key) text_key) nat_key

pub record IsMigrations (migrations : Migrations) : Type 0 where
  pub size : length migrations.rules ≡ max_migration_rules
  pub counted : migrations.count ≡ occupied migrations.rules
  pub unique : UniqueKeys goal_key goal_of migrations.rules

-- Where no rule leads to the version from another one, a rule is searched for by what it leads to.
pub find_slot-goal :
    (identity : StateIdentity) (source_version target_version : ℕ) (s : List (Option MigrationRule))
    → lookup (rivals identity source_version target_version) s ≡ none
    → find_slot (is_rule identity source_version target_version) s
      ≡ find_slot (reaches identity target_version) s
unfolding find_slot lookup
find_slot-goal identity source_version target_version [] h = refl
find_slot-goal identity source_version target_version (none ∷ s) h =
    ap suc (find_slot-goal identity source_version target_version s h)
find_slot-goal identity source_version target_version (some rule ∷ s) h =
    ground (arith, find_slot-goal identity source_version target_version s)

abbrev pub rule_of : StateIdentity → ℕ → ℕ → Handler → MigrationRule
rule_of identity source_version target_version migration = record {
  identity = identity;
  source_version = source_version;
  target_version = target_version;
  migration = migration;
}

-- A registration either changes nothing or writes over the rule of its goal.
Written : Migrations → MigrationRule → Migrations → Type 0
Written before rule after =
    (after ≡ before)
    ⊎ ((target_slot (reaches rule.identity rule.target_version) before.rules < length before.rules)
        × (after
            ≡ with_rules (
                set before.rules
                  (target_slot (reaches rule.identity rule.target_version) before.rules)
                  (some rule))))

register_rule-Written :
    (migrations : Migrations) (identity : StateIdentity) (source_version target_version : ℕ)
    (migration : Handler)
    → Written migrations
        (rule_of identity source_version target_version migration)
        (register_rule migrations identity source_version target_version (some migration)).0
unfolding register_rule Written target_slot
register_rule-Written migrations identity source_version target_version migration =
    elim (Option-cases (lookup (rivals identity source_version target_version) migrations.rules)) [
      | inr (rival, e) ↦ inl (ground arith)
      | inl e ↦
          let same = find_slot-goal identity source_version target_version migrations.rules e in
          let low = find_slot-le (reaches identity target_version) migrations.rules in
          let free = free_slot-le migrations.rules in ground (arith, same, low, free)
    ]

Written-IsMigrations :
    (before after : Migrations) (rule : MigrationRule)
    → Written before rule after
    → IsMigrations before
    → IsMigrations after
unfolding Written
Written-IsMigrations before after rule (inl same) v = subst IsMigrations (sym same) v
Written-IsMigrations before after rule (inr (room, same)) v =
    subst IsMigrations (sym same) (record {
      size = length-set before.rules _ _ ∙ v.size;
      counted = refl;
      unique = UniqueKeys-store goal_key goal_of before.rules rule room v.unique;
    })

pub data MigrationCall : Type 0 where
  registers : StateIdentity → ℕ → ℕ → Option Handler → MigrationCall
  removes_rule : StateIdentity → ℕ → ℕ → MigrationCall
  clears_rules : MigrationCall

unfoldable pub migrations_after : Migrations → MigrationCall → Migrations
migrations_after migrations (registers identity source_version target_version migration) =
    (register_rule migrations identity source_version target_version migration).0
migrations_after migrations (removes_rule identity source_version target_version) =
    (remove_rule migrations identity source_version target_version).0
migrations_after migrations clears_rules = clear_rules migrations

remove_rule-IsMigrations :
    (migrations : Migrations) (identity : StateIdentity) (source_version target_version : ℕ)
    → IsMigrations migrations
    → IsMigrations (remove_rule migrations identity source_version target_version).0
unfolding remove_rule
remove_rule-IsMigrations migrations identity source_version target_version v =
    elim (Bool-cases (
      find_slot (is_rule identity source_version target_version) migrations.rules
      == length migrations.rules)) [
        | inl missing ↦ rw (remove_rule, missing) v
        | inr found ↦
            rw (remove_rule, found)
              (record {
                size = length-set migrations.rules _ _ ∙ v.size;
                counted = refl;
                unique = UniqueKeys-remove goal_key goal_of migrations.rules _ v.unique;
              })
      ]

-- Every operation keeps the 16 slots of the migration registry, the count the number of occupied ones, and no
-- two rules that lead one plugin to one version.
pub migrations_after-IsMigrations :
    (migrations : Migrations) (call : MigrationCall)
    → IsMigrations migrations
    → IsMigrations (migrations_after migrations call)
unfolding migrations_after register_rule clear_rules occupied
migrations_after-IsMigrations migrations (registers identity source_version target_version none) v =
    v
migrations_after-IsMigrations migrations
      (registers identity source_version target_version (some migration)) v =
    Written-IsMigrations migrations _ (rule_of identity source_version target_version migration)
      (register_rule-Written migrations identity source_version target_version migration) v
migrations_after-IsMigrations migrations (removes_rule identity source_version target_version) v =
    remove_rule-IsMigrations migrations identity source_version target_version v
migrations_after-IsMigrations migrations clears_rules v =
    rw (clear_rules, v.size) (record { size = refl; counted = refl; unique = tt })
