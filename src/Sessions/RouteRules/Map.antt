-- ===== src/Sessions/RouteRules/Map.antt =====
-- The rule store as a map from rule ids to rules.
use mathlib.Core.Path.{subst}
use hibiki_dsp.Base.{
  ◌+◌, ◌≡◌, ◌≢◌, ◌⊎◌, ◌∙◌, refl, sym, ap, ◌<◌, true, false, Option, none, some, ◌==◌, if◌then◌else◌,
  length, length-set, Text, text_eq, Bool-cases, inl, inr, arith,
}
use hibiki_dsp.Base.Double.{Double}
use hibiki_dsp.Base.Key.{text_key}
use hibiki_dsp.Base.Slots.{
  find_slot, lookup, occupied, target_slot, find_slot-le, free_slot-le, occupied-clear,
}
use hibiki_dsp.Base.Slots.Lookup.{Every, Every-set, Every-clear}
use hibiki_dsp.Base.Slots.Keyed.{
  UniqueKeys, lookup-store, occupied-store, lookup-remove, UniqueKeys-remove, UniqueKeys-store,
}
use hibiki_dsp.Sessions.RouteRules.{
  Rule, RuleResult, applied, no_match, invalid_argument, ambiguous, capacity_exhausted, Store,
  valid, has_id, find, upsert, remove, clear, put, max_rules,
}

module _ (d : Double) where
  abbrev pub id_of : Rule d → Text
  id_of rule = rule.rule_id

  pub record IsStore (store : Store d) : Type 0 where
    pub size : length store.slots ≡ max_rules
    pub counted : store.count ≡ occupied store.slots
    pub unique : UniqueKeys text_key id_of store.slots
    pub entries : Every (λ rule. valid d rule ≡ true) store.slots

  -- The rule of this id, or none.
  unfoldable pub rule_at : Store d → Text → Option (Rule d)
  rule_at store rule_id = lookup (has_id d rule_id) store.slots

  stored : Store d → Rule d → Store d
  stored store rule = put d store (target_slot (has_id d rule.rule_id) store.slots) rule (
      store.count
      + (if find_slot (has_id d rule.rule_id) store.slots == length store.slots then 1 else 0))

  -- An accepted rule is written where the slot search says.
  upsert-stored :
      (store : Store d) (rule : Rule d)
      → (upsert d store rule).1 ≡ applied
      → ((upsert d store rule).0 ≡ stored store rule)
        × (valid d rule ≡ true)
        × (target_slot (has_id d rule.rule_id) store.slots < length store.slots)
  unfolding upsert find stored target_slot
  upsert-stored store rule e =
      ground (arith, find_slot-le (has_id d rule.rule_id) store.slots, free_slot-le store.slots)

  upsert-refused :
      (store : Store d) (rule : Rule d)
      → (upsert d store rule).1 ≢ applied
      → (upsert d store rule).0 ≡ store
  unfolding upsert
  upsert-refused store rule e = ground arith

  stored-IsStore :
      (store : Store d) (rule : Rule d)
      → valid d rule ≡ true
      → target_slot (has_id d rule.rule_id) store.slots < length store.slots
      → IsStore store
      → IsStore (stored store rule)
  unfolding stored
  stored-IsStore store rule ok room v = record {
    size = length-set store.slots _ _ ∙ v.size;
    counted =
        ap
          (λ n.
            n
            + (if find_slot (has_id d rule.rule_id) store.slots == length store.slots
                then 1
                else 0))
          v.counted
        ∙ sym (occupied-store text_key id_of store.slots rule room);
    unique = UniqueKeys-store text_key id_of store.slots rule room v.unique;
    entries = Every-set _ store.slots _ rule ok v.entries;
  }

  upsert-IsStore :
      (store : Store d) (rule : Rule d) → IsStore store → IsStore (upsert d store rule).0
  upsert-IsStore store rule v = elim (result_cases (upsert d store rule).1) [
    | inl e ↦
        let (same, ok, room) = upsert-stored store rule e in
        subst IsStore (sym same) (stored-IsStore store rule ok room v)
    | inr ne ↦ subst IsStore (sym (upsert-refused store rule ne)) v
  ]
    where
      result_cases : (r : RuleResult) → (r ≡ applied) ⊎ (r ≢ applied)
      result_cases applied = inl refl
      result_cases no_match = inr λ e. cc
      result_cases invalid_argument = inr λ e. cc
      result_cases ambiguous = inr λ e. cc
      result_cases capacity_exhausted = inr λ e. cc

  remove-IsStore :
      (store : Store d) (rule_id : Text) → IsStore store → IsStore (remove d store rule_id).0
  unfolding remove find
  remove-IsStore store rule_id v =
      elim (Bool-cases (find_slot (has_id d rule_id) store.slots == length store.slots)) [
        | inl missing ↦ rw (remove, find, missing) v
        | inr found ↦
            rw (remove, find, found)
              (record {
                size = length-set store.slots _ _ ∙ v.size;
                counted = omega (
                  arith,
                  v.counted,
                  occupied-clear (has_id d rule_id) store.slots (inside found),
                );
                unique = UniqueKeys-remove text_key id_of store.slots _ v.unique;
                entries = Every-clear _ store.slots _ v.entries;
              })
      ]
    where
      inside :
          (find_slot (has_id d rule_id) store.slots == length store.slots) ≡ false
          → find_slot (has_id d rule_id) store.slots < length store.slots
      inside found = ground (arith, find_slot-le (has_id d rule_id) store.slots)

  clear-IsStore : (store : Store d) → IsStore store → IsStore (clear d store)
  unfolding clear occupied
  clear-IsStore store v =
      rw (v.size) (record { size = refl; counted = refl; unique = tt; entries = tt })

  pub data StoreCall : Type 0 where
    upserts : Rule d → StoreCall
    removes : Text → StoreCall
    clears : StoreCall

  unfoldable pub store_after : Store d → StoreCall → Store d
  store_after store (upserts rule) = (upsert d store rule).0
  store_after store (removes rule_id) = (remove d store rule_id).0
  store_after store clears = clear d store

  -- Every operation, whatever it answers, keeps the store well formed: 64 slots, the count the number of
  -- occupied ones, every stored rule valid, and no two of the same id.
  pub store_after-IsStore :
      (store : Store d) (call : StoreCall) → IsStore store → IsStore (store_after store call)
  unfolding store_after
  store_after-IsStore store (upserts rule) v = upsert-IsStore store rule v
  store_after-IsStore store (removes rule_id) v = remove-IsStore store rule_id v
  store_after-IsStore store clears v = clear-IsStore store v

  -- Right after an upsert that was accepted, the rule is found at its id, and every other id is as before it.
  pub rule_at-upsert :
      (store : Store d) (rule : Rule d) (rule_id : Text)
      → (upsert d store rule).1 ≡ applied
      → rule_at (upsert d store rule).0 rule_id
        ≡ (if text_eq rule.rule_id rule_id then some rule else rule_at store rule_id)
  unfolding rule_at stored
  rule_at-upsert store rule rule_id e =
      let (same, ok, room) = upsert-stored store rule e in
      ap (λ s. rule_at s rule_id) same ∙ lookup-store text_key id_of store.slots rule rule_id room

  -- After a removal that found its id, that id has no rule and every other id is as before.
  pub rule_at-remove :
      (store : Store d) (rule_id other : Text)
      → IsStore store
      → (remove d store rule_id).1 ≡ true
      → rule_at (remove d store rule_id).0 other
        ≡ (if text_eq rule_id other then none else rule_at store other)
  unfolding rule_at remove find
  rule_at-remove store rule_id other v e =
      elim (Bool-cases (find_slot (has_id d rule_id) store.slots == length store.slots)) [
        | inl missing ↦ ground arith
        | inr found ↦
            rw (remove, find, found)
              (lookup-remove text_key id_of store.slots rule_id other v.unique
                (ground (arith, find_slot-le (has_id d rule_id) store.slots)))
      ]
