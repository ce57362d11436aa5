-- ===== src/Tests/Sessions.antt =====
-- The session registry, the route rules and the loopback plan, with integers for the gains.
use hibiki_dsp.Base.{
  ℕ, ◌+◌, ◌≡◌, ◌≤◌, refl, Bool, true, false, List, [], ◌∷◌, ◌++◌, Option, none, some, arith, length,
  Text, text_eq, if◌then◌else◌,
}
use hibiki_dsp.Base.Int.{ℤ, pos, negsuc}
use hibiki_dsp.Base.Double.{integers}
use hibiki_dsp.Utf8.{is_printable_utf8, printable_from, decode_step}
use hibiki_dsp.Sessions.Registry.{
  Identity, Descriptor, windows_session, hibiki_internal, Registry, upsert, valid,
}
use hibiki_dsp.Sessions.Registry.Kept.{IsValid}
use hibiki_dsp.Sessions.Registry.Valid.{after, after-IsValid, upserts, carries, writes_each}
use hibiki_dsp.Sessions.Registry.{same_identity, find}
use hibiki_dsp.Sessions.Registry.Access.{carried, carry_bindings, write_each}
use hibiki_dsp.Sessions.Registry.Bindings.{announced, find-upsert}
use hibiki_dsp.Sessions.RouteRules
use hibiki_dsp.Sessions.RouteRules.{Rule, Store, RuleResult, empty_store, apply, select, matches}
use hibiki_dsp.Sessions.RouteRules.Map
use hibiki_dsp.Sessions.RouteRules.Map.{
  IsStore, StoreCall, store_after, store_after-IsStore, rule_at, rule_at-upsert, rule_at-remove,
}
use hibiki_dsp.Sessions.RouteRules.Choice.{Verdict, apply-Verdict}
use hibiki_dsp.Sessions.LoopbackPlan.{build_process_loopback_plan}
use hibiki_dsp.Sessions.LoopbackPlan.Correct.{Promise, build-Promise}

-- "p", "s", "L" and "G" stand for the ids; the process is 42.
abbrev session : Descriptor integers
session = record {
  schema_version = 1;
  identity = record { endpoint_id = 112 ∷ []; session_instance_id = 115 ∷ []; process_id = 42 };
  display_name = 80 ∷ 108 ∷ 97 ∷ 121 ∷ [];
  app_id = 65 ∷ [];
  active = true;
  gain_owner = windows_session;
  lane_id = 76 ∷ [];
  output_group = 71 ∷ [];
  makeup_gain_db = pos 0;
}

empty-IsValid : IsValid integers []
empty-IsValid = record { bounded = omega arith; entries = tt; distinct = tt }

abbrev one_session : Registry integers
one_session = after integers [] (upserts session)

-- A session that is announced with no route, and one with the route that it had.
abbrev fresh : Descriptor integers
fresh = record session { lane_id = []; output_group = [] }

route-carried : after integers (fresh ∷ []) (carries (session ∷ [])) ≡ session ∷ []
unfolding after carry_bindings carried find hibiki_dsp.Base.Entries.find_entry
    hibiki_dsp.Base.Tests.text_eq
route-carried = refl

session-valid : valid integers session ≡ true
unfolding valid hibiki_dsp.Sessions.Registry.valid_gain_owner is_printable_utf8 printable_from
    decode_step
session-valid = refl

after-IsValid_example :
    IsValid integers (after integers (after integers [] (upserts fresh)) (carries (session ∷ [])))
after-IsValid_example =
    after-IsValid integers (after integers [] (upserts fresh)) (carries (session ∷ []))
      (session-valid, tt) (after-IsValid integers [] (upserts fresh) tt empty-IsValid)

-- A write through `mutable_sessions()` that takes no care leaves a registry that is not well formed.
careless :
    ¬ IsValid integers
      (after integers (session ∷ []) (writes_each (λ s. record s { schema_version = 2 })))
unfolding after write_each valid
careless v = absurd (false≢true v.entries.0)
  where
    false≢true : false ≡ true → ⊥
    false≢true e = cc

-- Rules for the app "a" with two priorities, and one for every name that has "LA".
abbrev rule_with : Text → ℤ → Rule integers
rule_with rule_id priority = record {
  schema_version = 1;
  rule_id = rule_id;
  priority = priority;
  enabled = true;
  app_id = 97 ∷ [];
  display_name_contains = 76 ∷ 65 ∷ [];
  lane_id = 78 ∷ [];
  output_group = 71 ∷ [];
  gain_owner = hibiki_internal;
  makeup_gain_db = negsuc 5;
}

abbrev low : Rule integers
low = rule_with (108 ∷ []) (pos 1)

abbrev high : Rule integers
high = rule_with (104 ∷ []) (pos 2)

empty_store-IsStore : IsStore integers (empty_store integers)
unfolding hibiki_dsp.Base.Slots.occupied
empty_store-IsStore = record { size = refl; counted = refl; unique = tt; entries = tt }

abbrev one_rule : Store integers
one_rule = store_after integers (empty_store integers) (Map.upserts low)

one_rule-IsStore : IsStore integers one_rule
one_rule-IsStore =
    store_after-IsStore integers (empty_store integers) (Map.upserts low) empty_store-IsStore

store_after-IsStore_example : IsStore integers (store_after integers one_rule (Map.upserts high))
store_after-IsStore_example =
    store_after-IsStore integers one_rule (Map.upserts high) one_rule-IsStore

upsert-applied : (RouteRules.upsert integers (empty_store integers) low).1 ≡ RouteRules.applied
unfolding RouteRules.upsert RouteRules.valid RouteRules.find RouteRules.valid_rule_id_format
    RouteRules.valid_id_bytes RouteRules.contains_non_ascii_space
    hibiki_dsp.Sessions.Registry.valid_gain_owner is_printable_utf8 printable_from decode_step
    hibiki_dsp.Base.Slots.find_slot hibiki_dsp.Base.Slots.free_slot
upsert-applied = refl

rule_at-upsert_example :
    rule_at integers (RouteRules.upsert integers (empty_store integers) low).0 (108 ∷ []) ≡ (
      if text_eq (108 ∷ []) (108 ∷ [])
      then some low
      else rule_at integers (empty_store integers) (108 ∷ []))
rule_at-upsert_example =
    rule_at-upsert integers (empty_store integers) low (108 ∷ []) upsert-applied

build-Promise_example :
    Promise integers
      (build_process_loopback_plan integers (session ∷ [])).0
      (build_process_loopback_plan integers (session ∷ [])).1
      (session ∷ [])
build-Promise_example = build-Promise integers (session ∷ [])

remove-found : (RouteRules.remove integers one_rule (108 ∷ [])).1 ≡ true
unfolding store_after RouteRules.upsert RouteRules.remove RouteRules.valid RouteRules.find
    RouteRules.valid_rule_id_format RouteRules.valid_id_bytes RouteRules.contains_non_ascii_space
    hibiki_dsp.Sessions.Registry.valid_gain_owner is_printable_utf8 printable_from decode_step
    hibiki_dsp.Base.Slots.find_slot hibiki_dsp.Base.Slots.free_slot hibiki_dsp.Base.Tests.text_eq
remove-found = refl

rule_at-remove_example :
    rule_at integers (RouteRules.remove integers one_rule (108 ∷ [])).0 (104 ∷ [])
    ≡ (if text_eq (108 ∷ []) (104 ∷ []) then none else rule_at integers one_rule (104 ∷ []))
rule_at-remove_example =
    rule_at-remove integers one_rule (108 ∷ []) (104 ∷ []) one_rule-IsStore remove-found

abbrev low_too : Rule integers
low_too = rule_with (109 ∷ []) (pos 1)

abbrev high_last : Store integers
high_last = record { slots = some low ∷ some low_too ∷ some high ∷ []; count = 3 }

abbrev high_first : Store integers
high_first = record { slots = some high ∷ some low ∷ some low_too ∷ []; count = 3 }

-- A tie of two lower rules hides the higher one or not, by the order of the slots.
tie_depends_on_order :
    ((apply integers high_last session).1 ≡ RouteRules.ambiguous)
    × ((apply integers high_first session).1 ≡ RouteRules.applied)
unfolding apply select matches RouteRules.equal_ascii_folded RouteRules.equal_folded_bytes
    RouteRules.contains_ascii_folded RouteRules.contains_from
tie_depends_on_order = (refl, refl)

apply-Verdict_example :
    Verdict integers session high_first.slots
      (apply integers high_first session).0
      (apply integers high_first session).1
apply-Verdict_example = apply-Verdict integers session high_first

-- The session announced again, inactive, under a new name, with no route and another gain.
abbrev again : Descriptor integers
again = record {
  schema_version = 1;
  identity = record { endpoint_id = 112 ∷ []; session_instance_id = 115 ∷ []; process_id = 43 };
  display_name = 81 ∷ [];
  app_id = 65 ∷ [];
  active = false;
  gain_owner = hibiki_internal;
  lane_id = [];
  output_group = [];
  makeup_gain_db = pos 3;
}

again-accepted : (upsert integers (session ∷ []) again).1 ≡ true
unfolding upsert valid hibiki_dsp.Sessions.Registry.valid_gain_owner is_printable_utf8
    printable_from decode_step hibiki_dsp.Base.Entries.find_entry hibiki_dsp.Base.Tests.text_eq
again-accepted = refl

find-upsert_example : find integers (upsert integers (session ∷ []) again).0 session.identity ≡ (
    if same_identity again.identity session.identity
    then some (announced integers again (find integers (session ∷ []) session.identity))
    else find integers (session ∷ []) session.identity)
find-upsert_example = find-upsert integers (session ∷ []) again session.identity again-accepted
