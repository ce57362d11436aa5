-- ===== src/Sessions/RouteRules.antt =====
-- src/hub/include/hibiki/session_route_rules.hpp and src/hub/src/session_route_rules.cpp.
pub mod Map
pub mod Choice
pub mod Clash
pub mod Tied
use hibiki_dsp.Base.{
  ℕ, ◌+◌, ◌-◌, ◌≡◌, Bool, true, false, ◌&&◌, ◌||◌, not, List, [], ◌∷◌, Option, none, some, ltb, leb,
  ◌==◌, if◌then◌else◌, length, set, replicate, take, Text, text_eq,
}
use hibiki_dsp.Base.Int.{ℤ, pos, negsuc, lt_int, le_int, eq_int}
use hibiki_dsp.Base.Double.{Double}
use hibiki_dsp.Base.Slots.{find_slot, free_slot}
use hibiki_dsp.Utf8.{is_printable_utf8}
use hibiki_dsp.Sessions.Registry.{GainOwner, Descriptor, valid_gain_owner, valid_gain, is_empty}

abbrev pub max_rules : ℕ
max_rules = 64

abbrev pub max_id_bytes : ℕ
max_id_bytes = 64

abbrev pub max_match_bytes : ℕ
max_match_bytes = 128

abbrev pub max_route_bytes : ℕ
max_route_bytes = 64

pub record Rule (d : Double) : Type 0 where
  pub schema_version : ℕ
  pub rule_id : Text
  pub priority : ℤ
  pub enabled : Bool
  pub app_id : Text
  pub display_name_contains : Text
  pub lane_id : Text
  pub output_group : Text
  pub gain_owner : GainOwner
  pub makeup_gain_db : d.Value

pub data RuleResult : Type 0 where
  applied no_match invalid_argument ambiguous capacity_exhausted : RuleResult

-- `std::tolower` in the "C" locale.
abbrev pub tolower : ℕ → ℕ
tolower c = if leb 65 c && leb c 90 then c + 32 else c

-- The comparison of the sizes comes first in the source; the loop runs on two texts of one length.
unfoldable pub equal_folded_bytes : Text → Text → Bool
equal_folded_bytes [] right = true
equal_folded_bytes (l ∷ left) [] = true
equal_folded_bytes (l ∷ left) (r ∷ right) =
    if not (tolower l == tolower r) then false else equal_folded_bytes left right

unfoldable pub equal_ascii_folded : Text → Text → Bool
equal_ascii_folded left right =
    if not (length left == length right) then false else equal_folded_bytes left right

-- The loop from `start`, with `value` the rest of the text from there.
unfoldable pub contains_from : Text → Text → Bool
contains_from [] needle = false
contains_from (c ∷ rest) needle =
    let later = contains_from rest needle in
    if leb (length needle) (length (c ∷ rest))
    then (if equal_ascii_folded (take (length needle) (c ∷ rest)) needle then true else later)
    else false

unfoldable pub contains_ascii_folded : Text → Text → Bool
contains_ascii_folded value needle =
    if is_empty needle || ltb (length value) (length needle)
    then false
    else contains_from value needle

abbrev pub lowercase : ℕ → Bool
lowercase c = leb 97 c && leb c 122

abbrev pub digit : ℕ → Bool
digit c = leb 48 c && leb c 57

abbrev pub separator : ℕ → Bool
separator c = (c == 46) || (c == 95) || (c == 45)

unfoldable pub valid_id_bytes : Bool → Text → Bool
valid_id_bytes first [] = true
valid_id_bytes first (c ∷ rest) =
    if not (lowercase c) && not (digit c) && not (separator c)
      || first && not (lowercase c) && not (digit c)
    then false
    else valid_id_bytes false rest

unfoldable pub valid_rule_id_format : Text → Bool
valid_rule_id_format value =
    if is_empty value || ltb max_id_bytes (length value) then false else valid_id_bytes true value

unfoldable pub contains_non_ascii_space : Text → Bool
contains_non_ascii_space [] = false
contains_non_ascii_space (c ∷ rest) =
    if (c == 32) || leb 9 c && leb c 13 then contains_non_ascii_space rest else true

module _ (d : Double) where
  abbrev pub has_match : Rule d → Bool
  has_match rule =
      not (is_empty rule.app_id) && contains_non_ascii_space rule.app_id
      || not (is_empty rule.display_name_contains)
        && contains_non_ascii_space rule.display_name_contains

  abbrev pub valid_route : Text → Bool
  valid_route route =
      not (is_empty route)
      && leb (length route) max_route_bytes
      && contains_non_ascii_space route
      && is_printable_utf8 route

  unfoldable pub valid : Rule d → Bool
  valid rule =
      (rule.schema_version == 1)
      && valid_gain_owner rule.gain_owner
      && not (is_empty rule.rule_id)
      && leb (length rule.rule_id) max_id_bytes
      && valid_rule_id_format rule.rule_id
      && is_printable_utf8 rule.rule_id
      && le_int (negsuc 999999) rule.priority
      && le_int rule.priority (pos 1000000)
      && has_match rule
      && leb (length rule.app_id) max_match_bytes
      && (is_empty rule.app_id || is_printable_utf8 rule.app_id)
      && leb (length rule.display_name_contains) max_match_bytes
      && (is_empty rule.display_name_contains || is_printable_utf8 rule.display_name_contains)
      && valid_route rule.lane_id
      && valid_route rule.output_group
      && valid_gain d rule.makeup_gain_db

  unfoldable pub matches : Rule d → Descriptor d → Bool
  matches rule descriptor =
      if not rule.enabled
      then false
      else if not (is_empty rule.app_id) && not (equal_ascii_folded rule.app_id descriptor.app_id)
      then false
      else if not (is_empty rule.display_name_contains)
          && not (contains_ascii_folded descriptor.display_name rule.display_name_contains)
      then false
      else true

  -- `slots_` and `count_`.
  pub record Store : Type 0 where
    pub slots : List (Option (Rule d))
    pub count : ℕ

  abbrev pub empty_store : Store
  empty_store = record { slots = replicate max_rules none; count = 0 }

  abbrev pub has_id : Text → Rule d → Bool
  has_id rule_id rule = text_eq rule.rule_id rule_id

  unfoldable pub find : Store → Text → ℕ
  find store rule_id = find_slot (has_id rule_id) store.slots

  abbrev pub put : Store → ℕ → Rule d → ℕ → Store
  put store index rule count = record { slots = set store.slots index (some rule); count = count }

  unfoldable pub upsert : Store → Rule d → Store × RuleResult
  unfolding find
  upsert store rule =
      if not (valid rule)
      then (store, invalid_argument)
      else if find store rule.rule_id == length store.slots
      then (if free_slot store.slots == length store.slots
          then (store, capacity_exhausted)
          else (put store (free_slot store.slots) rule (store.count + 1), applied))
      else (put store (find store rule.rule_id) rule store.count, applied)

  unfoldable pub remove : Store → Text → Store × Bool
  unfolding find
  remove store rule_id = if find store rule_id == length store.slots then (store, false) else (
    record { slots = set store.slots (find store rule_id) none; count = store.count - 1 },
    true,
  )

  unfoldable pub clear : Store → Store
  clear store = record { slots = replicate (length store.slots) none; count = 0 }

  -- What the scan of `apply` ends with.
  pub data Selection : Type 0 where
    none_selected : Selection
    selected : Rule d → Selection
    tied : Selection

  -- The loop over the slots, which has selected `best` so far.
  unfoldable pub select : Descriptor d → Option (Rule d) → List (Option (Rule d)) → Selection
  select descriptor none [] = none_selected
  select descriptor (some best) [] = selected best
  select descriptor best (none ∷ rest) = select descriptor best rest
  select descriptor none (some rule ∷ rest) =
      select descriptor (if matches rule descriptor then some rule else none) rest
  select descriptor (some best) (some rule ∷ rest) =
      let keep = select descriptor (some best) rest in
      let take_over = select descriptor (some rule) rest in
      if not (matches rule descriptor)
      then keep
      else if lt_int best.priority rule.priority
      then take_over
      else if eq_int rule.priority best.priority
      then tied
      else keep

  abbrev pub routed : Descriptor d → Rule d → Descriptor d
  routed descriptor rule = record descriptor {
    lane_id = rule.lane_id;
    output_group = rule.output_group;
    gain_owner = rule.gain_owner;
    makeup_gain_db = rule.makeup_gain_db;
  }

  unfoldable pub apply : Store → Descriptor d → Descriptor d × RuleResult
  unfolding select
  apply store descriptor = elim (select descriptor none store.slots) [
    | none_selected ↦ (descriptor, no_match)
    | selected rule ↦ (routed descriptor rule, applied)
    | tied ↦ (descriptor, ambiguous)
  ]
