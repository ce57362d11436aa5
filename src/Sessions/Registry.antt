-- ===== src/Sessions/Registry.antt =====
-- src/hub/include/hibiki/audio_session_registry.hpp and src/hub/src/audio_session_registry.cpp.
pub mod Valid
pub mod Access
pub mod Bindings
pub mod Kept
use hibiki_dsp.Base.{
  ℕ, ◌≡◌, Bool, true, false, ◌&&◌, ◌||◌, not, List, [], ◌∷◌, ◌++◌, Option, none, some, ltb, leb,
  ◌==◌, if◌then◌else◌, length, Text, text_eq, map,
}
use hibiki_dsp.Base.Int.{pos, negsuc}
use hibiki_dsp.Base.Double.{Double}
use hibiki_dsp.Base.Entries.{find_entry, update_entry, erase_entry}
use hibiki_dsp.Utf8.{is_printable_utf8}

-- The process id is advisory and no part of the identity.
pub record Identity : Type 0 where
  pub endpoint_id : Text
  pub session_instance_id : Text
  pub process_id : ℕ

pub data GainOwner : Type 0 where
  windows_session hibiki_internal : GainOwner

pub record Descriptor (d : Double) : Type 0 where
  pub schema_version : ℕ
  pub identity : Identity
  pub display_name : Text
  pub app_id : Text
  pub active : Bool
  pub gain_owner : GainOwner
  pub lane_id : Text
  pub output_group : Text
  pub makeup_gain_db : d.Value

abbrev pub max_sessions : ℕ
max_sessions = 256

abbrev pub max_identity_length : ℕ
max_identity_length = 512

abbrev pub max_label_length : ℕ
max_label_length = 256

abbrev pub max_output_group_length : ℕ
max_output_group_length = 64

abbrev pub is_empty : Text → Bool
is_empty [] = true
is_empty (c ∷ cs) = false

unfoldable pub valid_gain_owner : GainOwner → Bool
valid_gain_owner windows_session = true
valid_gain_owner hibiki_internal = true

abbrev pub same_identity : Identity → Identity → Bool
same_identity left right =
    text_eq left.endpoint_id right.endpoint_id
    && text_eq left.session_instance_id right.session_instance_id

module _ (d : Double) where
  open d use {Value, is_finite, lt, whole}

  -- `std::isfinite(x) && x >= -144.0 && x <= 12.0`; of finite numbers, `a >= b` is `!(a < b)`.
  abbrev pub valid_gain : Value → Bool
  valid_gain gain =
      is_finite gain && not (lt gain (whole (negsuc 143))) && not (lt (whole (pos 12)) gain)

  abbrev pub valid_identity : Identity → Bool
  valid_identity identity =
      not (is_empty identity.endpoint_id)
      && leb (length identity.endpoint_id) max_identity_length
      && is_printable_utf8 identity.endpoint_id
      && not (is_empty identity.session_instance_id)
      && leb (length identity.session_instance_id) max_identity_length
      && is_printable_utf8 identity.session_instance_id

  unfoldable pub valid : Descriptor d → Bool
  unfolding valid_gain_owner
  valid descriptor =
      (descriptor.schema_version == 1)
      && valid_gain_owner descriptor.gain_owner
      && valid_identity descriptor.identity
      && leb (length descriptor.display_name) max_label_length
      && is_printable_utf8 descriptor.display_name
      && leb (length descriptor.app_id) max_label_length
      && is_printable_utf8 descriptor.app_id
      && leb (length descriptor.lane_id) max_label_length
      && is_printable_utf8 descriptor.lane_id
      && leb (length descriptor.output_group) max_output_group_length
      && is_printable_utf8 descriptor.output_group
      && valid_gain descriptor.makeup_gain_db

  -- `sessions_`.
  abbrev pub Registry : Type 0
  Registry = List (Descriptor d)

  abbrev pub has_identity : Identity → Descriptor d → Bool
  has_identity identity item = same_identity item.identity identity

  unfoldable pub find : Registry → Identity → Option (Descriptor d)
  find sessions identity = find_entry (has_identity identity) sessions

  -- What replaces an existing session: the binding and the gain stay as they are.
  abbrev pub merged : Descriptor d → Descriptor d → Descriptor d
  merged descriptor existing = record descriptor {
    lane_id = existing.lane_id;
    output_group = existing.output_group;
    gain_owner = existing.gain_owner;
    makeup_gain_db = existing.makeup_gain_db;
  }

  unfoldable pub upsert : Registry → Descriptor d → Registry × Bool
  upsert sessions descriptor =
      if not (valid descriptor)
      then (sessions, false)
      else elim (find_entry (has_identity descriptor.identity) sessions) [
        | some existing ↦
            (update_entry (has_identity descriptor.identity) (merged descriptor) sessions, true)
        | none ↦
            if leb max_sessions (length sessions)
            then (sessions, false)
            else (sessions ++ (descriptor ∷ []), true)
      ]

  unfoldable pub remove : Registry → Identity → Registry × Bool
  remove sessions identity = elim (find_entry (has_identity identity) sessions) [
    | none ↦ (sessions, false)
    | some existing ↦ (erase_entry (has_identity identity) sessions, true)
  ]

  -- A change through the pointer that `find` returns.
  pub change : Registry → Identity → (Descriptor d → Descriptor d) → Registry × Bool
  change sessions identity f = elim (find_entry (has_identity identity) sessions) [
    | none ↦ (sessions, false)
    | some session ↦ (update_entry (has_identity identity) f sessions, true)
  ]

  abbrev pub valid_binding : Text → Text → Bool
  valid_binding lane_id output_group = not (
      is_empty lane_id
      || ltb max_label_length (length lane_id)
      || is_empty output_group
      || ltb max_output_group_length (length output_group)
      || not (is_printable_utf8 lane_id)
      || not (is_printable_utf8 output_group))

  unfoldable pub bind : Registry → Identity → Text → Text → Registry × Bool
  unfolding change
  bind sessions identity lane_id output_group =
      if valid_binding lane_id output_group
      then change sessions identity
          (λ session. record session { lane_id = lane_id; output_group = output_group })
      else (sessions, false)

  unfoldable pub set_gain_owner : Registry → Identity → GainOwner → Registry × Bool
  unfolding change valid_gain_owner
  set_gain_owner sessions identity owner =
      if valid_gain_owner owner
      then change sessions identity (λ session. record session { gain_owner = owner })
      else (sessions, false)

  unfoldable pub set_makeup_gain_db : Registry → Identity → Value → Registry × Bool
  unfolding change
  set_makeup_gain_db sessions identity gain =
      if valid_gain gain
      then change sessions identity (λ session. record session { makeup_gain_db = gain })
      else (sessions, false)

  abbrev pub deactivate : Text → Descriptor d → Descriptor d
  deactivate endpoint_id session =
      if text_eq session.identity.endpoint_id endpoint_id
      then record session { active = false }
      else session

  unfoldable pub mark_endpoint_sessions_inactive : Registry → Text → Registry
  mark_endpoint_sessions_inactive sessions endpoint_id = map (deactivate endpoint_id) sessions
