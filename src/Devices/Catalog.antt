-- ===== src/Devices/Catalog.antt =====
-- src/hub/include/hibiki/device_catalog.hpp and src/hub/src/device_catalog.cpp.
pub mod Defaults
pub mod Writes
pub mod Marking
pub mod Valid
use hibiki_dsp.Base.{
  ℕ, ◌≡◌, Bool, true, false, ◌&&◌, ◌||◌, not, List, [], ◌∷◌, ◌++◌, Option, none, some, ltb, leb,
  ◌==◌, if◌then◌else◌, length, Text, text_eq, map, max,
}
use hibiki_dsp.Base.Entries.{find_entry, update_entry, erase_entry}
use hibiki_dsp.Utf8.{is_printable_utf8}

pub data Flow : Type 0 where
  render capture : Flow

pub data Availability : Type 0 where
  active disabled unplugged unknown : Availability

pub record Device : Type 0 where
  pub schema_version : ℕ
  pub endpoint_id : Text
  pub display_name : Text
  pub flow : Flow
  pub availability : Availability
  pub channels : ℕ
  pub sample_rate : ℕ
  pub buffer_frames : ℕ
  pub is_default : Bool
  pub last_sequence : ℕ

pub data CatalogResult : Type 0 where
  accepted replaced invalid_descriptor capacity_exceeded not_found invalid_state : CatalogResult

abbrev pub catalog_capacity : ℕ
catalog_capacity = 32

abbrev pub endpoint_id_max_bytes : ℕ
endpoint_id_max_bytes = 260

abbrev pub name_max_bytes : ℕ
name_max_bytes = 128

abbrev pub same_flow : Flow → Flow → Bool
same_flow render render = true
same_flow capture capture = true
same_flow _ _ = false

abbrev pub is_active : Availability → Bool
is_active active = true
is_active _ = false

abbrev pub is_empty : Text → Bool
is_empty [] = true
is_empty (c ∷ cs) = false

abbrev pub printable_utf8_bytes : Text → ℕ → Bool
printable_utf8_bytes value max_bytes =
    not (is_empty value) && leb (length value) max_bytes && is_printable_utf8 value

abbrev pub valid_flow : Flow → Bool
valid_flow render = true
valid_flow capture = true

abbrev pub valid_availability : Availability → Bool
valid_availability active = true
valid_availability disabled = true
valid_availability unplugged = true
valid_availability unknown = true

abbrev pub valid_channels : ℕ → Bool
valid_channels channels = (channels == 1) || (channels == 2) || (channels == 6) || (channels == 8)

abbrev pub valid_rate : ℕ → Bool
valid_rate rate = (rate == 44100) || (rate == 48000) || (rate == 96000) || (rate == 192000)

unfoldable pub valid_device : Device → Bool
valid_device device =
    (device.schema_version == 1)
    && printable_utf8_bytes device.endpoint_id endpoint_id_max_bytes
    && printable_utf8_bytes device.display_name name_max_bytes
    && valid_flow device.flow
    && valid_availability device.availability
    && valid_channels device.channels
    && valid_rate device.sample_rate
    && leb 16 device.buffer_frames
    && leb device.buffer_frames 4096
    && (not device.is_default || is_active device.availability)

-- `entries_` up to `size_`; the entries behind are default values.
abbrev pub Catalog : Type 0
Catalog = List Device

abbrev pub has_endpoint : Text → Device → Bool
has_endpoint endpoint_id device = text_eq device.endpoint_id endpoint_id

unfoldable pub find : Catalog → Text → Option Device
find catalog endpoint_id = find_entry (has_endpoint endpoint_id) catalog

-- `except_endpoint` is a pointer that may be null.
abbrev pub is_exempt : Option Text → Device → Bool
is_exempt none device = false
is_exempt (some endpoint_id) device = text_eq device.endpoint_id endpoint_id

abbrev pub cleared : Flow → Option Text → Device → Device
cleared flow except_endpoint device =
    if same_flow device.flow flow && not (is_exempt except_endpoint device)
    then record device { is_default = false }
    else device

unfoldable pub clear_defaults : Flow → Option Text → Catalog → Catalog
clear_defaults flow except_endpoint catalog = map (cleared flow except_endpoint) catalog

abbrev pub clear_others : Device → Catalog → Catalog
clear_others device catalog =
    if device.is_default
    then clear_defaults device.flow (some device.endpoint_id) catalog
    else catalog

unfoldable pub replace : Catalog → Device → Device → Catalog
replace catalog old device =
    let written =
      clear_others device
        (update_entry (has_endpoint device.endpoint_id) (λ entry. device) catalog) in
    if not (same_flow old.flow device.flow) then clear_defaults old.flow none written else written

unfoldable pub upsert : Catalog → Device → Catalog × CatalogResult
upsert catalog device =
    if not (valid_device device)
    then (catalog, invalid_descriptor)
    else elim (find_entry (has_endpoint device.endpoint_id) catalog) [
      | some old ↦
          if not (device.last_sequence == 0) && ltb device.last_sequence old.last_sequence
          then (catalog, invalid_state)
          else (replace catalog old device, replaced)
      | none ↦
          if leb catalog_capacity (length catalog)
          then (catalog, capacity_exceeded)
          else (clear_others device (catalog ++ (device ∷ [])), accepted)
    ]

unfoldable pub remove : Catalog → Text → Catalog × CatalogResult
remove catalog endpoint_id = elim (find_entry (has_endpoint endpoint_id) catalog) [
  | none ↦ (catalog, not_found)
  | some device ↦ (erase_entry (has_endpoint endpoint_id) catalog, accepted)
]

abbrev pub with_availability : Availability → ℕ → Device → Device
with_availability availability sequence device = record device {
  availability = availability;
  last_sequence = max device.last_sequence sequence;
  is_default = if is_active availability then device.is_default else false;
}

unfoldable pub set_availability : Catalog → Text → Availability → ℕ → Catalog × CatalogResult
set_availability catalog endpoint_id availability sequence =
    if not (valid_availability availability)
    then (catalog, invalid_state)
    else elim (find_entry (has_endpoint endpoint_id) catalog) [
      | none ↦ (catalog, not_found)
      | some device ↦
          if not (sequence == 0) && ltb sequence device.last_sequence
          then (catalog, invalid_state)
          else (
            update_entry (has_endpoint endpoint_id) (with_availability availability sequence)
                catalog,
            accepted,
          )
    ]

abbrev pub as_default : ℕ → Device → Device
as_default sequence device = record device {
  is_default = true;
  last_sequence = max device.last_sequence sequence;
}

unfoldable pub mark_default : Catalog → Text → Flow → ℕ → Catalog × CatalogResult
mark_default catalog endpoint_id flow sequence =
    if not (valid_flow flow)
    then (catalog, invalid_state)
    else elim (find_entry (has_endpoint endpoint_id) catalog) [
      | none ↦ (catalog, not_found)
      | some device ↦
          if not (same_flow device.flow flow) || not (is_active device.availability)
          then (catalog, invalid_state)
          else if not (sequence == 0) && ltb sequence device.last_sequence
          then (catalog, invalid_state)
          else (
            update_entry (has_endpoint endpoint_id) (as_default sequence)
                (clear_defaults flow (some device.endpoint_id) catalog),
            accepted,
          )
    ]

unfoldable pub selectable : Catalog → Text → Flow → Bool
selectable catalog endpoint_id flow = elim (find_entry (has_endpoint endpoint_id) catalog) [
  | none ↦ false
  | some device ↦ same_flow device.flow flow && is_active device.availability
]

abbrev pub serves : Flow → Device → Bool
serves flow device =
    same_flow device.flow flow && device.is_default && is_active device.availability

unfoldable pub default_device : Catalog → Flow → Option Device
default_device catalog flow = find_entry (serves flow) catalog

-- The catalogs of the two objects exchanged.
abbrev swap : Catalog → Catalog → Catalog × Catalog
swap catalog other = (other, catalog)
