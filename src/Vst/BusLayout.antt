-- ===== src/Vst/BusLayout.antt =====
-- vst-host/include/hibiki/vst3_bus_layout.hpp and vst-host/src/vst3_bus_layout.cpp: the audio buses of a
-- plugin.
pub mod Step
pub mod Loop
pub mod Correct
use hibiki_dsp.Base.{
  ℕ, suc, ◌+◌, ◌-◌, Bool, true, false, ◌&&◌, ◌||◌, not, List, [], ◌∷◌, ltb, leb, ◌==◌,
  if◌then◌else◌, take, get_or,
}

abbrev pub max_buses : ℕ
max_buses = 8

abbrev pub max_total_channels : ℕ
max_total_channels = 32

pub data BusRole : Type 0 where
  unused main auxiliary sidechain : BusRole

pub record AudioBus : Type 0 where
  pub role : BusRole
  pub active : ℕ
  pub reserved : ℕ
  pub channels : ℕ

-- `Vst3AudioBusV1{}`.
abbrev pub blank_bus : AudioBus
blank_bus = record { role = unused; active = 0; reserved = 0; channels = 0 }

pub record BusLayout : Type 0 where
  pub schema_version : ℕ
  pub input_bus_count : ℕ
  pub output_bus_count : ℕ
  pub inputs : List AudioBus
  pub outputs : List AudioBus

pub data LayoutResult : Type 0 where
  valid invalid_schema invalid_bus_count missing_main_input : LayoutResult
  missing_main_output main_not_first duplicate_main invalid_role : LayoutResult
  invalid_channels invalid_inactive_bus invalid_reserved : LayoutResult
  too_many_channels sidechain_output : LayoutResult

abbrev pub is_valid : LayoutResult → Bool
is_valid valid = true
is_valid _ = false

abbrev pub is_unused : BusRole → Bool
is_unused unused = true
is_unused _ = false

abbrev pub is_main : BusRole → Bool
is_main main = true
is_main _ = false

abbrev pub is_sidechain : BusRole → Bool
is_sidechain sidechain = true
is_sidechain _ = false

abbrev pub valid_channels : ℕ → Bool
valid_channels channels = (channels == 1) || (channels == 2) || (channels == 6) || (channels == 8)

abbrev pub valid_input_role : BusRole → Bool
valid_input_role main = true
valid_input_role auxiliary = true
valid_input_role sidechain = true
valid_input_role unused = false

abbrev pub valid_output_role : BusRole → Bool
valid_output_role main = true
valid_output_role auxiliary = true
valid_output_role _ = false

-- What `validate_buses` answers, and what it leaves in its two references.
pub record Tally : Type 0 where
  pub result : LayoutResult
  pub total_channels : ℕ
  pub main_count : ℕ

abbrev pub new_tally : Tally
new_tally = record { result = valid; total_channels = 0; main_count = 0 }

-- The body of the loop. The difference with the channels does not wrap: they are at most 8 there.
unfoldable pub tally_bus : ℕ → Bool → ℕ → Tally → AudioBus → Tally
tally_bus count input index tally bus =
    let mains = if is_main bus.role then tally.main_count + 1 else tally.main_count in
    if leb count index
    then (if not (is_unused bus.role)
          || not (bus.active == 0)
          || not (bus.reserved == 0)
          || not (bus.channels == 0)
        then record tally { result = invalid_inactive_bus }
        else tally)
    else if not (bus.reserved == 0) || ltb 1 bus.active
    then record tally { result = invalid_reserved }
    else if (bus.active == 0) || not (valid_channels bus.channels)
    then record tally {
      result = if bus.active == 0 then invalid_inactive_bus else invalid_channels;
    }
    else if input && not (valid_input_role bus.role)
        || not input && not (valid_output_role bus.role)
    then record tally { result = if is_sidechain bus.role then sidechain_output else invalid_role }
    else if is_main bus.role && not (index == 0)
    then record tally { result = main_not_first; main_count = mains }
    else if ltb (max_total_channels - bus.channels) tally.total_channels
    then record tally { result = too_many_channels; main_count = mains }
    else record {
      result = valid;
      total_channels = tally.total_channels + bus.channels;
      main_count = mains;
    }

-- The loop from an index on.
unfoldable pub validate_buses : ℕ → Bool → ℕ → Tally → List AudioBus → Tally
unfolding tally_bus
validate_buses count input index tally [] = tally
validate_buses count input index tally (bus ∷ buses) =
    let after = tally_bus count input index tally bus in
    let rest = validate_buses count input (suc index) after buses in
    if is_valid after.result then rest else after

unfoldable pub validate_layout : BusLayout → LayoutResult
validate_layout layout =
    let inputs = validate_buses layout.input_bus_count true 0 new_tally layout.inputs in
    let outputs = validate_buses layout.output_bus_count false 0 new_tally layout.outputs in
    if not (layout.schema_version == 1)
    then invalid_schema
    else if (layout.input_bus_count == 0)
        || (layout.output_bus_count == 0)
        || ltb max_buses layout.input_bus_count
        || ltb max_buses layout.output_bus_count
    then invalid_bus_count
    else if not (is_valid inputs.result)
    then inputs.result
    else if not (is_valid outputs.result)
    then outputs.result
    else if inputs.main_count == 0
    then missing_main_input
    else if outputs.main_count == 0
    then missing_main_output
    else if not (inputs.main_count == 1) || not (outputs.main_count == 1)
    then duplicate_main
    else valid

unfoldable pub matches_main : BusLayout → ℕ → ℕ → Bool
matches_main layout input_channels output_channels =
    is_valid (validate_layout layout)
    && ltb 0 input_channels
    && ltb 0 output_channels
    && ((get_or layout.inputs 0 blank_bus).channels == input_channels)
    && ((get_or layout.outputs 0 blank_bus).channels == output_channels)

unfoldable pub any_sidechain : List AudioBus → Bool
any_sidechain [] = false
any_sidechain (bus ∷ buses) = if is_sidechain bus.role then true else any_sidechain buses

unfoldable pub has_sidechain : BusLayout → Bool
has_sidechain layout =
    if not (is_valid (validate_layout layout))
    then false
    else any_sidechain (take layout.input_bus_count layout.inputs)
