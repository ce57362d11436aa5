-- ===== src/Vst/BusLayout/Correct.antt =====
-- A layout is valid exactly when it is one main bus and optional others in each direction.
use mathlib.Core.Path.{subst}
use hibiki_dsp.Base.{
  ℕ, zero, suc, ◌+◌, ◌≤◌, ◌≡◌, ◌≢◌, ◌↔◌, ◌∙◌, refl, ap, Bool, true, false, List, [], ◌∷◌,
  if◌then◌else◌, take, drop, All, length, get_or, Bool-cases, inl, inr, arith,
}
use hibiki_dsp.Vst.BusLayout.{
  AudioBus, BusLayout, BusRole, unused, main, auxiliary, sidechain, valid, Tally, is_valid, is_main,
  max_buses, max_total_channels, validate_buses, validate_layout, new_tally, blank_bus,
}
use hibiki_dsp.Vst.BusLayout.Step.{
  IsActive, IsBlank, IsExtra, sum_channels, so_far, first-forth, first-back,
}
use hibiki_dsp.Vst.BusLayout.Loop.{step_accepted, after_step, extras-forth, extras-back}

-- The buses of one direction: an active main bus, then `count - 1` active buses that are not main, then
-- blank ones, with 32 channels at most.
pub record IsDirection (input : Bool) (count : ℕ) (buses : List AudioBus) : Type 0 where
  pub some_bus : 1 ≤ count
  pub few_buses : count ≤ max_buses
  pub first : IsActive input (get_or buses 0 blank_bus)
  pub main_first : (get_or buses 0 blank_bus).role ≡ main
  pub others : All (IsExtra input) (drop 1 (take count buses))
  pub blanks : All IsBlank (drop count buses)
  pub fits : sum_channels (take count buses) ≤ max_total_channels

pub record IsLayout (layout : BusLayout) : Type 0 where
  pub schema : layout.schema_version ≡ 1
  pub inputs : IsDirection true layout.input_bus_count layout.inputs
  pub outputs : IsDirection false layout.output_bus_count layout.outputs

role_main : (role : BusRole) → is_main role ≡ true → role ≡ main
role_main main h = refl
role_main unused h = absurd cc
role_main auxiliary h = absurd cc
role_main sidechain h = absurd cc

main_role : (role : BusRole) → role ≡ main → is_main role ≡ true
main_role role h = rw h

module _ (input : Bool) (n : ℕ) (bus : AudioBus) (buses : List AudioBus) where
  abbrev count : ℕ
  count = suc n

  abbrev tallied : Tally
  tallied = validate_buses count input 0 new_tally (bus ∷ buses)

  first_run :
      IsActive input bus
      → tallied
        ≡ validate_buses count input 1
            (so_far bus.channels (if is_main bus.role then 1 else 0))
            buses
  first_run v =
      after_step count input 0 new_tally bus.channels (if is_main bus.role then 1 else 0) bus buses
        (first-back input count bus.role bus.active bus.reserved bus.channels (omega arith) v)

  whole_run :
      IsActive input bus
      → All (IsExtra input) (take n buses)
      → All IsBlank (drop n buses)
      → bus.channels + sum_channels (take n buses) ≤ max_total_channels
      → tallied
        ≡ so_far (bus.channels + sum_channels (take n buses)) (if is_main bus.role then 1 else 0)
  whole_run v others blanks fits =
      first_run v
      ∙ extras-back count input n 0 bus.channels _ buses (omega arith) others blanks fits

  accepted :
      is_valid tallied.result ≡ true
      → IsActive input bus
        × All (IsExtra input) (take n buses)
        × All IsBlank (drop n buses)
        × (bus.channels + sum_channels (take n buses) ≤ max_total_channels)
  accepted e =
      let (v, small) =
        first-forth input count bus.role bus.active bus.reserved bus.channels (omega arith)
          (step_accepted count input 0 new_tally bus buses e) in
      let (others, blanks, fits) =
        extras-forth count input n 0 bus.channels _ buses (omega arith) (omega arith)
          (subst (λ t. is_valid t.result ≡ true) (first_run v) e) in
      (v, others, blanks, fits)

  IsDirection-forth :
      count ≤ max_buses
      → is_valid tallied.result ≡ true
      → tallied.main_count ≢ 0
      → IsDirection input count (bus ∷ buses)
  IsDirection-forth few e mains =
      let (v, others, blanks, fits) = accepted e in
      record {
        some_bus = omega arith;
        few_buses = few;
        first = v;
        main_first = elim (Bool-cases (is_main bus.role)) [
          | inl is ↦ role_main bus.role is
          | inr is_not ↦ absurd (
              mains (
                ap (λ t. t.main_count) (whole_run v others blanks fits)
                ∙ ap (λ b. if b then 1 else 0) is_not))
        ];
        others = others;
        blanks = blanks;
        fits = fits;
      }

  IsDirection-back :
      IsDirection input count (bus ∷ buses)
      → (is_valid tallied.result ≡ true) × (tallied.main_count ≡ 1)
  IsDirection-back d =
      let e = whole_run d.first d.others d.blanks d.fits in
      (
        ap (λ t. is_valid t.result) e,
        ap (λ t. t.main_count) e ∙ ap (λ b. if b then 1 else 0) (main_role bus.role d.main_first),
      )

forth :
    (input : Bool) (count : ℕ) (buses : List AudioBus)
    → length buses ≡ max_buses
    → 1 ≤ count
    → count ≤ max_buses
    → is_valid (validate_buses count input 0 new_tally buses).result ≡ true
    → (validate_buses count input 0 new_tally buses).main_count ≢ 0
    → IsDirection input count buses
forth input zero buses size some few e mains = absurd (omega arith)
forth input (suc n) [] size some few e mains = absurd (omega arith)
forth input (suc n) (bus ∷ buses) size some few e mains =
    IsDirection-forth input n bus buses few e mains

back :
    (input : Bool) (count : ℕ) (buses : List AudioBus)
    → length buses ≡ max_buses
    → IsDirection input count buses
    → (is_valid (validate_buses count input 0 new_tally buses).result ≡ true)
      × ((validate_buses count input 0 new_tally buses).main_count ≡ 1)
back input zero buses size d = absurd (omega (arith, d.some_bus))
back input (suc n) [] size d = absurd (omega arith)
back input (suc n) (bus ∷ buses) size d = IsDirection-back input n bus buses d

-- What a valid answer went through.
guards :
    (layout : BusLayout)
    → validate_layout layout ≡ valid
    → let inputs = validate_buses layout.input_bus_count true 0 new_tally layout.inputs in
      let outputs = validate_buses layout.output_bus_count false 0 new_tally layout.outputs in
      (layout.schema_version ≡ 1)
      × (1 ≤ layout.input_bus_count)
      × (layout.input_bus_count ≤ max_buses)
      × (1 ≤ layout.output_bus_count)
      × (layout.output_bus_count ≤ max_buses)
      × (is_valid inputs.result ≡ true)
      × (inputs.main_count ≢ 0)
      × (is_valid outputs.result ≡ true)
      × (outputs.main_count ≢ 0)
unfolding validate_layout
guards layout e = ground (arith, ap is_valid e)

-- A layout whose two arrays have eight buses is valid exactly when its schema is 1 and, in each direction, one
-- to eight buses are declared, the first of them an active main bus and the others active, not main and of a
-- role that the direction allows, each of 1, 2, 6 or 8 channels and of at most 32 in all, and every bus behind
-- them is blank.
pub validate_layout_iff :
    (layout : BusLayout)
    → length layout.inputs ≡ max_buses
    → length layout.outputs ≡ max_buses
    → (validate_layout layout ≡ valid) ↔ IsLayout layout
unfolding validate_layout
validate_layout_iff layout inputs outputs = (when_valid, when_layout)
  where
    when_valid : validate_layout layout ≡ valid → IsLayout layout
    when_valid e =
        let (schema, some_in, few_in, some_out, few_out, ok_in, main_in, ok_out, main_out) =
          guards layout e in
        record {
          schema = schema;
          inputs =
              forth true layout.input_bus_count layout.inputs inputs some_in few_in ok_in main_in;
          outputs =
              forth false layout.output_bus_count layout.outputs outputs some_out few_out ok_out
                main_out;
        }

    when_layout : IsLayout layout → validate_layout layout ≡ valid
    when_layout d =
        let (ok_in, main_in) = back true layout.input_bus_count layout.inputs inputs d.inputs in
        let (ok_out, main_out) =
          back false layout.output_bus_count layout.outputs outputs d.outputs in
        ground (
          arith, d.schema, d.inputs.some_bus, d.inputs.few_buses, d.outputs.some_bus,
          d.outputs.few_buses,
        )
