-- ===== src/Vst/BusLayout/Step.antt =====
-- What one step of the loop over the buses accepts.
use hibiki_dsp.Base.{
  ℕ, suc, ◌+◌, ◌≤◌, ◌<◌, ◌≡◌, ◌≢◌, ◌⊎◌, refl, Bool, true, false, List, [], ◌∷◌, if◌then◌else◌,
  Bool-cases, inl, inr, arith,
}
use hibiki_dsp.Vst.BusLayout.{
  AudioBus, BusRole, unused, main, auxiliary, sidechain, valid, Tally, is_valid, is_main,
  max_total_channels, tally_bus, new_tally,
}

-- The roles that a bus of the direction may have.
abbrev pub MayPlay : Bool → BusRole → Type 0
MayPlay true role = role ≢ unused
MayPlay false role = (role ≡ main) ⊎ (role ≡ auxiliary)

pub record IsActive (input : Bool) (bus : AudioBus) : Type 0 where
  pub on : bus.active ≡ 1
  pub zero_reserved : bus.reserved ≡ 0
  pub plays : MayPlay input bus.role
  pub sized : (bus.channels ≡ 1) ⊎ (bus.channels ≡ 2) ⊎ (bus.channels ≡ 6) ⊎ (bus.channels ≡ 8)

pub record IsBlank (bus : AudioBus) : Type 0 where
  pub no_role : bus.role ≡ unused
  pub off : bus.active ≡ 0
  pub zero_reserved : bus.reserved ≡ 0
  pub no_channels : bus.channels ≡ 0

-- A bus behind the first one.
pub record IsExtra (input : Bool) (bus : AudioBus) : Type 0 where
  pub active : IsActive input bus
  pub extra : bus.role ≢ main

abbrev pub sum_channels : List AudioBus → ℕ
sum_channels [] = 0
sum_channels (bus ∷ buses) = bus.channels + sum_channels buses

-- The bus, the counters and the tally of one step, spelled out.
abbrev pub bus_of : BusRole → ℕ → ℕ → ℕ → AudioBus
bus_of role active reserved channels = record {
  role = role;
  active = active;
  reserved = reserved;
  channels = channels;
}

abbrev pub so_far : ℕ → ℕ → Tally
so_far total mains = record { result = valid; total_channels = total; main_count = mains }

input_cases : (input : Bool) → (input ≡ true) ⊎ (input ≡ false)
input_cases = Bool-cases

auxiliary_plays : (input : Bool) → MayPlay input auxiliary
auxiliary_plays true = λ e. cc
auxiliary_plays false = inr refl

main_plays : (input : Bool) → MayPlay input main
main_plays true = λ e. cc
main_plays false = inl refl

pub blank-forth :
    (input : Bool) (count index total mains : ℕ) (role : BusRole) (a r c : ℕ)
    → count ≤ index
    → is_valid (tally_bus count input index (so_far total mains) (bus_of role a r c)).result ≡ true
    → IsBlank (bus_of role a r c)
unfolding tally_bus
blank-forth input count index total mains unused a r c h e = record {
  no_role = refl;
  off = ground arith;
  zero_reserved = ground arith;
  no_channels = ground arith;
}
blank-forth input count index total mains main a r c h e = absurd (ground arith)
blank-forth input count index total mains auxiliary a r c h e = absurd (ground arith)
blank-forth input count index total mains sidechain a r c h e = absurd (ground arith)

pub blank-back :
    (input : Bool) (count index total mains : ℕ) (role : BusRole) (a r c : ℕ)
    → count ≤ index
    → IsBlank (bus_of role a r c)
    → tally_bus count input index (so_far total mains) (bus_of role a r c) ≡ so_far total mains
unfolding tally_bus
blank-back input count index total mains unused a r c h v =
    ground (arith, v.off, v.zero_reserved, v.no_channels)
blank-back input count index total mains main a r c h v = absurd (cc v.no_role)
blank-back input count index total mains auxiliary a r c h v = absurd (cc v.no_role)
blank-back input count index total mains sidechain a r c h v = absurd (cc v.no_role)

-- What a step beyond the first bus accepts, and how it leaves the tally.
pub extra-forth :
    (input : Bool) (count index total mains : ℕ) (role : BusRole) (a r c : ℕ)
    → suc index < count
    → is_valid (tally_bus count input (suc index) (so_far total mains) (bus_of role a r c)).result
      ≡ true
    → IsExtra input (bus_of role a r c) × (total + c ≤ max_total_channels)
unfolding tally_bus
extra-forth input count index total mains unused a r c h e =
    absurd (ground (arith, input_cases input))
extra-forth input count index total mains main a r c h e =
    absurd (ground (arith, input_cases input))
extra-forth input count index total mains auxiliary a r c h e = (
  record {
    active = record {
      on = ground (arith, input_cases input);
      zero_reserved = ground (arith, input_cases input);
      plays = auxiliary_plays input;
      sized = ground (arith, input_cases input);
    };
    extra = λ e. cc;
  },
  ground (arith, input_cases input),
)
extra-forth false count index total mains sidechain a r c h e = absurd (ground arith)
extra-forth true count index total mains sidechain a r c h e = (
  record {
    active = record {
      on = ground arith;
      zero_reserved = ground arith;
      plays = λ e. cc;
      sized = ground arith;
    };
    extra = λ e. cc;
  },
  ground arith,
)

pub extra-back :
    (input : Bool) (count index total mains : ℕ) (role : BusRole) (a r c : ℕ)
    → suc index < count
    → IsExtra input (bus_of role a r c)
    → total + c ≤ max_total_channels
    → tally_bus count input (suc index) (so_far total mains) (bus_of role a r c)
      ≡ so_far (total + c) mains
unfolding tally_bus
extra-back true count index total mains unused a r c h v room = absurd (v.active.plays refl)
extra-back false count index total mains unused a r c h v room = elim v.active.plays [
  | inl e ↦ absurd cc
  | inr e ↦ absurd cc
]
extra-back input count index total mains main a r c h v room = absurd (v.extra refl)
extra-back true count index total mains auxiliary a r c h v room =
    ground (arith, v.active.on, v.active.zero_reserved, v.active.sized)
extra-back false count index total mains auxiliary a r c h v room =
    ground (arith, v.active.on, v.active.zero_reserved, v.active.sized)
extra-back true count index total mains sidechain a r c h v room =
    ground (arith, v.active.on, v.active.zero_reserved, v.active.sized)
extra-back false count index total mains sidechain a r c h v room = elim v.active.plays [
  | inl e ↦ absurd cc
  | inr e ↦ absurd cc
]

-- The first bus may be a main bus, which is then counted.
pub first-forth :
    (input : Bool) (count : ℕ) (role : BusRole) (a r c : ℕ)
    → 0 < count
    → is_valid (tally_bus count input 0 new_tally (bus_of role a r c)).result ≡ true
    → (IsActive input (bus_of role a r c)) × (c ≤ 8)
unfolding tally_bus
first-forth input count unused a r c h e = absurd (ground (arith, input_cases input))
first-forth input count main a r c h e = (
  record {
    on = ground (arith, input_cases input);
    zero_reserved = ground (arith, input_cases input);
    plays = main_plays input;
    sized = ground (arith, input_cases input);
  },
  ground (arith, input_cases input),
)
first-forth input count auxiliary a r c h e = (
  record {
    on = ground (arith, input_cases input);
    zero_reserved = ground (arith, input_cases input);
    plays = auxiliary_plays input;
    sized = ground (arith, input_cases input);
  },
  ground (arith, input_cases input),
)
first-forth false count sidechain a r c h e = absurd (ground arith)
first-forth true count sidechain a r c h e = (
  record { on = ground arith; zero_reserved = ground arith; plays = λ e. cc; sized = ground arith },
  ground arith,
)

pub first-back :
    (input : Bool) (count : ℕ) (role : BusRole) (a r c : ℕ)
    → 0 < count
    → IsActive input (bus_of role a r c)
    → tally_bus count input 0 new_tally (bus_of role a r c)
      ≡ so_far c (if is_main role then 1 else 0)
unfolding tally_bus
first-back true count unused a r c h v = absurd (v.plays refl)
first-back false count unused a r c h v = elim v.plays [ inl e ↦ absurd cc | inr e ↦ absurd cc ]
first-back true count main a r c h v = ground (arith, v.on, v.zero_reserved, v.sized)
first-back false count main a r c h v = ground (arith, v.on, v.zero_reserved, v.sized)
first-back true count auxiliary a r c h v = ground (arith, v.on, v.zero_reserved, v.sized)
first-back false count auxiliary a r c h v = ground (arith, v.on, v.zero_reserved, v.sized)
first-back true count sidechain a r c h v = ground (arith, v.on, v.zero_reserved, v.sized)
first-back false count sidechain a r c h v = elim v.plays [ inl e ↦ absurd cc | inr e ↦ absurd cc ]
