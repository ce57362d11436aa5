-- ===== src/Devices/Catalog/Marking.antt =====
-- Making one device the default of its flow keeps the catalog well formed.
use mathlib.Core.Path.{subst}
use hibiki_dsp.Base.{
  ℕ, ◌≤◌, ◌≡◌, sym, Bool, true, false, [], ◌∷◌, some, All, Text, Bool-cases, inl, inr, arith,
}
use hibiki_dsp.Base.Key.{text_key}
use hibiki_dsp.Base.Entries.{find_entry, update_entry, All-find_entry}
use hibiki_dsp.Base.Entries.Map.{All-every, All-update_entry_at, find_entry-only}
use hibiki_dsp.Devices.Catalog.{
  Device, Flow, Catalog, valid_device, same_flow, is_active, has_endpoint, clear_defaults, cleared,
  as_default,
}
use hibiki_dsp.Devices.Catalog.Defaults.{
  endpoint_of, default_weight, default_count, default_count-update, default_count-clear,
  default_count-sole, clear-sole,
}
use hibiki_dsp.Devices.Catalog.Writes.{
  HasDevices, IsCatalog, update-HasDevices, clear-HasDevices, same_flow-eq, same_flow-apart,
}

-- The write of `mark_default`.
pub marked-IsCatalog :
    (catalog : Catalog) (endpoint_id : Text) (device : Device) (flow : Flow) (sequence : ℕ)
    → find_entry (has_endpoint endpoint_id) catalog ≡ some device
    → same_flow device.flow flow ≡ true
    → is_active device.availability ≡ true
    → IsCatalog catalog
    → IsCatalog (
        update_entry
          (has_endpoint endpoint_id)
          (as_default sequence)
          (clear_defaults flow (some device.endpoint_id) catalog))
unfolding clear_defaults valid_device
marked-IsCatalog catalog endpoint_id device flow sequence known here usable v = record {
  devices = devices_kept;
  one_default = λ other. elim (Bool-cases (same_flow flow other)) [
    | inl same ↦
        subst (λ x. default_count x marked ≤ 1) (same_flow-eq flow other same)
          (default_count-sole flow endpoint_id marked devices_kept.distinct (
            All-update_entry_at _ (has_endpoint endpoint_id) (as_default sequence) quiet
              (All-every _ quiet λ a hit miss. clash hit miss) others_cleared))
    | inr apart ↦ omega (
      arith,
      v.one_default other,
      default_count-clear other flow (some device.endpoint_id) catalog,
      default_count-update other (has_endpoint endpoint_id) (as_default sequence) quiet
          (unweighted other apart catalog only),
    )
  ];
}
  where
    quiet : Catalog
    quiet = clear_defaults flow (some device.endpoint_id) catalog

    marked : Catalog
    marked = update_entry (has_endpoint endpoint_id) (as_default sequence) quiet

    clash : {P : Type 0} {b : Bool} → b ≡ true → b ≡ false → P
    clash hit miss = cc

    only : All (λ a. has_endpoint endpoint_id a ≡ true → a ≡ device) catalog
    only = find_entry-only text_key endpoint_of endpoint_id catalog device v.devices.distinct known

    others_cleared : All (λ a. has_endpoint endpoint_id a ≡ false → default_weight flow a ≡ 0) quiet
    others_cleared =
        let found = All-find_entry _ (has_endpoint endpoint_id) catalog v.devices.entries known in
        subst (λ x. All (λ a. has_endpoint x a ≡ false → default_weight flow a ≡ 0) quiet)
          (text_key.beq_eq device.endpoint_id endpoint_id found.1)
          (clear-sole flow device.endpoint_id catalog)

    facts :
        (a : Device)
        → (has_endpoint endpoint_id a ≡ true → a ≡ device)
        → has_endpoint endpoint_id (cleared flow (some device.endpoint_id) a) ≡ true
        → (same_flow a.flow flow ≡ true) × (is_active a.availability ≡ true)
    facts a one hit =
        let same = one (ground arith) in
        (
          subst (λ x. same_flow x.flow flow ≡ true) (sym same) here,
          subst (λ x. is_active x.availability ≡ true) (sym same) usable,
        )

    valid_marked :
        (s : Catalog)
        → All (λ a. has_endpoint endpoint_id a ≡ true → a ≡ device) s
        → All (λ a. valid_device a ≡ true) s
        → All
            (λ a. has_endpoint endpoint_id a ≡ true → valid_device (as_default sequence a) ≡ true)
            (clear_defaults flow (some device.endpoint_id) s)
    valid_marked [] one ok = tt
    valid_marked (a ∷ s) one ok =
        ((λ hit. ground (arith, ok.0, facts a one.0 hit)), valid_marked s one.1 ok.1)

    unweighted :
        (other : Flow)
        → same_flow flow other ≡ false
        → (s : Catalog) → All (λ a. has_endpoint endpoint_id a ≡ true → a ≡ device) s
        → All
            (λ a.
              has_endpoint endpoint_id a ≡ true
              → default_weight other (as_default sequence a) ≤ default_weight other a)
            (clear_defaults flow (some device.endpoint_id) s)
    unweighted other apart [] one = tt
    unweighted other apart (a ∷ s) one = (
      (λ hit. ground (arith, same_flow-apart a.flow flow other (facts a one.0 hit).0 apart)),
      unweighted other apart s one.1,
    )

    devices_kept : HasDevices marked
    devices_kept =
        update-HasDevices endpoint_id (as_default sequence) quiet
          (λ a hit. text_key.beq_eq a.endpoint_id endpoint_id hit)
          (valid_marked catalog only v.devices.entries)
          (clear-HasDevices flow (some device.endpoint_id) catalog v.devices)
