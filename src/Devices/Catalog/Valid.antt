-- ===== src/Devices/Catalog/Valid.antt =====
-- The operations keep the catalog well formed.
use hibiki_dsp.Base.{
  ℕ, ◌≤◌, ◌≡◌, ◌∙◌, refl, true, false, ◌&&◌, ◌||◌, not, [], ◌∷◌, ◌++◌, none, ltb, leb, leb-lt, ◌==◌,
  length, length-append, Text, Bool-cases, Option-cases, inl, inr, arith,
}
use hibiki_dsp.Base.Key.{text_key}
use hibiki_dsp.Base.Entries.{
  find_entry, update_entry, length-erase_entry, All-erase_entry, All-snoc, find_entry-none,
  DistinctKeys-erase, DistinctKeys-snoc,
}
use hibiki_dsp.Base.Entries.Map.{All-imp, All-every}
use hibiki_dsp.Devices.Catalog.{
  Device, Flow, Availability, Catalog, catalog_capacity, valid_device, valid_flow,
  valid_availability, same_flow, is_active, has_endpoint, clear_others, replace, upsert, remove,
  set_availability, with_availability, mark_default,
}
use hibiki_dsp.Devices.Catalog.Defaults.{
  endpoint_of, default_weight, default_count-append, default_count-erase, default_count-update,
  default_count-clear,
}
use hibiki_dsp.Devices.Catalog.Writes.{
  HasDevices, IsCatalog, update-HasDevices, clear-HasDevices, clear_others-HasDevices,
  clear_others-one_default,
}
use hibiki_dsp.Devices.Catalog.Marking.{marked-IsCatalog}

-- The operations, but `swap` and the mutable `find`, through which no source writes.
pub data CatalogCall : Type 0 where
  upserts : Device → CatalogCall
  removes : Text → CatalogCall
  sets_availability : Text → Availability → ℕ → CatalogCall
  marks_default : Text → Flow → ℕ → CatalogCall

unfoldable pub catalog_after : Catalog → CatalogCall → Catalog
catalog_after catalog (upserts device) = (upsert catalog device).0
catalog_after catalog (removes endpoint_id) = (remove catalog endpoint_id).0
catalog_after catalog (sets_availability endpoint_id availability sequence) =
    (set_availability catalog endpoint_id availability sequence).0
catalog_after catalog (marks_default endpoint_id flow sequence) =
    (mark_default catalog endpoint_id flow sequence).0

replace-IsCatalog :
    (catalog : Catalog) (old device : Device)
    → valid_device device ≡ true
    → IsCatalog catalog
    → IsCatalog (replace catalog old device)
unfolding replace
replace-IsCatalog catalog old device ok v = elim (Bool-cases (same_flow old.flow device.flow)) [
  | inl e ↦ rw (replace, e) written
  | inr e ↦
      rw (replace, e)
        (record {
          devices = clear-HasDevices old.flow none _ written.devices;
          one_default = λ flow.
              omega (arith, default_count-clear flow old.flow none _, written.one_default flow);
        })
]
  where
    entries : Catalog
    entries = update_entry (has_endpoint device.endpoint_id) (λ entry. device) catalog

    devices_kept : HasDevices entries
    devices_kept =
        update-HasDevices device.endpoint_id (λ entry. device) catalog (λ a h. refl)
          (All-every _ catalog λ a h. ok) v.devices

    written : IsCatalog (clear_others device entries)
    written = record {
      devices = clear_others-HasDevices device entries devices_kept;
      one_default = λ flow. clear_others-one_default device entries flow devices_kept λ zero.
          omega (
            arith,
            v.one_default flow,
            default_count-update flow (has_endpoint device.endpoint_id) (λ entry. device) catalog
                (All-every _ catalog λ a h. omega (arith, zero)),
          );
    }

upsert-IsCatalog :
    (catalog : Catalog) (device : Device) → IsCatalog catalog → IsCatalog (upsert catalog device).0
unfolding upsert
upsert-IsCatalog catalog device v = elim (Bool-cases (valid_device device)) [
  | inr e ↦ rw (upsert, e) v
  | inl ok ↦ elim (Option-cases (find_entry (has_endpoint device.endpoint_id) catalog)) [
    | inr (old, known) ↦
        elim (Bool-cases
          (not (device.last_sequence == 0) && ltb device.last_sequence old.last_sequence)) [
            | inl stale ↦ rw (upsert, ok, known, stale) v
            | inr newer ↦ rw (upsert, ok, known, newer) (replace-IsCatalog catalog old device ok v)
          ]
    | inl new ↦ elim (Bool-cases (leb catalog_capacity (length catalog))) [
      | inl full ↦ rw (upsert, ok, new, full) v
      | inr room ↦ rw (upsert, ok, new, room) (appended new room ok)
    ]
  ]
]
  where
    appended :
        find_entry (has_endpoint device.endpoint_id) catalog ≡ none
        → leb catalog_capacity (length catalog) ≡ false
        → valid_device device ≡ true
        → IsCatalog (clear_others device (catalog ++ (device ∷ [])))
    appended new room ok =
        let devices_kept : HasDevices (catalog ++ (device ∷ [])) = record {
          bounded = omega (
            arith,
            length-append catalog (device ∷ []),
            leb-lt catalog_capacity (length catalog) room,
          );
          entries = All-snoc _ catalog device v.devices.entries ok;
          distinct =
              DistinctKeys-snoc text_key endpoint_of catalog device
                (find_entry-none text_key endpoint_of device.endpoint_id catalog new)
                v.devices.distinct;
        } in
        record {
          devices = clear_others-HasDevices device _ devices_kept;
          one_default = λ flow.
              clear_others-one_default device _ flow devices_kept
                λ zero. omega (arith, v.one_default flow, default_count-append flow catalog device);
        }

remove-IsCatalog :
    (catalog : Catalog) (endpoint_id : Text)
    → IsCatalog catalog
    → IsCatalog (remove catalog endpoint_id).0
unfolding remove
remove-IsCatalog catalog endpoint_id v =
    elim (Option-cases (find_entry (has_endpoint endpoint_id) catalog)) [
      | inl e ↦ rw (remove, e) v
      | inr (device, e) ↦
          rw (remove, e)
            (record {
              devices = record {
                bounded = omega (
                  arith,
                  length-erase_entry (has_endpoint endpoint_id) catalog,
                  v.devices.bounded,
                );
                entries = All-erase_entry _ (has_endpoint endpoint_id) catalog v.devices.entries;
                distinct =
                    DistinctKeys-erase text_key endpoint_of (has_endpoint endpoint_id) catalog
                      v.devices.distinct;
              };
              one_default = λ flow. omega (
                arith,
                default_count-erase flow (has_endpoint endpoint_id) catalog,
                v.one_default flow,
              );
            })
    ]

update-IsCatalog :
    (endpoint_id : Text) (f : Device → Device) (s : Catalog)
    → ((a : Device) → (f a).endpoint_id ≡ a.endpoint_id)
    → ((a : Device) → valid_device a ≡ true → valid_device (f a) ≡ true)
    → ((flow : Flow) (a : Device) → default_weight flow (f a) ≤ default_weight flow a)
    → IsCatalog s
    → IsCatalog (update_entry (has_endpoint endpoint_id) f s)
update-IsCatalog endpoint_id f s same keep less v = record {
  devices =
      update-HasDevices endpoint_id f s
        (λ a hit. same a ∙ text_key.beq_eq a.endpoint_id endpoint_id hit)
        (All-imp _ _ s (λ a ok hit. keep a ok) v.devices.entries) v.devices;
  one_default = λ flow. omega (
    arith,
    v.one_default flow,
    default_count-update flow (has_endpoint endpoint_id) f s (All-every _ s λ a hit. less flow a),
  );
}

set_availability-IsCatalog :
    (catalog : Catalog) (endpoint_id : Text) (availability : Availability) (sequence : ℕ)
    → IsCatalog catalog
    → IsCatalog (set_availability catalog endpoint_id availability sequence).0
unfolding set_availability valid_device
set_availability-IsCatalog catalog endpoint_id availability sequence v =
    elim (Bool-cases (valid_availability availability)) [
      | inr e ↦ rw (set_availability, e) v
      | inl e ↦ elim (Option-cases (find_entry (has_endpoint endpoint_id) catalog)) [
        | inl new ↦ rw (set_availability, e, new) v
        | inr (device, known) ↦
            elim (Bool-cases (not (sequence == 0) && ltb sequence device.last_sequence)) [
              | inl stale ↦ rw (set_availability, e, known, stale) v
              | inr newer ↦ rw (set_availability, e, known, newer) written
            ]
      ]
    ]
  where
    written :
        IsCatalog (
          update_entry (has_endpoint endpoint_id) (with_availability availability sequence) catalog)
    written =
        update-IsCatalog endpoint_id (with_availability availability sequence) catalog (λ a. refl)
          (λ a ok. ground arith) (λ flow a. ground arith) v

mark_default-IsCatalog :
    (catalog : Catalog) (endpoint_id : Text) (flow : Flow) (sequence : ℕ)
    → IsCatalog catalog
    → IsCatalog (mark_default catalog endpoint_id flow sequence).0
unfolding mark_default
mark_default-IsCatalog catalog endpoint_id flow sequence v = elim (Bool-cases (valid_flow flow)) [
  | inr e ↦ rw (mark_default, e) v
  | inl e ↦ elim (Option-cases (find_entry (has_endpoint endpoint_id) catalog)) [
    | inl new ↦ rw (mark_default, e, new) v
    | inr (device, known) ↦
        elim (Bool-cases
          (not (same_flow device.flow flow) || not (is_active device.availability))) [
            | inl unfit ↦ rw (mark_default, e, known, unfit) v
            | inr fit ↦
                elim (Bool-cases (not (sequence == 0) && ltb sequence device.last_sequence)) [
                  | inl stale ↦ rw (mark_default, e, known, fit, stale) v
                  | inr newer ↦
                      rw (mark_default, e, known, fit, newer)
                        (marked-IsCatalog catalog endpoint_id device flow sequence known
                          (ground arith) (ground arith) v)
                ]
          ]
  ]
]

-- Every operation but swap and the mutable `find`, whatever it answers, keeps the catalog well formed: at most 32
-- devices, each of them valid, with pairwise different endpoint ids, and at most one default device in each flow.
pub catalog_after-IsCatalog :
    (catalog : Catalog) (call : CatalogCall)
    → IsCatalog catalog
    → IsCatalog (catalog_after catalog call)
unfolding catalog_after
catalog_after-IsCatalog catalog (upserts device) v = upsert-IsCatalog catalog device v
catalog_after-IsCatalog catalog (removes endpoint_id) v = remove-IsCatalog catalog endpoint_id v
catalog_after-IsCatalog catalog (sets_availability endpoint_id availability sequence) v =
    set_availability-IsCatalog catalog endpoint_id availability sequence v
catalog_after-IsCatalog catalog (marks_default endpoint_id flow sequence) v =
    mark_default-IsCatalog catalog endpoint_id flow sequence v
