-- ===== src/Reception/Table.antt =====
-- The table of services of include/reception_point.C: `add_service` and `delete_service`.
use gservices.Base.{
  ℕ, suc, ◌+◌, ◌≤◌, ◌<◌, ◌≡◌, refl, List, [], ◌∷◌, Option, none, some, true, Aleph, done, thrown,
  stopped, assertion, not_found, duplicated, Ends, arith, length, length-set, get_elem?,
  get_elem?-set, set, lt_of_get_elem?, ◌==◌, if◌then◌else◌,
}
use gservices.Message.{name_size}
use gservices.Reception.{Service, ReceptionPoint, add_service, delete_service}

abbrev pub is_some {ℓ} : {A : Type ℓ} → Option A → ℕ
is_some none = 0
is_some (some a) = 1

-- How many entries are not NULL.
unfoldable pub count_entries {ℓ} : {A : Type ℓ} → List (Option A) → ℕ
count_entries [] = 0
count_entries (e ∷ es) = is_some e + count_entries es

pub count_entries-set {ℓ} :
    {A : Type ℓ} (es : List (Option A)) (i : ℕ) (old new : Option A)
    → get_elem? es i ≡ some old
    → count_entries (set es i new) + is_some old ≡ count_entries es + is_some new
unfolding count_entries
count_entries-set [] i old new e = absurd (cc)
count_entries-set (x ∷ es) ℕ.zero old new e = ground arith
count_entries-set (x ∷ es) (suc i) old new e = omega (arith, count_entries-set es i old new e)

pub count_entries-set-none {ℓ} :
    {A : Type ℓ} (es : List (Option A)) (i : ℕ) → count_entries (set es i none) ≤ count_entries es
unfolding count_entries
count_entries-set-none [] i = omega arith
count_entries-set-none (x ∷ es) ℕ.zero = omega arith
count_entries-set-none (x ∷ es) (suc i) = omega (arith, count_entries-set-none es i)

abbrev pub entry_for : List ℕ → ℕ → Option Service
entry_for name f = some (record { service_name = name; service_function = f })

module _ {L : Type 0} where
  -- The table has its size, the counter is in range, and no more entries are in use than it counts.
  pub record IsValid (s : ReceptionPoint L) : Type 0 where
    pub sized : length s.table ≡ s.number_of_services
    pub bounded : s.registered_services ≤ s.number_of_services
    pub counted : count_entries s.table ≤ s.registered_services

  -- With ASSERT in force, `add_service` keeps the table valid, whether it returns or throws.
  pub add_service-IsValid :
      (k : Aleph) (code : ℕ) (name : List ℕ) (f : ℕ) (s : ReceptionPoint L)
      → k.assert_stops ≡ true
      → IsValid s
      → Ends (λ _. IsValid) IsValid (add_service k code name f s)
  unfolding add_service
  add_service-IsValid k code name f s stops v = ground (
    arith,
    length-set s.table code (some (record { service_name = name; service_function = f })),
    count_entries-set s.table code none
        (some (record { service_name = name; service_function = f })),
  )

  -- `delete_service` keeps the table valid, whether it returns or throws.
  pub delete_service-IsValid :
      (code : ℕ) (s : ReceptionPoint L)
      → IsValid s
      → Ends (λ _. IsValid) IsValid (delete_service code s)
  unfolding delete_service
  delete_service-IsValid code s v =
      ground (arith, length-set s.table code none, count_entries-set-none s.table code)

  -- With room in the counter and in the name array, `add_service` on an entry that is NULL puts the
  -- name and the function there, changes no other entry, and counts one service more.
  pub add_service_new :
      (k : Aleph) (code : ℕ) (name : List ℕ) (f : ℕ) (s : ReceptionPoint L)
      → get_elem? s.table code ≡ some none
      → s.registered_services < s.number_of_services
      → length name < name_size
      → (t : ReceptionPoint L) × (add_service k code name f s ≡ (done tt, t))
        × ((j : ℕ)
            → get_elem? t.table j
              ≡ (if code == j then some (entry_for name f) else get_elem? s.table j))
        × (t ≡ record s { table = t.table; registered_services = s.registered_services + 1 })
  unfolding add_service
  add_service_new k code name f s e room fits = (
    record s {
      table = set s.table code (entry_for name f);
      registered_services = s.registered_services + 1;
    },
    ground arith,
    λ j. get_elem?-set s.table code j (entry_for name f) (lt_of_get_elem? s.table code none e),
    refl,
  )

  -- On an entry in use it throws Duplicated and changes nothing; `delete_service` on a NULL entry
  -- throws NotFound and changes nothing.
  pub add_service_used :
      (k : Aleph) (code : ℕ) (name : List ℕ) (f : ℕ) (old : Service) (s : ReceptionPoint L)
      → get_elem? s.table code ≡ some (some old)
      → add_service k code name f s ≡ (thrown duplicated, s)
  unfolding add_service
  add_service_used k code name f old s e = ground arith

  pub delete_service_null :
      (code : ℕ) (s : ReceptionPoint L)
      → get_elem? s.table code ≡ some none
      → delete_service code s ≡ (thrown not_found, s)
  unfolding delete_service
  delete_service_null code s e = ground arith

  -- `delete_service` on an entry in use makes it NULL and changes no other entry, and no other
  -- field.
  pub delete_service_used :
      (code : ℕ) (old : Service) (s : ReceptionPoint L)
      → get_elem? s.table code ≡ some (some old)
      → (t : ReceptionPoint L) × (delete_service code s ≡ (done tt, t))
        × ((j : ℕ) → get_elem? t.table j ≡ (if code == j then some none else get_elem? s.table j))
        × (t ≡ record s { table = t.table })
  unfolding delete_service
  delete_service_used code old s e = (
    record s { table = set s.table code none },
    ground arith,
    λ j. get_elem?-set s.table code j none (lt_of_get_elem? s.table code (some old) e),
    refl,
  )

  -- `delete_service` does not lower the counter: once all the services were registered, a service
  -- that is deleted cannot be registered again, under any name: the ASSERT on the counter fails.
  pub delete_add_stops :
      (k : Aleph) (code : ℕ) (name : List ℕ) (f : ℕ) (old : Service) (s : ReceptionPoint L)
      → k.assert_stops ≡ true
      → s.registered_services ≡ s.number_of_services
      → get_elem? s.table code ≡ some (some old)
      → (add_service k code name f (delete_service code s).1).0 ≡ stopped assertion
  unfolding add_service delete_service
  delete_add_stops k code name f old s stops full e =
      ground
        (arith, get_elem?-set s.table code code none (lt_of_get_elem? s.table code (some old) e))
