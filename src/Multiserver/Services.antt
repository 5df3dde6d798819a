-- ===== src/Multiserver/Services.antt =====
-- The table of services of include/remote_multiserver_point.H.
use gservices.Base.{
  ℕ, ◌≤◌, ◌<◌, ◌≡◌, List, [], ◌∷◌, ◌++◌, none, some, true, Aleph, done, thrown, stopped, assertion,
  duplicated, Ends, arith, length, length-set, get_elem?, get_elem?-set, set, lt_of_get_elem?,
}
use gservices.Message.{name_size}
use gservices.Reception.Table.{count_entries, count_entries-set, count_entries-set-none}
use gservices.Multiserver.{
  SendingType, Service, Multiserver, include_service, add_service, delete_service,
}

module _ {L : Type 0} where
  -- The table has its size, the counter is in range, and no more entries are in use than it counts.
  pub record IsValid (s : Multiserver L) : Type 0 where
    pub sized : length s.table ≡ s.number_of_services
    pub bounded : s.registered_services ≤ s.number_of_services
    pub counted : count_entries s.table ≤ s.registered_services

  -- With ASSERT in force, `include_service` keeps the table valid, whether it returns or throws.
  pub include_service-IsValid :
      (k : Aleph) (code : ℕ) (service : Service) (s : Multiserver L)
      → k.assert_stops ≡ true
      → IsValid s
      → Ends (λ _. IsValid) IsValid (include_service k code service s)
  unfolding include_service
  include_service-IsValid k code service s stops v = ground (
    arith,
    length-set s.table code (some service),
    count_entries-set s.table code none (some service),
  )

  -- `delete_service` keeps the table valid, whether it returns or throws.
  pub erase_service-IsValid :
      (code : ℕ) (s : Multiserver L)
      → IsValid s
      → Ends (λ _. IsValid) IsValid (delete_service code s)
  unfolding delete_service
  erase_service-IsValid code s v =
      ground (arith, length-set s.table code none, count_entries-set-none s.table code)

  -- If ASSERT is in force and all the services were registered, a service that `delete_service` has
  -- removed cannot be registered again: the ASSERT on the counter fails, for every new service.
  pub delete_include_stops :
      (k : Aleph) (code : ℕ) (service old : Service) (s : Multiserver L)
      → k.assert_stops ≡ true
      → s.registered_services ≡ s.number_of_services
      → get_elem? s.table code ≡ some (some old)
      → (include_service k code service (delete_service code s).1).0 ≡ stopped assertion
  unfolding include_service delete_service
  delete_include_stops k code service old s stops full e =
      let inside = lt_of_get_elem? s.table code (some old) e in
      let deleted : delete_service code s ≡ (
        done tt,
        record s { freed = s.freed ++ old.address ∷ []; table = set s.table code none },
      ) =
        ground arith in
      rw deleted (ground (arith, get_elem?-set s.table code code none inside))

  -- `add_service` on an entry in use throws Duplicated, after it has deleted the new service and
  -- only that: the table and the counter stay as they were.
  pub add_service_duplicated :
      (k : Aleph) (type : SendingType) (address code f : ℕ) (name : List ℕ) (old : Service)
      (s : Multiserver L)
      → code < s.number_of_services
      → length name < name_size
      → get_elem? s.table code ≡ some (some old)
      → add_service k type address code name f s
        ≡ (thrown duplicated, record s { freed = s.freed ++ address ∷ [] })
  unfolding add_service include_service
  add_service_duplicated k type address code f name old s inside fits e = ground arith
