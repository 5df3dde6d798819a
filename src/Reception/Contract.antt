-- ===== src/Reception/Contract.antt =====
-- The table of services of include/reception_point.C as a partial map from codes to services, with
-- the number of registrations.
use gservices.Base.{
  ℕ, ◌+◌, ◌<◌, ◌≡◌, refl, sym, ap, subst, ◌∙◌, inl, inr, List, [], ◌∷◌, Option, none, some, true, M,
  Aleph, Outcome, done, blocked, thrown, stopped, assertion, out_of_bounds, not_found, duplicated,
  arith, length, length-set, get_elem?, ltb, get_elem?-set, set, replicate, length-replicate, ◌==◌,
  if◌then◌else◌, ltb_cases, get_elem?-some, get_elem?_ge, get_elem?-replicate,
}
use gservices.Message.{name_size}
use gservices.Reception.{Service, ReceptionPoint, reception_point, add_service, delete_service}
use gservices.Reception.Table.{entry_for}

-- A map from codes to services, and how many registrations there have been.
pub record Registry : Type 0 where
  pub service : ℕ → Option Service
  pub registrations : ℕ

abbrev pub empty_registry : Registry
empty_registry = record { service = λ code. none; registrations = 0 }

-- Calls of the two operations.
pub data Call : Type 0 where
  add : ℕ → List ℕ → ℕ → Call
  delete : ℕ → Call

-- What a call promises for a table of a size.
module _ (k : Aleph) (size : ℕ) where
  unfoldable pub promise_add : ℕ → List ℕ → ℕ → Option Service → M Registry (Unit {0})
  promise_add code name f (some old) r = (thrown duplicated, r)
  promise_add code name f none r =
      if ltb r.registrations size
      then (if ltb (length name) name_size
          then (
            done tt,
            record {
              service = λ j. if code == j then entry_for name f else r.service j;
              registrations = r.registrations + 1;
            },
          )
          else (stopped out_of_bounds, r))
      else (stopped assertion, r)

  unfoldable pub promise_delete : ℕ → Option Service → M Registry (Unit {0})
  promise_delete code none r = (thrown not_found, r)
  promise_delete code (some old) r =
      (done tt, record r { service = λ j. if code == j then none else r.service j })

  unfoldable pub promise : Call → M Registry (Unit {0})
  unfolding promise_add promise_delete
  promise (add code name f) r =
      if ltb code size
      then promise_add code name f (r.service code) r
      else (stopped out_of_bounds, r)
  promise (delete code) r =
      if ltb code size then promise_delete code (r.service code) r else (stopped out_of_bounds, r)

module _ {L : Type 0} where
  abbrev pub perform : Aleph → Call → M (ReceptionPoint L) (Unit {0})
  perform k (add code name f) = add_service k code name f
  perform k (delete code) = delete_service code

  -- The table holds what the map says, for every code inside it.
  pub record Represents (size : ℕ) (s : ReceptionPoint L) (r : Registry) : Type 0 where
    pub sized : length s.table ≡ size
    pub limited : s.number_of_services ≡ size
    pub counted : s.registered_services ≡ r.registrations
    pub entries : (j : ℕ) → j < size → get_elem? s.table j ≡ some (r.service j)

  -- A call and its promise end in the same way, in states that correspond.
  abbrev pub Implements :
      ℕ → Outcome (Unit {0}) × ReceptionPoint L → Outcome (Unit {0}) × Registry → Type 0
  Implements size (o, s) (o', r) = (o ≡ o') × Represents size s r

  add_service-promise :
      (k : Aleph) (size code : ℕ) (name : List ℕ) (f : ℕ) (e : Option Service)
      (s : ReceptionPoint L) (r : Registry)
      → k.assert_stops ≡ true
      → Represents size s r
      → code < size
      → r.service code ≡ e
      → Implements size (add_service k code name f s) (promise_add k size code name f e r)
  unfolding add_service promise_add
  add_service-promise k size code name f (some old) s r stops is inside there =
      let here : get_elem? s.table code ≡ some (some old) =
        is.entries code inside ∙ ap some there in
      let run : add_service k code name f s ≡ (thrown duplicated, s) = ground (arith, here) in
      subst
        (λ (x : Outcome (Unit {0}) × ReceptionPoint L). Implements size x (thrown duplicated, r))
        (sym run) (refl, is)
  add_service-promise k size code name f none s r stops is inside there =
      let here : get_elem? s.table code ≡ some none = is.entries code inside ∙ ap some there in
      let counted = is.counted in
      let limited = is.limited in
      let sized = is.sized in
      let new : List (Option Service) = set s.table code (entry_for name f) in
      elim (ltb_cases r.registrations size) [
        | inl (room, e) ↦ elim (ltb_cases (length name) name_size) [
          | inl (fits, e') ↦
              let run : add_service k code name f s ≡ (
                done tt,
                record s { table = new; registered_services = s.registered_services + 1 },
              ) =
                ground (arith, here) in
              subst
                (λ (x : Outcome (Unit {0}) × ReceptionPoint L).
                  Implements size x (promise_add k size code name f none r))
                (sym run)
                (rw (e, e')
                  (
                    refl,
                    record {
                      sized = length-set s.table code (entry_for name f) ∙ sized;
                      limited = limited;
                      counted = ap (λ (n : ℕ). n + 1) counted;
                      entries = λ j below.
                          let old = is.entries j below in
                          let t = get_elem?-set s.table code j (entry_for name f) (omega arith) in
                          ground arith;
                    },
                  ))
          | inr (long, e') ↦
              let run : add_service k code name f s ≡ (stopped out_of_bounds, s) =
                ground (arith, here) in
              subst
                (λ (x : Outcome (Unit {0}) × ReceptionPoint L).
                  Implements size x (promise_add k size code name f none r))
                (sym run) (rw (e, e') (refl, is))
        ]
        | inr (full, e) ↦
            let run : add_service k code name f s ≡ (stopped assertion, s) = ground (arith, here) in
            subst
              (λ (x : Outcome (Unit {0}) × ReceptionPoint L).
                Implements size x (promise_add k size code name f none r))
              (sym run) (rw e (refl, is))
      ]

  delete_service-promise :
      (k : Aleph) (size code : ℕ) (e : Option Service) (s : ReceptionPoint L) (r : Registry)
      → Represents size s r
      → code < size
      → r.service code ≡ e
      → Implements size (delete_service code s) (promise_delete k size code e r)
  unfolding delete_service promise_delete
  delete_service-promise k size code none s r is inside there =
      let here : get_elem? s.table code ≡ some none = is.entries code inside ∙ ap some there in
      let run : delete_service code s ≡ (thrown not_found, s) = ground (arith, here) in
      subst (λ (x : Outcome (Unit {0}) × ReceptionPoint L). Implements size x (thrown not_found, r))
        (sym run) (refl, is)
  delete_service-promise k size code (some old) s r is inside there =
      let here : get_elem? s.table code ≡ some (some old) =
        is.entries code inside ∙ ap some there in
      let sized = is.sized in
      let new : List (Option Service) = set s.table code none in
      let run : delete_service code s ≡ (done tt, record s { table = new }) =
        ground (arith, here) in
      subst
        (λ (x : Outcome (Unit {0}) × ReceptionPoint L).
          Implements size x (promise_delete k size code (some old) r))
        (sym run)
        (
          refl,
          record {
            sized = length-set s.table code none ∙ sized;
            limited = is.limited;
            counted = is.counted;
            entries = λ j below.
                let old' = is.entries j below in
                let t = get_elem?-set s.table code j none (omega arith) in ground arith;
          },
        )

  perform-promise :
      (k : Aleph) (size : ℕ) (call : Call) (s : ReceptionPoint L) (r : Registry)
      → k.assert_stops ≡ true
      → Represents size s r
      → Implements size (perform k call s) (promise k size call r)
  unfolding promise add_service delete_service
  perform-promise k size (add code name f) s r stops is = elim (ltb_cases code size) [
    | inl (inside, e) ↦
        rw e (add_service-promise k size code name f (r.service code) s r stops is inside refl)
    | inr (outside, e) ↦
        let sized = is.sized in
        let gone = get_elem?_ge s.table code (omega arith) in
        let run : add_service k code name f s ≡ (stopped out_of_bounds, s) = ground (arith, gone) in
        subst
          (λ (x : Outcome (Unit {0}) × ReceptionPoint L).
            Implements size x (promise k size (add code name f) r))
          (sym run) (rw e (refl, is))
  ]
  perform-promise k size (delete code) s r stops is = elim (ltb_cases code size) [
    | inl (inside, e) ↦
        rw e (delete_service-promise k size code (r.service code) s r is inside refl)
    | inr (outside, e) ↦
        let sized = is.sized in
        let gone = get_elem?_ge s.table code (omega arith) in
        let run : delete_service code s ≡ (stopped out_of_bounds, s) = ground (arith, gone) in
        subst
          (λ (x : Outcome (Unit {0}) × ReceptionPoint L).
            Implements size x (promise k size (delete code) r))
          (sym run) (rw e (refl, is))
  ]

-- After an exception the caller goes on, after a fault there is nothing more.
abbrev pub unless_stopped :
    Outcome (Unit {0}) → List (Outcome (Unit {0})) → List (Outcome (Unit {0}))
unless_stopped (stopped x) later = []
unless_stopped blocked later = []
unless_stopped o later = later

-- How each of several calls ends.
unfoldable pub outcomes :
    {S : Type 0} → (Call → M S (Unit {0})) → List Call → S → List (Outcome (Unit {0}))
outcomes step [] s = []
outcomes step (c ∷ cs) s =
    (step c s).0 ∷ unless_stopped (step c s).0 (outcomes step cs (step c s).1)

module _ {L : Type 0} where
  reception_point-Represents :
      (link : L) (size : ℕ) → Represents size (reception_point link size) empty_registry
  reception_point-Represents link size = record {
    sized = length-replicate size none;
    limited = refl;
    counted = refl;
    entries = λ j below.
        let (e, there) =
          get_elem?-some (replicate size none) j
            (omega (arith, length-replicate {A = Option Service} size none)) in
        let it = get_elem?-replicate {A = Option Service} size none e j there in
        there ∙ ap some (sym it);
  }

  Represents-outcomes :
      (k : Aleph) (size : ℕ) (calls : List Call) (s : ReceptionPoint L) (r : Registry)
      → k.assert_stops ≡ true
      → Represents size s r
      → outcomes (perform k) calls s ≡ outcomes (promise k size) calls r
  unfolding outcomes
  Represents-outcomes k size [] s r stops is = refl
  Represents-outcomes k size (c ∷ cs) s r stops is =
      let (same, next) = perform-promise k size c s r stops is in
      let rest =
        Represents-outcomes k size cs (perform k c s).1 (promise k size c r).1 stops next in
      rw same rw rest refl

  -- Where ASSERT stops the process: whatever services are registered and deleted at a new server,
  -- by any sequence of `add_service` and `delete_service` with any arguments, every call ends as it
  -- does for a partial map from the codes below the size of the table to the services:
  -- `add_service` throws Duplicated on a code that the map has, fails its ASSERT after as many
  -- registrations as the table has entries, writes outside of the entry for a name that does not
  -- fit, and adds to the map otherwise; `delete_service` throws NotFound on a code that the map has
  -- not, and takes it out otherwise; a code outside of the table is an access outside of it.
  pub reception_point-outcomes :
      (k : Aleph) (link : L) (size : ℕ) (calls : List Call)
      → k.assert_stops ≡ true
      → outcomes (perform k) calls (reception_point link size)
        ≡ outcomes (promise k size) calls empty_registry
  reception_point-outcomes k link size calls stops =
      Represents-outcomes k size calls (reception_point link size) empty_registry stops
        (reception_point-Represents link size)
