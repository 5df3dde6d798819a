-- ===== src/Reception.antt =====
-- include/reception_point.H, include/reception_point.C and include/binding_point.H: the state of a
-- server, its table of services and the list of requests that it still owns.
pub mod Table
pub mod Freeing
pub mod Contract
use gservices.Base.{
  ℕ, unexpected, ◌+◌, ◌==◌, if◌then◌else◌, ltb, List, [], ◌∷◌, ◌++◌, Option, none, some, Bool, true,
  false, not, ◌||◌, M, Aleph, Outcome, done, stopped, not_found, duplicated, out_of_bounds,
  use_after_free, pure, get, throw, stop, assert, ◌>>=◌, ◌>>◌, length, get_elem?, set, replicate,
}
use gservices.Message.{name_size}
use mathlib.Core.List.{reverse}

-- A `Services_Table_Entry`: the name and which function it runs.
pub record Service : Type 0 where
  pub service_name : List ℕ
  pub service_function : ℕ

-- A `Binding_Node` with its `Binding_Point`: the addresses of the node, of the binding and of the
-- message, the fields of the binding, and the socket or message id through which it answers.
pub record BindingNode : Type 0 where
  pub node : ℕ
  pub binding_point : ℕ
  pub message : ℕ
  pub still_busy : Bool
  pub request_message : Option ℕ
  pub peer : ℕ

-- `freed` lists the addresses given to `free` and `delete`, in order.
pub record ReceptionPoint (L : Type 0) : Type 0 where
  pub link : L
  pub table : List (Option Service)
  pub number_of_services : ℕ
  pub registered_services : ℕ
  pub is_shutdown : Bool
  pub binding_list : List BindingNode
  pub freed : List ℕ

abbrev pub reception_point : {L : Type 0} → L → ℕ → ReceptionPoint L
reception_point link no_of_services = record {
  link = link;
  table = replicate no_of_services none;
  number_of_services = no_of_services;
  registered_services = 0;
  is_shutdown = false;
  binding_list = [];
  freed = [];
}

-- `start_deamon`; the answer tells whether the thread was created.
unfoldable pub start_deamon : Bool → {S : Type 0} → M S (Unit {0})
start_deamon created = if created then pure tt else throw unexpected

-- The blocks that an entry of the list owns, in the order in which they are freed.
abbrev pub blocks_of : BindingNode → List ℕ
blocks_of b = b.message ∷ b.binding_point ∷ b.node ∷ []

-- The loop of `binding_list_freeing_fct`. The cursor stands behind `passed`, the last entry first.
pub freeing_loop : Bool → List BindingNode → List BindingNode → List ℕ → List BindingNode × List ℕ
freeing_loop is_shutdown passed [] freed = (reverse passed, freed)
freeing_loop is_shutdown passed (b ∷ rest) freed = elim (not b.still_busy || is_shutdown) [
  | true ↦ freeing_loop is_shutdown passed rest (freed ++ blocks_of b)
  | false ↦ freeing_loop is_shutdown (b ∷ passed) rest freed
]

module _ {L : Type 0} where
  abbrev on_link : {A : Type 0} → ReceptionPoint L → Outcome A × L → Outcome A × ReceptionPoint L
  on_link s (o, l) = (o, record s { link = l })

  -- A call that works on the link.
  abbrev pub via : {A : Type 0} → M L A → M (ReceptionPoint L) A
  via m s = on_link s (m s.link)

  unfoldable pub binding_list_freeing_fct : M (ReceptionPoint L) (Unit {0})
  unfolding freeing_loop
  binding_list_freeing_fct s =
      let (kept, freed) = freeing_loop s.is_shutdown [] s.binding_list s.freed in
      (done tt, record s { binding_list = kept; freed = freed })

  -- `binding_list.insertNext(node)`
  abbrev pub insert_next : BindingNode → M (ReceptionPoint L) (Unit {0})
  insert_next b s = (done tt, record s { binding_list = b ∷ s.binding_list })

  -- `table[service_code]`
  unfoldable pub entry : ℕ → M (ReceptionPoint L) (Option Service)
  entry service_code s = elim (get_elem? s.table service_code) [
    | none ↦ (stopped out_of_bounds, s)
    | some e ↦ (done e, s)
  ]

  abbrev pub put_entry : ℕ → Option Service → M (ReceptionPoint L) (Unit {0})
  put_entry service_code e s = (done tt, record s { table = set s.table service_code e })

  abbrev pub count_service : M (ReceptionPoint L) (Unit {0})
  count_service s = (done tt, record s { registered_services = s.registered_services + 1 })

  -- The branch of `add_service` for an entry that is NULL.
  pub register : Aleph → ℕ → List ℕ → ℕ → M (ReceptionPoint L) (Unit {0})
  register k servc_code servc_name service = do
    s ← get
    assert k (ltb s.registered_services s.number_of_services)
    let new_entry : Service = record { service_name = servc_name; service_function = service }
    (if ltb (length servc_name) name_size
        then put_entry servc_code (some new_entry)
        else stop out_of_bounds)
    count_service

  unfoldable pub add_service : Aleph → ℕ → List ℕ → ℕ → M (ReceptionPoint L) (Unit {0})
  unfolding entry register
  add_service k servc_code servc_name service = do
    e ← entry servc_code
    elim e [ none ↦ register k servc_code servc_name service | some _ ↦ throw duplicated ]

  unfoldable pub delete_service : ℕ → M (ReceptionPoint L) (Unit {0})
  unfolding entry
  delete_service service_code = do
    e ← entry service_code
    elim e [ none ↦ throw not_found | some _ ↦ put_entry service_code none ]

  -- `base_shutdown`: the table is gone, so a later access to it is out of bounds.
  unfoldable pub base_shutdown : M (ReceptionPoint L) (Unit {0})
  unfolding binding_list_freeing_fct
  base_shutdown s = binding_list_freeing_fct (record s { table = [] })
