-- ===== src/LocalEngine/Clients.antt =====
-- The bookkeeping of clients in the engine of include/local_reception_point.C: `client`, `allset`,
-- `maxi` and `maxfd`, and the operations on them.
use gservices.Base.{
  ℕ, ◌≤◌, ◌<◌, ◌≡◌, ◌≢◌, refl, List, [], ◌∷◌, Option, none, some, true, length-replicate,
  get_elem?-replicate, lt_of_get_elem?, ◌-◌, ◌==◌, if◌then◌else◌, set, sym, subst, arith, length,
  get_elem?, length-set, get_elem?-set,
}
use gservices.Readwrite.{ret, minus_one, Ssize}
use gservices.Reception.{ReceptionPoint}
use gservices.LocalReception.{Sockets}
use gservices.LocalEngine.{
  Engine, engine, fd_setsize, first_free, none_left, add_client, disconnect,
}

-- An entry of `client` is below `maxi + 1` and holds a connection of `allset`, not above `maxfd`
-- and other than the listening socket; no two entries hold the same one.
pub record IsValid (e : Engine) : Type 0 where
  pub sized : length e.client ≡ fd_setsize
  pub bounded : e.used ≤ fd_setsize
  pub listening : e.allset e.listen_descriptor ≡ true
  pub selected : e.listen_descriptor ≤ e.maxfd
  pub below : (i fd : ℕ) → get_elem? e.client i ≡ some (some fd) → i < e.used
  pub watched : (i fd : ℕ) → get_elem? e.client i ≡ some (some fd) → e.allset fd ≡ true
  pub counted : (i fd : ℕ) → get_elem? e.client i ≡ some (some fd) → fd ≤ e.maxfd
  pub other : (i fd : ℕ) → get_elem? e.client i ≡ some (some fd) → fd ≢ e.listen_descriptor
  pub distinct :
      (i j fd : ℕ)
      → get_elem? e.client i ≡ some (some fd)
      → get_elem? e.client j ≡ some (some fd)
      → i ≡ j

-- `accept` returns a descriptor that is not open yet.
abbrev pub IsNew : Engine → ℕ → Type 0
IsNew e connfd =
    (connfd ≢ e.listen_descriptor) × ((i : ℕ) → get_elem? e.client i ≢ some (some connfd))

first_free-none :
    (cs : List (Option ℕ)) → first_free cs < length cs → get_elem? cs (first_free cs) ≡ some none
unfolding first_free
first_free-none [] h = elim h [ ]
first_free-none (none ∷ cs) h = refl
first_free-none (some fd ∷ cs) h = first_free-none cs (omega arith)

-- What the bookkeeping does not look at may change.
pub elsewhere_keeps :
    (p : ReceptionPoint Sockets) (contents : List ℕ) (n : Ssize) (e : Engine)
    → IsValid e
    → IsValid (record e { point = p; entry_msg = contents; nready = n })
elsewhere_keeps p contents n e v = record {
  sized = v.sized;
  bounded = v.bounded;
  listening = v.listening;
  selected = v.selected;
  below = v.below;
  watched = v.watched;
  counted = v.counted;
  other = v.other;
  distinct = v.distinct;
}

none_left_changes :
    (e : Engine) (n : Ssize)
    → e.nready ≡ n
    → (n' : Ssize) × ((none_left e).1 ≡ record e { nready = n' })
unfolding none_left
none_left_changes e minus_one h = (e.nready, rw h refl)
none_left_changes e (ret n) h = (ret (n - 1), rw h refl)

pub none_left_keeps : (e : Engine) → IsValid e → IsValid (none_left e).1
none_left_keeps e v =
    let (n, h) = none_left_changes e e.nready refl in
    subst IsValid (sym h) (elsewhere_keeps e.point e.entry_msg n e v)

pub add_client_keeps :
    (connfd : ℕ) (e : Engine)
    → IsNew e connfd
    → first_free e.client < fd_setsize
    → IsValid e
    → IsValid (add_client connfd e).1
unfolding add_client
add_client_keeps connfd e new room v =
    let sized = v.sized in
    let inside : first_free e.client < length e.client = omega arith in
    let there : (j : ℕ)
        → get_elem? (set e.client (first_free e.client) (some connfd)) j
          ≡ (if first_free e.client == j then some (some connfd) else get_elem? e.client j) =
      λ j. get_elem?-set e.client (first_free e.client) j (some connfd) inside in
    record {
      sized = ground (arith, length-set e.client (first_free e.client) (some connfd));
      bounded = let b = v.bounded in ground arith;
      listening = let l = v.listening in ground arith;
      selected = let l = v.selected in ground arith;
      below = λ i fd h. let b = v.below i fd in let t = there i in ground arith;
      watched = λ i fd h. let b = v.watched i fd in let t = there i in ground arith;
      counted = λ i fd h. let b = v.counted i fd in let t = there i in ground arith;
      other = λ i fd h. let b = v.other i fd in let t = there i in let n = new.0 in ground arith;
      distinct = λ i j fd h h'.
          let b = v.distinct i j fd in
          let t = there i in
          let t' = there j in let n = new.1 i in let n' = new.1 j in ground arith;
    }

pub disconnect_keeps :
    (i sockfd : ℕ) (e : Engine)
    → get_elem? e.client i ≡ some (some sockfd)
    → IsValid e
    → IsValid (disconnect i sockfd e).1
unfolding disconnect
disconnect_keeps i sockfd e here v =
    let inside : i < length e.client = lt_of_get_elem? e.client i (some sockfd) here in
    let gone : (j : ℕ)
        → get_elem? (set e.client i none) j ≡ (if i == j then some none else get_elem? e.client j) =
      λ j. get_elem?-set e.client i j none inside in
    let o = v.other i sockfd here in
    record {
      sized = let sized = v.sized in ground (arith, length-set e.client i none);
      bounded = v.bounded;
      listening = let l = v.listening in ground arith;
      selected = v.selected;
      below = λ j fd h. let b = v.below j fd in let t = gone j in ground arith;
      watched = λ j fd h.
          let b = v.watched j fd in
          let t = gone j in
          let d = v.distinct i j sockfd here in
          let w = v.watched j fd in ground (arith, t, d, w, h);
      counted = λ j fd h. let b = v.counted j fd in let t = gone j in ground arith;
      other = λ j fd h. let b = v.other j fd in let t = gone j in ground arith;
      distinct = λ j l fd h h'.
          let b = v.distinct j l fd in let t = gone j in let t' = gone l in ground arith;
    }

-- Without clients the bookkeeping is right.
no_clients-IsValid :
    (e : Engine)
    → length e.client ≡ fd_setsize
    → ((i fd : ℕ) → get_elem? e.client i ≢ some (some fd))
    → e.used ≤ fd_setsize
    → e.allset e.listen_descriptor ≡ true
    → e.listen_descriptor ≤ e.maxfd
    → IsValid e
no_clients-IsValid e sized empty bounded listening selected = record {
  sized = sized;
  bounded = bounded;
  listening = listening;
  selected = selected;
  below = λ i fd h. absurd (empty i fd h);
  watched = λ i fd h. absurd (empty i fd h);
  counted = λ i fd h. absurd (empty i fd h);
  other = λ i fd h. absurd (empty i fd h);
  distinct = λ i j fd h h'. absurd (empty i fd h);
}

pub engine-IsValid :
    (p : ReceptionPoint Sockets) (fd : ℕ) (contents : List ℕ) → IsValid (engine p fd contents)
engine-IsValid p fd contents =
    no_clients-IsValid (engine p fd contents) (length-replicate {A = Option ℕ} fd_setsize none)
      (λ i f h.
        let e = get_elem?-replicate fd_setsize none (some f) i h in absurd (ground (arith, e)))
      (omega arith) (ground arith) (omega arith)

-- At the start any descriptor but the listening socket's is new.
pub engine-IsNew :
    (p : ReceptionPoint Sockets) (fd connfd : ℕ) (contents : List ℕ)
    → connfd ≢ fd
    → IsNew (engine p fd contents) connfd
engine-IsNew p fd connfd contents other = (
  other,
  λ i h.
      let e = get_elem?-replicate fd_setsize none (some connfd) i h in absurd (ground (arith, e)),
)
