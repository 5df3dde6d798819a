-- ===== src/LocalEngine/Turns.antt =====
-- Turns of the engine of include/local_reception_point.C in each of which one client's request is
-- answered.
use gservices.Base.{
  ℕ, suc, ◌+◌, ◌^◌, ◌≤◌, ◌<◌, ◌≡◌, ◌∙◌, subst, refl, ap, List, [], ◌∷◌, ◌++◌, some, Bool, true,
  false, Aleph, done, blocked, after, arith, length, get_elem?, if◌then◌else◌,
}
use gservices.Readwrite.{ret}
use gservices.Readwrite.Output.{capacity}
use gservices.Readwrite.Stream.{stream}
use gservices.Message.{MsgEntryHeader, MsgExitHeader, encode_entry, header_size}
use gservices.Reception.{Service}
use gservices.Reception.Freeing.{kept, dropped_blocks}
use gservices.Binding.Responds.{reply_bytes}
use gservices.Dispatcher.{Server}
use gservices.LocalReception.{Sockets, update}
use gservices.LocalReception.Framing.{PartsFit}
use gservices.LocalEngine.{
  Engine, Round, serve, none_left, visit, visit_entry, scan, round, close_all, deamon_engine,
}
use gservices.LocalEngine.Serves.{Waits, scan_skips, goes_on}
use gservices.LocalEngine.Answers.{AnswersRequest, answered_node, serve_answers, whole}

-- The request of a turn and its reply: the client's index and descriptor, how many clients stand
-- behind it, the message and what follows it on the socket.
pub record Turn : Type 0 where
  pub answers : Round
  pub index : ℕ
  pub fd : ℕ
  pub behind : ℕ
  pub request : MsgEntryHeader
  pub parameters : List ℕ
  pub invocation : List ℕ
  pub later : List ℕ
  pub service : Service
  pub reply : MsgExitHeader
  pub body : List ℕ

abbrev pub sent_after : Turn → (ℕ → List ℕ) → ℕ → List ℕ
sent_after q sent = update sent q.fd (sent q.fd ++ reply_bytes q.reply q.body 0)

-- The replies of the turns, each at the end of what its descriptor was sent.
abbrev pub sent_by : List Turn → (ℕ → List ℕ) → ℕ → List ℕ
sent_by [] sent = sent
sent_by (q ∷ qs) sent = sent_by qs (sent_after q sent)

abbrev pub rounds : List Turn → List Round
rounds [] = []
rounds (q ∷ qs) = q.answers ∷ rounds qs

none_left_one :
    (e : Engine) → e.nready ≡ ret 1 → none_left e ≡ (done true, record e { nready = ret 0 })
unfolding none_left
none_left_one e h = ground (arith, h)

module _ (server : Server Sockets) (k : Aleph) where
  -- No client is new; the first descriptor that is ready is this client's, and the only one; a
  -- whole request is there, which its service answers, and the kernel takes the reply.
  pub record IsServed (q : Turn) (e : Engine) : Type 0 where
    pub nobody_new : q.answers.rset e.listen_descriptor ≡ false
    pub one : q.answers.nready ≡ ret 1
    pub used : e.used ≡ q.index + suc q.behind
    pub before : (m : ℕ) → m < q.index → Waits q.answers (get_elem? e.client m)
    pub there : get_elem? e.client q.index ≡ some (some q.fd)
    pub ready : q.answers.rset q.fd ≡ true
    pub sized : length e.entry_msg ≡ header_size
    pub fit : PartsFit q.request q.parameters q.invocation
    pub arrives :
        stream (e.point.link.reads q.fd)
        ≡ whole k q.reply q.body server q.fd
            (q.answers.blocks q.index)
            q.request
            q.parameters
            q.invocation
            q.later
            q.service
          ++ q.later
    pub asked :
        AnswersRequest k q.reply q.body server q.fd
          (q.answers.blocks q.index)
          q.request
          q.parameters
          q.invocation
          q.later
          q.service
          e.point
    pub room : header_size + length q.body ≤ capacity (e.point.link.writes q.fd)
    pub small : header_size + length q.body < 2 ^ 31

  abbrev pub answered_engine : Sockets → Turn → Engine → Engine
  answered_engine l q e = record e {
    nready = ret 0;
    entry_msg = encode_entry q.request;
    point = record (e.point) {
      link = l;
      binding_list =
          answered_node k q.reply q.body q.fd (q.answers.blocks q.index)
          ∷ kept e.point.is_shutdown e.point.binding_list;
      freed = e.point.freed ++ dropped_blocks e.point.is_shutdown e.point.binding_list;
    };
  }

  round_answers :
      (q : Turn) (e : Engine)
      → IsServed q e
      → (l : Sockets) × (round server k q.answers e ≡ (done tt, answered_engine l q e))
        × (l.sent ≡ sent_after q e.point.link.sent)
  unfolding round scan visit visit_entry
  round_answers q e v =
      let e1 : Engine = record e { nready = q.answers.nready } in
      let r : Round = q.answers in
      let there = v.there in
      let ready = v.ready in
      let (l, served, sent, left) =
        serve_answers k q.reply q.body server q.fd (q.answers.blocks q.index) q.request q.parameters
          q.invocation q.later q.service q.index e1 v.sized v.fit v.arrives
          (record {
            code = v.asked.code;
            all = v.asked.all;
            there = v.asked.there;
            answers = v.asked.answers;
          })
          v.room v.small in
      let counted = none_left_one (record (answered_engine l q e) { nready = r.nready }) v.one in
      let start : 0 + q.index ≡ q.index = omega arith in
      let skipped : scan server k r 0 (q.index + suc q.behind) e1
          ≡ scan server k r q.index (suc q.behind) e1 =
        scan_skips server k r q.index (suc q.behind) 0 e1 (λ m from to. v.before m (omega arith))
        ∙ ap (λ (m : ℕ). scan server k r m (suc q.behind) e1) start in
      let chosen : visit server k r q.index e1 ≡ serve server k q.index q.fd (r.blocks q.index) e1 =
        rw (visit, there, visit_entry, ready) refl in
      let scans : scan server k r 0 e.used e1 ≡ (done tt, answered_engine l q e) =
        ap (λ (m : ℕ). scan server k r 0 m e1) v.used
        ∙ skipped
        ∙ ap
            (goes_on server k r q.index q.fd q.request q.parameters q.invocation q.later e1
              q.behind)
            (chosen ∙ served ∙ counted) in
      let quiet = v.nobody_new in (l, rw quiet scans, sent)

  -- Each turn finds its request in the state that the turns before it leave.
  abbrev pub AllServed : List Turn → Engine → Type 0
  AllServed [] e = Unit {0}
  AllServed (q ∷ qs) e = IsServed q e × AllServed qs (round server k q.answers e).1

  -- A server that runs, and in each of whose turns one client's request is there and its service
  -- answers it: the engine takes and answers every one of them, in their order, each on the
  -- descriptor that it came from and on no other, and then waits for the next.
  pub deamon_engine_answers :
      (qs : List Turn) (e : Engine)
      → e.point.is_shutdown ≡ false
      → AllServed qs e
      → (t : Engine) × (deamon_engine server k (rounds qs) e ≡ (blocked, t))
        × (t.point.link.sent ≡ sent_by qs e.point.link.sent)
        × (t.point.is_shutdown ≡ false)
  unfolding deamon_engine
  deamon_engine_answers [] e up v = (e, ground (arith, up), refl, up)
  deamon_engine_answers (q ∷ qs) e up (v, vs) =
      let (l, turns, sent) = round_answers q e v in
      let e' : Engine = answered_engine l q e in
      let rest : AllServed qs e' = subst (λ x. AllServed qs x.1) turns vs in
      let (t, runs, all, up') = deamon_engine_answers qs e' up rest in
      (
        t,
        ap
              (λ (b : Bool).
                if b
                then close_all 0 e.used e
                else after (round server k q.answers e) (λ _. deamon_engine server k (rounds qs)))
              up
            ∙ ap (λ x. after x (λ _. deamon_engine server k (rounds qs))) turns
            ∙ runs,
        all ∙ ap (sent_by qs) sent,
        up',
      )
