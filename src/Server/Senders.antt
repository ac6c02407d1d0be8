-- ===== src/Server/Senders.antt =====
-- internal/server/transport.go: the senders of a queue, and the binding of the sender key.
use sund.Prelude.{
  ◌≡◌, refl, sym, ap, ◌∙◌, subst, Bool, true, false, none, some, List, String, Bytes, if◌then◌else◌,
  ◌==◌, arith, inl, inr, Option-cases,
}
use sund.Sql.{find_row}
use sund.Sql.Laws.{find_row-holds}
use sund.Sql.Keys.{Holds, Holds-update_to}
use sund.Store.Tables.{Db, Queue, ok}
use sund.Store.Queues.{get_queue_by_sender, bind_sender_key, is_bindable}
use sund.Store.Shapes.{bind_sender_key_commits}
use sund.Store.Forward.{IsBound}
use sund.Store.History.{run-Forward}
use sund.Server.Types.{Library, Request, Server, next}
use sund.Server.Auth.{SigEnvelope, extract_signature, verify_and_record, is_signed}
use sund.Server.Transport.{resolve_sender_key, bind_if, authorize_sender}
use sund.Server.Routes.{Event, serve_all}
use sund.Server.History.{serve_all-Reaches}

-- A send was accepted for the queue `q` and a body: the queue is live, the signature over the body
-- holds with `key`, and the queue is bound to that key from now on.
pub record IsAccepted (lib : Library) (r : Request) (s : Server) (q : Queue) (body : Bytes)
    (s' : Server) : Type 0 where
  pub env : SigEnvelope
  pub key : Bytes
  pub parsed : extract_signature lib r s.clock_skew ≡ some env
  pub covers : body ≡ env.body
  pub found : find_row (λ x. x.sender_id == r.path_value) s.db.queues ≡ some q
  pub live : q.retired ≡ false
  pub agreed : (k : Bytes) → q.sender_key ≡ some k → key ≡ k
  pub signed : is_signed lib r env key ≡ true
  pub bound : IsBound s'.db r.path_value key

module _ (lib : Library) (r : Request) where
  resolved :
      (q : Queue) (key : Bytes) (b : Bool)
      → resolve_sender_key lib r q ≡ some (key, b)
      → q.sender_key ≡ (if b then none else some key)
  unfolding resolve_sender_key
  resolved q key b e = ground arith

  no_queue :
      (s s' : Server) (q : Queue) (body : Bytes)
      → find_row (λ x. x.sender_id == r.path_value) s.db.queues ≡ none
      → authorize_sender lib r s ≡ (next (q, body), s')
      → ⊥
  unfolding authorize_sender get_queue_by_sender
  no_queue s s' q body f e = ground arith

  no_envelope :
      (s s' : Server) (q : Queue) (body : Bytes)
      → extract_signature lib r s.clock_skew ≡ none
      → authorize_sender lib r s ≡ (next (q, body), s')
      → ⊥
  unfolding authorize_sender get_queue_by_sender
  no_envelope s s' q body f e = ground arith

  no_key :
      (s s' : Server) (q q' : Queue) (body : Bytes)
      → find_row (λ x. x.sender_id == r.path_value) s.db.queues ≡ some q'
      → resolve_sender_key lib r q' ≡ none
      → authorize_sender lib r s ≡ (next (q, body), s')
      → ⊥
  unfolding authorize_sender get_queue_by_sender
  no_key s s' q q' body f g e = ground arith

  passed_as :
      (s s' : Server) (q q' : Queue) (body key : Bytes) (b : Bool) (env : SigEnvelope)
      → find_row (λ x. x.sender_id == r.path_value) s.db.queues ≡ some q'
      → extract_signature lib r s.clock_skew ≡ some env
      → resolve_sender_key lib r q' ≡ some (key, b)
      → authorize_sender lib r s ≡ (next (q, body), s')
      → (q ≡ q')
        × (body ≡ env.body)
        × (q.retired ≡ false)
        × (is_signed lib r env key ≡ true)
        × (if b then bind_sender_key r.path_value key s.db ≡ ok (true, s'.db) else s'.db ≡ s.db)
  unfolding authorize_sender get_queue_by_sender verify_and_record bind_if
  passed_as s s' q q' body key true env f g h e = ground arith
  passed_as s s' q q' body key false env f g h e = ground arith

-- The bind of a queue that is found open and live.
bind-IsBound :
    (id : String) (key : Bytes) (db : Db) (q : Queue) {db' : Db}
    → find_row (λ x. x.sender_id == id) db.queues ≡ some q
    → q.sender_key ≡ none
    → q.retired ≡ false
    → bind_sender_key id key db ≡ ok (true, db')
    → IsBound db' id key
bind-IsBound id key db q f g h e =
    subst (λ d. IsBound d id key) (sym (bind_sender_key_commits db id key e))
      (Holds-update_to (λ x. is_bindable id x ≡ true) (λ x. x.sender_key ≡ some key)
        (λ x. x.sender_id == id) (is_bindable id) (λ x. record x { sender_key = some key })
        (λ x. refl) (λ x k. ground arith) db.queues
        (subst (Holds (λ x. is_bindable id x ≡ true)) (sym f)
          (ground (arith, find_row-holds (λ (x : Queue). x.sender_id == id) db.queues q))))

module _ (lib : Library) where
  accepted-IsBound :
      (r : Request) (s s' : Server) (q : Queue) (key : Bytes) (b : Bool)
      → find_row (λ x. x.sender_id == r.path_value) s.db.queues ≡ some q
      → resolve_sender_key lib r q ≡ some (key, b)
      → q.retired ≡ false
      → (if b then bind_sender_key r.path_value key s.db ≡ ok (true, s'.db) else s'.db ≡ s.db)
      → IsBound s'.db r.path_value key
  accepted-IsBound r s s' q key true f g h k =
      bind-IsBound r.path_value key s.db q f (resolved lib r q key true g) h k
  accepted-IsBound r s s' q key false f g h k =
      subst (λ d. IsBound d r.path_value key) (sym k)
        (subst (Holds (λ x. x.sender_key ≡ some key)) (sym f) (resolved lib r q key false g))

  agreed_key :
      (r : Request) (q : Queue) (key : Bytes) (b : Bool)
      → resolve_sender_key lib r q ≡ some (key, b)
      → (k : Bytes) → q.sender_key ≡ some k
      → key ≡ k
  agreed_key r q key true g k e = ground (arith, resolved lib r q key true g)
  agreed_key r q key false g k e = ground (arith, resolved lib r q key false g)

  -- A send that authorizeSender lets through is accepted.
  pub authorize_sender-IsAccepted :
      (r : Request) (s s' : Server) (q : Queue) (body : Bytes)
      → authorize_sender lib r s ≡ (next (q, body), s')
      → IsAccepted lib r s q body s'
  authorize_sender-IsAccepted r s s' q body e =
      elim (Option-cases (find_row (λ x. x.sender_id == r.path_value) s.db.queues)) [
        | inl f ↦ absurd (no_queue lib r s s' q body f e)
        | inr (q', f) ↦ elim (Option-cases (extract_signature lib r s.clock_skew)) [
          | inl g ↦ absurd (no_envelope lib r s s' q body g e)
          | inr (env, g) ↦ elim (Option-cases (resolve_sender_key lib r q')) [
            | inl h ↦ absurd (no_key lib r s s' q q' body f h e)
            | inr ((key, b), h) ↦
                build q' env key b f g h (passed_as lib r s s' q q' body key b env f g h e)
          ]
        ]
      ]
    where
      build :
          (q' : Queue) (env : SigEnvelope) (key : Bytes) (b : Bool)
          → find_row (λ x. x.sender_id == r.path_value) s.db.queues ≡ some q'
          → extract_signature lib r s.clock_skew ≡ some env
          → resolve_sender_key lib r q' ≡ some (key, b)
          → (q ≡ q')
            × (body ≡ env.body)
            × (q.retired ≡ false)
            × (is_signed lib r env key ≡ true)
            × (if b then bind_sender_key r.path_value key s.db ≡ ok (true, s'.db) else s'.db ≡ s.db)
          → IsAccepted lib r s q body s'
      build q' env key b f g h (same, covers, live, signed, kept) = record {
        env = env;
        key = key;
        parsed = g;
        covers = covers;
        found = f ∙ ap some (sym same);
        live = live;
        agreed = agreed_key r q key b (ap (resolve_sender_key lib r) same ∙ h);
        signed = signed;
        bound =
            accepted-IsBound r s s' q key b (f ∙ ap some (sym same))
              (ap (resolve_sender_key lib r) same ∙ h) live kept;
      }

  bound_later :
      (r r' : Request) (s s' s₁ : Server) (q q' : Queue) (body body' : Bytes) (es : List Event)
      (first : IsAccepted lib r s q body s')
      (second : IsAccepted lib r' (serve_all lib es s') q' body' s₁)
      → r'.path_value ≡ r.path_value
      → second.key ≡ first.key
  bound_later r r' s s' s₁ q q' body body' es first second same =
      let (cs, e) = serve_all-Reaches lib es s' in
      let later =
        subst (λ db. IsBound db r.path_value first.key) (sym e)
          ((run-Forward lib.sha256 cs s'.db).bound r.path_value first.key first.bound) in
      second.agreed first.key (
        subst (Holds (λ x. x.sender_key ≡ some first.key)) second.found
          (subst (λ id. IsBound (serve_all lib es s').db id first.key) (sym same) later))

  -- When authorizeSender lets two sends to one queue through, however many requests and purges come
  -- between them, there is one key with which the signatures of both verify: the first send fixes
  -- it. The bodies that are let through are those that the signatures cover.
  pub sender_fixed :
      (r r' : Request) (s s' s₁ : Server) (q q' : Queue) (body body' : Bytes) (es : List Event)
      → authorize_sender lib r s ≡ (next (q, body), s')
      → authorize_sender lib r' (serve_all lib es s') ≡ (next (q', body'), s₁)
      → r'.path_value ≡ r.path_value
      → (key : Bytes) × (env : SigEnvelope) × (env' : SigEnvelope) × (extract_signature lib r
            s.clock_skew
          ≡ some env)
        × (extract_signature lib r' (serve_all lib es s').clock_skew ≡ some env')
        × (body ≡ env.body)
        × (body' ≡ env'.body)
        × (is_signed lib r env key ≡ true)
        × (is_signed lib r' env' key ≡ true)
  sender_fixed r r' s s' s₁ q q' body body' es e e' same =
      let first = authorize_sender-IsAccepted r s s' q body e in
      let second = authorize_sender-IsAccepted r' (serve_all lib es s') s₁ q' body' e' in
      let agreed = bound_later r r' s s' s₁ q q' body body' es first second same in
      (
        first.key,
        first.env,
        second.env,
        first.parsed,
        second.parsed,
        first.covers,
        second.covers,
        first.signed,
        ap (is_signed lib r' second.env) (sym agreed) ∙ second.signed,
      )
