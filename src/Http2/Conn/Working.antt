-- ===== src/Http2/Conn/Working.antt =====
-- The work of a connection of the HTTP/2 server is a step of the server: go/jsonrpc3/http2_server.go.
use jsonrpc.Base.{
  ℕ, Bool, not, Option, none, some, List, [], ◌∷◌, ◌≡◌, refl, sym, if_elim, Result-cases, inl, inr,
}
use mathlib.Core.Path.{subst}
use jsonrpc.Message.{Request, Response, Message, MessageSet, BatchResponse}
use jsonrpc.Message.Convert.{message_to_request, message_to_response, to_batch}
use jsonrpc.Session.{Session, Traits}
use jsonrpc.Env.{Env}
use jsonrpc.Handler.{Handler, Outcome, handle_request}
use jsonrpc.Peer.{
  Peer, Incoming, batch_requests, single_request, responses, invalid_batch, classify, deliver,
  listed, is_hashable, handle_responses, handle_incoming_response, enqueue, enqueue_batch,
}
use jsonrpc.Peer.Reading.{
  receive, dispatch_incoming, handle_incoming_request, answer_request, send_answer,
  handle_incoming_batch,
}
use jsonrpc.Socket.Delivery.{handle_responses-step, responses_from}
use jsonrpc.Http2.Steps.{System, Step, work, worked}
use jsonrpc.Http2.{Http2Server}
use jsonrpc.Http2.Conn.{conn_receive, conn_received, conn_handler, conn_peer, conn_session}

-- A peer that is closed or open.
abbrev Is : Bool → Peer → Type 0
Is b p = p.closed ≡ b

abbrev IsAfter : Bool → Option Peer → Type 0
IsAfter b none = Unit
IsAfter b (some p) = Is b p

enqueue-Is : (b : Bool) (ms : MessageSet) (p : Peer) → Is b p → Is b (enqueue ms p)
unfolding enqueue
enqueue-Is b ms p h = if_elim (Is b) p.closed _ _ h h

enqueue_batch-Is : (b : Bool) (rs : BatchResponse) (p : Peer) → Is b p → Is b (enqueue_batch rs p)
unfolding enqueue_batch
enqueue_batch-Is b [] p h = h
enqueue_batch-Is b (r ∷ rs) p h = enqueue-Is b _ p h

deliver-IsAfter : (b : Bool) (o : Option Response) (p : Peer) → Is b p → IsAfter b (deliver o p)
unfolding deliver
deliver-IsAfter b none p h = h
deliver-IsAfter b (some r) p h =
    if_elim (IsAfter b) (not (is_hashable r.id)) none _ tt
      (if_elim (IsAfter b) (listed r.id p.pending) (some _) (some p) h h)

onward-IsAfter :
    (b : Bool) (ms : List Message)
    → ((q : Peer) → Is b q → IsAfter b (handle_responses ms q))
    → (o : Option Peer) → IsAfter b o
    → IsAfter b (responses_from ms o)
onward-IsAfter b ms rest none h = tt
onward-IsAfter b ms rest (some q) h = rest q h

handle_responses-IsAfter :
    (b : Bool) (ms : List Message) (p : Peer) → Is b p → IsAfter b (handle_responses ms p)
unfolding handle_responses handle_incoming_response
handle_responses-IsAfter b [] p h = h
handle_responses-IsAfter b (m ∷ ms) p h = subst (IsAfter b) (sym (handle_responses-step m ms p)) (
    onward-IsAfter b ms (λ q. handle_responses-IsAfter b ms q) (handle_incoming_response m p)
      (deliver-IsAfter b (message_to_response m) p h))

module _ (env : Env) (h : Handler) (now : ℕ) (b : Bool) where
  open env use {World}

  abbrev EndIs : Option (Peer × Session × World) → Type 0
  EndIs none = Unit
  EndIs (some (p, s, w)) = Is b p

  answer-Is :
      (o : Option Request) (p : Peer) (s : Session) (w : World)
      → Is b p
      → Is b (answer_request env h now o p s w).0
  unfolding answer_request send_answer
  answer-Is none p s w i = i
  answer-Is (some req) p s w i = sent (handle_request env h now req s w)
    where
      sent : (o : Outcome env) → Is b (send_answer env o p).0
      sent (none, s', w') = i
      sent (some r, s', w') = enqueue-Is b _ p i

  batch-Is :
      (ms : MessageSet) (p : Peer) (s : Session) (w : World)
      → Is b p
      → Is b (handle_incoming_batch env h now ms p s w).0
  unfolding handle_incoming_batch
  batch-Is ms p s w i = elim (Result-cases (to_batch ms)) [
    | inl (batch, e) ↦ rw (handle_incoming_batch, e) (enqueue_batch-Is b _ p i)
    | inr (text, e) ↦ rw (handle_incoming_batch, e) (enqueue_batch-Is b _ p i)
  ]

  responses-EndIs :
      (s : Session) (w : World) (o : Option Peer)
      → IsAfter b o
      → EndIs (elim o [ none ↦ none | some q ↦ some (q, s, w) ])
  responses-EndIs s w none i = tt
  responses-EndIs s w (some q) i = i

  single-EndIs :
      (ms : List Message) (p : Peer) (s : Session) (w : World)
      → Is b p
      → EndIs (elim ms [ [] ↦ none | m ∷ rest ↦ some (handle_incoming_request env h now m p s w) ])
  unfolding handle_incoming_request
  single-EndIs [] p s w i = tt
  single-EndIs (m ∷ rest) p s w i = answer-Is (message_to_request m) p s w i

  -- Reading a message set neither closes nor opens an end.
  pub receive-EndIs :
      (ms : MessageSet) (p : Peer) (s : Session) (w : World)
      → Is b p
      → EndIs (receive env h now ms p s w)
  unfolding receive dispatch_incoming
  receive-EndIs ms p s w i = by_kind (classify ms)
    where
      by_kind : (k : Incoming) → EndIs (dispatch_incoming env k h now ms p s w)
      by_kind batch_requests = batch-Is ms p s w i
      by_kind single_request = single-EndIs ms.messages p s w i
      by_kind responses = responses-EndIs s w _ (handle_responses-IsAfter b ms.messages p i)
      by_kind invalid_batch = enqueue_batch-Is b _ p i

-- What a connection of the server reads and handles is a step of the server: it leaves the table and
-- every other connection alone, and neither closes nor opens a connection.
pub conn_receive-Step :
    {t : Traits} {alone : Bool} (env : Env) (sys : System) (c now : ℕ) (ms : MessageSet)
    (w w' : env.World) (srv : Http2Server)
    → conn_receive env c now ms sys.server w ≡ some (srv, w')
    → Step t alone sys (record sys { server = srv })
unfolding conn_receive
conn_receive-Step {t} {alone} env sys c now ms w w' srv received =
    arrived
      (receive env (conn_handler sys.server) now ms (conn_peer c sys.server)
        (conn_session c sys.server) w)
      received
      (receive-EndIs env (conn_handler sys.server) now (conn_peer c sys.server).closed ms
        (conn_peer c sys.server) _ w refl)
  where
    arrived :
        (o : Option (Peer × Session × env.World))
        → conn_received env c sys.server o ≡ some (srv, w')
        → EndIs env (conn_handler sys.server) now (conn_peer c sys.server).closed o
        → Step t alone sys (record sys { server = srv })
    arrived none e i = cc
    arrived (some (p, s, v)) e i =
        let same : worked c p s sys.server ≡ srv = cc in
        subst (λ x. Step t alone sys (record sys { server = x })) same (work c p s i)
