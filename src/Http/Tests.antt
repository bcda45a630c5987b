-- ===== src/Http/Tests.antt =====
-- The theorems on HTTP at concrete inputs.
use jsonrpc.Base.{
  ◌↔◌, ℕ, zero, suc, ◌+◌, ◌≤◌, ◌*◌, ◌^◌, Bool, true, false, Option, none, some, List, [], ◌∷◌, ◌++◌,
  Str, codes, str_eq, str_eq_iff, false-ne-true, sym, Result, ok, err, length, if◌then◌else◌, ◌≡◌,
  ◌≢◌, refl, arith,
}
use jsonrpc.Base.Decimal.{decimal}
use jsonrpc.Base.Dict.{Dict, lookup, Unique}
use jsonrpc.Any.{Any, nil, number, uint64}
use jsonrpc.Message.{Request, Response, Message, MessageSet, version_30}
use jsonrpc.Message.Convert.{set_formats, request_to_message_set, response_to_message_set}
use jsonrpc.Mime.{get_codec, codec_mime_type, mime_type_cbor}
use jsonrpc.Session.{zero_info, Session}
use jsonrpc.Peer.Calling.{call_request}
use jsonrpc.Samples.{sample_env, sample_traits, made, make, notify}
use jsonrpc.Http.{Wire, HttpRequest, HttpResponse}
use jsonrpc.Http.Server.{
  SessionEntry, Server, new_http_handler, get_or_create_session, accessed, cleanup_expired_sessions,
}
use jsonrpc.Http.Server.Serving.{serve_http, write_data, sse_event}
use jsonrpc.Http.Server.Isolation.{serve_http-Same}
use jsonrpc.Http.Server.Naming.{serve_http-get_or_create_session}
use jsonrpc.Http.Server.Expiry.{cleanup_expired_sessions_lem}
use jsonrpc.Http.EventStream.{events, event, done, split_lines}
use jsonrpc.Http.EventStream.RoundTrip.{events-sse_event}
use jsonrpc.Http.Client.{new_http_client}
use jsonrpc.Http.Client.Calls.{value, call_http}
use jsonrpc.Http.Client.Batches.{align}
use jsonrpc.Http.Client.Batches.Aligned.{align_lem}
use jsonrpc.Http.EndToEnd.{post}
use jsonrpc.Http.EndToEnd.Asking.{network, call_http-handle_request}

-- A request with an integer for its ID, as CBOR decodes it.
abbrev sent_request : Request
sent_request = call_request (codes "make") none none (number uint64 1)

abbrev answer : Response
answer = record (made 1) { id = number uint64 1 }

-- A request is encoded as `q`, and anything else as `r`.
abbrev written : List Message → Str
written [] = codes "r"
written (m ∷ ms) = if str_eq m.method [] then codes "r" else codes "q"

abbrev sample_wire : Wire
sample_wire = record {
  marshal_messages = λ codec ms. ok (written ms.messages);
  unmarshal_messages = λ codec bytes.
      if str_eq bytes (codes "q")
      then ok (set_formats (codec_mime_type codec) (request_to_message_set sent_request))
      else ok (set_formats (codec_mime_type codec) (response_to_message_set answer));
  unmarshal_json = λ bytes. none;
}

abbrev server : Server
server = new_http_handler (some 1) version_30

abbrev made_session : Session
made_session = record {
  id = codes "new";
  created_at = 5;
  local_refs = (codes "ref-1", 7) ∷ [];
  remote_refs = [];
  infos = λ a. zero_info;
  ref_counter = 1;
}

abbrev made_entry : SessionEntry
made_entry = record {
  session = made_session;
  handler = record { root_object = some 1; version = version_30; mime_types = server.mime_types };
  last_accessed = 5;
}

-- The server behind the call: the session holds the object that was made.
abbrev busy : Server
busy = record server { sessions = (codes "new", made_entry) ∷ [] }

call_http-handle_request_example :
    let (o, c, st) =
      call_http sample_wire sample_env
        (Server × ℕ)
        (network sample_wire sample_env sample_env 5 (codes "new"))
        5
        (codes "make")
        nil
        none
        new_http_client
        (0, (server, 0)) in
    (o ≡ value (get_codec mime_type_cbor) (codes "ref-1")) × (st ≡ (0, (busy, 1)))
unfolding jsonrpc.Http.ClientRefs.scan_for_client_refs request_to_message_set
    response_to_message_set jsonrpc.Handler.handle_request jsonrpc.Message.set_request_format
    jsonrpc.Http.Server.get_or_create_session jsonrpc.Message.is_notification
    jsonrpc.Walk.process_result jsonrpc.Walk.walk_value jsonrpc.Walk.register
    jsonrpc.Message.Errors.or_version_30 jsonrpc.Session.generate_ref_id
    jsonrpc.Session.add_local_ref jsonrpc.Session.ref_id jsonrpc.Base.Dict.insert
    jsonrpc.Base.Decimal.decimal jsonrpc.Session.list_local_refs
call_http-handle_request_example =
    call_http-handle_request sample_wire sample_env sample_env 5 (codes "new") (codes "make") nil
      none new_http_client none server 0 0 1 answer made_session (codes "q") (codes "r")
      (number uint64 1) (number uint64 1) refl refl refl refl refl (refl, refl) (refl, refl) refl
      refl

-- A server with a session `old`, and what a request that makes a session leaves of it.
abbrev shared : Server
shared = record server { sessions = (codes "old", made_entry) ∷ [] }

abbrev grown : Server
grown = record server { sessions = (codes "old", made_entry) ∷ (codes "new", made_entry) ∷ [] }

abbrev made_response : HttpResponse
made_response = write_data (some (codes "new")) mime_type_cbor (codes "r")

abbrev make_post : HttpRequest
make_post = post (codes "q") mime_type_cbor []

abbrev posts :
    serve_http sample_wire sample_env make_post 5 (codes "new") shared 0
    ≡ some (made_response, grown, 1)
unfolding serve_http set_formats request_to_message_set jsonrpc.Message.Convert.to_request
    jsonrpc.Message.is_request jsonrpc.Message.set_format
    jsonrpc.Http.ClientRefs.scan_for_client_refs jsonrpc.Handler.handle_request
    get_or_create_session jsonrpc.Message.is_notification jsonrpc.Session.list_local_refs
    jsonrpc.Http.Server.Serving.write_response jsonrpc.Walk.process_result jsonrpc.Walk.walk_value
    response_to_message_set jsonrpc.Walk.register jsonrpc.Session.add_local_ref
    jsonrpc.Base.Dict.insert jsonrpc.Session.ref_id decimal
posts = refl

serve_http-Same_example : lookup (codes "old") grown.sessions ≡ lookup (codes "old") shared.sessions
serve_http-Same_example =
    serve_http-Same sample_wire sample_env make_post 5 (codes "new") shared grown 0 1 made_response
      (codes "old") posts (λ e. false-ne-true ((str_eq_iff (codes "old") []).1 e))
      (λ e. false-ne-true ((str_eq_iff (codes "old") (codes "new")).1 e))

serve_http-get_or_create_session_example :
    (e : SessionEntry) × (lookup (codes "new") grown.sessions ≡ some e)
    × ((get_or_create_session (codes "new") 9 (codes "next") grown).0
        ≡ record { entry = accessed 9 e; session_id = codes "new"; was_existing = true })
serve_http-get_or_create_session_example =
    serve_http-get_or_create_session sample_wire sample_env make_post 5 (codes "new") shared grown 0
      1 made_response (codes "new") 9 (codes "next") posts refl refl

cleanup_expired_sessions_lem_example :
    (lookup (codes "old") (cleanup_expired_sessions sample_traits (400 * 10 ^ 9) grown).0.sessions
      ≡ some made_entry)
    ↔ ((lookup (codes "old") grown.sessions ≡ some made_entry)
        × ((400 * 10 ^ 9 ≤ made_entry.last_accessed + grown.session_ttl)
            × (made_entry.session.local_refs ≡ []
                → 400 * 10 ^ 9 ≤ made_entry.last_accessed + 30 * 10 ^ 9)))
unfolding lookup
cleanup_expired_sessions_lem_example =
    cleanup_expired_sessions_lem sample_traits (400 * 10 ^ 9) grown (codes "old") made_entry
      (refl, (refl, tt))

events-sse_event_example :
    events [] (split_lines (sse_event (codes "{}"))) ≡ event (codes "{}") done
events-sse_event_example =
    events-sse_event (codes "{}")
      (
        (λ e. omega (arith, e), λ e. omega (arith, e)),
        ((λ e. omega (arith, e), λ e. omega (arith, e)), tt),
      )
      refl (omega arith)

-- The text of a number ID.
abbrev shown : Any → Str
shown (number k n) = decimal n
shown _ = []

align_lem_example :
    align shown (make 1 ∷ make 2 ∷ notify ∷ []) (made 2 ∷ made 1 ∷ [])
    ≡ some (made 1) ∷ some (made 2) ∷ none ∷ []
unfolding decimal align lookup jsonrpc.Base.Dict.insert
align_lem_example =
    align_lem shown (make 1 ∷ []) (notify ∷ []) (make 2) [] (made 1 ∷ []) (made 2) refl refl refl
      (refl, tt)
