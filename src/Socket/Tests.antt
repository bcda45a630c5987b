-- ===== src/Socket/Tests.antt =====
-- The theorems on WebSocket clients at concrete ones.
use jsonrpc.Base.{
  ℕ, ◌≡◌, refl, ok, err, some, none, List, [], ◌∷◌, Str, str_eq, codes, Option, Result,
  if◌then◌else◌,
}
use jsonrpc.Any.{nil}
use jsonrpc.Message.{Message, MessageSet, Request}
use jsonrpc.Message.Convert.{request_to_message_set, response_to_message_set, set_formats}
use jsonrpc.Mime.{Codec, mime_type_json, codec_mime_type}
use jsonrpc.Session.{Session}
use jsonrpc.Samples.{sample_env, sample_handler, make, made, id_of, empty_session}
use jsonrpc.Peer.{Peer, new_peer, holding}
use jsonrpc.Peer.Calling.{call_request}
use jsonrpc.Http.{Wire}
use jsonrpc.Socket.{Socket, socket_call}
use jsonrpc.Socket.Incoming.{socket_receive}
use jsonrpc.Socket.Queueing.{encoded}
use jsonrpc.Socket.Refines.{socket_receive-receive}
use jsonrpc.Socket.Exchange.{socket_exchange, socket_exchange-socket_call}

abbrev text_of : Codec → MessageSet → Str
text_of codec ms = codes "m"

abbrev socket_wire : Wire
socket_wire = record {
  marshal_messages = λ codec ms. ok (text_of codec ms);
  unmarshal_messages = λ codec bytes. ok (request_to_message_set (make 1));
  unmarshal_json = λ bytes. none;
}

abbrev idle : Peer
idle = new_peer mime_type_json (codes "p")

abbrev waiting : Socket
waiting = encoded socket_wire sample_env text_of idle

-- A session with the object that the request makes.
abbrev one_made : Session
one_made = record empty_session { local_refs = (codes "ref-1", 7) ∷ []; ref_counter = 1 }

socket_receive-receive_example :
    socket_receive socket_wire sample_env sample_handler 0 (codes "b") waiting empty_session 0
    ≡ some (record waiting { out = codes "m" ∷ [] }, one_made, 1)
unfolding jsonrpc.Peer.Reading.receive jsonrpc.Peer.classify request_to_message_set
    jsonrpc.Message.is_request new_peer jsonrpc.Message.Convert.message_to_request
    jsonrpc.Handler.handle_request jsonrpc.Message.is_notification jsonrpc.Peer.enqueue
    jsonrpc.Walk.process_result jsonrpc.Walk.walk_value jsonrpc.Walk.register
    jsonrpc.Session.add_local_ref jsonrpc.Session.ref_id jsonrpc.Base.Dict.insert
    jsonrpc.Base.Decimal.decimal
socket_receive-receive_example =
    socket_receive-receive socket_wire sample_env text_of sample_handler 0 (codes "b")
      (request_to_message_set (make 1)) idle empty_session 0 refl (refl, tt)

abbrev sent_request : Request
sent_request = call_request (codes "make") none none (id_of 1)

-- A request is encoded as `q`, and anything else as `r`.
abbrev either : List Message → Str
either [] = codes "r"
either (m ∷ ms) = if str_eq m.method [] then codes "r" else codes "q"

abbrev two_ways : Wire
two_ways = record {
  marshal_messages = λ codec ms. ok (either ms.messages);
  unmarshal_messages = λ codec bytes.
      if str_eq bytes (codes "q")
      then ok (set_formats (codec_mime_type codec) (request_to_message_set sent_request))
      else ok (set_formats (codec_mime_type codec) (response_to_message_set (made 1)));
  unmarshal_json = λ bytes. none;
}

socket_exchange-socket_call_example :
    socket_exchange two_ways sample_env sample_env sample_handler sample_handler 5 6
      (
        (socket_call two_ways
            (λ n. n)
            (sample_env.marshal)
            (codes "make")
            nil
            none
            (encoded two_ways sample_env (λ codec ms. either ms.messages) idle)).0,
        empty_session,
        0,
      )
      (encoded two_ways sample_env (λ codec ms. either ms.messages) idle, empty_session, 0)
    ≡ some (
      record {
        peer = record idle {
          next_id = 1;
          calls = (id_of 1, holding (made 1)) ∷ [];
          pending = id_of 1 ∷ [];
          queue = [];
        };
        out = [];
      },
      empty_session,
      0,
    )
unfolding new_peer jsonrpc.Handler.handle_request jsonrpc.Message.set_request_format
    jsonrpc.Message.is_notification jsonrpc.Walk.process_result jsonrpc.Walk.walk_value
    jsonrpc.Walk.register jsonrpc.Message.Errors.or_version_30 jsonrpc.Session.generate_ref_id
    jsonrpc.Session.add_local_ref jsonrpc.Session.ref_id jsonrpc.Base.Dict.insert
    jsonrpc.Base.Decimal.decimal request_to_message_set response_to_message_set
socket_exchange-socket_call_example =
    socket_exchange-socket_call two_ways sample_env sample_env sample_handler sample_handler 5 6
      (λ codec ms. either ms.messages) (λ n. n) (sample_env.marshal) (codes "make") nil none none
      idle idle empty_session 0 empty_session one_made 0 1 (made 1) refl refl refl refl refl refl
      refl refl refl refl refl refl refl refl
