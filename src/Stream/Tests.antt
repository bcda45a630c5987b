-- ===== src/Stream/Tests.antt =====
-- The theorems on streams at concrete ends.
use jsonrpc.Base.{
  ℕ, ◌≡◌, refl, true, false, Bool, Option, none, some, List, [], ◌∷◌, ◌++◌, codes, Str, str_eq,
  Result, ok, err, if◌then◌else◌,
}
use jsonrpc.Any.{Any, nil, number, float64}
use jsonrpc.Message.{Request, Response, Message, MessageSet}
use jsonrpc.Message.Convert.{set_formats, request_to_message_set, response_to_message_set}
use jsonrpc.Mime.{Codec, mime_type_cbor, codec_mime_type, get_codec}
use jsonrpc.Session.{Session}
use jsonrpc.Samples.{sample_env, sample_handler, made, id_of, empty_session}
use jsonrpc.Peer.{Peer, holding, new_peer}
use jsonrpc.Peer.Calling.{begin_call, call_request}
use jsonrpc.Peer.Sending.{channel_of}
use jsonrpc.Http.{Wire}
use jsonrpc.Stream.{
  Item, request_item, response_item, item_set, write_items, web_transport_write_loop,
}
use jsonrpc.Stream.Writing.{
  send_failure, web_transport_write_failure, recorded, decode_all, write_items-decode_all,
}
use jsonrpc.Stream.WebTransportClient.{web_transport_client_call}
use jsonrpc.Stream.Exchange.{exchange, exchange-web_transport_client_call}

abbrev sent_request : Request
sent_request = call_request (codes "make") none none (id_of 1)

-- A request is encoded as `q`, and anything else as `r`.
abbrev written : List Message → Str
written [] = codes "r"
written (m ∷ ms) = if str_eq m.method [] then codes "r" else codes "q"

abbrev sample_wire : Wire
sample_wire = record {
  marshal_messages = λ codec ms. ok (written ms.messages);
  unmarshal_messages = λ codec bytes.
      if str_eq bytes (codes "q")
      then ok (set_formats (codec_mime_type codec) (request_to_message_set sent_request))
      else ok (set_formats (codec_mime_type codec) (response_to_message_set (made 1)));
  unmarshal_json = λ bytes. none;
}

abbrev idle : Peer
idle = new_peer mime_type_cbor (codes "p")

-- The other end, behind the call.
abbrev made_session : Session
made_session = record empty_session { local_refs = (codes "ref-1", 7) ∷ []; ref_counter = 1 }

exchange-web_transport_client_call_example :
    exchange sample_wire sample_env sample_env sample_handler sample_handler 5 6
      (
        (web_transport_client_call sample_wire
            (λ n. n)
            sample_env.marshal
            (codes "make")
            nil
            none
            idle).0,
        empty_session,
        0,
      )
      (idle, empty_session, 0)
    ≡ some (
      record idle {
        next_id = 1;
        calls = (id_of 1, holding (made 1)) ∷ [];
        pending = id_of 1 ∷ [];
        queue = [];
      },
      empty_session,
      0,
    )
unfolding new_peer jsonrpc.Handler.handle_request jsonrpc.Message.set_request_format
    jsonrpc.Message.is_notification jsonrpc.Walk.process_result jsonrpc.Walk.walk_value
    jsonrpc.Walk.register jsonrpc.Message.Errors.or_version_30 jsonrpc.Session.generate_ref_id
    jsonrpc.Session.add_local_ref jsonrpc.Session.ref_id jsonrpc.Base.Dict.insert
    jsonrpc.Base.Decimal.decimal request_to_message_set response_to_message_set
exchange-web_transport_client_call_example =
    exchange-web_transport_client_call sample_wire sample_env sample_env sample_handler
      sample_handler 5 6 (λ n. n) sample_env.marshal (codes "make") nil none none idle idle
      empty_session 0 empty_session made_session 0 1 (made 1) (codes "q") (codes "r") refl refl refl
      refl refl refl refl refl refl refl (refl, refl) (refl, refl)

-- A wire that encodes nothing, and a stream that takes everything.
abbrev broken_wire : Wire
broken_wire = record sample_wire { marshal_messages = λ codec ms. err (codes "bad") }

abbrev calling : Peer
calling = (begin_call (λ n. n) sample_env.marshal (codes "make") nil none idle).0

abbrev take : Str → List Str → Option Str × List Str
take bytes n = (none, n ++ bytes ∷ [])

web_transport_write_failure_example :
    let (p', is', n2) =
      web_transport_write_loop broken_wire
        (List Str)
        take
        (request_item sent_request ∷ [])
        calling
        [] in
    (channel_of (id_of 1) p'.calls
      ≡ some (holding (send_failure sent_request (codes "marshal error: bad"))))
    × (p'.conn_err ≡ some (codes "marshal error: bad"))
    × (is' ≡ [])
unfolding jsonrpc.Stream.write_item begin_call new_peer jsonrpc.Any.deep_equal
web_transport_write_failure_example =
    web_transport_write_failure broken_wire (List Str) take sent_request [] calling [] []
      (codes "marshal error: bad") refl refl refl refl refl

-- A request and a response in the channel of a write loop.
abbrev two_items : List Item
two_items = request_item sent_request ∷ response_item (made 1) ∷ []

-- The encodings are of one byte.
abbrev next_byte : Codec → Str → Option (Str × Str)
next_byte codec [] = none
next_byte codec (c ∷ rest) = some (c ∷ [], rest)

write_items-decode_all_example :
    let codec = get_codec mime_type_cbor in
    let (p', waiting, stream) =
      write_items sample_wire Str recorded (λ i e q. q) codec two_items idle [] in
    (p' ≡ idle)
    × (waiting ≡ [])
    × (decode_all sample_wire next_byte codec 2 stream ≡ (
      ok (set_formats (codec_mime_type codec) (item_set (request_item sent_request)))
          ∷ ok (set_formats (codec_mime_type codec) (item_set (response_item (made 1))))
          ∷ [],
      [],
    ))
unfolding request_to_message_set response_to_message_set
write_items-decode_all_example =
    write_items-decode_all sample_wire next_byte (get_codec mime_type_cbor)
      (λ ms. written ms.messages) (λ i e q. q) two_items idle
      (((refl, refl), λ rest. refl), (((refl, refl), λ rest. refl), tt))
