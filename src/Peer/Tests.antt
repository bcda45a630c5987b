-- ===== src/Peer/Tests.antt =====
-- The theorems on peers at concrete ones.
use jsonrpc.Base.{◌≡◌, refl, true, none, some, true, false, List, [], ◌∷◌, codes}
use jsonrpc.Any.{nil, text}
use jsonrpc.Message.{Message, MessageSet, Response, version_30}
use jsonrpc.Message.Convert.{
  message_of_request, message_of_response, request_to_message_set, response_to_message_set,
}
use jsonrpc.Mime.{mime_type_json}
use jsonrpc.Samples.{notify, sample_env, sample_traits, make, made, id_of, empty_session}
use jsonrpc.Peer.{
  Peer, empty, holding, shut, panics, new_peer, close_peer, shut_calls, enqueue_batch,
  handle_incoming_response,
}
use jsonrpc.Peer.Calling.{Wakes, begin_call}
use jsonrpc.Peer.Matching.{Steps, done, next, begins, reads, batches, Steps-own_response}
use jsonrpc.Peer.Numbering.{Distinct, ids}
use jsonrpc.Peer.Numbering.Kept.{Steps-Distinct}
use jsonrpc.Batch.{BatchRequest}
use jsonrpc.Peer.Sending.{begin_batch}
use jsonrpc.Peer.Collecting.{Corresponds, collect-Corresponds}
use jsonrpc.Peer.Closing.{close_peer_panics}

abbrev idle : Peer
idle = new_peer mime_type_json (codes "p")

-- A peer with one call in progress.
abbrev calling : Peer
calling = (begin_call (λ n. n) (sample_env.marshal) (codes "make") nil none idle).0

-- The same peer, with the call's response.
abbrev answered : Peer
answered = record calling { calls = (id_of 1, holding (made 1)) ∷ [] }

abbrev answering : Steps (λ n. n) (sample_env.marshal) sample_traits idle answered
unfolding handle_incoming_response jsonrpc.Message.Convert.message_to_response
    jsonrpc.Message.is_response message_of_response begin_call new_peer jsonrpc.Any.deep_equal
answering = next idle calling answered (begins (codes "make") nil none idle) (
    next calling answered answered (reads (message_of_response (made 1)) calling answered refl)
      (done answered))

Steps-own_response_example : (made 1).id ≡ id_of 1
Steps-own_response_example =
    Steps-own_response (λ n. n) (sample_env.marshal) sample_traits mime_type_json (codes "p")
      answered answering (id_of 1) (made 1) [] [] refl

close_peer_panics_example :
    let p' = (close_peer sample_traits calling empty_session).0 in
    (p'.calls ≡ (id_of 1, shut) ∷ []) × Wakes p' shut panics
unfolding begin_call new_peer jsonrpc.Any.deep_equal
close_peer_panics_example =
    close_peer_panics sample_traits calling empty_session (id_of 1) [] [] refl refl refl

-- A peer that sent a batch of a call and a notification, and the same peer with the call's response.
abbrev sent_batch : List BatchRequest
sent_batch =
    record { ref = []; method = codes "make"; params = nil; is_notification = false }
    ∷ record { ref = []; method = codes "log"; params = nil; is_notification = true }
    ∷ []

abbrev batching : Peer
batching = (begin_batch (λ n. n) (sample_env.marshal) sent_batch idle).0

abbrev batched : Peer
batched = record batching { calls = (id_of 1, holding (made 1)) ∷ [] }

abbrev batch_steps : Steps (λ n. n) (sample_env.marshal) sample_traits idle batched
unfolding handle_incoming_response jsonrpc.Message.Convert.message_to_response
    jsonrpc.Message.is_response message_of_response begin_batch new_peer
    jsonrpc.Peer.Sending.make_requests jsonrpc.Any.deep_equal
batch_steps = next idle batching batched (batches sent_batch idle) (
    next batching batched batched (reads (message_of_response (made 1)) batching batched refl)
      (done batched))

collect-Corresponds_example : Corresponds (make 1 ∷ notify ∷ []) (some (made 1) ∷ none ∷ [])
unfolding jsonrpc.Peer.Sending.collect jsonrpc.Any.deep_equal
collect-Corresponds_example =
    collect-Corresponds (λ n. n) (sample_env.marshal) sample_traits mime_type_json (codes "p")
      batched batch_steps (make 1 ∷ notify ∷ []) (some (made 1) ∷ none ∷ []) refl

-- The first call again, and a second one.
abbrev calling_twice : Peer
calling_twice = (begin_call (λ n. n) (sample_env.marshal) (codes "make") nil none answered).0

Steps-Distinct_example : Distinct (ids calling_twice.calls)
unfolding begin_call new_peer handle_incoming_response jsonrpc.Message.Convert.message_to_response
    jsonrpc.Message.is_response message_of_response jsonrpc.Any.deep_equal
Steps-Distinct_example =
    Steps-Distinct (λ n. n) (sample_env.marshal) sample_traits mime_type_json (codes "p")
      calling_twice (λ i j small small' same. same)
      (next idle calling calling_twice (begins (codes "make") nil none idle) (
        next calling answered calling_twice
          (reads (message_of_response (made 1)) calling answered refl)
          (next answered calling_twice calling_twice (begins (codes "make") nil none answered)
            (done calling_twice))))
