-- ===== src/Samples.antt =====
-- A small application, a handler, a session and requests that the tests evaluate the model on.
use jsonrpc.Base.{
  ℕ, ◌+◌, true, false, none, some, [], ◌∷◌, Str, codes, str_eq, Result, ok, if◌then◌else◌,
}
use jsonrpc.Base.Decimal.{decimal}
use jsonrpc.Any.{Any, nil, number, float64, text, object, reference}
use jsonrpc.Message.{Request, Response, version_30}
use jsonrpc.Mime.{mime_type_json}
use jsonrpc.Session.{zero_info, Session, Traits}
use jsonrpc.Env.{Env, CallResult, returned, failed_other}
use jsonrpc.Handler.{Handler}

-- Every object is `Disposable` and none is `Closeable`.
abbrev pub sample_traits : Traits
sample_traits = record {
  is_disposable = λ obj. true;
  is_closeable = λ obj. false;
  type_name = λ obj. codes "Counter";
}

abbrev sample_result : Str → CallResult
sample_result method =
    if str_eq method (codes "fail")
    then failed_other (codes "boom")
    else if str_eq method (codes "none")
    then returned nil
    else returned (object 7)

abbrev sample_marshal : Any → Result Str
sample_marshal (reference r) = ok r
sample_marshal _ = ok (codes "1")

-- The world counts the calls; the method `fail` fails, `none` returns nil, and the others return
-- object 7. A result is encoded as the text of its reference, and decoded from it.
abbrev pub sample_env : Env
sample_env = record {
  World = ℕ;
  traits = sample_traits;
  call_method = λ obj method params s w. (sample_result method, s, w + 1);
  clean_up = λ c w. w + 10;
  marshal = λ codec v. sample_marshal v;
  decode_ref = λ params. ok (codes "ref-1");
  unmarshal_object = λ bytes. some ((codes "$ref", text bytes) ∷ []);
  format_time = decimal;
}

abbrev pub sample_handler : Handler
sample_handler = record {
  root_object = some 1;
  version = version_30;
  mime_types = mime_type_json ∷ [];
}

abbrev pub id_of : ℕ → Any
id_of n = number float64 n

abbrev pub request : Str → Str → Any → Request
request ref method id = record {
  jsonrpc = version_30;
  ref = ref;
  method = method;
  params = none;
  id = id;
  format = [];
}

abbrev pub make : ℕ → Request
make n = request [] (codes "make") (id_of n)

abbrev pub notify : Request
notify = request [] (codes "make") nil

-- The answer to `make n` where its object gets the first reference.
abbrev pub made : ℕ → Response
made n = record { jsonrpc = version_30; result = some (codes "ref-1"); error = none; id = id_of n }

abbrev pub empty_session : Session
empty_session = record {
  id = codes "s";
  created_at = 0;
  local_refs = [];
  remote_refs = [];
  infos = λ a. zero_info;
  ref_counter = 0;
}

-- Object 5 is registered as `ref-1`.
abbrev pub one_local : Session
one_local = record {
  id = codes "s";
  created_at = 0;
  local_refs = (codes "ref-1", 5) ∷ [];
  remote_refs = [];
  infos = λ a. zero_info;
  ref_counter = 1;
}
