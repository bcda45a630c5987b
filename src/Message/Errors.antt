-- ===== src/Message/Errors.antt =====
-- The error codes of go/jsonrpc3/jsonrpc3.go, and the constructors of errors and responses.
use jsonrpc.Base.{none, some, Str, codes, is_empty, if◌then◌else◌}
use jsonrpc.Base.Int.{ℤ, minus}
use jsonrpc.Any.{Any, text}
use jsonrpc.Message.Data.{Error, Response, version_30}

abbrev pub code_parse_error : ℤ
code_parse_error = minus 32700

abbrev pub code_invalid_request : ℤ
code_invalid_request = minus 32600

abbrev pub code_method_not_found : ℤ
code_method_not_found = minus 32601

abbrev pub code_invalid_params : ℤ
code_invalid_params = minus 32602

abbrev pub code_internal_error : ℤ
code_internal_error = minus 32603

abbrev pub code_invalid_reference : ℤ
code_invalid_reference = minus 32001

abbrev pub code_reference_not_found : ℤ
code_reference_not_found = minus 32002

abbrev pub code_reference_type_error : ℤ
code_reference_type_error = minus 32003

pub new_parse_error : Any → Error
new_parse_error d = record { code = code_parse_error; message = codes "Parse error"; details = d }

unfoldable pub new_invalid_request_error : Any → Error
new_invalid_request_error d = record {
  code = code_invalid_request;
  message = codes "Invalid Request";
  details = d;
}

unfoldable pub new_method_not_found_error : Str → Error
new_method_not_found_error m = record {
  code = code_method_not_found;
  message = codes "Method not found";
  details = text m;
}

unfoldable pub new_invalid_params_error : Any → Error
new_invalid_params_error d = record {
  code = code_invalid_params;
  message = codes "Invalid params";
  details = d;
}

unfoldable pub new_internal_error : Any → Error
new_internal_error d = record {
  code = code_internal_error;
  message = codes "Internal error";
  details = d;
}

unfoldable pub new_invalid_reference_error : Any → Error
new_invalid_reference_error d = record {
  code = code_invalid_reference;
  message = codes "Invalid reference";
  details = d;
}

unfoldable pub new_reference_not_found_error : Str → Error
new_reference_not_found_error r = record {
  code = code_reference_not_found;
  message = codes "Reference not found";
  details = text r;
}

-- The version that a response carries: 3.0 if none is given.
unfoldable pub or_version_30 : Str → Str
or_version_30 version = if is_empty version then version_30 else version

-- `NewErrorResponse`
unfoldable pub new_error_response : Any → Error → Str → Response
unfolding or_version_30
new_error_response id e version = record {
  jsonrpc = or_version_30 version;
  result = none;
  error = some e;
  id = id;
}
