-- ===== src/Http/Errors.antt =====
-- src/common/filters/all-exceptions.filter.ts
use comos_pay_community_serv.Base.{
  ℕ, String, Option, some, List, coalesce, Exception, http, unexpected,
}

-- `string | string[]`
pub data Message : Type 0 where
  one : String → Message
  several : List String → Message

-- `getResponse()` of an HttpException: a text, an object with its `message` and its `error`, or
-- something else.
pub data Payload : Type 0 where
  text : String → Payload
  body : Option Message → Option String → Payload
  other : Payload

-- What the filter catches: an HttpException with its status, payload and message, another Error,
-- or a value that is no Error.
pub data Thrown : Type 0 where
  http_exception : ℕ → Payload → String → Thrown
  error : String → Thrown
  value_thrown : Thrown

pub record ErrorBody : Type 0 where
  pub status_code : ℕ
  pub error : String
  pub message : Message
  pub path : String
  pub timestamp : ℕ

abbrev default_error : String
default_error = "Internal Server Error"

abbrev default_message : Message
default_message = one "Internal server error"

unfoldable pub catch_thrown : Thrown → String → ℕ → ErrorBody
catch_thrown (http_exception status (text t) m) path now = record {
  status_code = status;
  error = default_error;
  message = one t;
  path = path;
  timestamp = now;
}
catch_thrown (http_exception status (body t e) m) path now = record {
  status_code = status;
  error = coalesce e default_error;
  message = coalesce t (one m);
  path = path;
  timestamp = now;
}
catch_thrown (http_exception status other m) path now = record {
  status_code = status;
  error = default_error;
  message = default_message;
  path = path;
  timestamp = now;
}
catch_thrown (error m) path now = record {
  status_code = 500;
  error = default_error;
  message = default_message;
  path = path;
  timestamp = now;
}
catch_thrown value_thrown path now = record {
  status_code = 500;
  error = default_error;
  message = default_message;
  path = path;
  timestamp = now;
}

-- The exceptions of the services are Nest's built-in ones, whose payload is an object.
abbrev pub thrown : (ℕ → String) → Exception → Thrown
thrown reason (http status m) = http_exception status (body (some (one m)) (some (reason status))) m
thrown reason (unexpected m) = error m
