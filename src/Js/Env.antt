-- ===== src/Js/Env.antt =====
-- The functions of the browser whose code is not part of the program: parameters of the model.
use omni_tun.Prelude.{String, Option}
use omni_tun.Js.Defs.{Value, str}

pub record Js : Type 0 where
  -- `atob`; `none` where it throws
  pub atob : String → Option String
  -- `JSON.parse`; `none` where it throws
  pub json_parse : String → Option Value
  -- `JSON.stringify`
  pub stringify : Value → String
  -- `String(v)` of what is no text
  pub to_text : Value → String
  -- the message of the error that reading this property of this value throws
  pub read_error : Value → String → String
  pub encode_uri_component : String → String

-- `${v}`, and the text under which `localStorage` keeps `v`.
abbrev pub text_of : Js → Value → String
text_of js (str s) = s
text_of js v = js.to_text v
