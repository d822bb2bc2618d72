-- ===== src/Js/Sample.antt =====
-- A browser in which `atob` changes nothing and one text parses, for the tests.
use omni_tun.Prelude.{none, some, ◌==◌, if◌then◌else◌, pos}
use omni_tun.Js.Defs.{Value, null, num, str, obj, no_entries, entry}
use omni_tun.Js.Env.{Js}

-- `{ "sub": "u1", "exp": 2000, "role": null }`
abbrev pub claims : Value
claims = obj (entry "sub" (str "u1") (entry "exp" (num (pos 2000)) (entry "role" null no_entries)))

-- `{ "type": "tunnel.status" }`
abbrev pub status_message : Value
status_message = obj (entry "type" (str "tunnel.status") no_entries)

abbrev pub sample_js : Js
sample_js = record {
  atob = λ s. some s;
  json_parse = λ s.
      if s == "claims" then some claims else if s == "status" then some status_message else none;
  stringify = λ v. "json";
  to_text = λ v. "other";
  read_error = λ v k. k;
  encode_uri_component = λ s. s;
}
