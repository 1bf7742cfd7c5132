-- ===== src/HttpClient/Transfer.antt =====
-- toolkit_enckit/source/http_client/http_client.cpp: `Initialize`, `Launch` and its callers, and the
-- callbacks that curl runs during a transfer. What curl answers is a parameter. `none` is a string
-- assigned from a null pointer, which is undefined.
use m_toolkit.Base.{
  ℕ, ◌*◌, ◌%◌, Bool, true, false, Option, none, some, List, [], ◌∷◌, ◌++◌, ◌==◌, if◌then◌else◌,
  take, add32, u32_mod, u64_mod,
}
use m_toolkit.HttpClient.State.{
  HttpClient, HttpResponse, HttpOptionType, get, put, post, other, CurlOption, Length, bytes,
  curle_ok, curle_failed_init,
}
use m_toolkit.HttpClient.Setters.{response_clear, set_request_option}
use m_toolkit.HttpClient.Options.{
  Shared, setopts, proxy_options, session_options, share_handle, share_options,
}

-- What curl_easy_getinfo answers at one moment, `none` for an error or for a pointer left null.
pub record Info : Type 0 where
  pub response_code : Option ℕ
  pub content_length : Option Length
  pub size_download : Option Length
  pub primary_ip : Option (List ℕ)

-- `curl_infotype`
pub data InfoType : Type 0 where
  text header_in header_out data_in data_out ssl_data_in ssl_data_out : InfoType

-- A call of a callback during curl_easy_perform.
pub data Event : Type 0 where
  writes : Info → (buffer : List ℕ) (size nmemb : ℕ) → Event
  heads : (buffer : List ℕ) (size nmemb : ℕ) → Event
  debugs : InfoType → (buffer : List ℕ) (size : ℕ) → Event

pub record Performed : Type 0 where
  pub events : List Event
  pub result : ℕ

-- The answers of curl to one `Launch`.
pub record Curl : Type 0 where
  pub share_init : Option ℕ
  pub easy_init : Bool
  pub easy_perform : List CurlOption → Performed

-- The number of bytes in a buffer of `nmemb` parts.
abbrev pub byte_count : (size nmemb : ℕ) → ℕ
byte_count size nmemb = nmemb * size % u64_mod

unfoldable pub parse_response_code : Info → HttpResponse → HttpResponse
parse_response_code info r = record r {
  code = elim info.response_code [ none ↦ 0 | some code ↦ code % u32_mod ];
}

-- The calls of `reserve` do not change what the string holds.
unfoldable pub parse_response_length : Info → HttpResponse → Option HttpResponse
parse_response_length info r =
    let r : HttpResponse = record r {
      content_length = elim info.content_length [ none ↦ bytes 0 | some n ↦ n ];
      content_length_zip = elim info.size_download [ none ↦ bytes 0 | some n ↦ n ];
    } in
    elim info.primary_ip [ none ↦ none | some host ↦ some (record r { host = host }) ]

-- Each callback gives its result and the client that its `stream` points to.
unfoldable pub first_write : Info → HttpClient → Option HttpClient
first_write info c =
    if c.is_first_write
    then elim (parse_response_length info (parse_response_code info c.response)) [
      | none ↦ none
      | some r ↦ some (record c { is_first_write = false; response = r })
    ]
    else some c

unfoldable pub write_function :
    Info
    → (buffer : List ℕ) (size nmemb : ℕ) → (stream : Option HttpClient)
    → Option (ℕ × Option HttpClient)
write_function info buffer size nmemb none = some (byte_count size nmemb, none)
write_function info buffer size nmemb (some c) = elim (first_write info c) [
  | none ↦ none
  | some c ↦ some (
    byte_count size nmemb,
    some (record c {
      response = record c.response {
        content = c.response.content ++ take (byte_count size nmemb) buffer;
      };
    }),
  )
]

unfoldable pub header_function :
    (buffer : List ℕ) (size nmemb : ℕ) → (stream : Option HttpClient) → ℕ × Option HttpClient
header_function buffer size nmemb none = (byte_count size nmemb, none)
header_function buffer size nmemb (some c) = (
  byte_count size nmemb,
  some (record c {
    response = record c.response {
      header = c.response.header ++ take (byte_count size nmemb) buffer;
    };
  }),
)

abbrev pub is_header_out : InfoType → Bool
is_header_out header_out = true
is_header_out _ = false

unfoldable pub ask_header_function :
    InfoType → (buffer : List ℕ) (size : ℕ) → (stream : Option HttpClient) → ℕ × Option HttpClient
ask_header_function kind buffer size none = (size, none)
ask_header_function kind buffer size (some c) =
    if is_header_out kind
    then (size, some (record c { response = record c.response { ask_header = take size buffer } }))
    else (size, some c)

-- The options pass `this` as every stream.
unfoldable pub call_back : Event → HttpClient → Option HttpClient
call_back (writes info buffer size nmemb) c =
    elim (write_function info buffer size nmemb (some c)) [
      | none ↦ none
      | some (_, stream) ↦ stream
    ]
call_back (heads buffer size nmemb) c = (header_function buffer size nmemb (some c)).1
call_back (debugs kind buffer size) c = (ask_header_function kind buffer size (some c)).1

unfoldable pub call_backs : List Event → HttpClient → Option HttpClient
call_backs [] c = some c
call_backs (e ∷ events) c = elim (call_back e c) [ none ↦ none | some c ↦ call_backs events c ]

unfoldable pub initialize : Curl → Shared → HttpClient → Bool × Shared × HttpClient
initialize curl g c =
    let g = share_handle curl.share_init g in
    let c : HttpClient = record c {
      response = response_clear c.response;
      curl = setopts (share_options g) (if curl.easy_init then some [] else none);
      error_code = curle_ok;
      is_first_write = true;
    } in
    elim c.curl [
      | some _ ↦ (true, g, c)
      | none ↦ (
        false,
        g,
        record c {
          error_code = curle_failed_init;
          session = record c.session { error_count = add32 c.session.error_count 1 };
        },
      )
    ]

-- After curl_easy_perform: the counters, and the handle given back.
unfoldable pub conclude : ℕ → HttpClient → HttpClient
conclude code c =
    let c : HttpClient = record c { error_code = code } in
    let c : HttpClient = record c {
      session =
          if code == curle_ok
          then record c.session { success_count = add32 c.session.success_count 1 }
          else record c.session { failed_count = add32 c.session.failed_count 1 };
    } in
    elim c.curl [ none ↦ c | some _ ↦ record c { curl = none } ]

abbrev pub options_of : Option (List CurlOption) → List CurlOption
options_of none = []
options_of (some l) = l

unfoldable pub perform : Curl → HttpOptionType → HttpClient → Option (Bool × HttpClient)
perform curl option c =
    let c : HttpClient = record c { curl = setopts (proxy_options c.proxy) c.curl } in
    let c : HttpClient = record c { curl = setopts (session_options option c.session) c.curl } in
    let done = curl.easy_perform (options_of c.curl) in
    elim (call_backs done.events c) [
      | none ↦ none
      | some c ↦ some (done.result == curle_ok, conclude done.result c)
    ]

unfoldable pub launch :
    Curl → HttpOptionType → Shared → HttpClient → Option (Bool × Shared × HttpClient)
launch curl option g c =
    let c : HttpClient = record c {
      session = record c.session { count = add32 c.session.count 1 };
    } in
    let (ready, g, c) = initialize curl g c in
    if ready
    then elim (perform curl option c) [ none ↦ none | some (ok, c) ↦ some (ok, g, c) ]
    else some (false, g, c)

-- `"GET"`, `"PUT"` and `"POST"`
abbrev pub name_get : List ℕ
name_get = 71 ∷ 69 ∷ 84 ∷ []

abbrev pub name_put : List ℕ
name_put = 80 ∷ 85 ∷ 84 ∷ []

abbrev pub name_post : List ℕ
name_post = 80 ∷ 79 ∷ 83 ∷ 84 ∷ []

-- `Get`, `Put`, `Post` and `Request`, each by the option it launches with.
unfoldable pub send :
    Curl → HttpOptionType → Shared → HttpClient → Option (Bool × Shared × HttpClient)
send curl get g c = launch curl get g (set_request_option name_get c)
send curl put g c = launch curl put g (set_request_option name_put c)
send curl post g c = launch curl post g (set_request_option name_post c)
send curl other g c = launch curl other g c
