-- ===== src/HttpClient/Setters.antt =====
-- toolkit_enckit/source/http_client/http_client.cpp: the constructor, `Clear` of each class, and the
-- setters of `HTTPClient`.
use m_toolkit.Base.{
  ℕ, Bool, true, false, not, ◌||◌, Option, none, some, List, [], ◌∷◌, ◌++◌, if◌then◌else◌,
}
use m_toolkit.HttpClient.State.{
  bytes, HttpClient, HttpProxy, HttpResponse, HttpSession, curle_ok, curlproxy_http, empty,
  new_client,
}

-- `HTTPProxy::Clear`
unfoldable pub proxy_clear : HttpProxy → HttpProxy
proxy_clear p = record p {
  enable = false;
  host = [];
  user = [];
  pass = [];
  login = [];
  kind = curlproxy_http;
}

-- `HTTPSession::Clear`
unfoldable pub session_clear : HttpSession → HttpSession
session_clear s = record s {
  count = 0;
  verbose = 0;
  error_count = 0;
  failed_count = 0;
  success_count = 0;
  timeout = 0;
  receive_timeout = 0;
  skip = true;
  url = [];
  user = [];
  pass = [];
  login = [];
  ca_file = [];
  params = [];
  cookie = [];
  user_agent = [];
  request_option = [];
  headers = none;
}

-- `HTTPResponse::Clear`, which keeps the address, the host and the length of the transfer.
unfoldable pub response_clear : HttpResponse → HttpResponse
response_clear r = record r {
  code = 0;
  header = [];
  content = [];
  ask_header = [];
  total_time = 0;
  content_length = bytes 0;
}

unfoldable pub clear_proxy : HttpClient → HttpClient
clear_proxy c = record c { proxy = proxy_clear c.proxy }

unfoldable pub clear_session : HttpClient → HttpClient
clear_session c = record c { session = session_clear c.session }

unfoldable pub clear_response : HttpClient → HttpClient
clear_response c = record c { response = response_clear c.response }

unfoldable pub clear : HttpClient → HttpClient
clear c =
    let c = clear_response (clear_session (clear_proxy c)) in
    let c : HttpClient = record c { error_code = curle_ok; is_first_write = true } in
    elim c.curl [ none ↦ c | some _ ↦ record c { curl = none } ]

-- The setters
unfoldable pub set_url : List ℕ → HttpClient → HttpClient
set_url url c =
    let s : HttpSession = record c.session { url = url } in
    record c { session = s; response = record c.response { url = s.url } }

-- The constructor
unfoldable pub create : List ℕ → HttpClient
create url = set_url url new_client

-- `":"`
abbrev colon : List ℕ
colon = 58 ∷ []

unfoldable pub set_login : (user pass : List ℕ) → HttpClient → HttpClient
set_login user pass c =
    let s : HttpSession = record c.session { user = user; pass = pass } in
    record c {
      session =
          if not (empty s.user) || not (empty s.pass)
          then record s { login = s.user ++ colon ++ s.pass }
          else s;
    }

unfoldable pub set_proxy : (host user pass : List ℕ) (kind : ℕ) → HttpClient → HttpClient
set_proxy host user pass kind c =
    let p : HttpProxy = record c.proxy {
      kind = kind;
      host = host;
      user = user;
      pass = pass;
      enable = true;
    } in
    record c {
      proxy =
          if not (empty p.user) || not (empty p.pass)
          then record p { login = p.user ++ colon ++ p.pass }
          else p;
    }

unfoldable pub set_param : List ℕ → HttpClient → HttpClient
set_param param c = record c { session = record c.session { params = param } }

unfoldable pub set_skip : Bool → HttpClient → HttpClient
set_skip skip c = record c { session = record c.session { skip = skip } }

unfoldable pub set_ca_file : List ℕ → HttpClient → HttpClient
set_ca_file ca_file c = record c { session = record c.session { ca_file = ca_file } }

unfoldable pub set_cookie : List ℕ → HttpClient → HttpClient
set_cookie cookie c = record c { session = record c.session { cookie = cookie } }

unfoldable pub set_user_agent : List ℕ → HttpClient → HttpClient
set_user_agent user_agent c = record c { session = record c.session { user_agent = user_agent } }

unfoldable pub set_connect_timeout : ℕ → HttpClient → HttpClient
set_connect_timeout timeout c = record c { session = record c.session { timeout = timeout } }

unfoldable pub set_receive_timeout : ℕ → HttpClient → HttpClient
set_receive_timeout timeout c = record c {
  session = record c.session { receive_timeout = timeout };
}

unfoldable pub set_request_option : List ℕ → HttpClient → HttpClient
set_request_option name c = record c { session = record c.session { request_option = name } }

unfoldable pub add_param : List ℕ → HttpClient → HttpClient
add_param param c = record c { session = record c.session { params = c.session.params ++ param } }

unfoldable pub enable_verbose : HttpClient → HttpClient
enable_verbose c = record c { session = record c.session { verbose = 1 } }

unfoldable pub disable_verbose : HttpClient → HttpClient
disable_verbose c = record c { session = record c.session { verbose = 0 } }

-- `append` is curl_slist_append.
unfoldable pub add_header :
    (append : Option (List (List ℕ)) → List ℕ → Option (List (List ℕ)))
    → List ℕ
    → HttpClient
    → HttpClient
add_header append header c = record c {
  session = record c.session { headers = append c.session.headers header };
}

unfoldable pub set_header :
    (append : Option (List (List ℕ)) → List ℕ → Option (List (List ℕ)))
    → List ℕ
    → HttpClient
    → HttpClient
set_header append header c = elim c.session.headers [
  | none ↦ add_header append header c
  | some _ ↦ add_header append header (record c { session = record c.session { headers = none } })
]
