-- ===== src/HttpClient/State.antt =====
-- toolkit_enckit/source/http_client/http_client.h: the state of `HTTPClient`, the options of curl, and
-- objects as the initializers leave them.
use m_toolkit.Base.{ℕ, Bool, true, false, Option, none, List, [], ◌∷◌}

abbrev pub empty {ℓ} : {A : Type ℓ} → List A → Bool
empty [] = true
empty (_ ∷ _) = false

-- A content length: curl fills the double with a whole number, or with -1.
pub data Length : Type 0 where
  unknown : Length
  bytes : ℕ → Length

pub record HttpProxy : Type 0 where
  pub enable : Bool
  pub host : List ℕ
  pub user : List ℕ
  pub pass : List ℕ
  pub login : List ℕ
  pub kind : ℕ

-- `headers` is the curl_slist, `none` for the null pointer. A timeout is not negative.
pub record HttpSession : Type 0 where
  pub count : ℕ
  pub verbose : ℕ
  pub error_count : ℕ
  pub failed_count : ℕ
  pub success_count : ℕ
  pub skip : Bool
  pub timeout : ℕ
  pub receive_timeout : ℕ
  pub url : List ℕ
  pub user : List ℕ
  pub pass : List ℕ
  pub login : List ℕ
  pub ca_file : List ℕ
  pub params : List ℕ
  pub cookie : List ℕ
  pub user_agent : List ℕ
  pub request_option : List ℕ
  pub headers : Option (List (List ℕ))

pub record HttpResponse : Type 0 where
  pub code : ℕ
  pub url : List ℕ
  pub host : List ℕ
  pub header : List ℕ
  pub content : List ℕ
  pub ask_header : List ℕ
  pub total_time : ℕ
  pub content_length : Length
  pub content_length_zip : Length

-- The names that curl gives the numbers.
abbrev pub curlproxy_http : ℕ
curlproxy_http = 0

abbrev pub curle_ok : ℕ
curle_ok = 0

abbrev pub curle_failed_init : ℕ
curle_failed_init = 2

-- The options that the code sets, with their values. `this` and the functions that it passes are
-- not written.
pub data CurlOption : Type 0 where
  share : (handle : Option ℕ) → CurlOption
  dns_cache_timeout : ℕ → CurlOption
  proxy_host : List ℕ → CurlOption
  proxy_type : ℕ → CurlOption
  proxy_auth_any : CurlOption
  proxy_userpwd : List ℕ → CurlOption
  http_header : List (List ℕ) → CurlOption
  connect_timeout : ℕ → CurlOption
  receive_timeout : ℕ → CurlOption
  request_url : List ℕ → CurlOption
  userpwd : List ℕ → CurlOption
  ssl_verifypeer : ℕ → CurlOption
  ssl_verifyhost : ℕ → CurlOption
  cainfo : List ℕ → CurlOption
  method_put : CurlOption
  method_post : CurlOption
  postfields : List ℕ → CurlOption
  customrequest : List ℕ → CurlOption
  verbose : ℕ → CurlOption
  debugfunction debugdata : CurlOption
  writedata writefunction headerdata headerfunction : CurlOption
  nosignal : CurlOption
  maxredirs : ℕ → CurlOption
  forbid_reuse : CurlOption
  followlocation : CurlOption
  cookies : List ℕ → CurlOption
  httpauth_basic : CurlOption
  username : List ℕ → CurlOption
  password : List ℕ → CurlOption

pub record HttpClient : Type 0 where
  pub is_first_write : Bool
  pub curl : Option (List CurlOption)
  pub error_code : ℕ
  pub proxy : HttpProxy
  pub session : HttpSession
  pub response : HttpResponse

pub data HttpOptionType : Type 0 where
  get put post other : HttpOptionType

abbrev pub new_proxy : HttpProxy
new_proxy = record {
  enable = false;
  host = [];
  user = [];
  pass = [];
  login = [];
  kind = curlproxy_http;
}

abbrev pub new_session : HttpSession
new_session = record {
  count = 0;
  verbose = 0;
  error_count = 0;
  failed_count = 0;
  success_count = 0;
  skip = true;
  timeout = 0;
  receive_timeout = 0;
  url = [];
  user = [];
  pass = [];
  login = [];
  ca_file = [];
  params = [];
  cookie = [];
  user_agent = [];
  request_option = [];
  headers = none;
}

abbrev pub new_response : HttpResponse
new_response = record {
  code = 0;
  url = [];
  host = [];
  header = [];
  content = [];
  ask_header = [];
  total_time = 0;
  content_length = bytes 0;
  content_length_zip = bytes 0;
}

abbrev pub new_client : HttpClient
new_client = record {
  is_first_write = true;
  curl = none;
  error_code = curle_ok;
  proxy = new_proxy;
  session = new_session;
  response = new_response;
}
