-- ===== src/HttpClient/Asked.antt =====
-- What the options of a request amount to, the value that each is last set to; and what is wanted.
use m_toolkit.Base.{
  ℕ, ◌≡◌, refl, Bool, true, false, Option, none, some, List, [], ◌∷◌, ◌++◌, ◌==◌, if◌then◌else◌,
}
use m_toolkit.HttpClient.State.{
  HttpProxy, HttpSession, HttpOptionType, get, put, post, other, CurlOption, proxy_host,
  proxy_userpwd, connect_timeout, receive_timeout, request_url, userpwd, ssl_verifypeer,
  http_header, ssl_verifyhost, cainfo, method_put, method_post, postfields, customrequest,
  followlocation, username, empty, password, share, dns_cache_timeout, proxy_type, proxy_auth_any,
  verbose, debugfunction, debugdata, writedata, writefunction, headerdata, headerfunction, nosignal,
  maxredirs, forbid_reuse, cookies, httpauth_basic,
}

pub data Method : Type 0 where
  gets puts posts : Method

-- The user name and the password of a later option take the place of those of an earlier one.
pub record Asked : Type 0 where
  pub shared_with : Option (Option ℕ)
  pub dns_limit : Option ℕ
  pub proxy_kind : Option ℕ
  pub proxy_any : Bool
  pub proxy : Option (List ℕ)
  pub proxy_login : Option (List ℕ)
  pub headers : Option (List (List ℕ))
  pub connect_limit : Option ℕ
  pub receive_limit : Option ℕ
  pub url : Option (List ℕ)
  pub user : Option (List ℕ)
  pub pass : Option (List ℕ)
  pub authority : Option (List ℕ)
  pub verify_peer : Option ℕ
  pub verify_host : Option ℕ
  pub method : Method
  pub custom : Option (List ℕ)
  pub body : Option (List ℕ)
  pub follows : Bool
  pub level : Option ℕ
  pub debugs : Bool
  pub debugs_to : Bool
  pub writes_to : Bool
  pub writes : Bool
  pub heads_to : Bool
  pub heads : Bool
  pub no_signal : Bool
  pub redirects : Option ℕ
  pub closes : Bool
  pub cookie : Option (List ℕ)
  pub basic : Bool

abbrev pub nothing : Asked
nothing = record {
  shared_with = none;
  dns_limit = none;
  proxy_kind = none;
  proxy_any = false;
  proxy = none;
  proxy_login = none;
  headers = none;
  connect_limit = none;
  receive_limit = none;
  url = none;
  user = none;
  pass = none;
  authority = none;
  verify_peer = none;
  verify_host = none;
  method = gets;
  custom = none;
  body = none;
  follows = false;
  level = none;
  debugs = false;
  debugs_to = false;
  writes_to = false;
  writes = false;
  heads_to = false;
  heads = false;
  no_signal = false;
  redirects = none;
  closes = false;
  cookie = none;
  basic = false;
}

-- As curl documents its options: a body makes the request a POST.
abbrev pub noted : Asked → CurlOption → Asked
noted a (proxy_host l) = record a { proxy = some l }
noted a (proxy_userpwd l) = record a { proxy_login = some l }
noted a (http_header l) = record a { headers = some l }
noted a (connect_timeout n) = record a { connect_limit = some n }
noted a (receive_timeout n) = record a { receive_limit = some n }
noted a (request_url l) = record a { url = some l }
noted a (userpwd l) = record a { user = some l; pass = some l }
noted a (username l) = record a { user = some l }
noted a (cainfo l) = record a { authority = some l }
noted a (ssl_verifypeer n) = record a { verify_peer = some n }
noted a (ssl_verifyhost n) = record a { verify_host = some n }
noted a method_put = record a { method = puts }
noted a method_post = record a { method = posts }
noted a (customrequest l) = record a { custom = some l }
noted a (postfields l) = record a { method = posts; body = some l }
noted a followlocation = record a { follows = true }
noted a (password l) = record a { pass = some l }
noted a (share g) = record a { shared_with = some g }
noted a (dns_cache_timeout n) = record a { dns_limit = some n }
noted a (proxy_type n) = record a { proxy_kind = some n }
noted a proxy_auth_any = record a { proxy_any = true }
noted a (verbose n) = record a { level = some n }
noted a debugfunction = record a { debugs = true }
noted a debugdata = record a { debugs_to = true }
noted a writedata = record a { writes_to = true }
noted a writefunction = record a { writes = true }
noted a headerdata = record a { heads_to = true }
noted a headerfunction = record a { heads = true }
noted a nosignal = record a { no_signal = true }
noted a (maxredirs n) = record a { redirects = some n }
noted a forbid_reuse = record a { closes = true }
noted a (cookies l) = record a { cookie = some l }
noted a httpauth_basic = record a { basic = true }

unfoldable pub amounts : Asked → List CurlOption → Asked
amounts a [] = a
amounts a (o ∷ options) = amounts (noted a o) options

pub amounts-append :
    (a : Asked) (xs ys : List CurlOption) → amounts a (xs ++ ys) ≡ amounts (amounts a xs) ys
unfolding amounts
amounts-append a [] ys = refl
amounts-append a (x ∷ xs) ys = amounts-append (noted a x) xs ys

-- A string that is empty is not set.
abbrev pub unless_empty : List ℕ → Option (List ℕ)
unless_empty [] = none
unless_empty (x ∷ l) = some (x ∷ l)

abbrev pub three_or : ℕ → ℕ
three_or n = if n == 0 then 3 else n

-- What a request should ask for, by its kind and by the state of the client.
abbrev pub wanted : Option ℕ → HttpOptionType → HttpProxy → HttpSession → Asked
wanted handle option p s = record {
  shared_with = some handle;
  dns_limit = some 300;
  proxy_kind = if p.enable then some p.kind else none;
  proxy_any = p.enable;
  proxy = if p.enable then some p.host else none;
  proxy_login = if p.enable then unless_empty p.login else none;
  headers = s.headers;
  connect_limit = some (three_or s.timeout);
  receive_limit = some (three_or s.receive_timeout);
  url = unless_empty s.url;
  user = some [];
  pass = some [];
  authority = unless_empty s.ca_file;
  verify_peer = some (if empty s.ca_file then 0 else 1);
  verify_host = some (if empty s.ca_file then 0 else 2);
  method = elim option [
    | get ↦ gets
    | put ↦ if empty s.params then puts else posts
    | post ↦ posts
    | other ↦ gets
  ];
  custom = elim option [ other ↦ some s.request_option | get ↦ none | put ↦ none | post ↦ none ];
  body = elim option [
    | get ↦ none
    | put ↦ unless_empty s.params
    | post ↦ unless_empty s.params
    | other ↦ none
  ];
  follows = s.skip;
  level = some 1;
  debugs = true;
  debugs_to = true;
  writes_to = true;
  writes = true;
  heads_to = true;
  heads = true;
  no_signal = true;
  redirects = some 3;
  closes = true;
  cookie = none;
  basic = true;
}
