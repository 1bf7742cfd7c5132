-- ===== src/HttpClient/Options.antt =====
-- toolkit_enckit/source/http_client/http_client.cpp: `SetProxy`, `SetSession` and `SetShareDNSCache`, as
-- the options that they set.
use m_toolkit.Base.{ℕ, not, Option, none, some, List, [], ◌∷◌, ◌++◌, ◌==◌, if◌then◌else◌}
use m_toolkit.HttpClient.State.{
  HttpProxy, HttpSession, HttpOptionType, get, put, post, other, CurlOption, share,
  dns_cache_timeout, proxy_host, proxy_type, proxy_auth_any, proxy_userpwd, http_header,
  connect_timeout, receive_timeout, request_url, userpwd, ssl_verifypeer, ssl_verifyhost, cainfo,
  method_put, method_post, postfields, customrequest, verbose, debugfunction, debugdata, writedata,
  writefunction, headerdata, headerfunction, nosignal, maxredirs, forbid_reuse, followlocation,
  cookies, httpauth_basic, username, password, empty,
}

-- The calls of curl_easy_setopt on a handle. On a null pointer they set nothing.
unfoldable pub setopts : List CurlOption → Option (List CurlOption) → Option (List CurlOption)
setopts options none = none
setopts options (some handle) = some (handle ++ options)

unfoldable pub proxy_options : HttpProxy → List CurlOption
proxy_options p =
    if p.enable
    then (proxy_host p.host
        ∷ proxy_type p.kind
        ∷ proxy_auth_any
        ∷ (if not (empty p.login) then proxy_userpwd p.login ∷ [] else []))
    else []

-- The parts of `SetSession`, in its order.
unfoldable pub header_options : HttpSession → List CurlOption
header_options s = elim s.headers [ none ↦ [] | some l ↦ http_header l ∷ [] ]

unfoldable pub timeout_options : HttpSession → List CurlOption
timeout_options s =
    (if s.timeout == 0 then connect_timeout 3 else connect_timeout s.timeout)
    ∷ (if s.receive_timeout == 0 then receive_timeout 3 else receive_timeout s.receive_timeout)
    ∷ []

unfoldable pub address_options : HttpSession → List CurlOption
address_options s =
    (if not (empty s.url) then request_url s.url ∷ [] else [])
    ++ (if not (empty s.login) then userpwd s.login ∷ [] else [])

unfoldable pub certificate_options : HttpSession → List CurlOption
certificate_options s =
    if empty s.ca_file
    then ssl_verifypeer 0 ∷ ssl_verifyhost 0 ∷ []
    else cainfo s.ca_file ∷ ssl_verifypeer 1 ∷ ssl_verifyhost 2 ∷ []

unfoldable pub params_options : HttpSession → List CurlOption
params_options s = if not (empty s.params) then postfields s.params ∷ [] else []

unfoldable pub method_options : HttpOptionType → HttpSession → List CurlOption
method_options get s = []
method_options put s = method_put ∷ params_options s
method_options post s = method_post ∷ params_options s
method_options other s = customrequest s.request_option ∷ []

-- The static strings of the last block, which nothing assigns.
abbrev pub static_name : List ℕ
static_name = []

abbrev pub static_pass : List ℕ
static_pass = []

abbrev pub static_cookie : List ℕ
static_cookie = []

unfoldable pub callback_options : List CurlOption
callback_options =
    verbose 1
    ∷ debugfunction
    ∷ debugdata
    ∷ writedata
    ∷ writefunction
    ∷ headerdata
    ∷ headerfunction
    ∷ []

unfoldable pub transfer_options : HttpSession → List CurlOption
transfer_options s =
    nosignal ∷ maxredirs 3 ∷ forbid_reuse ∷ (if s.skip then followlocation ∷ [] else [])

unfoldable pub static_options : List CurlOption
static_options =
    (if not (empty static_cookie) then cookies static_cookie ∷ [] else [])
    ++ httpauth_basic ∷ username static_name ∷ password static_pass ∷ []

unfoldable pub session_options : HttpOptionType → HttpSession → List CurlOption
session_options option s =
    header_options s
    ++ (timeout_options s
        ++ (address_options s
            ++ (certificate_options s
                ++ (method_options option s
                    ++ (callback_options ++ transfer_options s ++ static_options)))))

-- The static share handle, which all clients of the process use, as the number that names it, and
-- the handles that were told to share the DNS cache, in the order of the calls.
pub record Shared : Type 0 where
  pub handle : Option ℕ
  pub dns : List (Option ℕ)

-- `init` is what curl_share_init gives.
unfoldable pub share_handle : (init : Option ℕ) → Shared → Shared
share_handle init g = elim g.handle [
  | none ↦ record g { handle = init; dns = g.dns ++ init ∷ [] }
  | some _ ↦ g
]

unfoldable pub share_options : Shared → List CurlOption
share_options g = share g.handle ∷ dns_cache_timeout 300 ∷ []
