-- ===== src/HttpClient/Calls.antt =====
-- Every public operation of `HTTPClient` that changes it, and sequences of them.
use m_toolkit.Base.{ℕ, Bool, Option, none, some, List, [], ◌∷◌}
use m_toolkit.HttpClient.State.{HttpClient, HttpOptionType}
use m_toolkit.HttpClient.Setters.{
  clear, clear_proxy, clear_session, clear_response, set_url, set_login, set_proxy, set_param,
  set_skip, set_ca_file, set_cookie, set_header, set_user_agent, set_connect_timeout,
  set_receive_timeout, set_request_option, add_param, add_header, enable_verbose, disable_verbose,
}
use m_toolkit.HttpClient.Options.{Shared}
use m_toolkit.HttpClient.Transfer.{Curl, send}

pub data Setting : Type 0 where
  url params ca_file cookie user_agent request_option more_params : List ℕ → Setting
  login : (user pass : List ℕ) → Setting
  proxy : (host user pass : List ℕ) (kind : ℕ) → Setting
  skip : Bool → Setting
  connect_timeout receive_timeout : ℕ → Setting
  first_header next_header :
      (append : Option (List (List ℕ)) → List ℕ → Option (List (List ℕ))) → List ℕ → Setting
  verbose not_verbose no_proxy no_response : Setting

unfoldable pub set : Setting → HttpClient → HttpClient
set (url s) = set_url s
set (params s) = set_param s
set (ca_file s) = set_ca_file s
set (cookie s) = set_cookie s
set (user_agent s) = set_user_agent s
set (request_option s) = set_request_option s
set (more_params s) = add_param s
set (login user pass) = set_login user pass
set (proxy host user pass kind) = set_proxy host user pass kind
set (skip b) = set_skip b
set (connect_timeout n) = set_connect_timeout n
set (receive_timeout n) = set_receive_timeout n
set (first_header append h) = set_header append h
set (next_header append h) = add_header append h
set verbose = enable_verbose
set not_verbose = disable_verbose
set no_proxy = clear_proxy
set no_response = clear_response

pub data Call : Type 0 where
  sends : Curl → HttpOptionType → Call
  sets : Setting → Call
  clears : Call
  clears_session : Call

-- The results of the requests, oldest first, with the state at the end.
unfoldable pub run : List Call → Shared → HttpClient → Option (List Bool × Shared × HttpClient)
run [] g c = some ([], g, c)
run (sends curl option ∷ calls) g c = elim (send curl option g c) [
  | none ↦ none
  | some (ok, g, c) ↦ elim (run calls g c) [
    | none ↦ none
    | some (answers, g, c) ↦ some (ok ∷ answers, g, c)
  ]
]
run (sets s ∷ calls) g c = run calls g (set s c)
run (clears ∷ calls) g c = run calls g (clear c)
run (clears_session ∷ calls) g c = run calls g (clear_session c)
