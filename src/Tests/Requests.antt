-- ===== src/Tests/Requests.antt =====
-- toolkit_enckit/source/http_client on a few requests.
use m_toolkit.Base.{◌≡◌, refl, Bool, true, false, none, some, List, [], ◌∷◌, ◌==◌}
use m_toolkit.HttpClient.State.{HttpClient, get, post, unknown, curle_ok, new_client}
use m_toolkit.HttpClient.Setters.{set_login, create}
use m_toolkit.HttpClient.Options.{Shared, share_handle}
use m_toolkit.HttpClient.Transfer.{Curl, Info, header_out, writes, heads, debugs, Performed, launch}
use m_toolkit.HttpClient.Events.{Addressed}
use m_toolkit.HttpClient.Launch.{Answered, Documented, options_sent, launch-Answered}
use m_toolkit.HttpClient.Calls.{Call, sends, sets, clears_session, login, run}
use m_toolkit.HttpClient.History.{History, fresh, Steps, view, view_of}
use m_toolkit.HttpClient.Refines.{DocumentedCalls, run-Steps}
use m_toolkit.HttpClient.Sent.{sent-amounts}
use m_toolkit.HttpClient.Asked.{amounts, nothing, wanted}

abbrev found : Info
found = record {
  response_code = some 200;
  content_length = some unknown;
  size_download = none;
  primary_ip = some (49 ∷ []);
}

-- A transfer of three bytes in two writes.
abbrev transfer : Performed
transfer = record {
  events =
      debugs header_out (71 ∷ 69 ∷ []) 2
      ∷ heads (72 ∷ []) 1 1
      ∷ writes found (1 ∷ 2 ∷ []) 1 2
      ∷ writes found (3 ∷ []) 1 1
      ∷ [];
  result = 0;
}

abbrev no_shares : Shared
no_shares = record { handle = none; dns = [] }

abbrev answering : Curl
answering = record { share_init = some 7; easy_init = true; easy_perform = λ _. transfer }

abbrev exhausted : Curl
exhausted = record { share_init = some 7; easy_init = false; easy_perform = λ _. transfer }

answering-Documented : Documented answering
unfolding Addressed
answering-Documented options = ((49 ∷ [], refl), ((49 ∷ [], refl), tt))

abbrev client : HttpClient
client = create (104 ∷ [])

launch-Answered_example :
    (c' : HttpClient) × (launch answering get no_shares client
      ≡ some (
        (answering.easy_perform (options_sent answering get no_shares client)).result == curle_ok,
        share_handle answering.share_init no_shares,
        c',
      ))
    × Answered (answering.easy_perform (options_sent answering get no_shares client)) client c'
launch-Answered_example = launch-Answered answering get no_shares client refl answering-Documented

abbrev operations : List Call
operations =
    sends answering get
    ∷ sets (login (97 ∷ []) [])
    ∷ sends exhausted post
    ∷ clears_session
    ∷ sends answering post
    ∷ []

operations-DocumentedCalls : DocumentedCalls operations
unfolding DocumentedCalls
operations-DocumentedCalls =
    (answering-Documented, (answering-Documented, (answering-Documented, tt)))

run-Steps_example :
    (answers : List Bool) × (g' : Shared) × (c' : HttpClient) × (h' : History) × (run operations
        no_shares new_client
      ≡ some (answers, g', c'))
    × Steps operations fresh answers h'
    × (view c' ≡ view_of h')
run-Steps_example = run-Steps operations no_shares new_client fresh operations-DocumentedCalls refl

-- A login does not reach curl.
abbrev logged_in : HttpClient
logged_in = set_login (97 ∷ []) (98 ∷ []) client

sent-amounts_example :
    amounts nothing (options_sent answering get no_shares logged_in)
    ≡ wanted
        (share_handle answering.share_init no_shares).handle
        get
        logged_in.proxy
        logged_in.session
sent-amounts_example = sent-amounts answering get no_shares logged_in
