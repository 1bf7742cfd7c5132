-- ===== src/HttpClient/Launch.antt =====
-- What `Launch` gives and leaves, with a handle and without.
use m_toolkit.Base.{
  ℕ, ◌≡◌, refl, sym, ap, ◌∙◌, Bool, true, false, Option, none, some, List, [], ◌++◌, ◌==◌,
  if◌then◌else◌, add32,
}
use mathlib.Core.Path.{subst}
use m_toolkit.HttpClient.State.{
  HttpClient, HttpSession, HttpOptionType, get, put, post, other, CurlOption, curle_ok,
}
use m_toolkit.HttpClient.Setters.{response_clear}
use m_toolkit.HttpClient.Options.{
  Shared, setopts, proxy_options, session_options, header_options, timeout_options, address_options,
  certificate_options, params_options, method_options, callback_options, transfer_options,
  share_handle, share_options,
}
use m_toolkit.HttpClient.Transfer.{Curl, Performed, initialize, conclude, perform, launch}
use m_toolkit.HttpClient.Received.{call_backs-Received}
use m_toolkit.HttpClient.Events.{
  written, headed, asked, code_after, host_after, Addressed, Received,
}

-- The options of a request, by the state at the call.
abbrev pub options_sent : Curl → HttpOptionType → Shared → HttpClient → List CurlOption
options_sent curl option g c =
    (share_options (share_handle curl.share_init g) ++ proxy_options c.proxy)
    ++ session_options option c.session

-- The counters after a request that curl performed.
abbrev pub counted : (ok : Bool) → HttpSession → HttpSession
counted true s = record s { count = add32 s.count 1; success_count = add32 s.success_count 1 }
counted false s = record s { count = add32 s.count 1; failed_count = add32 s.failed_count 1 }

pub record Answered (done : Performed) (c c' : HttpClient) : Type 0 where
  pub handle_freed : c'.curl ≡ none
  pub error_code_set : c'.error_code ≡ done.result
  pub proxy_kept : c'.proxy ≡ c.proxy
  pub session_counted : c'.session ≡ counted (done.result == curle_ok) c.session
  pub content_set : c'.response.content ≡ written done.events
  pub header_set : c'.response.header ≡ headed done.events
  pub ask_header_set : c'.response.ask_header ≡ asked done.events []
  pub code_set : c'.response.code ≡ code_after true done.events 0
  pub host_set : c'.response.host ≡ host_after true done.events c.response.host
  pub url_kept : c'.response.url ≡ c.response.url

-- curl documents that an address is there when it writes.
abbrev pub Documented : Curl → Type 0
Documented curl = (options : List CurlOption) → Addressed (curl.easy_perform options).events

-- The client when the transfer begins.
abbrev begun : List CurlOption → HttpClient → HttpClient
begun options c = record c {
  session = record c.session { count = add32 c.session.count 1 };
  response = response_clear c.response;
  curl = some options;
  error_code = curle_ok;
  is_first_write = true;
}

abbrev tallied : (ok : Bool) → HttpSession → HttpSession
tallied ok s =
    if ok
    then record s { success_count = add32 s.success_count 1 }
    else record s { failed_count = add32 s.failed_count 1 }

tallied-counted :
    (ok : Bool) (s : HttpSession) → tallied ok (record s { count = add32 s.count 1 }) ≡ counted ok s
tallied-counted true s = refl
tallied-counted false s = refl

conclude_lem :
    (code : ℕ) (l : List CurlOption) (c : HttpClient)
    → c.curl ≡ some l
    → conclude code c
      ≡ record c { error_code = code; curl = none; session = tallied (code == curle_ok) c.session }
unfolding conclude
conclude_lem code l c handle =
    subst
      (λ o. conclude code (record c { curl = o }) ≡ record c {
        error_code = code;
        curl = none;
        session = tallied (code == curle_ok) c.session;
      })
      (sym handle) refl

-- After the last callback.
conclude-Answered :
    (done : Performed) (l : List CurlOption) (c c₁ : HttpClient)
    → Received done.events (begun l c) c₁
    → Answered done c (conclude done.result c₁)
unfolding response_clear
conclude-Answered done l c c₁ r =
    subst (λ c'. Answered done c c') (sym (conclude_lem done.result l c₁ r.curl_kept))
      (record {
        handle_freed = refl;
        error_code_set = refl;
        proxy_kept = r.proxy_kept;
        session_counted =
            ap (tallied (done.result == curle_ok)) r.session_kept
            ∙ tallied-counted (done.result == curle_ok) c.session;
        content_set = r.content_grown;
        header_set = r.header_grown;
        ask_header_set = r.ask_header_set;
        code_set = r.code_set;
        host_set = r.host_set;
        url_kept = r.url_kept;
      })

abbrev then_conclude : Performed → Option HttpClient → Option (Bool × HttpClient)
then_conclude done o = elim o [
  | none ↦ none
  | some c ↦ some (done.result == curle_ok, conclude done.result c)
]

-- What `launch` does with the options that it sends.
abbrev LaunchesWith : Curl → HttpOptionType → Shared → HttpClient → List CurlOption → Type 0
LaunchesWith curl option g c options =
    (c' : HttpClient) × (launch curl option g c
      ≡ some ((curl.easy_perform options).result == curle_ok, share_handle curl.share_init g, c'))
    × Answered (curl.easy_perform options) c c'

launch-started :
    (curl : Curl) (option : HttpOptionType) (g : Shared) (c : HttpClient)
    → Documented curl
    → LaunchesWith
        (record curl { easy_init = true })
        option
        g
        c
        ((share_options (share_handle curl.share_init g) ++ proxy_options c.proxy)
          ++ session_options option (record c.session { count = add32 c.session.count 1 }))
unfolding launch initialize perform setopts
launch-started curl option g c documented =
    let options =
      (share_options (share_handle curl.share_init g) ++ proxy_options c.proxy)
      ++ session_options option (record c.session { count = add32 c.session.count 1 }) in
    let done = curl.easy_perform options in
    let (c₁, steps, r) = call_backs-Received done.events (begun options c) (documented _) in
    (
      conclude done.result c₁,
      ap
          (λ o. elim (then_conclude done o) [
            | none ↦ none
            | some (ok, c) ↦ some (ok, share_handle curl.share_init g, c)
          ])
          steps,
      conclude-Answered done options c c₁ r,
    )

-- The options do not depend on the counter.
session_options-count :
    (option : HttpOptionType) (n : ℕ) (s : HttpSession)
    → session_options option (record s { count = n }) ≡ session_options option s
unfolding session_options header_options timeout_options address_options certificate_options
    params_options method_options callback_options transfer_options
session_options-count get n s = refl
session_options-count put n s = refl
session_options-count post n s = refl
session_options-count other n s = refl

-- A request that gets a handle always ends, and gives the handle back. Its result is whether curl
-- performed it. The client holds the error code, counts the request once, and its response is that of
-- this transfer alone: the bytes of the writes and of the headers in their order, and the status and
-- the address as of the first write. Without a write the address stays that of the request before.
pub launch-Answered :
    (curl : Curl) (option : HttpOptionType) (g : Shared) (c : HttpClient)
    → curl.easy_init ≡ true
    → Documented curl
    → (c' : HttpClient) × (launch curl option g c
        ≡ some (
          (curl.easy_perform (options_sent curl option g c)).result == curle_ok,
          share_handle curl.share_init g,
          c',
        ))
      × Answered (curl.easy_perform (options_sent curl option g c)) c c'
launch-Answered curl option g c starts documented =
    subst
      (λ b. LaunchesWith (record curl { easy_init = b }) option g c (options_sent curl option g c))
      (sym starts)
      (subst
        (λ l.
          LaunchesWith (record curl { easy_init = true }) option g c
            ((share_options (share_handle curl.share_init g) ++ proxy_options c.proxy) ++ l))
        (session_options-count option (add32 c.session.count 1) c.session)
        (launch-started curl option g c documented))
