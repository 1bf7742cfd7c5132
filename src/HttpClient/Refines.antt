-- ===== src/HttpClient/Refines.antt =====
-- `HTTPClient` keeps the promise of its counters.
use m_toolkit.Base.{
  ℕ, suc, ◌%◌, ◌≡◌, refl, ap, ◌∙◌, Bool, true, false, Option, none, some, List, [], ◌∷◌, ◌==◌,
  if◌then◌else◌, Bool-cases, inl, inr, length, add32, u32_mod, arith,
}
use m_toolkit.HttpClient.State.{
  HttpClient, HttpSession, HttpOptionType, get, put, post, other, curle_ok, CurlOption,
}
use m_toolkit.HttpClient.Setters.{
  clear, clear_session, session_clear, set_request_option, set_url, set_param, set_ca_file,
  set_cookie, set_user_agent, add_param, set_login, set_proxy, set_skip, set_connect_timeout,
  set_receive_timeout, set_header, add_header, enable_verbose, disable_verbose, clear_proxy,
  clear_response,
}
use m_toolkit.HttpClient.Options.{Shared}
use m_toolkit.HttpClient.Transfer.{Curl, send}
use m_toolkit.HttpClient.Launch.{Documented}
use m_toolkit.HttpClient.Calls.{
  Setting, set, Call, sends, sets, clears, clears_session, run, url, params, ca_file, cookie,
  user_agent, request_option, more_params, login, proxy, skip, connect_timeout, receive_timeout,
  first_header, next_header, verbose, not_verbose, no_proxy, no_response,
}
use m_toolkit.HttpClient.History.{
  Outcome, no_handle, performed, Came, refused, answered, ok_of, code_of, History, fresh,
  no_handles, successes, failures, Steps, ends, sent, was_set, was_cleared, session_was_cleared,
  View, view, view_of,
}
use m_toolkit.HttpClient.Launch.{Answered, counted, launch-Answered}
use m_toolkit.HttpClient.Refusal.{launch-no_handle}
use m_toolkit.HttpClient.Transfer.{Performed, launch, name_get, name_put, name_post}

view_if :
    (b : Bool) (c : HttpClient) (s s' : HttpSession)
    → view (record c { session = s }) ≡ view (record c { session = s' })
    → view (record c { session = if b then s else s' }) ≡ view (record c { session = s' })
view_if true c s s' same = same
view_if false c s s' same = refl

-- A setter changes nothing of it.
with_headers :
    (append : Option (List (List ℕ)) → List ℕ → Option (List (List ℕ))) (h : List ℕ)
    (c : HttpClient) (headers : Option (List (List ℕ)))
    → view (set_header append h (record c { session = record c.session { headers = headers } }))
      ≡ view c
unfolding set_header add_header
with_headers append h c none = refl
with_headers append h c (some l) = refl

view-set : (s : Setting) (c : HttpClient) → view (set s c) ≡ view c
unfolding set set_url set_param set_ca_file set_cookie set_user_agent set_request_option add_param
    set_login set_proxy set_skip set_connect_timeout set_receive_timeout set_header add_header
    enable_verbose disable_verbose clear_proxy clear_response
view-set (url s) c = refl
view-set (params s) c = refl
view-set (ca_file s) c = refl
view-set (cookie s) c = refl
view-set (user_agent s) c = refl
view-set (request_option s) c = refl
view-set (more_params s) c = refl
view-set (login user pass) c = view_if _ c _ _ refl
view-set (proxy host user pass kind) c = refl
view-set (skip b) c = refl
view-set (connect_timeout n) c = refl
view-set (receive_timeout n) c = refl
view-set (first_header append h) c = with_headers append h c c.session.headers
view-set (next_header append h) c = refl
view-set verbose c = refl
view-set not_verbose c = refl
view-set no_proxy c = refl
view-set no_response c = refl

with_curl :
    (c : HttpClient) (curl : Option (List CurlOption))
    → view (clear (record c { curl = curl })) ≡ view_of fresh
unfolding clear clear_proxy clear_session clear_response session_clear
with_curl c none = refl
with_curl c (some l) = refl

view_ext :
    {v w : View}
    → v.count ≡ w.count
    → v.error_count ≡ w.error_count
    → v.success_count ≡ w.success_count
    → v.failed_count ≡ w.failed_count
    → v.error_code ≡ w.error_code
    → v.curl ≡ w.curl
    → v ≡ w
view_ext n e s f l c = λ i. record {
  count = n i;
  error_count = e i;
  success_count = s i;
  failed_count = f i;
  error_code = l i;
  curl = c i;
}

add32-suc : (n k : ℕ) → n ≡ k % u32_mod → add32 n 1 ≡ suc k % u32_mod
add32-suc n k e = omega arith

-- One request that curl performed.
abbrev outcome_is : Outcome → History → History
outcome_is o h = record { outcomes = o ∷ h.outcomes; last = code_of o }

view-counted :
    (b : Bool) (c : HttpClient) (s : HttpSession) (h : History)
    → view c ≡ view_of h
    → s ≡ counted b c.session
    → (s.count ≡ suc (length h.outcomes) % u32_mod)
      × (s.error_count ≡ no_handles h.outcomes % u32_mod)
      × (s.success_count
          ≡ (if b then suc (successes h.outcomes) else successes h.outcomes) % u32_mod)
      × (s.failed_count ≡ (if b then failures h.outcomes else suc (failures h.outcomes)) % u32_mod)
view-counted true c s h shown e = (
  ap (λ s. s.count) e ∙ add32-suc _ _ (ap (λ v. v.count) shown),
  ap (λ s. s.error_count) e ∙ ap (λ v. v.error_count) shown,
  ap (λ s. s.success_count) e ∙ add32-suc _ _ (ap (λ v. v.success_count) shown),
  ap (λ s. s.failed_count) e ∙ ap (λ v. v.failed_count) shown,
)
view-counted false c s h shown e = (
  ap (λ s. s.count) e ∙ add32-suc _ _ (ap (λ v. v.count) shown),
  ap (λ s. s.error_count) e ∙ ap (λ v. v.error_count) shown,
  ap (λ s. s.success_count) e ∙ ap (λ v. v.success_count) shown,
  ap (λ s. s.failed_count) e ∙ add32-suc _ _ (ap (λ v. v.failed_count) shown),
)

view-performed :
    (done : Performed) (c c' : HttpClient) (h : History)
    → view c ≡ view_of h
    → Answered done c c'
    → view c' ≡ view_of (outcome_is (performed done.result) h)
view-performed done c c' h shown a =
    let (n, e, s, f) =
      view-counted (done.result == curle_ok) c c'.session h shown a.session_counted in
    view_ext n e s f a.error_code_set a.handle_freed

launch-view :
    (curl : Curl) (option : HttpOptionType) (g : Shared) (c : HttpClient) (h : History)
    → Documented curl
    → view c ≡ view_of h
    → (o : Outcome) × Came curl option o
      × (g' : Shared) × (c' : HttpClient) × (launch curl option g c ≡ some (ok_of o, g', c'))
      × (view c' ≡ view_of (outcome_is o h))
launch-view curl option g c h documented shown = elim (Bool-cases curl.easy_init) [
  | inl starts ↦
      let (c', launched, a) = launch-Answered curl option g c starts documented in
      (performed _, answered g c starts, _, c', launched, view-performed _ c c' h shown a)
  | inr fails ↦ (
    no_handle,
    refused fails,
    _,
    _,
    launch-no_handle curl option g c fails,
    view_ext (add32-suc _ _ (ap (λ v. v.count) shown))
        (add32-suc _ _ (ap (λ v. v.error_count) shown)) (ap (λ v. v.success_count) shown)
        (ap (λ v. v.failed_count) shown) refl refl,
  )
]

send-view :
    (curl : Curl) (option : HttpOptionType) (g : Shared) (c : HttpClient) (h : History)
    → Documented curl
    → view c ≡ view_of h
    → (o : Outcome) × Came curl option o
      × (g' : Shared) × (c' : HttpClient) × (send curl option g c ≡ some (ok_of o, g', c'))
      × (view c' ≡ view_of (outcome_is o h))
unfolding send set_request_option
send-view curl get g c h = launch-view curl get g (set_request_option name_get c) h
send-view curl put g c h = launch-view curl put g (set_request_option name_put c) h
send-view curl post g c h = launch-view curl post g (set_request_option name_post c) h
send-view curl other g c h = launch-view curl other g c h

-- curl keeps to its documents in each request.
unfoldable pub DocumentedCalls : List Call → Type 0
DocumentedCalls [] = Unit
DocumentedCalls (sends curl option ∷ calls) = Documented curl × DocumentedCalls calls
DocumentedCalls (_ ∷ calls) = DocumentedCalls calls

abbrev after_one :
    Bool → Option (List Bool × Shared × HttpClient) → Option (List Bool × Shared × HttpClient)
after_one ok r = elim r [ none ↦ none | some (answers, g, c) ↦ some (ok ∷ answers, g, c) ]

after :
    (curl : Curl) (option : HttpOptionType) (calls : List Call) (g : Shared) (c : HttpClient)
    {g₁ g' : Shared} {c₁ c' : HttpClient} {ok : Bool} {answers : List Bool}
    → send curl option g c ≡ some (ok, g₁, c₁)
    → run calls g₁ c₁ ≡ some (answers, g', c')
    → run (sends curl option ∷ calls) g c ≡ some (ok ∷ answers, g', c')
unfolding run
after curl option calls g c {ok = ok} first then_run =
    ap (λ o. elim o [ none ↦ none | some (ok, g, c) ↦ after_one ok (run calls g c) ]) first
    ∙ ap (after_one ok) then_run

-- Every sequence of operations comes to an end, and is one that the history allows: the results of
-- the requests are those of their outcomes, which are what curl makes of them, no handle or the code that
-- it answers to the options of a request of that kind, and between two operations the four counters are the
-- numbers of the outcomes since the last clearing, modulo 2^32, the last error is that of the last
-- request, and no handle is held.
pub run-Steps :
    (calls : List Call) (g : Shared) (c : HttpClient) (h : History)
    → DocumentedCalls calls
    → view c ≡ view_of h
    → (answers : List Bool) × (g' : Shared) × (c' : HttpClient) × (h' : History) × (run calls g c
        ≡ some (answers, g', c'))
      × Steps calls h answers h'
      × (view c' ≡ view_of h')
unfolding run DocumentedCalls clear_session session_clear
run-Steps [] g c h documented shown = ([], g, c, h, refl, ends, shown)
run-Steps (sends curl option ∷ calls) g c h (documented, rest) shown =
    let (o, came, g₁, c₁, first, shown) = send-view curl option g c h documented shown in
    let (answers, g', c', h', then_run, steps, shown) =
      run-Steps calls g₁ c₁ (outcome_is o h) rest shown in
    (
      ok_of o ∷ answers,
      g',
      c',
      h',
      after curl option calls g c first then_run,
      sent o came steps,
      shown,
    )
run-Steps (sets s ∷ calls) g c h documented shown =
    let (answers, g', c', h', ran, steps, shown) =
      run-Steps calls g (set s c) h documented (view-set s c ∙ shown) in
    (answers, g', c', h', ran, was_set steps, shown)
run-Steps (clears ∷ calls) g c h documented shown =
    let (answers, g', c', h', ran, steps, shown) =
      run-Steps calls g (clear c) fresh documented (with_curl c c.curl) in
    (answers, g', c', h', ran, was_cleared steps, shown)
run-Steps (clears_session ∷ calls) g c h documented shown =
    let (answers, g', c', h', ran, steps, shown) =
      run-Steps calls g (clear_session c) (record h { outcomes = [] }) documented
        (view_ext refl refl refl refl (ap (λ v. v.error_code) shown) (ap (λ v. v.curl) shown)) in
    (answers, g', c', h', ran, session_was_cleared steps, shown)
