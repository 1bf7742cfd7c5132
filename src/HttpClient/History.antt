-- ===== src/HttpClient/History.antt =====
-- The promise of the counters and of the last error: they are those of a list of outcomes.
use m_toolkit.Base.{
  ℕ, suc, ◌%◌, ◌≡◌, Bool, true, false, Option, none, List, [], ◌∷◌, ◌==◌, if◌then◌else◌, length,
  u32_mod,
}
use m_toolkit.HttpClient.State.{HttpClient, HttpOptionType, curle_ok, curle_failed_init, CurlOption}
use m_toolkit.HttpClient.Options.{Shared}
use m_toolkit.HttpClient.Transfer.{Curl}
use m_toolkit.HttpClient.Launch.{options_sent}
use m_toolkit.HttpClient.Calls.{Setting, Call, sends, sets, clears, clears_session}

-- What came of a request: no handle, or the code of curl.
pub data Outcome : Type 0 where
  no_handle : Outcome
  performed : (code : ℕ) → Outcome

-- What curl makes of a request of one kind: it gives no handle, or it answers the options that some client
-- has for this kind with a code.
pub data Came (curl : Curl) (option : HttpOptionType) : Outcome → Type 0 where
  refused : curl.easy_init ≡ false → Came curl option no_handle
  answered :
      (g : Shared) (c : HttpClient)
      → curl.easy_init ≡ true
      → Came curl option (performed (curl.easy_perform (options_sent curl option g c)).result)

abbrev pub ok_of : Outcome → Bool
ok_of no_handle = false
ok_of (performed code) = code == curle_ok

abbrev pub code_of : Outcome → ℕ
code_of no_handle = curle_failed_init
code_of (performed code) = code

-- The outcomes since the counters were cleared, newest first, and the last error.
pub record History : Type 0 where
  pub outcomes : List Outcome
  pub last : ℕ

abbrev pub fresh : History
fresh = record { outcomes = []; last = curle_ok }

abbrev pub no_handles : List Outcome → ℕ
no_handles [] = 0
no_handles (no_handle ∷ l) = suc (no_handles l)
no_handles (performed code ∷ l) = no_handles l

abbrev pub successes : List Outcome → ℕ
successes [] = 0
successes (no_handle ∷ l) = successes l
successes (performed code ∷ l) = if code == curle_ok then suc (successes l) else successes l

abbrev pub failures : List Outcome → ℕ
failures [] = 0
failures (no_handle ∷ l) = failures l
failures (performed code ∷ l) = if code == curle_ok then failures l else suc (failures l)

-- What the calls may do to the history, with the result of each request, whose outcome is what curl
-- makes of it.
pub data Steps : List Call → History → List Bool → History → Type 0 where
  ends : {h : History} → Steps [] h [] h
  sent :
      {curl : Curl} {option : HttpOptionType} {calls : List Call} {h h' : History}
      {answers : List Bool}
      → (o : Outcome) → Came curl option o
      → Steps calls (record { outcomes = o ∷ h.outcomes; last = code_of o }) answers h'
      → Steps (sends curl option ∷ calls) h (ok_of o ∷ answers) h'
  was_set :
      {s : Setting} {calls : List Call} {h h' : History} {answers : List Bool}
      → Steps calls h answers h'
      → Steps (sets s ∷ calls) h answers h'
  was_cleared :
      {calls : List Call} {h h' : History} {answers : List Bool}
      → Steps calls fresh answers h'
      → Steps (clears ∷ calls) h answers h'
  session_was_cleared :
      {calls : List Call} {h h' : History} {answers : List Bool}
      → Steps calls (record h { outcomes = [] }) answers h'
      → Steps (clears_session ∷ calls) h answers h'

-- What a caller sees between two calls, and what it should see.
pub record View : Type 0 where
  pub count : ℕ
  pub error_count : ℕ
  pub success_count : ℕ
  pub failed_count : ℕ
  pub error_code : ℕ
  pub curl : Option (List CurlOption)

abbrev pub view : HttpClient → View
view c = record {
  count = c.session.count;
  error_count = c.session.error_count;
  success_count = c.session.success_count;
  failed_count = c.session.failed_count;
  error_code = c.error_code;
  curl = c.curl;
}

abbrev pub view_of : History → View
view_of h = record {
  count = length h.outcomes % u32_mod;
  error_count = no_handles h.outcomes % u32_mod;
  success_count = successes h.outcomes % u32_mod;
  failed_count = failures h.outcomes % u32_mod;
  error_code = h.last;
  curl = none;
}
