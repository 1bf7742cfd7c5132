-- ===== src/HttpClient/Events.antt =====
-- What the events of a transfer alone tell.
use m_toolkit.Base.{
  ℕ, ◌%◌, ◌≡◌, Bool, Option, none, some, List, [], ◌∷◌, ◌++◌, if◌then◌else◌, take, u32_mod,
}
use m_toolkit.HttpClient.State.{HttpClient}
use m_toolkit.HttpClient.Transfer.{Info, Event, writes, heads, debugs, byte_count, is_header_out}

-- The events alone tell what comes: the bytes of the body, those of the header, the last request
-- header, and the answers of curl at the first write.
unfoldable pub written : List Event → List ℕ
written [] = []
written (writes info buffer size nmemb ∷ events) =
    take (byte_count size nmemb) buffer ++ written events
written (_ ∷ events) = written events

unfoldable pub headed : List Event → List ℕ
headed [] = []
headed (heads buffer size nmemb ∷ events) = take (byte_count size nmemb) buffer ++ headed events
headed (_ ∷ events) = headed events

unfoldable pub asked : List Event → List ℕ → List ℕ
asked [] before = before
asked (debugs kind buffer size ∷ events) before =
    asked events (if is_header_out kind then take size buffer else before)
asked (_ ∷ events) before = asked events before

unfoldable pub first_info : List Event → Option Info
first_info [] = none
first_info (writes info buffer size nmemb ∷ events) = some info
first_info (_ ∷ events) = first_info events

unfoldable pub code_after : (first : Bool) → List Event → ℕ → ℕ
code_after first events code =
    if first
    then elim (first_info events) [
      | none ↦ code
      | some info ↦ elim info.response_code [ none ↦ 0 | some n ↦ n % u32_mod ]
    ]
    else code

unfoldable pub host_after : (first : Bool) → List Event → List ℕ → List ℕ
host_after first events host =
    if first
    then elim (first_info events) [
      | none ↦ host
      | some info ↦ elim info.primary_ip [ none ↦ host | some ip ↦ ip ]
    ]
    else host

-- curl documents that CURLINFO_PRIMARY_IP gives a string.
unfoldable pub Addressed : List Event → Type 0
Addressed [] = Unit
Addressed (writes info buffer size nmemb ∷ events) =
    ((ip : List ℕ) × (info.primary_ip ≡ some ip)) × Addressed events
Addressed (_ ∷ events) = Addressed events

pub record Received (events : List Event) (c c' : HttpClient) : Type 0 where
  pub session_kept : c'.session ≡ c.session
  pub proxy_kept : c'.proxy ≡ c.proxy
  pub curl_kept : c'.curl ≡ c.curl
  pub content_grown : c'.response.content ≡ c.response.content ++ written events
  pub header_grown : c'.response.header ≡ c.response.header ++ headed events
  pub ask_header_set : c'.response.ask_header ≡ asked events c.response.ask_header
  pub code_set : c'.response.code ≡ code_after c.is_first_write events c.response.code
  pub host_set : c'.response.host ≡ host_after c.is_first_write events c.response.host
  pub url_kept : c'.response.url ≡ c.response.url
