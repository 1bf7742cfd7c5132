-- ===== src/HttpClient/Received.antt =====
-- What the callbacks of a transfer leave in the client, and what `Launch` gives.
use m_toolkit.Base.{
  ℕ, ◌≡◌, refl, sym, ap, ◌∙◌, Bool, true, false, Option, none, some, List, [], ◌∷◌, if◌then◌else◌,
  take,
}
use mathlib.Core.List.{append_assoc, append-nil}
use mathlib.Core.Path.{subst}
use m_toolkit.HttpClient.State.{HttpClient}
use m_toolkit.HttpClient.Transfer.{
  Info, InfoType, Event, writes, heads, debugs, byte_count, is_header_out, parse_response_code,
  parse_response_length, first_write, write_function, header_function, ask_header_function,
  call_back, call_backs,
}
use m_toolkit.HttpClient.Events.{
  written, headed, asked, first_info, code_after, host_after, Addressed, Received,
}

-- One callback gives a client, from which the others are as after it.
abbrev Leads : Event → HttpClient → Type 0
Leads e c =
    (c₁ : HttpClient) × (call_back e c ≡ some c₁)
    × ((events : List Event) (c' : HttpClient) → Received events c₁ c' → Received (e ∷ events) c c')

-- One call of `WriteFunction`, by the flag and the address.
abbrev at_flag : Bool → HttpClient → HttpClient
at_flag flag c = record c { is_first_write = flag }

abbrev at_ip : List ℕ → Info → Info
at_ip ip info = record info { primary_ip = some ip }

write-Leads :
    (flag : Bool) (info : Info) (ip buffer : List ℕ) (size nmemb : ℕ) (c : HttpClient)
    → Leads (writes (at_ip ip info) buffer size nmemb) (at_flag flag c)
unfolding call_back written headed asked code_after host_after first_info write_function first_write
    parse_response_code parse_response_length
write-Leads true info ip buffer size nmemb c = (
  _,
  refl,
  λ events c' r. record {
    session_kept = r.session_kept;
    proxy_kept = r.proxy_kept;
    curl_kept = r.curl_kept;
    content_grown =
        r.content_grown
        ∙ append_assoc c.response.content (take (byte_count size nmemb) buffer) (written events);
    header_grown = r.header_grown;
    ask_header_set = r.ask_header_set;
    code_set = r.code_set;
    host_set = r.host_set;
    url_kept = r.url_kept;
  },
)
write-Leads false info ip buffer size nmemb c = (
  _,
  refl,
  λ events c' r. record {
    session_kept = r.session_kept;
    proxy_kept = r.proxy_kept;
    curl_kept = r.curl_kept;
    content_grown =
        r.content_grown
        ∙ append_assoc c.response.content (take (byte_count size nmemb) buffer) (written events);
    header_grown = r.header_grown;
    ask_header_set = r.ask_header_set;
    code_set = r.code_set;
    host_set = r.host_set;
    url_kept = r.url_kept;
  },
)

header-Leads :
    (buffer : List ℕ) (size nmemb : ℕ) (c : HttpClient) → Leads (heads buffer size nmemb) c
unfolding call_back written headed asked code_after host_after first_info header_function
header-Leads buffer size nmemb c = (
  _,
  refl,
  λ events c' r. record {
    session_kept = r.session_kept;
    proxy_kept = r.proxy_kept;
    curl_kept = r.curl_kept;
    content_grown = r.content_grown;
    header_grown =
        r.header_grown
        ∙ append_assoc c.response.header (take (byte_count size nmemb) buffer) (headed events);
    ask_header_set = r.ask_header_set;
    code_set = r.code_set;
    host_set = r.host_set;
    url_kept = r.url_kept;
  },
)

-- What `AskHeaderFunction` leaves.
abbrev asking : Bool → List ℕ → HttpClient → HttpClient
asking out line c = record c {
  response = record c.response { ask_header = if out then line else c.response.ask_header };
}

ask_header_function_lem :
    (out : Bool) (line : List ℕ) (size : ℕ) (c : HttpClient)
    → ◌≡◌ {A = ℕ × Option HttpClient}
        (if out
          then (size, some (record c { response = record c.response { ask_header = line } }))
          else (size, some c))
        (size, some (asking out line c))
ask_header_function_lem true line size c = refl
ask_header_function_lem false line size c = refl

debug-Leads :
    (kind : InfoType) (buffer : List ℕ) (size : ℕ) (c : HttpClient)
    → Leads (debugs kind buffer size) c
unfolding call_back written headed asked code_after host_after first_info ask_header_function
debug-Leads kind buffer size c = (
  asking (is_header_out kind) (take size buffer) c,
  ap (λ p. p.1) (ask_header_function_lem (is_header_out kind) (take size buffer) size c),
  λ events c' r. record {
    session_kept = r.session_kept;
    proxy_kept = r.proxy_kept;
    curl_kept = r.curl_kept;
    content_grown = r.content_grown;
    header_grown = r.header_grown;
    ask_header_set = r.ask_header_set;
    code_set = r.code_set;
    host_set = r.host_set;
    url_kept = r.url_kept;
  },
)

after_none {ℓ} : {A : Type ℓ} (first : Bool) (x : A) → x ≡ (if first then x else x)
after_none true x = refl
after_none false x = refl

follow :
    (e : Event) (events : List Event) (c : HttpClient)
    → Leads e c
    → ((c₁ : HttpClient)
        → (c' : HttpClient) × (call_backs events c₁ ≡ some c') × Received events c₁ c')
    → (c' : HttpClient) × (call_backs (e ∷ events) c ≡ some c') × Received (e ∷ events) c c'
unfolding call_backs
follow e events c (c₁, step, more) go =
    let (c', steps, r) = go c₁ in
    (
      c',
      ap (λ o. elim o [ none ↦ none | some c ↦ call_backs events c ]) step ∙ steps,
      more events c' r,
    )

-- Whatever curl calls back, no callback fails, and the client holds what came.
pub call_backs-Received :
    (events : List Event) (c : HttpClient)
    → Addressed events
    → (c' : HttpClient) × (call_backs events c ≡ some c') × Received events c c'
unfolding call_backs written headed asked code_after host_after first_info Addressed
call_backs-Received [] c addressed = (
  c,
  refl,
  record {
    session_kept = refl;
    proxy_kept = refl;
    curl_kept = refl;
    content_grown = sym (append-nil _);
    header_grown = sym (append-nil _);
    ask_header_set = refl;
    code_set = after_none c.is_first_write c.response.code;
    host_set = after_none c.is_first_write c.response.host;
    url_kept = refl;
  },
)
call_backs-Received (writes info buffer size nmemb ∷ events) c ((ip, given), addressed) =
    follow (writes info buffer size nmemb) events c
      (subst (λ o. Leads (writes (record info { primary_ip = o }) buffer size nmemb) c) (sym given)
        (write-Leads c.is_first_write info ip buffer size nmemb c))
      (λ c. call_backs-Received events c addressed)
call_backs-Received (heads buffer size nmemb ∷ events) c addressed =
    follow (heads buffer size nmemb) events c (header-Leads buffer size nmemb c)
      (λ c. call_backs-Received events c addressed)
call_backs-Received (debugs kind buffer size ∷ events) c addressed =
    follow (debugs kind buffer size) events c (debug-Leads kind buffer size c)
      (λ c. call_backs-Received events c addressed)
