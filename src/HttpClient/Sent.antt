-- ===== src/HttpClient/Sent.antt =====
-- What the options of a request amount to: the value that each is last set to.
use m_toolkit.Base.{some, ◌≡◌, ◌++◌, ◌==◌}
use m_toolkit.HttpClient.State.{HttpClient, HttpOptionType}
use m_toolkit.HttpClient.Options.{
  Shared, proxy_options, session_options, header_options, timeout_options, address_options,
  certificate_options, method_options, callback_options, transfer_options, static_options,
  share_handle, share_options,
}
use m_toolkit.HttpClient.Transfer.{Curl}
use m_toolkit.HttpClient.Launch.{options_sent}
use m_toolkit.HttpClient.SentParts.{
  both, amounts-proxy_options, amounts-header_options, amounts-timeout_options,
  amounts-address_options, amounts-certificate_options, amounts-method_options,
  amounts-transfer_options,
}
use m_toolkit.HttpClient.Asked.{Asked, nothing, amounts, unless_empty, wanted}

-- The options of a request amount to exactly what is wanted of it, whatever the client was set to: no
-- limit is left open, peer and host are verified exactly if there is a file of authorities, a GET and
-- another request have no body, a PUT with parameters becomes a POST of them, the three callbacks and
-- their data are set, and the user name and the password are always the empty ones.
pub sent-amounts :
    (curl : Curl) (option : HttpOptionType) (g : Shared) (c : HttpClient)
    → amounts nothing (options_sent curl option g c)
      ≡ wanted (share_handle curl.share_init g).handle option c.proxy c.session
unfolding amounts session_options header_options timeout_options address_options share_options
sent-amounts curl option g c =
    let s = c.session in
    let handle = (share_handle curl.share_init g).handle in
    let w = wanted handle option c.proxy s in
    let a₀ : Asked = record nothing { shared_with = some handle; dns_limit = some 300 } in
    let a₁ : Asked = record a₀ {
      proxy = w.proxy;
      proxy_kind = w.proxy_kind;
      proxy_any = w.proxy_any;
      proxy_login = w.proxy_login;
    } in
    let a₂ : Asked = record a₁ { headers = s.headers } in
    let a₃ : Asked = record a₂ {
      connect_limit = w.connect_limit;
      receive_limit = w.receive_limit;
    } in
    let a₄ : Asked = record a₃ {
      url = w.url;
      user = unless_empty s.login;
      pass = unless_empty s.login;
    } in
    let a₅ : Asked = record a₄ {
      authority = w.authority;
      verify_peer = w.verify_peer;
      verify_host = w.verify_host;
    } in
    let a₆ : Asked = record a₅ { method = w.method; custom = w.custom; body = w.body } in
    let end = callback_options ++ transfer_options s ++ static_options in
    let from_method = method_options option s ++ end in
    let from_certificate = certificate_options s ++ from_method in
    let from_address = address_options s ++ from_certificate in
    let t₆ : amounts a₆ end ≡ w = amounts-transfer_options s.skip s a₆ in
    let t₅ : amounts a₅ from_method ≡ w =
      both a₅ (method_options option s) end (amounts-method_options handle option c.proxy s a₅)
        t₆ in
    let t₄ : amounts a₄ from_certificate ≡ w =
      both a₄ (certificate_options s) from_method (amounts-certificate_options s.ca_file s a₄) t₅ in
    let t₃ : amounts a₃ from_address ≡ w =
      both a₃ (address_options s) from_certificate (amounts-address_options s.url s.login a₃) t₄ in
    let t₂ : amounts a₂ (timeout_options s ++ from_address) ≡ w =
      both a₂ (timeout_options s) from_address
        (amounts-timeout_options (s.timeout == 0) (s.receive_timeout == 0) s.timeout
          s.receive_timeout a₂)
        t₃ in
    let t₁ : amounts a₁ (session_options option s) ≡ w =
      both a₁ (header_options s) (timeout_options s ++ from_address)
        (amounts-header_options s.headers a₁) t₂ in
    both nothing (share_options (share_handle curl.share_init g) ++ proxy_options c.proxy)
      (session_options option s) (amounts-proxy_options c.proxy.enable c.proxy a₀) t₁
