-- ===== src/HttpClient/SentParts.antt =====
-- What each part of the options of a request amounts to.
use m_toolkit.Base.{
  ℕ, ◌≡◌, refl, ap, ◌∙◌, Bool, true, false, not, Option, none, some, List, [], ◌∷◌, ◌++◌,
  if◌then◌else◌,
}
use m_toolkit.HttpClient.State.{
  HttpProxy, HttpSession, HttpOptionType, get, put, post, other, CurlOption, proxy_userpwd,
  connect_timeout, receive_timeout, request_url, userpwd, http_header, empty,
}
use m_toolkit.HttpClient.Options.{
  proxy_options, certificate_options, params_options, method_options, callback_options,
  transfer_options, static_options,
}
use m_toolkit.HttpClient.Asked.{
  Asked, Method, gets, puts, posts, amounts, amounts-append, unless_empty, wanted,
}

pub both :
    (a : Asked) {b c : Asked} (xs ys : List CurlOption)
    → amounts a xs ≡ b
    → amounts b ys ≡ c
    → amounts a (xs ++ ys) ≡ c
both a xs ys first second = amounts-append a xs ys ∙ ap (λ a. amounts a ys) first ∙ second

-- Part by part
amounts-proxy_login :
    (l : List ℕ) (a : Asked)
    → amounts (record a { proxy_login = none }) (if not (empty l) then proxy_userpwd l ∷ [] else [])
      ≡ record a { proxy_login = unless_empty l }
unfolding amounts
amounts-proxy_login [] a = refl
amounts-proxy_login (x ∷ l) a = refl

pub amounts-proxy_options :
    (enable : Bool) (p : HttpProxy) (a : Asked)
    → amounts
        (record a { proxy = none; proxy_kind = none; proxy_any = false; proxy_login = none })
        (proxy_options (record p { enable = enable }))
      ≡ record a {
        proxy = if enable then some p.host else none;
        proxy_kind = if enable then some p.kind else none;
        proxy_any = enable;
        proxy_login = if enable then unless_empty p.login else none;
      }
unfolding amounts proxy_options
amounts-proxy_options false p a = refl
amounts-proxy_options true p a =
    amounts-proxy_login p.login
      (record a { proxy = some p.host; proxy_kind = some p.kind; proxy_any = true })

pub amounts-header_options :
    (headers : Option (List (List ℕ))) (a : Asked)
    → amounts
        (record a { headers = none })
        (elim headers [ none ↦ [] | some l ↦ http_header l ∷ [] ])
      ≡ record a { headers = headers }
unfolding amounts
amounts-header_options none a = refl
amounts-header_options (some l) a = refl

pub amounts-timeout_options :
    (b b' : Bool) (n n' : ℕ) (a : Asked)
    → amounts a (
        (if b then connect_timeout 3 else connect_timeout n)
        ∷ (if b' then receive_timeout 3 else receive_timeout n')
        ∷ [])
      ≡ record a {
        connect_limit = some (if b then 3 else n);
        receive_limit = some (if b' then 3 else n');
      }
unfolding amounts
amounts-timeout_options true true n n' a = refl
amounts-timeout_options true false n n' a = refl
amounts-timeout_options false true n n' a = refl
amounts-timeout_options false false n n' a = refl

pub amounts-address_options :
    (url login : List ℕ) (a : Asked)
    → amounts
        (record a { url = none; user = none; pass = none })
        ((if not (empty url) then request_url url ∷ [] else [])
          ++ (if not (empty login) then userpwd login ∷ [] else []))
      ≡ record a { url = unless_empty url; user = unless_empty login; pass = unless_empty login }
unfolding amounts
amounts-address_options [] [] a = refl
amounts-address_options [] (y ∷ login) a = refl
amounts-address_options (x ∷ url) [] a = refl
amounts-address_options (x ∷ url) (y ∷ login) a = refl

pub amounts-certificate_options :
    (ca_file : List ℕ) (s : HttpSession) (a : Asked)
    → amounts (record a { authority = none }) (certificate_options (record s { ca_file = ca_file }))
      ≡ record a {
        authority = unless_empty ca_file;
        verify_peer = some (if empty ca_file then 0 else 1);
        verify_host = some (if empty ca_file then 0 else 2);
      }
unfolding amounts certificate_options
amounts-certificate_options [] s a = refl
amounts-certificate_options (x ∷ l) s a = refl

amounts-params_options :
    (params : List ℕ) (m : Method) (s : HttpSession) (a : Asked)
    → amounts (record a { method = m; body = none }) (params_options (record s { params = params }))
      ≡ record a { method = if empty params then m else posts; body = unless_empty params }
unfolding amounts params_options
amounts-params_options [] m s a = refl
amounts-params_options (x ∷ l) m s a = refl

posts_always : (b : Bool) → (if b then posts else posts) ≡ posts
posts_always true = refl
posts_always false = refl

pub amounts-method_options :
    (handle : Option ℕ) (option : HttpOptionType) (p : HttpProxy) (s : HttpSession) (a : Asked)
    → let w = wanted handle option p s in
      amounts (record a { method = gets; custom = none; body = none }) (method_options option s)
      ≡ record a { method = w.method; custom = w.custom; body = w.body }
unfolding amounts method_options
amounts-method_options handle get p s a = refl
amounts-method_options handle put p s a =
    amounts-params_options s.params puts s (record a { custom = none })
amounts-method_options handle post p s a =
    amounts-params_options s.params posts s (record a { custom = none })
    ∙ ap (λ m. record a { method = m; custom = none; body = unless_empty s.params })
        (posts_always (empty s.params))
amounts-method_options handle other p s a = refl

pub amounts-transfer_options :
    (skip : Bool) (s : HttpSession) (a : Asked)
    → amounts
        (record a { follows = false; cookie = none })
        (callback_options ++ transfer_options (record s { skip = skip }) ++ static_options)
      ≡ record a {
        follows = skip;
        user = some [];
        pass = some [];
        level = some 1;
        debugs = true;
        debugs_to = true;
        writes_to = true;
        writes = true;
        heads_to = true;
        heads = true;
        no_signal = true;
        redirects = some 3;
        closes = true;
        cookie = none;
        basic = true;
      }
unfolding amounts callback_options transfer_options static_options
amounts-transfer_options true s a = refl
amounts-transfer_options false s a = refl
