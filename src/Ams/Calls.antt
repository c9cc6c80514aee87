-- ===== src/Ams/Calls.antt =====
-- pkg/ams/v1: what a call has sent when it succeeds, and when it fails.
use ams_push_server.Base.{
  ℕ, ◌≤◌, ◌<◌, List, empty, String, ◌≡◌, refl, ◌⊎◌, inl, inr, true, [], ◌∷◌, none, some, Result, ok,
  err, arith, Option-cases, sym, ◌∙◌, ap,
}
use mathlib.Core.Path.{subst}
use ams_push_server.Environment.{Environment, History, HttpRequest, HttpResponse}
use ams_push_server.Ams.Types.{ReceivedMessagesList}
use ams_push_server.Ams.{
  AmsRequest, MessageService, execute, pull, ack, set_headers, check_status, marshal_request_body,
  decoded, error_of, pull_request, ack_request,
}

-- The history grew by at most one request, which has this method and this url.
pub record IsCallTo (method url : String) (h : History) (r : HttpRequest) : Type 0 where
  pub method_is : r.method ≡ method
  pub url_is : r.url ≡ url

abbrev pub Tried : String → String → History → History → Type 0
Tried method url h h' = (h' ≡ h) ⊎ ((r : HttpRequest) × (h' ≡ r ∷ h) × IsCallTo method url h r)

-- The request went out and was answered by a response with a 2xx status.
pub record IsAnswered (env : Environment) (a : AmsRequest) (h : History) (resp : HttpResponse)
    (h' : History) : Type 0 where
  pub request : HttpRequest
  pub grows : h' ≡ request ∷ h
  pub call : IsCallTo a.method a.url h request
  pub body_is : request.body ≡ marshal_request_body env a.body
  pub answered : env.round_trip h request ≡ ok resp
  pub from_200 : 200 ≤ resp.status_code
  pub below_300 : resp.status_code < 300

module _ (env : Environment) where
  set_headers_keep :
      (hs : List (String × String)) (r : HttpRequest)
      → ((set_headers env hs r).method ≡ r.method)
        × ((set_headers env hs r).url ≡ r.url)
        × ((set_headers env hs r).body ≡ r.body)
  unfolding set_headers
  set_headers_keep [] r = (refl, refl, refl)
  set_headers_keep ((k, v) ∷ rest) r = set_headers_keep rest _

  -- The request that is sent, if it can be built.
  pub built : AmsRequest → HttpRequest
  built a = set_headers env a.headers (record {
    method = a.method;
    url = a.url;
    body = marshal_request_body env a.body;
    header = empty;
  })

  pub built-IsCallTo : (a : AmsRequest) (h : History) → IsCallTo a.method a.url h (built a)
  unfolding built
  built-IsCallTo a h =
      let k = set_headers_keep a.headers _ in record { method_is = k.0; url_is = k.1 }

  execute-not_built :
      (a : AmsRequest) (h : History) {t : String}
      → env.new_request_error a.method a.url ≡ some t
      → execute env a h ≡ (err t, h)
  unfolding execute
  execute-not_built a h e = ground arith

  pub execute-built :
      (a : AmsRequest) (h : History)
      → env.new_request_error a.method a.url ≡ none
      → execute env a h ≡ (check_status env (env.round_trip h (built a)), built a ∷ h)
  unfolding execute built
  execute-built a h e = ground arith

  -- Every call of `execute` sends at most its own request.
  pub execute-Tried : (a : AmsRequest) (h : History) → Tried a.method a.url h (execute env a h).1
  execute-Tried a h = elim (Option-cases (env.new_request_error a.method a.url)) [
    | inl e ↦ rw (execute-built a h e) (inr (built a, refl, built-IsCallTo a h))
    | inr (t, e) ↦ rw (execute-not_built a h e) (inl refl)
  ]

  IsAnswered-ok :
      (a : AmsRequest) (h : History) (reply : Result String HttpResponse) (resp : HttpResponse)
      → env.round_trip h (built a) ≡ reply
      → check_status env reply ≡ ok resp
      → IsAnswered env a h resp (built a ∷ h)
  unfolding check_status
  IsAnswered-ok a h (err e) resp t c = cc
  IsAnswered-ok a h (ok r) resp t c = record {
    request = built a;
    grows = refl;
    call = built-IsCallTo a h;
    body_is = unfold built in (set_headers_keep a.headers _).2;
    answered = ground arith;
    from_200 = ground arith;
    below_300 = ground arith;
  }

  -- `execute` succeeds only with a 2xx answer to the request that it has sent.
  pub execute-IsAnswered :
      (a : AmsRequest) (h h' : History) (resp : HttpResponse)
      → execute env a h ≡ (ok resp, h')
      → IsAnswered env a h resp h'
  execute-IsAnswered a h h' resp e = elim (Option-cases (env.new_request_error a.method a.url)) [
    | inl n ↦
        let c : (check_status env (env.round_trip h (built a)), built a ∷ h) ≡ (ok resp, h') =
          sym (execute-built a h n) ∙ e in
        subst (IsAnswered env a h resp) (ap (λ p. p.1) c)
          (IsAnswered-ok a h _ resp refl (ap (λ p. p.0) c))
    | inr (t, n) ↦ ground (arith, execute-not_built a h n)
  ]

  decoded-ok {ℓ} :
      {A : Type ℓ} (decode : HttpResponse → Result String A)
      (x : Result String HttpResponse × History) {a : A} {h' : History}
      → decoded env decode x ≡ (ok a, h')
      → (resp : HttpResponse) × (x ≡ (ok resp, h')) × (decode resp ≡ ok a)
  unfolding decoded
  decoded-ok decode (err e, h) p = cc
  decoded-ok decode (ok resp, h) p = (resp, ap (λ q. (ok resp, q.1)) p, ap (λ q. q.0) p)

  decoded-history {ℓ} :
      {A : Type ℓ} (decode : HttpResponse → Result String A)
      (x : Result String HttpResponse × History)
      → (decoded env decode x).1 ≡ x.1
  unfolding decoded
  decoded-history decode (err e, h) = refl
  decoded-history decode (ok resp, h) = refl

  error_of-none :
      (x : Result String HttpResponse × History) {h' : History}
      → error_of env x ≡ (none, h')
      → (resp : HttpResponse) × (x ≡ (ok resp, h'))
  unfolding error_of
  error_of-none (err e, h) p = cc
  error_of-none (ok resp, h) p = (resp, ap (λ q. (ok resp, q.1)) p)

  error_of-history : (x : Result String HttpResponse × History) → (error_of env x).1 ≡ x.1
  unfolding error_of
  error_of-history (err e, h) = refl
  error_of-history (ok resp, h) = refl

module _ (env : Environment) (s : MessageService) (subscription : String) where
  -- What a pull has done that returned this list.
  pub record IsPulled (n : ℕ) (h : History) (rml : ReceivedMessagesList) (h' : History)
      : Type 0 where
    pub response : HttpResponse
    pub answer : IsAnswered env (pull_request env s subscription n true) h response h'
    pub decodes : env.decode_messages response.body ≡ ok rml

  -- What an acknowledgement has done that returned no error.
  pub record IsAcked (ack_id : String) (h h' : History) : Type 0 where
    pub response : HttpResponse
    pub answer : IsAnswered env (ack_request env s subscription ack_id) h response h'

  -- A pull returns a list only if its request was answered with a 2xx status and the body decodes to
  -- that list.
  pub pull-IsPulled :
      (n : ℕ) (h h' : History) (rml : ReceivedMessagesList)
      → pull env s subscription n true h ≡ (ok rml, h')
      → IsPulled n h rml h'
  unfolding pull
  pull-IsPulled n h h' rml e =
      let (resp, x, d) = decoded-ok env _ _ e in
      record { response = resp; answer = execute-IsAnswered env _ h h' resp x; decodes = d }

  -- An acknowledgement returns no error only if its request was answered with a 2xx status.
  pub ack-IsAcked :
      (ack_id : String) (h h' : History)
      → ack env s subscription ack_id h ≡ (none, h')
      → IsAcked ack_id h h'
  unfolding ack
  ack-IsAcked ack_id h h' e =
      let (resp, x) = error_of-none env _ e in
      record { response = resp; answer = execute-IsAnswered env _ h h' resp x }

  pub pull-Tried :
      (n : ℕ) (h : History)
      → Tried "POST"
          (pull_request env s subscription n true).url
          h
          (pull env s subscription n true h).1
  unfolding pull pull_request
  pull-Tried n h =
      rw (decoded-history env _ (execute env _ h))
        (execute-Tried env (pull_request env s subscription n true) h)

  pub ack-Tried :
      (ack_id : String) (h : History)
      → Tried "POST"
          (ack_request env s subscription ack_id).url
          h
          (ack env s subscription ack_id h).1
  unfolding ack ack_request
  ack-Tried ack_id h =
      rw (error_of-history env (execute env _ h))
        (execute-Tried env (ack_request env s subscription ack_id) h)
