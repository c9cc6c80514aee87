-- ===== src/Senders/Posting.antt =====
-- senders/httpsender.go and mattermostsender.go: one request that posts messages.
use ams_push_server.Base.{
  ℕ, String, ◌==◌, ◌≡◌, inl, inr, refl, sym, ap, ◌∙◌, Bool, true, ◌||◌, ◌∷◌, Option, none, some,
  Result, ok, err, arith, eqb, Bool-cases, Option-cases, empty,
}
use ams_push_server.Environment.{Environment, History, HttpRequest, HttpResponse}
use ams_push_server.Ams.Calls.{Tried, IsCallTo}
use ams_push_server.Senders.{
  HttpSender, is_delivered, http_outcome, mattermost_outcome, post, finish_http, finish_mattermost,
}

-- The status codes of a delivery over http: 200, 201, 204 and 102.
abbrev pub is_http_success : ℕ → Bool
is_http_success code = eqb code 200 || (eqb code 201 || (eqb code 204 || eqb code 102))

-- A request with this url and this body went out, and the answer's status code passed the test.
pub record IsPosted (env : Environment) (url body : String) (accepts : ℕ → Bool) (h h' : History)
    : Type 0 where
  pub request : HttpRequest
  pub response : HttpResponse
  pub grows : h' ≡ request ∷ h
  pub call : IsCallTo "POST" url h request
  pub body_is : request.body ≡ some body
  pub answered : env.round_trip h request ≡ ok response
  pub accepted : accepts response.status_code ≡ true

module _ (env : Environment) where
  -- A step between building a request and sending it that sets headers only.
  pub record SetsHeaders (finish : HttpRequest → HttpRequest) : Type 0 where
    pub method_kept : (r : HttpRequest) → (finish r).method ≡ r.method
    pub url_kept : (r : HttpRequest) → (finish r).url ≡ r.url
    pub body_kept : (r : HttpRequest) → (finish r).body ≡ r.body

  -- An outcome without an error is that of an answer whose status code passes the test.
  pub record Accepts (accepts : ℕ → Bool) (outcome : Result String HttpResponse → Option String)
      : Type 0 where
    pub only :
        (reply : Result String HttpResponse)
        → outcome reply ≡ none
        → (resp : HttpResponse) × (reply ≡ ok resp) × (accepts resp.status_code ≡ true)

  module _ (finish : HttpRequest → HttpRequest)
      (outcome : Result String HttpResponse → Option String) (url : String) where
    abbrev pub blank : String → HttpRequest
    blank body = record { method = "POST"; url = url; body = some body; header = empty }

    pub post-not_built :
        (body : String) (h : History) {t : String}
        → env.new_request_error "POST" url ≡ some t
        → post env finish outcome url (ok body) h ≡ (some t, h)
    unfolding post
    post-not_built body h e = ground arith

    pub post-built :
        (body : String) (h : History)
        → env.new_request_error "POST" url ≡ none
        → post env finish outcome url (ok body) h
          ≡ (outcome (env.round_trip h (finish (blank body))), finish (blank body) ∷ h)
    unfolding post
    post-built body h e = ground arith

    pub post-Tried :
        SetsHeaders finish
        → (body : Result String String) (h : History)
        → Tried "POST" url h (post env finish outcome url body h).1
    post-Tried f (err e) h = unfold post in inl refl
    post-Tried f (ok body) h = elim (Option-cases (env.new_request_error "POST" url)) [
      | inl e ↦ rw (post-built body h e) (
          inr (
            finish (blank body),
            refl,
            record { method_is = f.method_kept (blank body); url_is = f.url_kept (blank body) },
          ))
      | inr (t, e) ↦ rw (post-not_built body h e) (inl refl)
    ]

    pub post-IsPosted :
        {accepts : ℕ → Bool}
        → SetsHeaders finish
        → Accepts accepts outcome
        → (body : Result String String) (h h' : History)
        → post env finish outcome url body h ≡ (none, h')
        → (b : String) × (body ≡ ok b) × IsPosted env url b accepts h h'
    post-IsPosted f c (err e) h h' p = unfold post in cc
    post-IsPosted f c (ok body) h h' p = elim (Option-cases (env.new_request_error "POST" url)) [
      | inl e ↦
          let q : (outcome (env.round_trip h (finish (blank body))), finish (blank body) ∷ h)
              ≡ (none, h') =
            sym (post-built body h e) ∙ p in
          let (resp, a, t) = c.only _ (ap (λ x. x.0) q) in
          (
            body,
            refl,
            record {
              request = finish (blank body);
              response = resp;
              grows = sym (ap (λ x. x.1) q);
              call = record {
                method_is = f.method_kept (blank body);
                url_is = f.url_kept (blank body);
              };
              body_is = f.body_kept (blank body);
              answered = a;
              accepted = t;
            },
          )
      | inr (t, e) ↦ ground (arith, post-not_built body h e)
    ]

  pub authorize_keeps :
      (s : HttpSender) (r : HttpRequest)
      → ((finish_http env s r).method ≡ r.method)
        × ((finish_http env s r).url ≡ r.url)
        × ((finish_http env s r).body ≡ r.body)
  unfolding finish_http
  authorize_keeps s r = elim (Bool-cases (s.auth_z_header == "")) [
    | inl e ↦ rw e (refl, refl, refl)
    | inr e ↦ rw e (refl, refl, refl)
  ]

  pub finish_http-SetsHeaders : (s : HttpSender) → SetsHeaders (finish_http env s)
  finish_http-SetsHeaders s = record {
    method_kept = λ r. (authorize_keeps s r).0;
    url_kept = λ r. (authorize_keeps s r).1;
    body_kept = λ r. (authorize_keeps s r).2;
  }

  pub finish_mattermost-SetsHeaders : SetsHeaders (finish_mattermost env)
  unfolding finish_mattermost
  finish_mattermost-SetsHeaders = record {
    method_kept = λ r. refl;
    url_kept = λ r. refl;
    body_kept = λ r. refl;
  }

  pub is_delivered_lem : (code : ℕ) → is_delivered env code ≡ is_http_success code
  is_delivered_lem code = elim (Bool-cases (eqb code 200)) [
    | inl a ↦ rw a refl
    | inr a ↦ elim (Bool-cases (eqb code 201)) [
      | inl b ↦ rw (a, b) refl
      | inr b ↦ elim (Bool-cases (eqb code 204)) [
        | inl c ↦ rw (a, b, c) refl
        | inr c ↦ elim (Bool-cases (eqb code 102)) [
          | inl d ↦ rw (a, b, c, d) refl
          | inr d ↦ rw (a, b, c, d) refl
        ]
      ]
    ]
  ]

  taken_status :
      (resp : HttpResponse)
      → http_outcome env (ok resp) ≡ none
      → is_delivered env resp.status_code ≡ true
  unfolding http_outcome
  taken_status resp p = ground arith

  pub http_outcome-only :
      (reply : Result String HttpResponse)
      → http_outcome env reply ≡ none
      → (resp : HttpResponse) × (reply ≡ ok resp) × (is_http_success resp.status_code ≡ true)
  unfolding http_outcome
  http_outcome-only (err e) p = cc
  http_outcome-only (ok resp) p =
      (resp, refl, sym (is_delivered_lem resp.status_code) ∙ taken_status resp p)

  pub mattermost_outcome-only :
      (reply : Result String HttpResponse)
      → mattermost_outcome env reply ≡ none
      → (resp : HttpResponse) × (reply ≡ ok resp) × (eqb resp.status_code 200 ≡ true)
  unfolding mattermost_outcome
  mattermost_outcome-only (err e) p = cc
  mattermost_outcome-only (ok resp) p = (resp, refl, ground arith)
