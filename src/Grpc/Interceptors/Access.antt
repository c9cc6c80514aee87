-- ===== src/Grpc/Interceptors/Access.antt =====
-- api/v1/grpc/interceptors.go: who is let through, and when.
use ams_push_server.Base.{
  String, ◌==◌, eq_iff, ◌≡◌, ◌≢◌, ◌⊎◌, inl, inr, refl, ap, ◌∙◌, sym, true, false, List, [], ◌∷◌,
  Option, none, some, Result, err, Go, returns, arith, Bool-cases, Elem,
}
use ams_push_server.Grpc.{PushService, GrpcError, unauthenticated}
use ams_push_server.Grpc.Interceptors.{
  Certificate, AuthInfo, tls_info, other_info, Peer, Context, Handler, in_acl, unauthorised,
  check_auth_info, auth_interceptor,
}

in_acl-Elem : (acl : List String) (name : String) → in_acl acl name ≡ true → Elem name acl
unfolding in_acl
in_acl-Elem [] name h = cc
in_acl-Elem (c ∷ cs) name h = elim (Bool-cases (c == name)) [
  | inl t ↦ inl ((eq_iff c name).0 t)
  | inr f ↦ inr (in_acl-Elem cs name (ground arith))
]

Elem-in_acl : (acl : List String) (name : String) → Elem name acl → in_acl acl name ≡ true
unfolding in_acl
Elem-in_acl [] name h = absurd h
Elem-in_acl (c ∷ cs) name (inl e) = rw ((eq_iff c name).1 e)
Elem-in_acl (c ∷ cs) name (inr h) = rw (Elem-in_acl cs name h) (ground arith)

-- The caller's connection is by tls, and the common name of its first certificate is in the list.
pub record IsAuthorised (acl : List String) (ctx : Context) : Type 0 where
  pub peer : Peer
  pub certificate : Certificate
  pub others : List Certificate
  pub context_is : ctx ≡ some (some peer)
  pub info_is : peer.auth_info ≡ some (tls_info (certificate ∷ others))
  pub listed : Elem certificate.common_name acl

-- Only a credentials.TLSInfo says that its type is tls.
abbrev pub IsHonest : Context → Type 0
IsHonest ctx =
    (p : Peer) (t : String) → ctx ≡ some (some p) → p.auth_info ≡ some (other_info t) → t ≢ "tls"

-- What the interceptor does with a call: it is handled, or refused with the service unchanged.
abbrev pub Decides :
    {A : Type 0}
    → List String
    → Context
    → Handler A
    → PushService
    → Go (Result GrpcError A × PushService)
    → Type 0
Decides acl ctx handler ps r =
    (IsAuthorised acl ctx × (r ≡ handler ps))
    ⊎ ((¬ IsAuthorised acl ctx)
        × (e : GrpcError) × (e.code ≡ unauthenticated)
        × (r ≡ returns (err e, ps)))

same_peer : {p q : Peer} → some (some p) ≡ some (some q) → p.auth_info ≡ q.auth_info
same_peer e =
    ap (λ o. elim o [ none ↦ none | some i ↦ elim i [ none ↦ none | some p ↦ p.auth_info ] ]) e

info_of :
    (acl : List String) (p : Peer)
    → IsAuthorised acl (some (some p))
    → (c : Certificate) × (cs : List Certificate) × (p.auth_info ≡ some (tls_info (c ∷ cs)))
      × Elem c.common_name acl
info_of acl p a = (a.certificate, a.others, same_peer a.context_is ∙ a.info_is, a.listed)

no_info : {i : AuthInfo} → none ≡ some i → ⊥
no_info e = cc

no_certificate :
    {c : Certificate} {cs : List Certificate} → some (tls_info []) ≡ some (tls_info (c ∷ cs)) → ⊥
no_certificate e = cc

other_kind : {t : String} {cs : List Certificate} → some (other_info t) ≡ some (tls_info cs) → ⊥
other_kind e = cc

first_certificate :
    {c d : Certificate} {cs ds : List Certificate}
    → some (tls_info (c ∷ cs)) ≡ some (tls_info (d ∷ ds))
    → c ≡ d
first_certificate e = cc

not_listed :
    (acl : List String) {c d : Certificate}
    → in_acl acl c.common_name ≡ false
    → in_acl acl d.common_name ≡ true
    → c ≡ d
    → ⊥
not_listed acl f t e = cc (ap (λ x. in_acl acl x.common_name) e)

module _ {A : Type 0} (acl : List String) (handler : Handler A) (ps : PushService) where
  refused :
      (ctx : Context)
      → ¬ IsAuthorised acl ctx
      → Decides acl ctx handler ps (unauthorised acl handler ps)
  unfolding unauthorised
  refused ctx n = inr (n, _, refl, refl)

  with_info :
      (p : Peer) (o : Option AuthInfo)
      → p.auth_info ≡ o
      → IsHonest (some (some p))
      → Decides acl (some (some p)) handler ps (check_auth_info acl handler o ps)
  unfolding check_auth_info
  with_info p none e honest =
      refused _ λ a. let (c, cs, i, _) = info_of acl p a in no_info (sym e ∙ i)
  with_info p (some (tls_info [])) e honest =
      refused _ λ a. let (c, cs, i, _) = info_of acl p a in no_certificate (sym e ∙ i)
  with_info p (some (tls_info (c ∷ cs))) e honest = elim (Bool-cases (in_acl acl c.common_name)) [
    | inl t ↦ inl (
      record {
        peer = p;
        certificate = c;
        others = cs;
        context_is = refl;
        info_is = e;
        listed = in_acl-Elem acl c.common_name t;
      },
      rw t refl,
    )
    | inr f ↦ rw f (
        refused _ λ a.
          let (d, ds, i, listed) = info_of acl p a in
          not_listed acl f (Elem-in_acl acl d.common_name listed) (first_certificate (sym e ∙ i)))
  ]
  with_info p (some (other_info t)) e honest = elim (Bool-cases (t == "tls")) [
    | inl same ↦ absurd (honest p t refl e ((eq_iff t "tls").0 same))
    | inr other ↦
        rw other (refused _ λ a. let (c, cs, i, _) = info_of acl p a in other_kind (sym e ∙ i))
  ]

  -- With tls enabled the interceptor hands on exactly the calls of an authorised caller: its
  -- connection is by tls and the common name of its first certificate is in the access control
  -- list. Any other call is answered with unauthenticated and changes nothing. No connection but
  -- one by tls says that its type is tls.
  pub auth_interceptor-Decides :
      (ctx : Context)
      → IsHonest ctx
      → Decides acl ctx handler ps (auth_interceptor acl handler true ctx ps)
  unfolding auth_interceptor
  auth_interceptor-Decides none honest = refused _ λ a. cc (a.context_is)
  auth_interceptor-Decides (some none) honest = refused _ λ a. cc (a.context_is)
  auth_interceptor-Decides (some (some p)) honest = with_info p p.auth_info refl honest
