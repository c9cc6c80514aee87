-- ===== src/Ams/Growth.antt =====
-- pkg/ams/v1: histories that grow while several goroutines send requests.
use mathlib.Core.Path.{subst}
use ams_push_server.Base.{String, inl, inr, sym, ◌∷◌}
use ams_push_server.Environment.{History, HttpRequest}
use ams_push_server.Ams.Calls.{Tried}

-- Any requests may have gone out since, those of others among them.
pub data Extends (h : History) : History → Type 0 where
  same : Extends h h
  sent : {h' : History} (r : HttpRequest) → Extends h h' → Extends h (r ∷ h')

pub Extends-trans : {a b c : History} → Extends a b → Extends b c → Extends a c
Extends-trans p same = p
Extends-trans p (sent r q) = sent r (Extends-trans p q)

pub Tried-Extends : {method url : String} {h h' : History} → Tried method url h h' → Extends h h'
Tried-Extends {h = h} (inl e) = subst (Extends h) (sym e) same
Tried-Extends {h = h} (inr (r, e, c)) = subst (Extends h) (sym e) (sent r same)
