-- ===== src/Grpc/Load/Retry.antt =====
-- api/v1/grpc/server.go: the search for the user of the push worker ends with the first answer.
use ams_push_server.Base.{ℕ, zero, suc, ◌<◌, String, ◌≡◌, ap, ◌∙◌, some, ok, err, arith}
use ams_push_server.Environment.{Environment, History}
use ams_push_server.Ams
use ams_push_server.Ams.{UserService}
use ams_push_server.Ams.Types.{UserInfo}
use ams_push_server.Grpc.{PushService}
use ams_push_server.Grpc.Load.{retrieve_user, user_missing, attempted}

-- The service of the messaging server fails `k` times in a row, and then answers with a user.
pub data AnswersAfter (env : Environment) (us : UserService) (token : String) (u : UserInfo)
    (h' : History) : ℕ → History → Type 0 where
  at_once :
      {h : History}
      → Ams.get_user_by_token env us token h ≡ (ok u, h')
      → AnswersAfter env us token u h' 0 h
  later :
      {k : ℕ} {h h1 : History} (e : String)
      → Ams.get_user_by_token env us token h ≡ (err e, h1)
      → AnswersAfter env us token u h' k h1
      → AnswersAfter env us token u h' (suc k) h

module _ (env : Environment) where
  -- Fuel for one attempt more than the failures is enough: the user is found, and of the service only
  -- its status has changed.
  pub retrieve_user-finds :
      (fuel k : ℕ) (ps : PushService) (u : UserInfo) (h h' : History)
      → k < fuel
      → AnswersAfter env ps.ams_client.user_service ps.cfg.ams_token u h' k h
      → (text : String) × (retrieve_user env fuel (ps, h)
          ≡ some (u, (record ps { status = text }, h')))
  unfolding retrieve_user user_missing
  retrieve_user-finds zero k ps u h h' lt a = elim lt [ ]
  retrieve_user-finds (suc fuel) k ps u h h' lt (at_once e) =
      (ps.status, ap (attempted (retrieve_user env fuel) ps) e)
  retrieve_user-finds (suc fuel) (suc k) ps u h h' lt (later {h1 = h1} t e more) =
      let (text, r) = retrieve_user-finds fuel k (user_missing ps) u h1 h' (omega arith) more in
      (text, ap (attempted (retrieve_user env fuel) ps) e ∙ r)
