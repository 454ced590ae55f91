-- ===== src/Routes/Claims.antt =====
-- Claims about a request, its user, the answer, and the database before and after.
use tdiscuss.Base.{◌≡◌, refl, true, Option, none, some, arith}
use tdiscuss.Store.Tables.{Db}
use tdiscuss.Web.{User, Request, Response}
use tdiscuss.Access.{IsAdmin}
use tdiscuss.Middleware.{
  Exchange, RequestContext, World, Reply, answered, Handler, get_user, admin_flag, user_in,
  update_context,
}

abbrev pub Claim : Type 1
Claim = Request → Option User → Db → Reply → Db → Type 0

abbrev pub HasContext : Option RequestContext → Type 0
HasContext none = ⊥
HasContext (some rc) = Unit

module _ {L : Type 0} where
  -- The handler makes the claim true of every request that has a context.
  pub record Holds (Q : Claim) (h : Handler L) : Type 0 where
    pub at :
        (ex : Exchange) (w : World L)
        → HasContext ex.context
        → Q ex.request (get_user ex) w.db (h ex w).0 (h ex w).1.db

abbrev pub Answers : Claim → Type 0
Answers Q = (r : Request) (u : Option User) (a : Db) (p : Response) → Q r u a (answered p) a

pub modify-HasContext :
    (f : RequestContext → RequestContext) (c : Option RequestContext)
    → HasContext c
    → HasContext (update_context f c)
modify-HasContext f none h = h
modify-HasContext f (some rc) h = tt

pub modify-user :
    (f : RequestContext → RequestContext)
    → ((rc : RequestContext) → (f rc).user ≡ rc.user)
    → (c : Option RequestContext) → user_in (update_context f c) ≡ user_in c
modify-user f k none = refl
modify-user f k (some rc) = k rc

pub admin_IsAdmin : (u : Option User) → admin_flag u ≡ true → IsAdmin u
admin_IsAdmin none e = ground arith
admin_IsAdmin (some u) e = e

module _ {L : Type 0} {P Q : Claim} where
  pub Holds-weaken :
      (h : Handler L)
      → ((r : Request) (u : Option User) (a b : Db) (p : Reply) → P r u a p b → Q r u a p b)
      → Holds P h
      → Holds Q h
  Holds-weaken h k hh = record { at = λ ex w c. k ex.request (get_user ex) w.db _ _ (hh.at ex w c) }
