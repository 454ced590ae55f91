-- ===== src/Routes/SignIn.antt =====
-- What the sign-in keeps.
use tdiscuss.Base.{◌≡◌, refl, Bool, true, false, Option, none, some}
use mathlib.Core.Path.{subst}
use tdiscuss.Text.{Text}
use tdiscuss.Store.Tables.{Db, Answer, row, no_rows, db_error}
use tdiscuss.Web.{User, Request, Response}
use tdiscuss.Handlers.Show.{not_found}
use tdiscuss.Middleware.Outside.{Outside}
use tdiscuss.Middleware.{
  Exchange, RequestContext, World, Reply, answered, Handler, get_user, modify_context, user_in,
  update_context,
}
use tdiscuss.Middleware.Auth.{
  set_user, get_user_email, create_or_get_user, auth_middleware, sign_in, look_up, admit_unless,
}
use tdiscuss.Routes.Claims.{Claim, Holds, HasContext, Answers, modify-HasContext}

set-user :
    (v : User) (c : Option RequestContext)
    → HasContext c
    → user_in (update_context (set_user v) c) ≡ some v
set-user v none h = elim h [ ]
set-user v (some rc) h = refl

-- The three ways through the sign-in: an answer before the database is asked, an answer after it,
-- and a member who is let in.
module _ {L : Type 0} (P Q : Claim) (out : Outside L) (stay : Answers Q)
    (turned : (r : Request) (u : Option User) (email : Text) (a : Db) (p : Response)
      → get_user_email out r ≡ some email
      → Q r u a (answered p) (create_or_get_user out.lower email a).1)
    (entered : (r : Request) (u : Option User) (email : Text) (a : Db) (v : User) (p : Reply)
        (b : Db)
      → get_user_email out r ≡ some email
      → (create_or_get_user out.lower email a).0 ≡ row v
      → v.is_blocked ≡ false
      → P r (some v) (create_or_get_user out.lower email a).1 p b
      → Q r u a p b)
    (next : Handler L) (hn : Holds P next) where
  abbrev after_sign_in : Text → World L → World L
  after_sign_in email w = record w { db = (create_or_get_user out.lower email w.db).1 }

  admit-keeps :
      (ex : Exchange) (w : World L) (email : Text) (v : User) (blocked : Bool)
      → HasContext ex.context
      → get_user_email out ex.request ≡ some email
      → (create_or_get_user out.lower email w.db).0 ≡ row v
      → v.is_blocked ≡ blocked
      → Q ex.request
          (get_user ex)
          w.db
          (admit_unless out blocked next ex v (after_sign_in email w)).0
          (admit_unless out blocked next ex v (after_sign_in email w)).1.db
  admit-keeps ex w email v true c ee er eb = turned ex.request (get_user ex) email w.db not_found ee
  admit-keeps ex w email v false c ee er eb =
      let ex' = modify_context (set_user v) ex in
      let w' = after_sign_in email w in
      let (p, w'') = next ex' w' in
      entered ex.request (get_user ex) email w.db v p w''.db ee er eb (
        subst (λ o. P ex.request o w'.db p w''.db) (set-user v ex.context c)
          (hn.at ex' w' (modify-HasContext (set_user v) ex.context c)))

  look-keeps :
      (ex : Exchange) (w : World L) (email : Text) (ans : Answer User)
      → HasContext ex.context
      → get_user_email out ex.request ≡ some email
      → (create_or_get_user out.lower email w.db).0 ≡ ans
      → Q ex.request
          (get_user ex)
          w.db
          (look_up out next ex ans (after_sign_in email w)).0
          (look_up out next ex ans (after_sign_in email w)).1.db
  look-keeps ex w email (row v) c ee er = admit-keeps ex w email v v.is_blocked c ee er refl
  look-keeps ex w email no_rows c ee er = turned ex.request (get_user ex) email w.db _ ee
  look-keeps ex w email db_error c ee er = turned ex.request (get_user ex) email w.db _ ee

  sign-keeps :
      (ex : Exchange) (w : World L) (o : Option Text)
      → HasContext ex.context
      → get_user_email out ex.request ≡ o
      → Q ex.request (get_user ex) w.db (sign_in out next ex o w).0 (sign_in out next ex o w).1.db
  sign-keeps ex w none c ee = stay ex.request (get_user ex) w.db _
  sign-keeps ex w (some email) c ee = look-keeps ex w email _ c ee refl

  pub Holds-auth : Holds Q (auth_middleware out next)
  unfolding auth_middleware
  Holds-auth = record { at = λ ex w c. sign-keeps ex w (get_user_email out ex.request) c refl }
